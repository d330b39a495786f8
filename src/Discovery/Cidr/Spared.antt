-- ===== src/Discovery/Cidr/Spared.antt =====
-- The addresses that the entries of the list of exclusions leave out, and those that a scan visits.
use infra_inventory.Prelude.{
  ℕ, ◌+◌, ◌≤◌, ◌<◌, ◌≡◌, ◌≢◌, true, false, some, List, [], ◌∷◌, String, includes_text,
}
use infra_inventory.Prelude.Decimal.{parse_int, split, trim}
use infra_inventory.Discovery.Cidr.{ip_to_long, mask_value}
use infra_inventory.Discovery.Cidr.Members.{IsHost}

-- What an entry of the exclusions forbids: an address on its own; the addresses between two ends that
-- are at most 256 apart; the hosts of a range with a mask between 22 and 32.
abbrev pub Spares : String → String → Type 0
Spares item ip =
    let text : String = trim item in
    (text ≢ "" → includes_text text "-" ≡ false → includes_text text "/" ≡ false → text ≢ ip)
    × ((first last : String) (rest : List String)
        → includes_text text "-" ≡ true
        → split 45 text ≡ first ∷ last ∷ rest
        → trim first ≢ ""
        → trim last ≢ ""
        → ip_to_long (trim last) ≤ ip_to_long (trim first) + 256
        → ip_to_long (trim first) ≤ ip_to_long ip
        → ip_to_long (trim last) < ip_to_long ip)
    × ((base bits : String) (mask : ℕ)
        → text ≢ ""
        → includes_text text "-" ≡ false
        → includes_text text "/" ≡ true
        → split 47 (trim text) ≡ base ∷ bits ∷ []
        → mask_value 16 (parse_int bits) ≡ some mask
        → 22 ≤ mask
        → ¬ IsHost base mask (ip_to_long ip))
