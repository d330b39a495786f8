-- ===== src/Networks/Blocks.antt =====
-- Histories of calls of the networks, and the blocks of addresses that the rows name.
use infra_inventory.Prelude.{
  ℕ, ◌+◌, ◌-◌, ◌^◌, ◌<◌, ◌≡◌, ◌∙◌, refl, sym, ap, inl, inr, Bool, true, false, not, Option, none,
  some, List, [], ◌∷◌, String, arith, if◌then◌else◌, ◌==◌, ==_iff, below, below-at, Bool-cases,
  is_truthy, or_empty,
}
use infra_inventory.Validators.{is_valid_cidr}
use infra_inventory.Ipv4.Address.{ip_to_int}
use infra_inventory.Ipv4.Subnet.{Subnet, Result, ok, err, calculate_ipv4_subnet}
use infra_inventory.Ipv4.Subnet.Membership.{calculate_ipv4_subnet-ok}
use infra_inventory.Store.Queries.{Queries, find}
use infra_inventory.Store.Writes.{found-IsRow}
use infra_inventory.Store.Always.{Holds, Holds-row, Holds-create, Holds-update, Holds-remove}
use infra_inventory.Networks.{
  Network, CreateInput, UpdateInput, Answer, fails, invalid_cidr, network_id, new_network, updated,
  moved, stored, create_with, create_network, write, update_with, update_network, delete_found,
  delete_network,
}

pub data Call : Type 0 where
  creates : String → CreateInput → Call
  updates : String → UpdateInput → Call
  deletes : String → Call

-- The addresses from the first to the last are 2 ^ k, for some k up to 32.
unfoldable pub is_span : ℕ → ℕ → Bool
is_span first last = not (below 33 (λ k. not (first + 2 ^ k == last + 1)))

abbrev pub is_block : Network → Bool
is_block n = is_span (ip_to_int n.network_address) (ip_to_int n.broadcast_address)

is_span-at : (first last k : ℕ) → k < 33 → first + 2 ^ k ≡ last + 1 → is_span first last ≡ true
unfolding is_span
is_span-at first last k lt e = elim (Bool-cases (below 33 (λ j. not (first + 2 ^ j == last + 1)))) [
  | inl all ↦ absurd (none_fits (below-at 33 (λ j. not (first + 2 ^ j == last + 1)) k all lt))
  | inr found ↦ ap not found
]
  where
    none_fits : not (first + 2 ^ k == last + 1) ≡ true → ⊥
    none_fits h = ground (arith, ==_iff (first + 2 ^ k) (last + 1))

calculate_ipv4_subnet-is_span :
    (cidr : String) (s : Subnet)
    → calculate_ipv4_subnet cidr ≡ ok s
    → is_span (ip_to_int s.network_address) (ip_to_int s.broadcast_address) ≡ true
calculate_ipv4_subnet-is_span cidr s e =
    let (short, total, _, _, block, _, _, _) = calculate_ipv4_subnet-ok cidr s e in
    is_span-at (ip_to_int s.network_address) (ip_to_int s.broadcast_address) (32 - s.prefix)
      (omega arith) (ap (λ n. ip_to_int s.network_address + n) (sym total) ∙ block)

module _ (db : Queries Network network_id) where
  unfoldable pub step : Call → db.Rows → db.Rows
  step (creates id input) t = (create_network db id input t).1
  step (updates id input) t = (update_network db id input t).1
  step (deletes id) t = (delete_network db id t).1

  unfoldable pub run : List Call → db.Rows → db.Rows
  run [] t = t
  run (c ∷ cs) t = run cs (step c t)

  abbrev AreBlocks : db.Rows → Type 0
  AreBlocks t = Holds is_block (db.rows t)

  stored-AreBlocks :
      (o : Option db.Rows) (n : Network) (t : db.Rows)
      → ((t' : db.Rows) → o ≡ some t' → AreBlocks t')
      → AreBlocks t
      → AreBlocks (stored db o n t).1
  unfolding stored
  stored-AreBlocks none n t keep h = h
  stored-AreBlocks (some t') n t keep h = keep t' refl

  if-AreBlocks :
      (b : Bool) (r : Answer) (t : db.Rows) (p : Answer × db.Rows)
      → AreBlocks p.1
      → AreBlocks t
      → AreBlocks (if b then (r, t) else p).1
  if-AreBlocks true r t p keep h = h
  if-AreBlocks false r t p keep h = keep

  create_with-AreBlocks :
      (id : String) (input : CreateInput) (o : Result) (t : db.Rows)
      → calculate_ipv4_subnet input.cidr ≡ o
      → AreBlocks t
      → AreBlocks (create_with db id input o t).1
  unfolding create_with new_network
  create_with-AreBlocks id input (err x) t e h = h
  create_with-AreBlocks id input (ok calc) t e h =
      stored-AreBlocks (db.create (new_network id input calc) t) (new_network id input calc) t
        (λ t' k.
          Holds-create db is_block (new_network id input calc) t t' k
            (calculate_ipv4_subnet-is_span input.cidr calc e) h)
        h

  write-AreBlocks :
      (f : Network → Network) (o : Option Network) (t : db.Rows)
      → ((n : Network) → o ≡ some n → is_block (f n) ≡ true)
      → AreBlocks t
      → AreBlocks (write db f o t).1
  unfolding write
  write-AreBlocks f none t good h = h
  write-AreBlocks f (some n) t good h =
      stored-AreBlocks (db.update (f n) t) (f n) t
        (λ t' k. Holds-update db is_block (f n) t t' k (good n refl) h) h

  update_with-AreBlocks :
      (id : String) (input : UpdateInput) (o : Result) (t : db.Rows)
      → calculate_ipv4_subnet (or_empty input.cidr) ≡ o
      → AreBlocks t
      → AreBlocks (update_with db id input o t).1
  unfolding update_with moved
  update_with-AreBlocks id input (err x) t e h = h
  update_with-AreBlocks id input (ok calc) t e h =
      write-AreBlocks (λ n. moved calc (updated input n)) (find db id t) t
        (λ n k. calculate_ipv4_subnet-is_span (or_empty input.cidr) calc e) h

  step-AreBlocks : (c : Call) (t : db.Rows) → AreBlocks t → AreBlocks (step c t)
  unfolding step create_network update_network delete_network delete_found updated
  step-AreBlocks (creates id input) t h =
      if-AreBlocks (not (is_valid_cidr input.cidr)) _ t _
        (create_with-AreBlocks id input (calculate_ipv4_subnet input.cidr) t refl h) h
  step-AreBlocks (updates id input) t h = by_cidr (is_truthy input.cidr)
    where
      by_cidr :
          (b : Bool)
          → AreBlocks
              (if b
                then (if not (is_valid_cidr (or_empty input.cidr))
                    then (fails invalid_cidr, t)
                    else update_with db id input (calculate_ipv4_subnet (or_empty input.cidr)) t)
                else write db (updated input) (find db id t) t).1
      by_cidr true =
          if-AreBlocks (not (is_valid_cidr (or_empty input.cidr))) _ t _
            (update_with-AreBlocks id input (calculate_ipv4_subnet (or_empty input.cidr)) t refl h)
            h
      by_cidr false =
          write-AreBlocks (updated input) (find db id t) t
            (λ n k. Holds-row is_block n (db.rows t) h (found-IsRow db _ t n k).0) h
  step-AreBlocks (deletes id) t h = by_row (find db id t)
    where
      by_row : (o : Option Network) → AreBlocks (delete_found db id o t).1
      by_row none = h
      by_row (some n) =
          stored-AreBlocks (db.remove id t) n t (λ t' k. Holds-remove db is_block id t t' k h) h

  -- Through any history of creations, updates and deletions of networks that starts from such rows,
  -- every row names a network and a broadcast address that are the ends of a block of 2 ^ k
  -- addresses, k at most 32.
  pub run-is_block :
      (cs : List Call) (t : db.Rows)
      → Holds is_block (db.rows t)
      → Holds is_block (db.rows (run cs t))
  unfolding run
  run-is_block [] t h = h
  run-is_block (c ∷ cs) t h = run-is_block cs (step c t) (step-AreBlocks c t h)
