-- ===== src/Ipam/Conflicts/Rows.antt =====
-- The records of one address, and when two machines clash on it.
use infra_inventory.Prelude.{
  ◌≡◌, ◌∙◌, refl, sym, ap, inl, inr, Bool, true, false, List, [], ◌∷◌, String, eq_iff, str_eq,
  if◌then◌else◌, is_truthy, or_empty, Bool-cases, length, ltb→lt, lt→ltb,
}
use infra_inventory.Store.Queries.{IsRow}
use infra_inventory.Ipam.{IpAddress}
use infra_inventory.Ipam.Conflicts.Distinct.{distinct-Differ, Differ-distinct}
use infra_inventory.Ipam.Conflicts.{machine_ids, distinct, is_conflict}

-- Two listed addresses of different machines that are the same.
abbrev pub Clash : List IpAddress → String → Type 0
Clash ips ip =
    (a : IpAddress) × (b : IpAddress) × IsRow a ips
    × IsRow b ips
    × (a.address ≡ ip)
    × (b.address ≡ ip)
    × (is_truthy a.machine_id ≡ true)
    × (is_truthy b.machine_id ≡ true)
    × (str_eq (or_empty a.machine_id) (or_empty b.machine_id) ≡ false)

unfoldable pub rows_at : String → List IpAddress → List IpAddress
rows_at ip [] = []
rows_at ip (a ∷ rest) = if str_eq a.address ip then a ∷ rows_at ip rest else rows_at ip rest

rows_at-row :
    (ip : String) (a : IpAddress) (ips : List IpAddress)
    → IsRow a (rows_at ip ips)
    → IsRow a ips × (a.address ≡ ip)
unfolding rows_at
rows_at-row ip a [] row = absurd row
rows_at-row ip a (x ∷ xs) row = by_test (str_eq x.address ip) refl row (rows_at-row ip a xs)
  where
    by_test :
        (b : Bool)
        → str_eq x.address ip ≡ b
        → IsRow a (if b then x ∷ rows_at ip xs else rows_at ip xs)
        → (IsRow a (rows_at ip xs) → IsRow a xs × (a.address ≡ ip))
        → IsRow a (x ∷ xs) × (a.address ≡ ip)
    by_test true e (inl h) rest = (inl h, sym (ap (λ y. y.address) h) ∙ (eq_iff x.address ip).0 e)
    by_test true e (inr row') rest = (inr (rest row').0, (rest row').1)
    by_test false e row' rest = (inr (rest row').0, (rest row').1)

row-rows_at :
    (ip : String) (a : IpAddress) (ips : List IpAddress)
    → IsRow a ips
    → a.address ≡ ip
    → IsRow a (rows_at ip ips)
unfolding rows_at
row-rows_at ip a [] row e = absurd row
row-rows_at ip a (x ∷ xs) (inl h) e =
    rw ((eq_iff x.address ip).1 (ap (λ y. y.address) h ∙ e)) (inl h)
row-rows_at ip a (x ∷ xs) (inr row) e = elim (Bool-cases (str_eq x.address ip)) [
  | inl same ↦ rw same (inr (row-rows_at ip a xs row e))
  | inr differs ↦ rw differs (row-rows_at ip a xs row e)
]

machine_ids-row :
    (k : String) (xs : List IpAddress)
    → IsRow k (machine_ids xs)
    → (a : IpAddress) × IsRow a xs × (is_truthy a.machine_id ≡ true) × (or_empty a.machine_id ≡ k)
unfolding machine_ids
machine_ids-row k [] row = absurd row
machine_ids-row k (x ∷ xs) row = by_test (is_truthy x.machine_id) refl row (machine_ids-row k xs)
  where
    Owner : List IpAddress → Type 0
    Owner ys =
        (a : IpAddress) × IsRow a ys × (is_truthy a.machine_id ≡ true) × (or_empty a.machine_id ≡ k)

    later : Owner xs → Owner (x ∷ xs)
    later (a, r, t, e) = (a, inr r, t, e)

    by_test :
        (b : Bool)
        → is_truthy x.machine_id ≡ b
        → IsRow k (if b then or_empty x.machine_id ∷ machine_ids xs else machine_ids xs)
        → (IsRow k (machine_ids xs) → Owner xs)
        → Owner (x ∷ xs)
    by_test true e (inl h) rest = (x, inl refl, e, h)
    by_test true e (inr row') rest = later (rest row')
    by_test false e row' rest = later (rest row')

row-machine_ids :
    (a : IpAddress) (xs : List IpAddress)
    → IsRow a xs
    → is_truthy a.machine_id ≡ true
    → IsRow (or_empty a.machine_id) (machine_ids xs)
unfolding machine_ids
row-machine_ids a [] row h = absurd row
row-machine_ids a (x ∷ xs) (inl e) h =
    rw (ap (λ y. is_truthy y.machine_id) e ∙ h) (inl (ap (λ y. or_empty y.machine_id) e))
row-machine_ids a (x ∷ xs) (inr row) h = elim (Bool-cases (is_truthy x.machine_id)) [
  | inl e ↦ rw e (inr (row-machine_ids a xs row h))
  | inr e ↦ rw e (row-machine_ids a xs row h)
]

pub is_conflict-Clash :
    (ip : String) (ips : List IpAddress) → is_conflict (rows_at ip ips) ≡ true → Clash ips ip
is_conflict-Clash ip ips h =
    let (p, q, hp, hq, differ) = distinct-Differ (machine_ids (rows_at ip ips)) (ltb→lt 1 _ h) in
    let (a, ra, ta, ea) = machine_ids-row p (rows_at ip ips) hp in
    let (b, rb, tb, eb) = machine_ids-row q (rows_at ip ips) hq in
    let (la, aa) = rows_at-row ip a ips ra in
    let (lb, ab) = rows_at-row ip b ips rb in
    (
      a,
      b,
      la,
      lb,
      aa,
      ab,
      ta,
      tb,
      ap (λ k. str_eq k (or_empty b.machine_id)) ea ∙ ap (λ k. str_eq p k) eb ∙ differ,
    )

pub Clash-is_conflict :
    (ip : String) (ips : List IpAddress) → Clash ips ip → is_conflict (rows_at ip ips) ≡ true
Clash-is_conflict ip ips (a, b, la, lb, aa, ab, ta, tb, differ) =
    lt→ltb 1 (length (distinct (machine_ids (rows_at ip ips)))) (
      Differ-distinct (machine_ids (rows_at ip ips)) (
        or_empty a.machine_id,
        or_empty b.machine_id,
        row-machine_ids a (rows_at ip ips) (row-rows_at ip a ips la aa) ta,
        row-machine_ids b (rows_at ip ips) (row-rows_at ip b ips lb ab) tb,
        differ,
      ))
