-- ===== src/Store/InMemory.antt =====
-- A list of rows as a table that is queried: it meets the laws.
use infra_inventory.Prelude.{
  ◌+◌, ◌≡◌, refl, inl, inr, Bool, true, false, not, Option, none, some, List, [], ◌∷◌, map, String,
  arith, ◌==◌, if◌then◌else◌,
}
use infra_inventory.Store.Queries.{
  Queries, bit, countp, both, Found, rewrite, has_key, other_than, replace,
}

module _ {Row : Type 0} where
  unfoldable pub search : (Row → Bool) → List Row → Option Row
  search p [] = none
  search p (x ∷ xs) = if p x then some x else search p xs

  pub search-Found : (p : Row → Bool) (rs : List Row) → Found p rs (search p rs)
  unfolding countp search
  search-Found p [] = refl
  search-Found p (x ∷ xs) = found_cons (p x) refl (search p xs) (search-Found p xs)
    where
      found_cons :
          (b : Bool)
          → p x ≡ b
          → (o : Option Row) → Found p xs o
          → Found p (x ∷ xs) (if b then some x else o)
      found_cons true e o f = (inl refl, e)
      found_cons false e none f = ground (arith, f)
      found_cons false e (some r) f = (inr f.0, f.1)

  unfoldable pub others : (Row → Bool) → List Row → List Row
  others p [] = []
  others p (x ∷ xs) = let rest = others p xs in if p x then rest else x ∷ rest

  pub countp-others :
      (p q : Row → Bool) (rs : List Row)
      → countp q (others p rs) ≡ countp (both q (λ r. not (p r))) rs
  unfolding countp others
  countp-others p q [] = refl
  countp-others p q (x ∷ xs) = ground (arith, countp-others p q xs)

  unfoldable pub added : (key : Row → String) → Row → List Row → Option (List Row)
  added key r t = if countp (has_key key (key r)) t == 0 then some (r ∷ t) else none

  pub added_unique :
      (key : Row → String) (r : Row) (t t' : List Row)
      → added key r t ≡ some t'
      → countp (has_key key (key r)) t ≡ 0
  unfolding added
  added_unique key r t t' e = ground arith

  pub added-rows :
      (key : Row → String) (r : Row) (t t' : List Row)
      → added key r t ≡ some t'
      → (p : Row → Bool) → countp p t' ≡ bit (p r) + countp p t
  unfolding added countp
  added-rows key r t t' e p = ground arith

  pub replaced-rows :
      (key : Row → String) (r : Row) (t t' : List Row)
      → some (map (replace key r) t) ≡ some t'
      → (p : Row → Bool) → countp p t' ≡ countp p (map (replace key r) t)
  replaced-rows key r t t' e p = ground (arith, e)

  pub removed-rows :
      (key : Row → String) (id : String) (t t' : List Row)
      → some (others (has_key key id) t) ≡ some t'
      → (p : Row → Bool) → countp p t' ≡ countp (both p (other_than key id)) t
  removed-rows key id t t' e p = ground (arith, e, countp-others (has_key key id) p t)

  pub rewritten-rows :
      (where_ : Row → Bool) (f : Row → Row) (t t' : List Row)
      → some (map (rewrite where_ f) t) ≡ some t'
      → (p : Row → Bool) → countp p t' ≡ countp p (map (rewrite where_ f) t)
  rewritten-rows where_ f t t' e p = ground (arith, e)

-- A table that meets the laws.
abbrev pub list_queries : (Row : Type 0) (key : Row → String) → Queries Row key
list_queries Row key = record {
  Rows = List Row;
  rows = λ t. t;
  find_first = search;
  count = countp;
  create = added key;
  update = λ r t. some (map (replace key r) t);
  remove = λ id t. some (others (has_key key id) t);
  find_first-Found = search-Found;
  count_lem = λ p t. refl;
  create-unique = added_unique key;
  create-rows = added-rows key;
  update-rows = replaced-rows key;
  remove-rows = removed-rows key;
  update_many = λ where_ f t. some (map (rewrite where_ f) t);
  update_many-rows = rewritten-rows;
}
