-- ===== src/Discovery/Classifier/Evidence.antt =====
-- Which evidence the classifier needs, and that more open ports never make it give up.
use infra_inventory.Prelude.{
  ℕ, ◌≡◌, refl, ap, ◌↔◌, inl, inr, Bool, true, none, List, [], ◌∷◌, String, arith, includes_text,
  starts_with, append, is_truthy, or_empty, ◌++◌, ◌∙◌, sym, subst, Bool-cases,
}
use infra_inventory.Discovery.Classifier.Signatures.{shows_nothing, Below, shows_nothing-below}
use infra_inventory.Prelude.Decimal.{join}
use infra_inventory.Discovery.Classifier.{
  to_lower_case, lower_char, port_banners, DeviceType, Port, ClassificationEvidence,
  ClassificationResult, has_port, Signs, signs_of, classify_signs, classify_device,
}

abbrev pub UnknownIff : Bool → ClassificationResult → Type 0
UnknownIff b r =
    ((r.device_type ≡ DeviceType.unknown) ↔ (b ≡ true)) × ((r.os_guess ≡ none) ↔ (b ≡ true))

classify_signs-UnknownIff : (s : Signs) → UnknownIff (shows_nothing s) (classify_signs s)
unfolding shows_nothing classify_signs
classify_signs-UnknownIff s = ground arith

-- The classifier's answer, on what the tests look at: unknown, and without a guess of the operating
-- system, exactly when no signature is there.
pub classify_device-Unknown :
    (e : ClassificationEvidence)
    → let r = classify_device e in
      ((r.device_type ≡ DeviceType.unknown) ↔ (shows_nothing (signs_of e) ≡ true))
      × ((r.os_guess ≡ none) ↔ (shows_nothing (signs_of e) ≡ true))
unfolding classify_device
classify_device-Unknown e = classify_signs-UnknownIff (signs_of e)

starts_with-append : (s t x : String) → starts_with s x ≡ true → starts_with (append s t) x ≡ true
unfolding starts_with append
starts_with-append String.[] String.[] String.[] h = refl
starts_with-append String.[] (String.◌∷◌ d t) String.[] h = refl
starts_with-append (String.◌∷◌ c s) t String.[] h = refl
starts_with-append String.[] t (String.◌∷◌ d x) h = absurd cc
starts_with-append (String.◌∷◌ c s) t (String.◌∷◌ d x) h = ground (arith, starts_with-append s t x)

-- A text that is found is still found when text is added after it.
includes_text-append :
    (s t x : String) → includes_text s x ≡ true → includes_text (append s t) x ≡ true
unfolding includes_text append starts_with
includes_text-append String.[] String.[] x h = h
includes_text-append String.[] (String.◌∷◌ c t) String.[] h = refl
includes_text-append String.[] (String.◌∷◌ c t) (String.◌∷◌ d x) h = absurd cc
includes_text-append (String.◌∷◌ c s) t x h =
    ground (arith, starts_with-append (String.◌∷◌ c s) t x, includes_text-append s t x)

append_assoc : (r s t : String) → append (append r s) t ≡ append r (append s t)
unfolding append
append_assoc String.[] s t = refl
append_assoc (String.◌∷◌ c r) s t = ap (λ x. String.◌∷◌ c x) (append_assoc r s t)

append_empty : (s : String) → append s "" ≡ s
unfolding append
append_empty String.[] = refl
append_empty (String.◌∷◌ c s) = ap (λ x. String.◌∷◌ c x) (append_empty s)

to_lower_case-append :
    (s t : String) → to_lower_case (append s t) ≡ append (to_lower_case s) (to_lower_case t)
unfolding to_lower_case append
to_lower_case-append String.[] t = refl
to_lower_case-append (String.◌∷◌ c s) t =
    ap (λ x. String.◌∷◌ (lower_char c) x) (to_lower_case-append s t)

join-append :
    (sep : String) (xs ys : List String)
    → (r : String) × (join sep (xs ++ ys) ≡ append (join sep xs) r)
unfolding join append
join-append sep [] ys = (join sep ys, refl)
join-append sep (x ∷ []) [] = ("", sym (append_empty x))
join-append sep (x ∷ []) (y ∷ ys) = (append sep (join sep (y ∷ ys)), refl)
join-append sep (x ∷ x' ∷ xs) ys =
    let (r, e) = join-append sep (x' ∷ xs) ys in
    (
      r,
      ap (λ z. append x (append sep z)) e
          ∙ ap (append x) (sym (append_assoc sep (join sep (x' ∷ xs)) r))
          ∙ sym (append_assoc x (append sep (join sep (x' ∷ xs))) r),
    )

has_port-append : (xs ys : List Port) (n : ℕ) → has_port xs n ≡ true → has_port (xs ++ ys) n ≡ true
unfolding has_port
has_port-append [] ys n h = absurd cc
has_port-append (x ∷ xs) ys n h = ground (arith, has_port-append xs ys n)

port_banners-append :
    (xs ys : List Port) → port_banners (xs ++ ys) ≡ port_banners xs ++ port_banners ys
unfolding port_banners
port_banners-append [] ys = refl
port_banners-append (x ∷ xs) ys = elim (Bool-cases (is_truthy x.banner)) [
  | inl e ↦ rw e (ap (λ z. or_empty x.banner ∷ z) (port_banners-append xs ys))
  | inr e ↦ rw e (port_banners-append xs ys)
]

++_assoc : (xs ys zs : List String) → xs ++ (ys ++ zs) ≡ (xs ++ ys) ++ zs
++_assoc [] ys zs = refl
++_assoc (x ∷ xs) ys zs = ap (λ z. x ∷ z) (++_assoc xs ys zs)

-- The evidence with more ports.
abbrev pub with_ports : ClassificationEvidence → List Port → ClassificationEvidence
with_ports e extra = record e { ports = e.ports ++ extra }

banner_text : ClassificationEvidence → String
banner_text e = join " " (e.banners ++ port_banners e.ports)

banner_text-with_ports :
    (e : ClassificationEvidence) (extra : List Port)
    → (r : String) × (banner_text (with_ports e extra) ≡ append (banner_text e) r)
unfolding banner_text
banner_text-with_ports e extra =
    let (r, j) = join-append " " (e.banners ++ port_banners e.ports) (port_banners extra) in
    (
      r,
      ap (λ z. join " " (e.banners ++ z)) (port_banners-append e.ports extra)
          ∙ ap (join " ") (++_assoc e.banners (port_banners e.ports) (port_banners extra))
          ∙ j,
    )

signs_of-Below :
    (e : ClassificationEvidence) (extra : List Port)
    → Below (signs_of e) (signs_of (with_ports e extra))
unfolding signs_of banner_text
signs_of-Below e extra =
    let (r, j) = banner_text-with_ports e extra in
    record {
      port = λ n. has_port-append e.ports extra n;
      banner = λ text h.
          subst (λ z. includes_text z text ≡ true)
            (sym (ap to_lower_case j ∙ to_lower_case-append (banner_text e) r))
            (includes_text-append (to_lower_case (banner_text e)) (to_lower_case r) text h);
      vendor = refl;
      hostname = refl;
      sys_descr = refl;
    }

-- More open ports, with banners or not, found after the others, never make a device unknown that was
-- known before.
pub classify_device_more_ports :
    (e : ClassificationEvidence) (extra : List Port)
    → (classify_device (with_ports e extra)).device_type ≡ DeviceType.unknown
    → (classify_device e).device_type ≡ DeviceType.unknown
classify_device_more_ports e extra h = (classify_device-Unknown e).0.1 (
    shows_nothing-below (signs_of e) (signs_of (with_ports e extra)) (signs_of-Below e extra)
      ((classify_device-Unknown (with_ports e extra)).0.0 h))
