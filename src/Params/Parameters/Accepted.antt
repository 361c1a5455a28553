-- ===== src/Params/Parameters/Accepted.antt =====
-- What the parameter values are that the resolution accepts.
use fusion_wizard.Prelude.{
  ℕ, ◌+◌, ◌≡◌, refl, sym, subst, inl, inr, Bool, true, false, ◌&&◌, Option, none, some, List, [],
  ◌∷◌, Text, Assoc, contains, text_eq, is_empty, All, Bool-cases, arith,
}
use fusion_wizard.Action.{Result, Result-cases, ok, err, ok-injective, ok-ne-err}
use fusion_wizard.Api.Definition.{ParameterType, WizardParameter}
use fusion_wizard.Params.Values.{
  Value, text_value, number_value, bool_value, list_value, objects_value, Codec,
}
use fusion_wizard.Params.Parameters.{
  Pattern, matches, match_text, match_list, key_field, check_objects, checked, decode_number,
  decode_bool, decode_list, decode_objects, decode_text, decode_type, with_pattern, decode,
}

-- Every object has a key that matches the pattern, and no two have the same one.
abbrev pub Keyed : Pattern → List (Assoc Text) → Type 0
Keyed p [] = Unit
Keyed p (o ∷ os) =
    (is_empty (key_field o) ≡ false)
    × (matches p (key_field o) ≡ true)
    × All (λ x. text_eq (key_field o) (key_field x) ≡ false) os
    × Keyed p os

-- A value of the type whose texts match the pattern, and which is not empty if it is required.
abbrev pub IsValue : Bool → Pattern → ParameterType → Value → Type 0
IsValue r p ParameterType.number (number_value n) = Unit
IsValue r p ParameterType.boolean (bool_value b) = Unit
IsValue r p ParameterType.string_list (list_value l) =
    (r ≡ true → is_empty l ≡ false) × All (λ s. matches p s ≡ true) l
IsValue r p ParameterType.object_list (objects_value l) =
    (r ≡ true → is_empty l ≡ false) × Keyed p l
IsValue r p ParameterType.string (text_value s) =
    (r ≡ true → is_empty s ≡ false) × (matches p s ≡ true)
IsValue r p (ParameterType.other_type t) (text_value s) =
    (r ≡ true → is_empty s ≡ false) × (matches p s ≡ true)
IsValue r p _ _ = ⊥

match_text_ok :
    (p : Pattern) (source s : Text) (u : Unit {0})
    → match_text p source s ≡ ok u
    → matches p s ≡ true
unfolding match_text
match_text_ok p source s u h = ground arith

match_list_ok :
    (p : Pattern) (source : Text) (l : List Text) (u : Unit {0})
    → match_list p source l ≡ ok u
    → All (λ s. matches p s ≡ true) l
unfolding match_list
match_list_ok p source [] u h = tt
match_list_ok p source (s ∷ ss) u h = elim (Result-cases (match_text p source s)) [
  | inl (v, e) ↦
      (match_text_ok p source s v e, match_list_ok p source ss u (rw (e, match_list) at h))
  | inr (x, e) ↦ absurd (ok-ne-err (sym (rw (e, match_list) at h)))
]

contains-cons :
    (k j : Text) (seen : List Text)
    → contains (k ∷ seen) j ≡ false
    → (text_eq k j ≡ false) × (contains seen j ≡ false)
unfolding contains
contains-cons k j seen h = ground arith

All-unseen :
    (k : Text) (seen : List Text) (os : List (Assoc Text))
    → All (λ o. contains (k ∷ seen) (key_field o) ≡ false) os
    → All (λ o. text_eq k (key_field o) ≡ false) os
      × All (λ o. contains seen (key_field o) ≡ false) os
All-unseen k seen [] h = (tt, tt)
All-unseen k seen (o ∷ os) (h, hs) =
    let (ne, new) = contains-cons k (key_field o) seen h in
    let (nes, news) = All-unseen k seen os hs in ((ne, nes), (new, news))

check_objects_ok :
    (p : Pattern) (source : Text) (seen : List Text) (i : ℕ) (os : List (Assoc Text)) (u : Unit {0})
    → check_objects p source seen i os ≡ ok u
    → Keyed p os × All (λ o. contains seen (key_field o) ≡ false) os
unfolding check_objects
check_objects_ok p source seen i [] u h = (tt, tt)
check_objects_ok p source seen i (o ∷ os) u h = elim (Bool-cases (is_empty (key_field o))) [
  | inl e ↦ absurd (ok-ne-err (sym (rw (e, check_objects) at h)))
  | inr e ↦ elim (Bool-cases (contains seen (key_field o))) [
    | inl c ↦ absurd (ok-ne-err (sym (rw (e, c, check_objects) at h)))
    | inr c ↦ elim (Result-cases (match_text p source (key_field o))) [
      | inr (x, m) ↦ absurd (ok-ne-err (sym (rw (e, c, m, check_objects) at h)))
      | inl (v, m) ↦
          let (keyed, unseen) =
            check_objects_ok p source (key_field o ∷ seen) (i + 1) os u
              (rw (e, c, m, check_objects) at h) in
          let (nes, news) = All-unseen (key_field o) seen os unseen in
          ((e, match_text_ok p source (key_field o) v m, nes, keyed), (c, news))
    ]
  ]
]

-- The value that passed its check, and the check.
checked_ok : (c : Result (Unit {0})) (w v : Value) → checked c w ≡ ok v → (c ≡ ok tt) × (w ≡ v)
checked_ok (ok u) w v h = (refl, ok-injective h)
checked_ok (err x) w v h = absurd (ok-ne-err (sym h))

required_lem : (r b : Bool) → (r && b) ≡ false → r ≡ true → b ≡ false
required_lem r b h k = ground arith

decode_list-IsValue :
    (d : WizardParameter) (p : Pattern) (o : Option (List Text)) (v : Value)
    → decode_list d p o ≡ ok v
    → IsValue d.required p ParameterType.string_list v
unfolding decode_list
decode_list-IsValue d p none v h = absurd (ok-ne-err (sym h))
decode_list-IsValue d p (some l) v h = elim (Bool-cases (d.required && is_empty l)) [
  | inl e ↦ absurd (ok-ne-err (sym (rw (e, decode_list) at h)))
  | inr e ↦
      let (c, same) =
        checked_ok (match_list p d.pattern l) (list_value l) v (rw (e, decode_list) at h) in
      subst (IsValue d.required p ParameterType.string_list) same
        (required_lem d.required (is_empty l) e, match_list_ok p d.pattern l tt c)
]

decode_objects-IsValue :
    (d : WizardParameter) (p : Pattern) (o : Option (List (Assoc Text))) (v : Value)
    → decode_objects d p o ≡ ok v
    → IsValue d.required p ParameterType.object_list v
unfolding decode_objects
decode_objects-IsValue d p none v h = absurd (ok-ne-err (sym h))
decode_objects-IsValue d p (some l) v h = elim (Bool-cases (d.required && is_empty l)) [
  | inl e ↦ absurd (ok-ne-err (sym (rw (e, decode_objects) at h)))
  | inr e ↦
      let (c, same) =
        checked_ok (check_objects p d.pattern [] 0 l) (objects_value l) v
          (rw (e, decode_objects) at h) in
      subst (IsValue d.required p ParameterType.object_list) same
        (required_lem d.required (is_empty l) e, (check_objects_ok p d.pattern [] 0 l tt c).0)
]

decode_text_ok :
    (d : WizardParameter) (p : Pattern) (o : Option Text) (v : Value)
    → decode_text d p o ≡ ok v
    → (s : Text) × (text_value s ≡ v)
      × (d.required ≡ true → is_empty s ≡ false)
      × (matches p s ≡ true)
unfolding decode_text
decode_text_ok d p none v h = absurd (ok-ne-err (sym h))
decode_text_ok d p (some s) v h = elim (Bool-cases (d.required && is_empty s)) [
  | inl e ↦ absurd (ok-ne-err (sym (rw (e, decode_text) at h)))
  | inr e ↦
      let (c, same) =
        checked_ok (match_text p d.pattern s) (text_value s) v (rw (e, decode_text) at h) in
      (s, same, required_lem d.required (is_empty s) e, match_text_ok p d.pattern s tt c)
]

decode_number-IsValue :
    (r : Bool) (p : Pattern) (o : Option Text) (v : Value)
    → decode_number o ≡ ok v
    → IsValue r p ParameterType.number v
unfolding decode_number
decode_number-IsValue r p none v h = absurd (ok-ne-err (sym h))
decode_number-IsValue r p (some n) v h =
    subst (IsValue r p ParameterType.number) (ok-injective h) tt

decode_bool-IsValue :
    (r : Bool) (p : Pattern) (o : Option Bool) (v : Value)
    → decode_bool o ≡ ok v
    → IsValue r p ParameterType.boolean v
unfolding decode_bool
decode_bool-IsValue r p none v h = absurd (ok-ne-err (sym h))
decode_bool-IsValue r p (some b) v h = subst (IsValue r p ParameterType.boolean) (ok-injective h) tt

module _ (codec : Codec) where
  decode_type-IsValue :
      (d : WizardParameter) (p : Pattern) (t : ParameterType) (raw : Text) (v : Value)
      → decode_type codec d p t raw ≡ ok v
      → IsValue d.required p t v
  unfolding decode_type
  decode_type-IsValue d p ParameterType.number raw v h = decode_number-IsValue d.required p _ v h
  decode_type-IsValue d p ParameterType.boolean raw v h = decode_bool-IsValue d.required p _ v h
  decode_type-IsValue d p ParameterType.string_list raw v h = decode_list-IsValue d p _ v h
  decode_type-IsValue d p ParameterType.object_list raw v h = decode_objects-IsValue d p _ v h
  decode_type-IsValue d p ParameterType.string raw v h =
      let (s, same, full, m) = decode_text_ok d p _ v h in
      subst (IsValue d.required p ParameterType.string) same (full, m)
  decode_type-IsValue d p (ParameterType.other_type t) raw v h =
      let (s, same, full, m) = decode_text_ok d p _ v h in
      subst (IsValue d.required p (ParameterType.other_type t)) same (full, m)

  -- The pattern of a parameter, compiled.
  abbrev pub HasPattern : WizardParameter → Pattern → Type 0
  HasPattern d none = is_empty d.pattern ≡ true
  HasPattern d (some m) = codec.compile d.pattern ≡ ok m

  -- A value that `decode` accepts has the parameter's type, its texts match the parameter's
  -- pattern, it is not empty if the parameter is required, and the objects of an objectList have
  -- distinct keys, none of them empty.
  pub decode-IsValue :
      (d : WizardParameter) (raw : Text) (v : Value)
      → decode codec d raw ≡ ok v
      → (p : Pattern) × HasPattern d p × IsValue d.required p d.type v
  unfolding decode
  decode-IsValue d raw v h = elim (Bool-cases (is_empty d.pattern)) [
    | inl e ↦ (none, e, decode_type-IsValue d none d.type raw v (rw (e, decode) at h))
    | inr e ↦ elim (Result-cases (codec.compile d.pattern)) [
      | inl (m, c) ↦ (
        some m,
        c,
        decode_type-IsValue d (some m) d.type raw v (rw (e, c, decode, with_pattern) at h),
      )
      | inr (x, c) ↦ absurd (ok-ne-err (sym (rw (e, c, decode, with_pattern) at h)))
    ]
  ]
