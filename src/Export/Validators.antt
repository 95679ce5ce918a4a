-- ===== src/Export/Validators.antt =====
-- What the loop over the validators makes of each of them.
use mathlib.Core.Path.{subst}
use mathlib.Core.List.{Memᴰ}
use mathlib.Core.List.Memᴰ
use base_protocol_system.Base.{
  ◌≡◌, ◌≢◌, refl, sym, ◌⊎◌, inl, inr, true, List, [], ◌∷◌, map, String, str_eq, str_eq_same,
  str_eq→eq, Bool-cases, arith, pos, ok,
}
use base_protocol_system.Export.Sdk.{Validator, ExportSdk, ExportLaws}
use base_protocol_system.Export.{is_allowed, settled_validator, settle_validators}
use base_protocol_system.Export.Passes.{text_of, settled, settle_validators-map}

is_allowed→mem : (allowed : List String) (a : String) → is_allowed allowed a ≡ true → Memᴰ a allowed
unfolding is_allowed
is_allowed→mem [] a e = absurd (ground arith)
is_allowed→mem (b ∷ bs) a e = elim (Bool-cases (str_eq b a)) [
  | inl same ↦ Memᴰ.head (sym (str_eq→eq b a same))
  | inr other ↦ Memᴰ.tail (is_allowed→mem bs a (ground arith))
]

mem→is_allowed : (allowed : List String) (a : String) → Memᴰ a allowed → is_allowed allowed a ≡ true
unfolding is_allowed
mem→is_allowed [] a h = absurd (Memᴰ.not-nil h)
mem→is_allowed (b ∷ bs) a (Memᴰ.head e) = rw (str_eq_same b a (sym e)) refl
mem→is_allowed (b ∷ bs) a (Memᴰ.tail h) = let rest = mem→is_allowed bs a h in ground arith

module _ (k : ExportSdk) (l : ExportLaws k) where
  open k use {State, Bytes, Rest}

  -- A validator after the loop, beside what it was: the allow list holds texts of addresses.
  pub record IsSettled (allowed : List String) (before after : Bytes × Validator Rest)
      : Type 0 where
    pub key : after.0 ≡ before.0
    pub height : after.1.unbonding_height ≡ pos 0
    pub jailed_left :
        (allowed ≡ []) ⊎ Memᴰ (text_of k l before.0) allowed → after.1.jailed ≡ before.1.jailed
    pub jailed_set : allowed ≢ [] → ¬ Memᴰ (text_of k l before.0) allowed → after.1.jailed ≡ true
    pub operator_same : after.1.operator ≡ before.1.operator
    pub rest_same : after.1.validator_rest ≡ before.1.validator_rest

  -- The validators after the loop beside those before, one by one.
  pub data EachSettled (allowed : List String)
      : List (Bytes × Validator Rest) → List (Bytes × Validator Rest) → Type 0 where
    ended : EachSettled allowed [] []
    next :
        {before after : Bytes × Validator Rest} {bs as' : List (Bytes × Validator Rest)}
        → IsSettled allowed before after
        → EachSettled allowed bs as'
        → EachSettled allowed (before ∷ bs) (after ∷ as')

  left-jailed :
      (allowed : List String) (text : String) (v : Validator Rest)
      → (allowed ≡ []) ⊎ Memᴰ text allowed
      → (settled_validator allowed text v).jailed ≡ v.jailed
  left-jailed allowed text v (inl e) = rw e refl
  left-jailed [] text v (inr h) = refl
  left-jailed (b ∷ bs) text v (inr h) = let there = mem→is_allowed (b ∷ bs) text h in ground arith

  set-jailed :
      (allowed : List String) (text : String) (v : Validator Rest)
      → allowed ≢ []
      → ¬ Memᴰ text allowed
      → (settled_validator allowed text v).jailed ≡ true
  set-jailed [] text v some' out = absurd (some' refl)
  set-jailed (b ∷ bs) text v some' out = elim (Bool-cases (is_allowed (b ∷ bs) text)) [
    | inl there ↦ absurd (out (is_allowed→mem (b ∷ bs) text there))
    | inr missing ↦ ground arith
  ]

  map-EachSettled :
      (allowed : List String) (vs : List (Bytes × Validator Rest))
      → EachSettled allowed vs (map (settled k l allowed) vs)
  map-EachSettled allowed [] = ended
  map-EachSettled allowed ((a, v) ∷ vs) =
      next
        (record {
          key = refl;
          height = refl;
          jailed_left = left-jailed allowed (text_of k l a) v;
          jailed_set = set-jailed allowed (text_of k l a) v;
          operator_same = refl;
          rest_same = refl;
        })
        (map-EachSettled allowed vs)

  -- After the loop over the validators ends well, each validator is in its place with the unbonding
  -- height zero and is jailed where there is an allow list without the text of its address; where
  -- there is no list or the text is in it, jailed is as it was, and so are its operator and the rest.
  pub settle_validators-EachSettled :
      (allowed : List String) (s t : State)
      → settle_validators k allowed s ≡ (ok tt, t)
      → EachSettled allowed (l.validators s) (l.validators t)
  settle_validators-EachSettled allowed s t e =
      subst (EachSettled allowed (l.validators s)) (sym (settle_validators-map k l allowed s t e))
        (map-EachSettled allowed (l.validators s))
