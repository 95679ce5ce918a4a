-- ===== src/InPlace/Clearing.antt =====
-- What the removal of the old validators leaves of them.
use base_protocol_system.Base.{
  ◌≡◌, refl, ap, ◌∙◌, true, false, List, [], ◌∷◌, ◌++◌, arith, inl, inr, Bool-cases, Outcome-cases,
  ok, modify, for_each, for_each-next,
}
use base_protocol_system.InPlace.Sdk.{
  InPlaceSdk, InPlaceLaws, Index, by_power, last_validators, validators, validator_queue,
}
use base_protocol_system.InPlace.{delete_all, remove_validators}

module _ (k : InPlaceSdk) (l : InPlaceLaws k) where
  open k use {State, Ext, Key}

  -- The store after a loop of deletions.
  deleted : List Key → State → State
  deleted [] s = s
  deleted (x ∷ xs) s = deleted xs (k.delete x s)

  delete_all-deleted : (xs : List Key) (s : State) → delete_all k xs s ≡ (ok tt, deleted xs s)
  unfolding delete_all deleted
  delete_all-deleted [] s = unfold for_each in refl
  delete_all-deleted (x ∷ xs) s =
      for_each-next (λ key. modify (k.delete key)) x xs s (k.delete x s) refl
      ∙ delete_all-deleted xs (k.delete x s)

  stays_out :
      (x : Key) (xs : List Key) (s : State)
      → l.stored x s ≡ false
      → l.stored x (deleted xs s) ≡ false
  unfolding deleted
  stays_out x [] s h = h
  stays_out x (y ∷ xs) s h = stays_out x xs (k.delete y s) (l.delete_adds_none y x s h)

  goes_out :
      (x : Key) (before after : List Key) (s : State)
      → l.stored x (deleted (before ++ (x ∷ after)) s) ≡ false
  unfolding deleted
  goes_out x [] after s = stays_out x after (k.delete x s) (l.delete_removes x s)
  goes_out x (y ∷ before) after s = goes_out x before after (k.delete y s)

  cleared :
      (x : Key) (xs : List Key) (s : State)
      → (l.stored x s ≡ true → (before after : List Key) × (xs ≡ before ++ (x ∷ after)))
      → l.stored x (deleted xs s) ≡ false
  cleared x xs s complete = elim (Bool-cases (l.stored x s)) [
    | inr out ↦ stays_out x xs s out
    | inl there ↦
        let (before, after, e) = complete there in
        ap (λ ys. l.stored x (deleted ys s)) e ∙ goes_out x before after s
  ]

  -- The stores between the four loops.
  removal :
      (s t : State)
      → remove_validators k s ≡ (ok tt, t)
      → (power last : List Key) × (k.power_keys s ≡ ok power)
        × (k.last_validator_keys (deleted power s) ≡ ok last)
        × (t ≡ (
            let s2 = deleted last (deleted power s) in
            let s3 = deleted (k.validators_keys s2) s2 in deleted (k.validator_queue_keys s3) s3))
  unfolding remove_validators
  removal s t e = elim (Outcome-cases (k.power_keys s)) [
    | inr bad ↦ absurd (ground arith)
    | inl (power, p) ↦
        let s1 = deleted power s in
        let d1 = delete_all-deleted power s in
        elim (Outcome-cases (k.last_validator_keys s1)) [
          | inr bad ↦ absurd (ground arith)
          | inl (last, q) ↦
              let s2 = deleted last s1 in
              let s3 = deleted (k.validators_keys s2) s2 in
              let d2 = delete_all-deleted last s1 in
              let d3 = delete_all-deleted (k.validators_keys s2) s2 in
              let d4 = delete_all-deleted (k.validator_queue_keys s3) s3 in
              (power, last, p, q, ground arith)
        ]
  ]

  -- After a removal that ends well, no key of the four indices of the validators is stored.
  pub remove_validators_clears :
      (s t : State) (i : Index) (x : Key)
      → remove_validators k s ≡ (ok tt, t)
      → l.indexed i x ≡ true
      → l.stored x t ≡ false
  remove_validators_clears s t by_power x e h =
      let (power, last, p, q, same) = removal s t e in
      let s1 = deleted power s in
      let s2 = deleted last s1 in
      let s3 = deleted (k.validators_keys s2) s2 in
      ap (l.stored x) same
      ∙ stays_out x (k.validator_queue_keys s3) s3 (
          stays_out x (k.validators_keys s2) s2 (
            stays_out x last s1
              (cleared x power s (λ there. l.power_keys_all x s power h there p))))
  remove_validators_clears s t last_validators x e h =
      let (power, last, p, q, same) = removal s t e in
      let s1 = deleted power s in
      let s2 = deleted last s1 in
      let s3 = deleted (k.validators_keys s2) s2 in
      ap (l.stored x) same
      ∙ stays_out x (k.validator_queue_keys s3) s3 (
          stays_out x (k.validators_keys s2) s2
            (cleared x last s1 (λ there. l.last_validator_keys_all x s1 last h there q)))
  remove_validators_clears s t validators x e h =
      let (power, last, p, q, same) = removal s t e in
      let s2 = deleted last (deleted power s) in
      let s3 = deleted (k.validators_keys s2) s2 in
      ap (l.stored x) same
      ∙ stays_out x (k.validator_queue_keys s3) s3
          (cleared x (k.validators_keys s2) s2 (l.validators_keys_all x s2 h))
  remove_validators_clears s t validator_queue x e h =
      let (power, last, p, q, same) = removal s t e in
      let s2 = deleted last (deleted power s) in
      let s3 = deleted (k.validators_keys s2) s2 in
      ap (l.stored x) same
      ∙ cleared x (k.validator_queue_keys s3) s3 (l.validator_queue_keys_all x s3 h)
