-- ===== src/Export/Passes.antt =====
-- What each pass over a store of the staking and slashing modules makes of its records.
use base_protocol_system.Base.{
  ◌≡◌, refl, sym, ap, ◌∙◌, List, [], map, String, arith, pos, inl, inr, ok, for_each, Outcome-cases,
  panics-ok, write_on-ok, dropped-ok, dropped_state,
}
use base_protocol_system.Base.Passes.{
  visit_maps, visit_keeps, for_each_maps, for_each_keeps, for_each-map,
}
use base_protocol_system.Export.Sdk.{Validator, SigningInfo, ExportSdk, ExportLaws}
use base_protocol_system.Export.{
  reset_entries, settled_validator, reset_redelegation, reset_redelegations,
  reset_unbonding_delegation, reset_unbonding_delegations, settle_validator, settle_validators,
  reset_signing_info, reset_signing_infos,
}

module _ (k : ExportSdk) (l : ExportLaws k) where
  open k use {State, Ext, Bytes, Rest, Parties}

  pub reset_redelegations-map :
      (s t : State)
      → reset_redelegations k s ≡ (ok tt, t)
      → l.redelegations t ≡ map reset_entries (l.redelegations s)
  unfolding reset_redelegations
  reset_redelegations-map s t e =
      visit_maps l.redelegations reset_entries (reset_redelegation k)
        (λ before after a s1 s2 stop h w.
          let (more, set) =
            write_on-ok {F = Ext} (k.set_redelegation (reset_entries a)) s1 s2 stop
              (unfold reset_redelegation in w) in
          (more, l.redelegations-set before after a (reset_entries a) s1 s2 h refl set))
        [] (l.redelegations s) s t refl
        (l.visit-redelegations (reset_redelegation k) s t
          (panics-ok {F = Ext} (k.iterate_redelegations (reset_redelegation k)) s t tt e))

  pub reset_unbonding_delegations-map :
      (s t : State)
      → reset_unbonding_delegations k s ≡ (ok tt, t)
      → l.unbondings t ≡ map reset_entries (l.unbondings s)
  unfolding reset_unbonding_delegations
  reset_unbonding_delegations-map s t e =
      visit_maps l.unbondings reset_entries (reset_unbonding_delegation k)
        (λ before after a s1 s2 stop h w.
          let (more, set) =
            write_on-ok {F = Ext} (k.set_unbonding_delegation (reset_entries a)) s1 s2 stop
              (unfold reset_unbonding_delegation in w) in
          (more, l.unbondings-set before after a (reset_entries a) s1 s2 h refl set))
        [] (l.unbondings s) s t refl
        (l.visit-unbondings (reset_unbonding_delegation k) s t (
          panics-ok {F = Ext} (k.iterate_unbonding_delegations (reset_unbonding_delegation k)) s t
            tt e))

  pub reset_unbonding_delegations_keeps :
      (s t : State)
      → reset_unbonding_delegations k s ≡ (ok tt, t)
      → l.redelegations t ≡ l.redelegations s
  unfolding reset_unbonding_delegations
  reset_unbonding_delegations_keeps s t e =
      visit_keeps l.redelegations (reset_unbonding_delegation k)
        (λ a s1 s2 stop w.
          let (_, set) =
            write_on-ok {F = Ext} (k.set_unbonding_delegation (reset_entries a)) s1 s2 stop
              (unfold reset_unbonding_delegation in w) in
          l.set_unbonding_keeps (reset_entries a) s1 s2 set)
        (l.unbondings s) s t
        (l.visit-unbondings (reset_unbonding_delegation k) s t (
          panics-ok {F = Ext} (k.iterate_unbonding_delegations (reset_unbonding_delegation k)) s t
            tt e))

  -- The record of a validator after its round, by the text of the address in its key.
  abbrev pub text_of : Bytes → String
  text_of a = elim (k.staking_validator_text a) [ ok text ↦ text | _ ↦ "" ]

  abbrev pub settled : List String → Bytes × Validator Rest → Bytes × Validator Rest
  settled allowed (a, v) = (a, settled_validator allowed (text_of a) v)

  -- A round ends well where the validator is found, and writes it settled.
  settle_validator-ok :
      (allowed : List String) (a : Bytes) (s t : State)
      → settle_validator k allowed a s ≡ (ok tt, t)
      → (v : Validator Rest) × (k.get_validator a s ≡ ok v)
        × (k.set_validator (settled_validator allowed (text_of a) v) s ≡ (ok tt, t))
  unfolding settle_validator
  settle_validator-ok allowed a s t e = elim (Outcome-cases (k.get_validator a s)) [
    | inr bad ↦ absurd (ground arith)
    | inl (v, p) ↦ elim (Outcome-cases (k.staking_validator_text a)) [
      | inr bad ↦ absurd (ground arith)
      | inl (text, q) ↦ (
        v,
        p,
        panics-ok {F = Ext} (k.set_validator (settled_validator allowed (text_of a) v)) s t tt
            (ground arith),
      )
    ]
  ]

  -- After the loop over the validators ends well, each validator has the unbonding height zero, is
  -- jailed where there is an allow list without its address, and is as it was in all else, in the
  -- same place.
  pub settle_validators-map :
      (allowed : List String) (s t : State)
      → settle_validators k allowed s ≡ (ok tt, t)
      → l.validators t ≡ map (settled allowed) (l.validators s)
  unfolding settle_validators
  settle_validators-map allowed s t e =
      for_each_maps l.validators (settled allowed)
        (λ (av : Bytes × Validator Rest). settle_validator k allowed av.0)
        (λ before after (a, v) s1 s2 h w.
          let (v', got, set) = settle_validator-ok allowed a s1 s2 w in
          let same : v' ≡ v = ground (arith, l.get-validators before after a v s1 h) in
          l.validators-set before after a v (settled_validator allowed (text_of a) v) s1 s2 h refl
            (rw same at set))
        [] (l.validators s) s t refl
        (sym (
            for_each-map (λ (av : Bytes × Validator Rest). av.0) (settle_validator k allowed)
              (l.validators s) s)
          ∙ ap (λ keys. for_each (settle_validator k allowed) keys s) (sym (l.keys-validators s))
          ∙ e)

  pub settle_validators_keeps :
      (allowed : List String) (s t : State)
      → settle_validators k allowed s ≡ (ok tt, t)
      → (l.redelegations t ≡ l.redelegations s) × (l.unbondings t ≡ l.unbondings s)
  unfolding settle_validators
  settle_validators_keeps allowed s t e = (
    for_each_keeps l.redelegations (settle_validator k allowed)
        (λ a s1 s2 w.
          let (v, _, set) = settle_validator-ok allowed a s1 s2 w in
          (l.set_validator_keeps (settled_validator allowed (text_of a) v) s1 s2 set).0)
        (k.validator_keys s) s t e,
    for_each_keeps l.unbondings (settle_validator k allowed)
        (λ a s1 s2 w.
          let (v, _, set) = settle_validator-ok allowed a s1 s2 w in
          (l.set_validator_keeps (settled_validator allowed (text_of a) v) s1 s2 set).1)
        (k.validator_keys s) s t e,
  )

  abbrev pub started : Bytes × SigningInfo Rest → Bytes × SigningInfo Rest
  started (a, info) = (a, record info { start_height = pos 0 })

  -- After the loop over the signing infos ends well, each has the start height zero and is as it was
  -- in all else, where writing one does not fail.
  pub reset_signing_infos-map :
      ((a : Bytes) (i : SigningInfo Rest) (s : State)
        → (k.set_validator_signing_info a i s).0 ≡ ok tt)
      → (s t : State) → reset_signing_infos k s ≡ (ok tt, t)
      → l.signing_infos t ≡ map started (l.signing_infos s)
  unfolding reset_signing_infos
  reset_signing_infos-map stored s t e =
      visit_maps l.signing_infos started (reset_signing_info k)
        (λ before after (a, i) s1 s2 stop h w.
          let i' = record i { start_height = pos 0 } in
          let set = stored a i' s1 in
          let (more, same) =
            dropped-ok {F = Ext} (k.set_validator_signing_info a i') s1 s2 stop set
              (unfold reset_signing_info in w) in
          (more, l.signing_infos-set before after a i i' s1 s2 h same))
        [] (l.signing_infos s) s t refl
        (l.visit-signing_infos (reset_signing_info k) s t
          (panics-ok {F = Ext} (k.iterate_validator_signing_infos (reset_signing_info k)) s t tt e))

  pub reset_signing_infos_keeps :
      (s t : State)
      → reset_signing_infos k s ≡ (ok tt, t)
      → (l.redelegations t ≡ l.redelegations s) × (l.unbondings t ≡ l.unbondings s)
  unfolding reset_signing_infos
  reset_signing_infos_keeps s t e =
      let run =
        l.visit-signing_infos (reset_signing_info k) s t (
          panics-ok {F = Ext} (k.iterate_validator_signing_infos (reset_signing_info k)) s t tt
            e) in
      (
        visit_keeps l.redelegations (reset_signing_info k)
            (λ (a, i) s1 s2 stop w.
              ap l.redelegations (
                dropped_state {F = Ext}
                  (k.set_validator_signing_info a (record i { start_height = pos 0 })) s1 s2 stop
                  (unfold reset_signing_info in w))
              ∙ (l.set_signing_info_keeps a (record i { start_height = pos 0 }) s1).0)
            (l.signing_infos s) s t run,
        visit_keeps l.unbondings (reset_signing_info k)
            (λ (a, i) s1 s2 stop w.
              ap l.unbondings (
                dropped_state {F = Ext}
                  (k.set_validator_signing_info a (record i { start_height = pos 0 })) s1 s2 stop
                  (unfold reset_signing_info in w))
              ∙ (l.set_signing_info_keeps a (record i { start_height = pos 0 }) s1).1)
            (l.signing_infos s) s t run,
      )
