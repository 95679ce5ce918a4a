-- ===== src/Export/Reset.antt =====
-- What the preparation for height zero leaves in the stores, and what an export returns.
use base_protocol_system.Base.{
  ◌≡◌, refl, ◌∙◌, List, [], ◌∷◌, map, All, String, arith, ℤ, pos, inl, inr, ok, ◌>>◌, panics,
  Outcome-cases, then-ok, panics-ok,
}
use base_protocol_system.Export.Sdk.{Entry, Unbonding, ExportSdk, ExportLaws}
use base_protocol_system.Export.{
  reset_entry, reset_entries, reset_redelegations, reset_unbonding_delegations, settle_validators,
  reset_signing_infos, after_settling, reset_heights, distribution_part,
  prep_for_zero_height_genesis,
}
use base_protocol_system.Export.Passes.{
  reset_redelegations-map, reset_unbonding_delegations-map, reset_unbonding_delegations_keeps,
  settle_validators_keeps, reset_signing_infos_keeps,
}

-- Every entry was created at height zero.
abbrev pub IsReset : {Key Rest : Type 0} → List (Unbonding Key Rest) → Type 0
IsReset us =
    All (λ (u : Unbonding _ _). All (λ (e : Entry _). e.creation_height ≡ pos 0) u.entries) us

entries-IsReset :
    {Rest : Type 0} (es : List (Entry Rest))
    → All (λ (e : Entry Rest). e.creation_height ≡ pos 0) (map reset_entry es)
entries-IsReset [] = tt
entries-IsReset (e ∷ es) = (refl, entries-IsReset es)

map-IsReset : {Key Rest : Type 0} (us : List (Unbonding Key Rest)) → IsReset (map reset_entries us)
map-IsReset [] = tt
map-IsReset (u ∷ us) = (entries-IsReset u.entries, map-IsReset us)

module _ (k : ExportSdk) (l : ExportLaws k) where
  open k use {State, Ext, Bytes, Rest, Parties}

  -- The end of the preparation keeps the staking records of unbonding tokens, wherever it returns.
  after_settling_keeps :
      (height : ℤ) (s t : State)
      → after_settling k height s ≡ (ok tt, t)
      → (l.redelegations t ≡ l.redelegations s) × (l.unbondings t ≡ l.unbondings s)
  unfolding after_settling
  after_settling_keeps height s t e = elim (Outcome-cases (k.close_iterator s)) [
    | inr (inr p) ↦ absurd (ground arith)
    | inr (inl (x, p)) ↦ (ground arith, ground arith)
    | inl (u, p) ↦
        let run : (panics (k.apply_and_return_validator_set_updates height)
                >> reset_signing_infos k)
              s
            ≡ (ok tt, t) =
          ground arith in
        let (s', applied, infos) =
          then-ok (panics {F = Ext} (k.apply_and_return_validator_set_updates height))
            (reset_signing_infos k) s t tt run in
        let kept =
          l.apply_keeps height s s' (
            panics-ok {F = Ext} (k.apply_and_return_validator_set_updates height) s s' tt
              applied) in
        let kept' = reset_signing_infos_keeps k l s' t infos in (kept'.0 ∙ kept.0, kept'.1 ∙ kept.1)
  ]

  -- After a preparation that returns, every entry of every redelegation and of every unbonding
  -- delegation was created at height zero.
  pub prep-IsReset :
      (height : ℤ) (allowed : List String) (s t : State)
      → prep_for_zero_height_genesis k height allowed s ≡ (ok tt, t)
      → IsReset (l.redelegations t) × IsReset (l.unbondings t)
  unfolding prep_for_zero_height_genesis reset_heights
  prep-IsReset height allowed s t e =
      let settle = settle_validators k allowed in
      let rest = settle >> after_settling k height in
      let ubds = reset_unbonding_delegations k in
      let (s1, _, heights) =
        then-ok (distribution_part k height allowed) (reset_redelegations k >> (ubds >> rest)) s t
          tt e in
      let (s2, reds, more) = then-ok (reset_redelegations k) (ubds >> rest) s1 t tt heights in
      let (s3, ubd, more') = then-ok ubds rest s2 t tt more in
      let (s4, vals, last) = then-ok settle (after_settling k height) s3 t tt more' in
      let keep = settle_validators_keeps k l allowed s3 s4 vals in
      let keep' = after_settling_keeps height s4 t last in
      let red : l.redelegations t ≡ map reset_entries (l.redelegations s1) =
        keep'.0
        ∙ keep.0
        ∙ reset_unbonding_delegations_keeps k l s2 s3 ubd
        ∙ reset_redelegations-map k l s1 s2 reds in
      let unb : l.unbondings t ≡ map reset_entries (l.unbondings s2) =
        keep'.1 ∙ keep.1 ∙ reset_unbonding_delegations-map k l s2 s3 ubd in
      (rw red (map-IsReset (l.redelegations s1)), rw unb (map-IsReset (l.unbondings s2)))
