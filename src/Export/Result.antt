-- ===== src/Export/Result.antt =====
-- What an export returns, and what it refuses.
use base_protocol_system.Base.{
  ◌≡◌, ◌∙◌, Bool, true, false, List, [], ◌∷◌, ◌++◌, All, String, arith, ℤ, pos, ◌+ℤ◌, inl, inr,
  none, some, ok, err, panic, read, for_each, if◌then◌else◌, Outcome-cases, then-ok, for_each-next,
}
use base_protocol_system.Export.Sdk.{ExportSdk}
use base_protocol_system.Export.{
  distribution_part, prep_for_zero_height_genesis, read_allowed, export_app_state_and_validators,
  export_state, Exported, exported_from,
}

module _ (k : ExportSdk) where
  open k use {State, Ext, Bytes}

  read_allowed_stops :
      (good : List String) (bad : String) (more : List String) (e : Ext) (s : State)
      → All (λ a. (b : Bytes) × (k.validator_bytes a ≡ ok b)) good
      → k.validator_bytes bad ≡ err e
      → read_allowed k (good ++ (bad ∷ more)) s ≡ (panic, s)
  unfolding read_allowed
  read_allowed_stops [] bad more e s h p = unfold for_each in ground arith
  read_allowed_stops (a ∷ good) bad more e s ((b, q), h) p =
      for_each-next _ a (good ++ (bad ∷ more)) s s (ground arith)
      ∙ read_allowed_stops good bad more e s h p

  -- An address of the list that does not decode makes the preparation panic, with the state as it
  -- was, whatever stands before it, if that decodes, and behind it.
  pub prep_refused :
      (height : ℤ) (good : List String) (bad : String) (more : List String) (e : Ext) (s : State)
      → All (λ a. (b : Bytes) × (k.validator_bytes a ≡ ok b)) good
      → k.validator_bytes bad ≡ err e
      → prep_for_zero_height_genesis k height (good ++ (bad ∷ more)) s ≡ (panic, s)
  unfolding prep_for_zero_height_genesis distribution_part
  prep_refused height good bad more e s h p =
      let stops = read_allowed_stops good bad more e s h p in ground arith

  state_height :
      (ctx_height height : ℤ) (modules : List String) (s : State) (app : Exported k)
      → export_state k ctx_height height modules s ≡ ok (app, none)
      → (app.exported_height ≡ height)
        × ((g : k.GenState) × (j : k.Json) × (k.export_genesis_for_modules ctx_height modules s
              ≡ ok g)
            × (k.marshal_indent g ≡ ok j)
            × (app.app_state ≡ some j))
  unfolding export_state exported_from
  state_height ctx_height height modules s app h =
      elim (Outcome-cases (k.export_genesis_for_modules ctx_height modules s)) [
        | inr bad ↦ absurd (ground arith)
        | inl (g, p) ↦ elim (Outcome-cases (k.marshal_indent g)) [
          | inr bad ↦ absurd (ground arith)
          | inl (j, q) ↦ (ground arith, (g, j, p, q, ground arith))
        ]
      ]

  -- An export with no error has the height zero where it was asked to, after a preparation that
  -- returned, and else the height behind the last block's, with the state as it was; its state is the
  -- genesis of the modules in the store that it leaves.
  pub export_heights :
      (last : ℤ) (zero_height : Bool) (allowed modules : List String) (s t : State)
      (app : Exported k)
      → export_app_state_and_validators k last zero_height allowed modules s ≡ (ok (app, none), t)
      → (app.exported_height ≡ (if zero_height then pos 0 else last +ℤ pos 1))
        × (if zero_height
            then prep_for_zero_height_genesis k last allowed s ≡ (ok tt, t)
            else t ≡ s)
        × ((g : k.GenState) × (j : k.Json) × (k.export_genesis_for_modules last modules t ≡ ok g)
            × (k.marshal_indent g ≡ ok j)
            × (app.app_state ≡ some j))
  unfolding export_app_state_and_validators
  export_heights last true allowed modules s t app e =
      let (s', p, q) =
        then-ok (prep_for_zero_height_genesis k last allowed)
          (read (export_state k last (pos 0) modules)) s t (app, none) e in
      let same : s' ≡ t = ground arith in
      let (h, found) = state_height last (pos 0) modules s' app (ground arith) in
      (h, rw same at p, rw same at found)
  export_heights last false allowed modules s t app e =
      let same : t ≡ s = ground arith in
      let (h, found) = state_height last (last +ℤ pos 1) modules t app (ground arith) in
      (h, same, found)
