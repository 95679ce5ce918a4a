-- ===== src/Export/Runs.antt =====
-- An export over stores of one record each, and the theorems of these modules at concrete inputs.
use base_protocol_system.Base.{
  ℕ, ◌≡◌, refl, sym, ap, ◌∙◌, Bool, true, false, List, [], ◌∷◌, ◌++◌, String, arith, ℤ, pos, ◌+ℤ◌,
  none, some, Outcome, ok, err, visit, for_each, str_eq, if◌then◌else◌,
}
use base_protocol_system.Export.Sdk.{
  Entry, Unbonding, Validator, SigningInfo, ExportSdk, ExportLaws,
}
use base_protocol_system.Export.{
  prep_for_zero_height_genesis, distribution_part, read_allowed, withdraw_commissions, redistribute,
  withdraw_rewards, reinitialize_validators, reinitialize_validator, reinitialize_delegations,
  reset_heights, reset_redelegations, reset_redelegation, reset_unbonding_delegations,
  reset_unbonding_delegation, settle_validators, settle_validator, after_settling, is_allowed,
  reset_signing_infos, reset_signing_info, export_app_state_and_validators, export_state,
  exported_from, Exported,
}
use base_protocol_system.Export.Validators.{EachSettled, settle_validators-EachSettled}
use base_protocol_system.Export.Reset.{IsReset, prep-IsReset}
use base_protocol_system.Export.Result.{export_heights}

pub record Store : Type 0 where
  pub red : Unbonding ℕ ℕ
  pub ubd : Unbonding ℕ ℕ
  pub validator : Validator ℕ
  pub info : SigningInfo ℕ

-- Addresses are texts, and the empty text is none. The staking module has one validator, `val`, with
-- no delegation to it.
abbrev pub sdk : ExportSdk
sdk = record {
  State = Store;
  Ext = Bool;
  Bytes = String;
  Parties = ℕ;
  Rest = ℕ;
  Coins = ℕ;
  GenState = ℤ;
  Json = ℤ;
  GenesisValidators = List String;
  ConsensusParams = ℕ;
  validator_bytes = λ a. if str_eq a "" then err true else ok a;
  staking_validator_bytes = ok;
  account_bytes = ok;
  staking_validator_text = ok;
  iterate_validators = λ h f s. visit f (s.validator ∷ []) s;
  get_all_delegations = λ s. ok [];
  withdraw_validator_commission = λ h a s. (ok tt, s);
  withdraw_delegation_rewards = λ h d a s. (ok tt, s);
  delete_all_validator_slash_events = λ h s. s;
  delete_all_validator_historical_rewards = λ h s. s;
  get_validator_outstanding_rewards_coins = λ a s. ok 0;
  fee_pool_get = λ s. ok (record { community_pool = 0; pool_rest = 0 });
  fee_pool_set = λ p s. (ok tt, s);
  add = λ a b. some a;
  after_validator_created = λ h a s. (ok tt, s);
  before_delegation_created = λ h d a s. (ok tt, s);
  after_delegation_modified = λ h d a s. (ok tt, s);
  iterate_redelegations = λ f s. visit f (s.red ∷ []) s;
  set_redelegation = λ u s. (ok tt, record s { red = u });
  iterate_unbonding_delegations = λ f s. visit f (s.ubd ∷ []) s;
  set_unbonding_delegation = λ u s. (ok tt, record s { ubd = u });
  validator_keys = λ s. "val" ∷ [];
  close_iterator = λ s. ok tt;
  get_validator = λ a s. ok s.validator;
  set_validator = λ v s. (ok tt, record s { validator = v });
  apply_and_return_validator_set_updates = λ h s. (ok tt, s);
  iterate_validator_signing_infos = λ f s. visit f (("cons", s.info) ∷ []) s;
  set_validator_signing_info = λ a i s. (ok tt, record s { info = i });
  export_genesis_for_modules = λ h ms s. ok s.validator.unbonding_height;
  marshal_indent = ok;
  write_validators = λ h s. (s.validator.operator ∷ [], none);
  get_consensus_params = λ h s. 1;
  no_validators = [];
  no_consensus_params = 0;
}

-- A list of one record has one place.
one_place :
    {A : Type 0} (x a : A) (before after : List A)
    → x ∷ [] ≡ before ++ (a ∷ after)
    → (before ≡ []) × (after ≡ []) × (a ≡ x)
one_place x a [] [] e = (refl, refl, ground arith)
one_place x a [] (y ∷ after) e = absurd (ground arith)
one_place x a (z ∷ []) after e = absurd (ground arith)
one_place x a (z ∷ w ∷ before) after e = absurd (ground arith)

put :
    {A : Type 0} (x a b : A) (before after : List A)
    → x ∷ [] ≡ before ++ (a ∷ after)
    → b ∷ [] ≡ before ++ (b ∷ after)
put x a b before after e = let (p, q, r) = one_place x a before after e in rw (p, q) refl

same_state :
    {F A : Type 0} (r : Outcome F A) (s t : Store)
    → ◌≡◌ {A = Outcome F A × Store} (r, s) (r, t)
    → t ≡ s
same_state r s t e = ap (λ (p : _ × Store). p.1) (sym e)

sdk_laws : ExportLaws sdk
sdk_laws = record {
  redelegations = λ s. s.red ∷ [];
  unbondings = λ s. s.ubd ∷ [];
  validators = λ s. ("val", s.validator) ∷ [];
  signing_infos = λ s. ("cons", s.info) ∷ [];
  visit-redelegations = λ f s t e. e;
  visit-unbondings = λ f s t e. e;
  visit-signing_infos = λ f s t e. e;
  redelegations-set = λ before after a b s t h p e.
      ap (λ (x : Store). x.red ∷ []) (same_state _ _ t e) ∙ put s.red a b before after h;
  unbondings-set = λ before after a b s t h p e.
      ap (λ (x : Store). x.ubd ∷ []) (same_state _ _ t e) ∙ put s.ubd a b before after h;
  signing_infos-set = λ before after a v w s t h e.
      let (p, q, r) = one_place ("cons", s.info) (a, v) before after h in
      ap (λ (x : Store). ("cons", x.info) ∷ []) (same_state _ _ t e)
      ∙ ap (λ (x : String × SigningInfo ℕ). (x.0, w) ∷ []) (sym r)
      ∙ rw (p, q) refl;
  keys-validators = λ s. refl;
  get-validators = λ before after a v s h.
      let (p, q, r) = one_place ("val", s.validator) (a, v) before after h in
      ap (λ (x : String × Validator ℕ). ok x.1) (sym r);
  validators-set = λ before after a v w s t h p e.
      let (b, q, r) = one_place ("val", s.validator) (a, v) before after h in
      ap (λ (x : Store). ("val", x.validator) ∷ []) (same_state _ _ t e)
      ∙ ap (λ (x : String × Validator ℕ). (x.0, w) ∷ []) (sym r)
      ∙ rw (b, q) refl;
  set_unbonding_keeps = λ u s t e. ap (λ (x : Store). x.red ∷ []) (same_state _ _ t e);
  set_validator_keeps = λ v s t e. (
    ap (λ (x : Store). x.red ∷ []) (same_state _ _ t e),
    ap (λ (x : Store). x.ubd ∷ []) (same_state _ _ t e),
  );
  apply_keeps = λ h s t e. (
    ap (λ (x : Store). x.red ∷ []) (same_state _ _ t e),
    ap (λ (x : Store). x.ubd ∷ []) (same_state _ _ t e),
  );
  set_signing_info_keeps = λ a i s. (refl, refl);
}

abbrev entry : ℕ → Entry ℕ
entry h = record { creation_height = pos h; entry_rest = 7 }

abbrev pub store_at : ℕ → Bool → Store
store_at h jailed = record {
  red = record { parties = 1; entries = entry h ∷ entry h ∷ [] };
  ubd = record { parties = 2; entries = entry h ∷ [] };
  validator = record {
    operator = "val";
    unbonding_height = pos h;
    jailed = jailed;
    validator_rest = 3;
  };
  info = record { start_height = pos h; info_rest = 4 };
}

prepared :
    prep_for_zero_height_genesis sdk (pos 90) ("other" ∷ []) (store_at 42 false)
    ≡ (ok tt, store_at 0 true)
unfolding prep_for_zero_height_genesis distribution_part read_allowed for_each withdraw_commissions
    visit redistribute withdraw_rewards reinitialize_validators reinitialize_validator
    reinitialize_delegations reset_heights reset_redelegations reset_redelegation
    reset_unbonding_delegations reset_unbonding_delegation settle_validators settle_validator
    after_settling is_allowed reset_signing_info reset_signing_infos
prepared = refl

prep-IsReset_example :
    IsReset (sdk_laws.redelegations (store_at 0 true))
    × IsReset (sdk_laws.unbondings (store_at 0 true))
prep-IsReset_example =
    prep-IsReset sdk sdk_laws (pos 90) ("other" ∷ []) (store_at 42 false) (store_at 0 true) prepared

abbrev settled_store : Store
settled_store = record (store_at 42 false) {
  validator = record {
    operator = "val";
    unbonding_height = pos 0;
    jailed = true;
    validator_rest = 3;
  };
}

settled_run : settle_validators sdk ("other" ∷ []) (store_at 42 false) ≡ (ok tt, settled_store)
unfolding settle_validators settle_validator for_each is_allowed
settled_run = refl

settle_validators-EachSettled_example :
    EachSettled sdk sdk_laws
      ("other" ∷ [])
      (sdk_laws.validators (store_at 42 false))
      (sdk_laws.validators settled_store)
settle_validators-EachSettled_example =
    settle_validators-EachSettled sdk sdk_laws ("other" ∷ []) (store_at 42 false) settled_store
      settled_run

abbrev pub exported : Exported sdk
exported = record {
  app_state = some (pos 42);
  exported_validators = "val" ∷ [];
  exported_height = pos 91;
  consensus_params = 1;
}

exported_run :
    export_app_state_and_validators sdk (pos 90) false [] ("bank" ∷ []) (store_at 42 false)
    ≡ (ok (exported, none), store_at 42 false)
unfolding export_app_state_and_validators export_state exported_from ◌+ℤ◌
exported_run = refl

export_heights_example :
    (exported.exported_height ≡ pos 90 +ℤ pos 1)
    × (◌≡◌ {A = Store} (store_at 42 false) (store_at 42 false))
    × ((g : ℤ) × (j : ℤ) × (sdk.export_genesis_for_modules
            (pos 90)
            ("bank" ∷ [])
            (store_at 42 false)
          ≡ ok g)
        × (sdk.marshal_indent g ≡ ok j)
        × (exported.app_state ≡ some j))
export_heights_example =
    export_heights sdk (pos 90) false [] ("bank" ∷ []) (store_at 42 false) (store_at 42 false)
      exported exported_run
