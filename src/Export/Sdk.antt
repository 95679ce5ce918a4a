-- ===== src/Export/Sdk.antt =====
-- What app/export.go takes from outside the repository: the keepers of the staking, distribution and
-- slashing modules, the address codecs, and the module manager.
use base_protocol_system.Base.{
  ◌≡◌, Bool, Option, List, ◌∷◌, ◌++◌, map, String, ℤ, Outcome, Action, ok, visit,
}

-- An entry of a redelegation or of an unbonding delegation, and a record of such entries; `Rest` is
-- what the code does not touch.
pub record Entry (Rest : Type 0) : Type 0 where
  pub creation_height : ℤ
  pub entry_rest : Rest

pub record Unbonding (Key Rest : Type 0) : Type 0 where
  pub parties : Key
  pub entries : List (Entry Rest)

pub record Validator (Rest : Type 0) : Type 0 where
  pub operator : String
  pub unbonding_height : ℤ
  pub jailed : Bool
  pub validator_rest : Rest

pub record Delegation : Type 0 where
  pub delegator_address : String
  pub validator_address : String

pub record FeePool (Coins Rest : Type 0) : Type 0 where
  pub community_pool : Coins
  pub pool_rest : Rest

pub record SigningInfo (Rest : Type 0) : Type 0 where
  pub start_height : ℤ
  pub info_rest : Rest

-- The number that a call takes is the block height of its context. `none` is a panic.
pub record ExportSdk : Type 1 where
  pub State : Type 0
  pub Ext : Type 0
  pub Bytes : Type 0
  pub Parties : Type 0
  pub Rest : Type 0
  pub Coins : Type 0
  pub GenState : Type 0
  pub Json : Type 0
  pub GenesisValidators : Type 0
  pub ConsensusParams : Type 0
  pub validator_bytes : String → Outcome Ext Bytes
  pub staking_validator_bytes : String → Outcome Ext Bytes
  pub account_bytes : String → Outcome Ext Bytes
  pub staking_validator_text : Bytes → Outcome Ext String
  pub iterate_validators :
      ℤ → (Validator Rest → Action State Ext Bool) → Action State Ext (Unit {0})
  pub get_all_delegations : State → Outcome Ext (List Delegation)
  pub withdraw_validator_commission : ℤ → Bytes → Action State Ext (Unit {0})
  pub withdraw_delegation_rewards : ℤ → Bytes → Bytes → Action State Ext (Unit {0})
  pub delete_all_validator_slash_events : ℤ → State → State
  pub delete_all_validator_historical_rewards : ℤ → State → State
  pub get_validator_outstanding_rewards_coins : Bytes → State → Outcome Ext Coins
  pub fee_pool_get : State → Outcome Ext (FeePool Coins Rest)
  pub fee_pool_set : FeePool Coins Rest → Action State Ext (Unit {0})
  pub add : Coins → Coins → Option Coins
  pub after_validator_created : ℤ → Bytes → Action State Ext (Unit {0})
  pub before_delegation_created : ℤ → Bytes → Bytes → Action State Ext (Unit {0})
  pub after_delegation_modified : ℤ → Bytes → Bytes → Action State Ext (Unit {0})
  pub iterate_redelegations :
      (Unbonding Parties Rest → Action State Ext Bool) → Action State Ext (Unit {0})
  pub set_redelegation : Unbonding Parties Rest → Action State Ext (Unit {0})
  pub iterate_unbonding_delegations :
      (Unbonding Parties Rest → Action State Ext Bool) → Action State Ext (Unit {0})
  pub set_unbonding_delegation : Unbonding Parties Rest → Action State Ext (Unit {0})
  -- The addresses in the keys of the validators, in the order of the reverse iterator.
  pub validator_keys : State → List Bytes
  pub close_iterator : State → Outcome Ext (Unit {0})
  pub get_validator : Bytes → State → Outcome Ext (Validator Rest)
  pub set_validator : Validator Rest → Action State Ext (Unit {0})
  pub apply_and_return_validator_set_updates : ℤ → Action State Ext (Unit {0})
  pub iterate_validator_signing_infos :
      (Bytes × SigningInfo Rest → Action State Ext Bool) → Action State Ext (Unit {0})
  pub set_validator_signing_info : Bytes → SigningInfo Rest → Action State Ext (Unit {0})
  pub export_genesis_for_modules : ℤ → List String → State → Outcome Ext GenState
  pub marshal_indent : GenState → Outcome Ext Json
  -- `staking.WriteValidators` returns its validators beside its error.
  pub write_validators : ℤ → State → GenesisValidators × Option Ext
  pub get_consensus_params : ℤ → State → ConsensusParams
  pub no_validators : GenesisValidators
  pub no_consensus_params : ConsensusParams

-- The stores of the staking and slashing modules, seen as lists of their records. An iterator that
-- ends well visited them in order, writing a record puts it in the place of the one with its key,
-- and the calls that come later leave the other stores alone.
pub record ExportLaws (k : ExportSdk) : Type 0 where
  pub redelegations : k.State → List (Unbonding k.Parties k.Rest)
  pub unbondings : k.State → List (Unbonding k.Parties k.Rest)
  pub validators : k.State → List (k.Bytes × Validator k.Rest)
  pub signing_infos : k.State → List (k.Bytes × SigningInfo k.Rest)
  pub visit-redelegations :
      (f : Unbonding k.Parties k.Rest → Action k.State k.Ext Bool) (s t : k.State)
      → k.iterate_redelegations f s ≡ (ok tt, t)
      → visit f (redelegations s) s ≡ (ok tt, t)
  pub visit-unbondings :
      (f : Unbonding k.Parties k.Rest → Action k.State k.Ext Bool) (s t : k.State)
      → k.iterate_unbonding_delegations f s ≡ (ok tt, t)
      → visit f (unbondings s) s ≡ (ok tt, t)
  pub visit-signing_infos :
      (f : k.Bytes × SigningInfo k.Rest → Action k.State k.Ext Bool) (s t : k.State)
      → k.iterate_validator_signing_infos f s ≡ (ok tt, t)
      → visit f (signing_infos s) s ≡ (ok tt, t)
  pub redelegations-set :
      (before after : List (Unbonding k.Parties k.Rest)) (a b : Unbonding k.Parties k.Rest)
      (s t : k.State)
      → redelegations s ≡ before ++ (a ∷ after)
      → b.parties ≡ a.parties
      → k.set_redelegation b s ≡ (ok tt, t)
      → redelegations t ≡ before ++ (b ∷ after)
  pub unbondings-set :
      (before after : List (Unbonding k.Parties k.Rest)) (a b : Unbonding k.Parties k.Rest)
      (s t : k.State)
      → unbondings s ≡ before ++ (a ∷ after)
      → b.parties ≡ a.parties
      → k.set_unbonding_delegation b s ≡ (ok tt, t)
      → unbondings t ≡ before ++ (b ∷ after)
  pub signing_infos-set :
      (before after : List (k.Bytes × SigningInfo k.Rest)) (a : k.Bytes) (v w : SigningInfo k.Rest)
      (s t : k.State)
      → signing_infos s ≡ before ++ ((a, v) ∷ after)
      → k.set_validator_signing_info a w s ≡ (ok tt, t)
      → signing_infos t ≡ before ++ ((a, w) ∷ after)
  pub keys-validators :
      (s : k.State)
      → k.validator_keys s ≡ map (λ (v : k.Bytes × Validator k.Rest). v.0) (validators s)
  pub get-validators :
      (before after : List (k.Bytes × Validator k.Rest)) (a : k.Bytes) (v : Validator k.Rest)
      (s : k.State)
      → validators s ≡ before ++ ((a, v) ∷ after)
      → k.get_validator a s ≡ ok v
  pub validators-set :
      (before after : List (k.Bytes × Validator k.Rest)) (a : k.Bytes) (v w : Validator k.Rest)
      (s t : k.State)
      → validators s ≡ before ++ ((a, v) ∷ after)
      → w.operator ≡ v.operator
      → k.set_validator w s ≡ (ok tt, t)
      → validators t ≡ before ++ ((a, w) ∷ after)
  pub set_unbonding_keeps :
      (u : Unbonding k.Parties k.Rest) (s t : k.State)
      → k.set_unbonding_delegation u s ≡ (ok tt, t)
      → redelegations t ≡ redelegations s
  pub set_validator_keeps :
      (v : Validator k.Rest) (s t : k.State)
      → k.set_validator v s ≡ (ok tt, t)
      → (redelegations t ≡ redelegations s) × (unbondings t ≡ unbondings s)
  pub apply_keeps :
      (h : ℤ) (s t : k.State)
      → k.apply_and_return_validator_set_updates h s ≡ (ok tt, t)
      → (redelegations t ≡ redelegations s) × (unbondings t ≡ unbondings s)
  pub set_signing_info_keeps :
      (a : k.Bytes) (i : SigningInfo k.Rest) (s : k.State)
      → (redelegations ((k.set_validator_signing_info a i s).1) ≡ redelegations s)
        × (unbondings ((k.set_validator_signing_info a i s).1) ≡ unbondings s)
