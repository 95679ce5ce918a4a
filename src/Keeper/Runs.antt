-- ===== src/Keeper/Runs.antt =====
-- Runs of the keeper over a store of one cell, and the theorems of its modules at concrete inputs.
use base_protocol_system.Base.{
  ◌≡◌, refl, ap, ◌≢◌, ◌↔◌, ◌⊎◌, Bool, true, false, Option, none, some, String, arith, if◌then◌else◌,
  Outcome, ok, err, str_eq, str_eq→eq, str_eq_same,
}
use base_protocol_system.Keeper.Sdk.{KeeperSdk, KeeperSdkLaws}
use base_protocol_system.Keeper.{
  Params, params, GenesisState, MsgUpdateParams, Keeper, provide_module, update_params,
  query_params, default_params,
}
use base_protocol_system.Keeper.Authority.{update_params_iff, query_params_iff}

true≢false : {A : Type 0} → true ≡ false → A
true≢false e = absurd (cc)

pub data Failure : Type 0 where
  not_found bad_text bad_json : Failure

-- Addresses are texts, and the empty text is none; JSON is the genesis or garbage.
abbrev pub sdk : KeeperSdk Params GenesisState
sdk = record {
  State = Option Params;
  Ext = Failure;
  Bytes = String;
  Json = Option GenesisState;
  is_not_found = λ e. elim e [ not_found ↦ true | _ ↦ false ];
  bytes_equal = str_eq;
  string_to_bytes = λ s. if str_eq s "" then err bad_text else ok s;
  bytes_to_string = ok;
  params_get = λ s. elim s [ none ↦ err not_found | some p ↦ ok p ];
  params_set = λ p s. (ok tt, some p);
  build_schema = true;
  new_module_address = λ s. s;
  new_module_address_or_bech32_address = λ s. s;
  unmarshal_json = λ j. elim j [ none ↦ err bad_json | some gs ↦ ok gs ];
  marshal_json = λ gs. ok (some gs);
}

bytes_equal_iff : (a b : String) → (str_eq a b ≡ true) ↔ (a ≡ b)
bytes_equal_iff a b = (str_eq→eq a b, str_eq_same a b)

pub sdk_laws : KeeperSdkLaws sdk
sdk_laws = record {
  bytes_equal_iff = bytes_equal_iff;
  get-set = λ p s t e. ground arith;
  unmarshal-marshal = λ g j e. ground arith;
}

abbrev pub gov_keeper : Keeper sdk
gov_keeper = record { authority_bytes = "gov" }

abbrev update_by : String → MsgUpdateParams
update_by authority = record { authority = authority; new_params = params }

updated : update_params sdk gov_keeper (update_by "gov") none ≡ (ok tt, some params)
unfolding update_params
updated = refl

pub built : provide_module sdk "" ≡ some gov_keeper
unfolding provide_module
built = refl

update_params_iff_example :
    (update_params sdk gov_keeper (update_by "gov") none ≡ (ok tt, some params))
    ↔ ((sdk.string_to_bytes "gov" ≡ ok "gov") × (sdk.params_set params none ≡ (ok tt, some params)))
update_params_iff_example =
    update_params_iff sdk sdk_laws gov_keeper (update_by "gov") none (some params)

is_eve : Outcome Failure String → Bool
is_eve (ok s) = str_eq s "eve"
is_eve _ = false

eve_is_not_gov : sdk.string_to_bytes "eve" ≢ ok "gov"
unfolding is_eve
eve_is_not_gov e = true≢false (ap is_eve e)

query_params_iff_example : (query_params sdk (some tt) none ≡ (ok params, none)) ↔ (
    (◌≡◌ {A = Option Params} none none)
    × ((sdk.params_get none ≡ ok params)
        ⊎ ((e : Failure) × (sdk.params_get none ≡ err e)
            × (sdk.is_not_found e ≡ true)
            × (params ≡ default_params))))
query_params_iff_example = query_params_iff sdk sdk_laws none none params
