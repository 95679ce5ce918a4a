-- ===== src/InPlace/Runs.antt =====
-- A testnet over a store of two keys, and the theorems of these modules at concrete inputs.
use base_protocol_system.Base.{
  ℕ, ◌+◌, ◌*◌, ◌≡◌, ◌≢◌, refl, ap, ◌∙◌, sym, Bool, true, false, some, List, [], ◌∷◌, ◌++◌, length,
  String, str_eq, pos, arith, Outcome, ok, err, for_each, ◌-ℤ◌, Bool-cases, inl, inr, ◌⊎◌,
  if◌then◌else◌,
}
use base_protocol_system.InPlace.Sdk.{InPlaceSdk, InPlaceLaws, validators}
use base_protocol_system.InPlace.{
  fund_account, fund_accounts, remove_validators, delete_all, new_testnet_app, ValArgs,
  init_app_for_testnet, set_up_validator, with_key, new_validator, with_validator,
  install_validator, add_validator, init_distribution, init_slashing,
}
use base_protocol_system.InPlace.Funding.{fund_accounts-supply, unset_accounts_fail}
use base_protocol_system.InPlace.Only.{OwnerLaws, init_app_only}

-- `true` is the key of an old validator, and `false` that of the validator "op".
record Store : Type 0 where
  old : Bool
  new' : Bool
  total : ℕ

abbrev is_stored : Bool → Store → Bool
is_stored true s = s.old
is_stored false s = s.new'

abbrev remove : Bool → Store → Store
remove true s = record s { old = false }
remove false s = record s { new' = false }

abbrev new_keys : Store → List Bool
new_keys s = if s.new' then false ∷ [] else []

abbrev keys : Store → List Bool
keys s = if s.old then true ∷ new_keys s else new_keys s

-- Only "op" is stored.
abbrev add : String → Store → Outcome Bool (Unit {0}) × Store
add operator s = if str_eq operator "op" then (ok tt, record s { new' = true }) else (err true, s)

-- The empty text is no address. The options are the text of the flag of the accounts.
abbrev sdk : InPlaceSdk
sdk = record {
  Opts = String;
  HexBytes = ℕ;
  PubKey = ℕ;
  State = Store;
  Ext = Bool;
  Bytes = String;
  Key = Bool;
  Any = ℕ;
  LegacyDec = String;
  Coins = ℕ;
  Historical = ℕ;
  Current = ℕ;
  Commission = ℕ;
  Outstanding = ℕ;
  get_new_val_addr = λ o. some 1;
  get_user_pub_key = λ o. some 2;
  get_new_op_addr = λ o. some "op";
  get_trigger_testnet_upgrade = λ o. some "";
  get_accounts_to_fund = λ o. o;
  get_home = λ o. "home";
  new_any_with_value = ok;
  must_dec = some;
  staking_validator_bytes = ok;
  account_bytes = λ a. if str_eq a "" then err true else ok a;
  power_keys = λ s. ok (keys s);
  last_validator_keys = λ s. ok (keys s);
  validators_keys = keys;
  validator_queue_keys = keys;
  delete = remove;
  set_validator = λ v. add v.operator_address;
  set_validator_by_cons_addr = λ v s. (ok tt, s);
  set_validator_by_power_index = λ v. add v.operator_address;
  set_last_validator_power = λ a n s. (ok tt, s);
  after_validator_created = λ a s. (ok tt, s);
  no_rewards_at = λ n. n;
  no_current_rewards_at = λ n. n;
  initial_commission = 0;
  no_outstanding_rewards = 0;
  set_validator_historical_rewards = λ a n r s. (ok tt, s);
  set_validator_current_rewards = λ a r s. (ok tt, s);
  set_validator_accumulated_commission = λ a c s. (ok tt, s);
  set_validator_outstanding_rewards = λ a r s. (ok tt, s);
  last_block_height = λ s. pos 9;
  set_validator_signing_info = λ i s. (ok tt, s);
  bond_denom = λ s. ok "ubps";
  new_coins = λ d n. some n;
  mint_coins = λ c s. (ok tt, record s { total = s.total + c });
  send_coins_from_mint_to_account = λ a c s. (ok tt, s);
}

ok_same : {x y : List Bool} → ◌≡◌ {A = Outcome Bool (List Bool)} (ok x) (ok y) → x ≡ y
ok_same e = ground arith

some_same : {x y : ℕ} → some x ≡ some y → y ≡ x
some_same e = ground arith

listed :
    (x : Bool) (s : Store) (ks : List Bool)
    → is_stored x s ≡ true
    → keys s ≡ ks
    → (before after : List Bool) × (ks ≡ before ++ (x ∷ after))
listed true s ks h e = ([], new_keys s, sym e ∙ rw (h) refl)
listed false s ks h e = elim (Bool-cases s.old) [
  | inl o ↦ (true ∷ [], [], sym e ∙ rw (o, h) refl)
  | inr o ↦ ([], [], sym e ∙ rw (o, h) refl)
]

remove_removes : (x : Bool) (s : Store) → is_stored x (remove x s) ≡ false
remove_removes true s = refl
remove_removes false s = refl

remove_adds_none :
    (x y : Bool) (s : Store) → is_stored y s ≡ false → is_stored y (remove x s) ≡ false
remove_adds_none true true s h = refl
remove_adds_none true false s h = h
remove_adds_none false true s h = h
remove_adds_none false false s h = refl

abbrev sdk_laws : InPlaceLaws sdk
sdk_laws = record {
  stored = is_stored;
  delete_removes = remove_removes;
  delete_adds_none = remove_adds_none;
  indexed = λ i x. true;
  power_keys_all = λ x s ks i h e. listed x s ks h (ok_same e);
  last_validator_keys_all = λ x s ks i h e. listed x s ks h (ok_same e);
  validators_keys_all = λ x s i h. listed x s (keys s) h refl;
  validator_queue_keys_all = λ x s i h. listed x s (keys s) h refl;
  supply = λ s. s.total;
  worth = λ c. c;
  worth-new_coins = λ d n c e. some_same e;
  supply-mint_coins = λ c s t e. ap (λ (p : Outcome Bool (Unit {0}) × Store). p.1.total) (sym e);
  supply-send = λ a c s t e. ap (λ (p : Outcome Bool (Unit {0}) × Store). p.1.total) (sym e);
}

-- Whose validator the two keys are about.
abbrev is_about : Bool → String → Bool
is_about true operator = false
is_about false operator = str_eq operator "op"

add_adds :
    (y : Bool) (operator : String) (s t : Store)
    → add operator s ≡ (ok tt, t)
    → is_stored y t ≡ true
    → (is_stored y s ≡ true) ⊎ (is_about y operator ≡ true)
add_adds true operator s t e h = elim (Bool-cases (str_eq operator "op")) [
  | inl o ↦ inl (ground arith)
  | inr o ↦ absurd (ground arith)
]
add_adds false operator s t e h = elim (Bool-cases (str_eq operator "op")) [
  | inl o ↦ inr o
  | inr o ↦ absurd (ground arith)
]

same_store :
    (y : Bool) (r : Outcome Bool (Unit {0})) (s t : Store)
    → ◌≡◌ {A = Outcome Bool (Unit {0}) × Store} (r, s) (ok tt, t)
    → is_stored y t ≡ true
    → is_stored y s ≡ true
same_store y r s t e h = ap (λ (p : Outcome Bool (Unit {0}) × Store). is_stored y p.1) e ∙ h

minted_leaves :
    (y : Bool) (n : ℕ) (s : Store) → is_stored y (record s { total = n }) ≡ is_stored y s
minted_leaves true n s = refl
minted_leaves false n s = refl

abbrev owner_laws : OwnerLaws sdk sdk_laws
owner_laws = record {
  about = is_about;
  set_validator_adds = λ y v s t e h. add_adds y v.operator_address s t e h;
  set_validator_by_cons_addr_adds = λ y v s t e h. inl (same_store y (ok tt) s t e h);
  set_validator_by_power_index_adds = λ y v s t e h. add_adds y v.operator_address s t e h;
  set_last_validator_power_adds = λ y operator b n s t d e h. inl (same_store y (ok tt) s t e h);
  after_validator_created_leaves = λ y b s. refl;
  historical_leaves = λ y b n r s. refl;
  current_leaves = λ y b r s. refl;
  commission_leaves = λ y b c s. refl;
  outstanding_leaves = λ y b r s. refl;
  signing_info_leaves = λ y i s. refl;
  mint_leaves = λ y c s. minted_leaves y (s.total + c) s;
  send_leaves = λ y b c s. refl;
}

abbrev store : Store
store = record { old = true; new' = false; total = 5 }

funded : fund_accounts sdk ("a" ∷ "b" ∷ []) store ≡ (ok tt, record store { total = 2000000005 })
unfolding fund_accounts fund_account for_each
funded = refl

fund_accounts-supply_example : 2000000005 ≡ 5 + length {A = String} ("a" ∷ "b" ∷ []) * 1000000000
fund_accounts-supply_example =
    fund_accounts-supply sdk sdk_laws ("a" ∷ "b" ∷ []) store (record store { total = 2000000005 })
      funded

unset_accounts_fail_example : new_testnet_app sdk "" store ≢ (ok tt, store)
unset_accounts_fail_example = unset_accounts_fail sdk "" true store store refl refl

abbrev args : ValArgs sdk
args = record {
  new_val_addr = 1;
  new_operator_address = "op";
  new_val_pub_key = 2;
  accounts_to_fund = "a" ∷ [];
  upgrade_to_trigger = "";
  home_dir = "home";
}

abbrev ready : Store
ready = record { old = false; new' = true; total = 1000000005 }

started : init_app_for_testnet sdk args store ≡ (ok tt, ready)
unfolding init_app_for_testnet set_up_validator with_key new_validator with_validator
    install_validator remove_validators delete_all add_validator init_distribution init_slashing
    fund_accounts fund_account for_each ◌-ℤ◌
started = refl

init_app_only_example : owner_laws.about false "op" ≡ true
init_app_only_example =
    init_app_only sdk sdk_laws owner_laws args store ready validators false started refl refl
