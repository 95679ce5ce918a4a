-- ===== src/InPlace/Only.antt =====
-- The validators that a testnet starts with.
use base_protocol_system.Base.{
  ℕ, ◌≡◌, sym, ap, ◌∙◌, Bool, true, List, String, arith, ◌⊎◌, inl, inr, Action, ok, ◌>>=◌, ◌>>◌,
  read, must, dropped, for_each, bind-ok, then-ok, Outcome-cases, Option-cases,
}
use mathlib.Core.Path.{subst}
use base_protocol_system.Base.Keeps.{Keeps, Keeps-bind, Keeps-read, Keeps-must, Keeps-for_each}
use base_protocol_system.InPlace.Sdk.{InPlaceSdk, InPlaceLaws, Index, TestValidator}
use base_protocol_system.InPlace.Clearing.{remove_validators_clears}
use base_protocol_system.InPlace.{
  ValArgs, signing_info, new_validator, remove_validators, add_validator, init_distribution,
  init_slashing, set_up_validator, install_validator, with_key, with_validator, fund_account,
  fund_accounts, init_app_for_testnet,
}

-- Whose validator a key is about. The calls that write a validator store no keys about others, and the
-- calls of the other modules leave the staking store alone, also where they fail and the error is
-- dropped.
pub record OwnerLaws (k : InPlaceSdk) (l : InPlaceLaws k) : Type 0 where
  pub about : k.Key → String → Bool
  pub set_validator_adds :
      (y : k.Key) (v : TestValidator k.Any k.LegacyDec) (s t : k.State)
      → k.set_validator v s ≡ (ok tt, t)
      → l.stored y t ≡ true
      → (l.stored y s ≡ true) ⊎ (about y v.operator_address ≡ true)
  pub set_validator_by_cons_addr_adds :
      (y : k.Key) (v : TestValidator k.Any k.LegacyDec) (s t : k.State)
      → k.set_validator_by_cons_addr v s ≡ (ok tt, t)
      → l.stored y t ≡ true
      → (l.stored y s ≡ true) ⊎ (about y v.operator_address ≡ true)
  pub set_validator_by_power_index_adds :
      (y : k.Key) (v : TestValidator k.Any k.LegacyDec) (s t : k.State)
      → k.set_validator_by_power_index v s ≡ (ok tt, t)
      → l.stored y t ≡ true
      → (l.stored y s ≡ true) ⊎ (about y v.operator_address ≡ true)
  pub set_last_validator_power_adds :
      (y : k.Key) (operator : String) (b : k.Bytes) (n : ℕ) (s t : k.State)
      → k.staking_validator_bytes operator ≡ ok b
      → k.set_last_validator_power b n s ≡ (ok tt, t)
      → l.stored y t ≡ true
      → (l.stored y s ≡ true) ⊎ (about y operator ≡ true)
  pub after_validator_created_leaves :
      (y : k.Key) (b : k.Bytes) (s : k.State)
      → l.stored y ((k.after_validator_created b s).1) ≡ l.stored y s
  pub historical_leaves :
      (y : k.Key) (b : k.Bytes) (n : ℕ) (r : k.Historical) (s : k.State)
      → l.stored y ((k.set_validator_historical_rewards b n r s).1) ≡ l.stored y s
  pub current_leaves :
      (y : k.Key) (b : k.Bytes) (r : k.Current) (s : k.State)
      → l.stored y ((k.set_validator_current_rewards b r s).1) ≡ l.stored y s
  pub commission_leaves :
      (y : k.Key) (b : k.Bytes) (c : k.Commission) (s : k.State)
      → l.stored y ((k.set_validator_accumulated_commission b c s).1) ≡ l.stored y s
  pub outstanding_leaves :
      (y : k.Key) (b : k.Bytes) (r : k.Outstanding) (s : k.State)
      → l.stored y ((k.set_validator_outstanding_rewards b r s).1) ≡ l.stored y s
  pub signing_info_leaves :
      (y : k.Key) (i : _) (s : k.State)
      → l.stored y ((k.set_validator_signing_info i s).1) ≡ l.stored y s
  pub mint_leaves :
      (y : k.Key) (c : k.Coins) (s : k.State) → l.stored y ((k.mint_coins c s).1) ≡ l.stored y s
  pub send_leaves :
      (y : k.Key) (b : k.Bytes) (c : k.Coins) (s : k.State)
      → l.stored y ((k.send_coins_from_mint_to_account b c s).1) ≡ l.stored y s

module _ (k : InPlaceSdk) (l : InPlaceLaws k) (o : OwnerLaws k l) where
  open k use {State, Ext, Bytes, Key, Any, LegacyDec, Coins}

  -- Every validator of the indices is the operator's.
  abbrev pub OnlyOf : String → State → Type 0
  OnlyOf operator s =
      (i : Index) (x : Key) → l.indexed i x ≡ true → l.stored x s ≡ true → o.about x operator ≡ true

  adds-OnlyOf :
      {A : Type 0} (operator : String) (m : Action State Ext A)
      → ((y : Key) (s t : State) (a : A)
          → m s ≡ (ok a, t)
          → l.stored y t ≡ true
          → (l.stored y s ≡ true) ⊎ (o.about y operator ≡ true))
      → Keeps (OnlyOf operator) m
  adds-OnlyOf operator m adds s t a e h i x indexed there = elim (adds x s t a e there) [
    | inl before ↦ h i x indexed before
    | inr about ↦ about
  ]

  leaves-OnlyOf :
      {A : Type 0} (operator : String) (m : Action State Ext A)
      → ((y : Key) (s : State) → l.stored y ((m s).1) ≡ l.stored y s)
      → Keeps (OnlyOf operator) m
  leaves-OnlyOf operator m leaves =
      adds-OnlyOf operator m
        λ y s t a e there. inl (sym (leaves y s) ∙ ap (λ p. l.stored y p.1) e ∙ there)

  add_validator-OnlyOf :
      (v : TestValidator Any LegacyDec) (b : Bytes)
      → k.staking_validator_bytes v.operator_address ≡ ok b
      → Keeps (OnlyOf v.operator_address) (add_validator k v b)
  unfolding add_validator
  add_validator-OnlyOf v b decoded =
      let P = OnlyOf v.operator_address in
      let created = k.after_validator_created b in
      let power = k.set_last_validator_power b 0 >> created in
      let by_power = k.set_validator_by_power_index v >> power in
      Keeps-bind P (k.set_validator v) (λ _. k.set_validator_by_cons_addr v >> by_power)
        (adds-OnlyOf v.operator_address (k.set_validator v) λ y s t a. o.set_validator_adds y v s t)
        λ _.
          Keeps-bind P (k.set_validator_by_cons_addr v) (λ _. by_power)
            (adds-OnlyOf v.operator_address (k.set_validator_by_cons_addr v)
              λ y s t a. o.set_validator_by_cons_addr_adds y v s t)
            λ _.
              Keeps-bind P (k.set_validator_by_power_index v) (λ _. power)
                (adds-OnlyOf v.operator_address (k.set_validator_by_power_index v)
                  λ y s t a. o.set_validator_by_power_index_adds y v s t)
                λ _.
                  Keeps-bind P (k.set_last_validator_power b 0) (λ _. created)
                    (adds-OnlyOf v.operator_address (k.set_last_validator_power b 0) λ y s t a.
                      o.set_last_validator_power_adds y v.operator_address b 0 s t decoded)
                    λ _.
                      leaves-OnlyOf v.operator_address created
                        (λ y s. o.after_validator_created_leaves y b s)

  init_distribution-OnlyOf :
      (operator : String) (b : Bytes) → Keeps (OnlyOf operator) (init_distribution k b)
  unfolding init_distribution
  init_distribution-OnlyOf operator b =
      let P = OnlyOf operator in
      let outstanding = k.set_validator_outstanding_rewards b k.no_outstanding_rewards in
      let commission = k.set_validator_accumulated_commission b k.initial_commission in
      let current = k.set_validator_current_rewards b (k.no_current_rewards_at 1) in
      let historical = k.set_validator_historical_rewards b 0 (k.no_rewards_at 1) in
      Keeps-bind P historical (λ _. current >> (commission >> outstanding))
        (leaves-OnlyOf operator historical (λ y s. o.historical_leaves y b 0 (k.no_rewards_at 1) s))
        λ _.
          Keeps-bind P current (λ _. commission >> outstanding)
            (leaves-OnlyOf operator current
              (λ y s. o.current_leaves y b (k.no_current_rewards_at 1) s))
            λ _.
              Keeps-bind P commission (λ _. outstanding)
                (leaves-OnlyOf operator commission
                  (λ y s. o.commission_leaves y b k.initial_commission s))
                λ _.
                  leaves-OnlyOf operator outstanding
                    (λ y s. o.outstanding_leaves y b k.no_outstanding_rewards s)

  dropped_lem :
      (m : Action State Ext (Unit {0})) (s : State)
      → ◌≡◌ {A = State} ((dropped {F = Ext} m s).1) ((m s).1)
  dropped_lem m s = elim (Outcome-cases ((m s).0)) [
    | inl (u, p) ↦ ground arith
    | inr (inl (x, p)) ↦ ground arith
    | inr (inr p) ↦ ground arith
  ]

  init_slashing-OnlyOf :
      (operator : String) (args : ValArgs k) → Keeps (OnlyOf operator) (init_slashing k args)
  unfolding init_slashing
  init_slashing-OnlyOf operator args = leaves-OnlyOf operator (init_slashing k args) λ y s.
      let info = signing_info k args (k.last_block_height s) in
      ap (l.stored y) (dropped_lem (k.set_validator_signing_info info) s)
      ∙ o.signing_info_leaves y info s

  fund_account-OnlyOf :
      (operator : String) (c : Coins) (a : String) → Keeps (OnlyOf operator) (fund_account k c a)
  unfolding fund_account
  fund_account-OnlyOf operator c a =
      let P = OnlyOf operator in
      let send = λ (b : Bytes). k.send_coins_from_mint_to_account b c in
      let decode : Action State Ext Bytes = read (λ s. k.account_bytes a) in
      Keeps-bind P (k.mint_coins c) (λ _. decode >>= send)
        (leaves-OnlyOf operator (k.mint_coins c) (λ y s. o.mint_leaves y c s))
        λ _.
          Keeps-bind P decode send (Keeps-read P (λ s. k.account_bytes a))
            λ b. leaves-OnlyOf operator (send b) (λ y s. o.send_leaves y b c s)

  fund_accounts-OnlyOf :
      (operator : String) (accounts : List String)
      → Keeps (OnlyOf operator) (fund_accounts k accounts)
  unfolding fund_accounts
  fund_accounts-OnlyOf operator accounts =
      let P = OnlyOf operator in
      let fund = λ (c : Coins). for_each (fund_account k c) accounts in
      let coins = λ (denom : String). k.new_coins denom 1000000000 in
      Keeps-bind P (read k.bond_denom) (λ denom. must (coins denom) >>= fund)
        (Keeps-read P k.bond_denom)
        λ denom.
          Keeps-bind P (must (coins denom)) fund (Keeps-must P (coins denom))
            λ c. Keeps-for_each P (fund_account k c) accounts (fund_account-OnlyOf operator c)

  new_validator-operator :
      (args : ValArgs k) (key : Any) (s t : State) (v : TestValidator Any LegacyDec)
      → new_validator k args key s ≡ (ok v, t)
      → v.operator_address ≡ args.new_operator_address
  unfolding new_validator
  new_validator-operator args key s t v e = elim (Option-cases (k.must_dec "10000000")) [
    | inl p ↦ absurd (ground arith)
    | inr (shares, p) ↦ elim (Option-cases (k.must_dec "0.05")) [
      | inl q ↦ absurd (ground arith)
      | inr (rate, q) ↦ elim (Option-cases (k.must_dec "0.1")) [
        | inl r ↦ absurd (ground arith)
        | inr (max_rate, r) ↦ ground arith
      ]
    ]
  ]

  -- The old validators go, whatever they were, and the new one comes.
  install-OnlyOf :
      (args : ValArgs k) (v : TestValidator Any LegacyDec) (b : Bytes) (s t : State)
      → k.staking_validator_bytes v.operator_address ≡ ok b
      → install_validator k args v b s ≡ (ok tt, t)
      → OnlyOf v.operator_address t
  unfolding install_validator
  install-OnlyOf args v b s t decoded e =
      let P = OnlyOf v.operator_address in
      let last = init_distribution k b >> init_slashing k args in
      let (s1, removed, rest) =
        then-ok (remove_validators k) (add_validator k v b >> last) s t tt e in
      Keeps-bind P (add_validator k v b) (λ _. last) (add_validator-OnlyOf v b decoded)
        (λ _.
          Keeps-bind P (init_distribution k b) (λ _. init_slashing k args)
            (init_distribution-OnlyOf v.operator_address b)
            (λ _. init_slashing-OnlyOf v.operator_address args))
        s1 t tt rest
        λ i x indexed there.
          absurd (let gone = remove_validators_clears k l s s1 i x removed indexed in cc)

  set_up_validator-OnlyOf :
      (args : ValArgs k) (s t : State)
      → set_up_validator k args s ≡ (ok tt, t)
      → OnlyOf args.new_operator_address t
  unfolding set_up_validator with_key with_validator
  set_up_validator-OnlyOf args s t e =
      let (key, s1, _, e1) =
        bind-ok (read (λ s. k.new_any_with_value args.new_val_pub_key)) (with_key k args) s t tt
          e in
      let (v, s2, made, e2) =
        bind-ok (new_validator k args key) (with_validator k args) s1 t tt e1 in
      let (b, s3, decoded, e3) =
        bind-ok (read (λ s. k.staking_validator_bytes v.operator_address))
          (install_validator k args v) s2 t tt e2 in
      subst (λ op. OnlyOf op t) (new_validator-operator args key s1 s2 v made)
        (install-OnlyOf args v b s3 t (ground arith) e3)

  -- A testnet that was set up and whose accounts were funded starts with no other validator: every
  -- key of the four indices of the validators that is stored is about the new operator's.
  pub init_app_only :
      (args : ValArgs k) (s t : State) (i : Index) (x : Key)
      → init_app_for_testnet k args s ≡ (ok tt, t)
      → l.indexed i x ≡ true
      → l.stored x t ≡ true
      → o.about x args.new_operator_address ≡ true
  unfolding init_app_for_testnet
  init_app_only args s t i x e =
      let (s', ready, funded) =
        then-ok (set_up_validator k args) (fund_accounts k args.accounts_to_fund) s t tt e in
      fund_accounts-OnlyOf args.new_operator_address args.accounts_to_fund s' t tt funded
        (set_up_validator-OnlyOf args s s' ready) i x
