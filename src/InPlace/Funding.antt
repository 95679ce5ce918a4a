-- ===== src/InPlace/Funding.antt =====
-- What the funding of the local accounts mints, and where it ends.
use base_protocol_system.Base.{
  ◌+◌, ◌*◌, ◌≡◌, ◌≢◌, refl, sym, ap, ◌∙◌, List, [], ◌∷◌, length, String, split, arith, inl, inr, ok,
  err, ◌>>=◌, ◌>>◌, read, for_each, Outcome-cases, Option-cases, then-ok, bind-ok,
}
use base_protocol_system.Base.Passes.{for_each_round}
use base_protocol_system.InPlace.Sdk.{InPlaceSdk, InPlaceLaws}
use base_protocol_system.InPlace.{
  ValArgs, get_command_args, set_up_validator, fund_account, fund_accounts, init_app_for_testnet,
  new_testnet_app,
}

module _ (k : InPlaceSdk) (l : InPlaceLaws k) where
  open k use {State, Ext, Bytes, Coins}

  fund_account-supply :
      (coins : Coins) (account : String) (s t : State)
      → fund_account k coins account s ≡ (ok tt, t)
      → l.supply t ≡ l.supply s + l.worth coins
  unfolding fund_account
  fund_account-supply coins account s t e =
      let (_, s1, minted, rest) =
        bind-ok (k.mint_coins coins)
          (λ _.
            read (λ s'. k.account_bytes account) >>= λ a. k.send_coins_from_mint_to_account a coins)
          s t tt e in
      let (a, s2, decoded, sent) =
        bind-ok (read (λ s'. k.account_bytes account))
          (λ a. k.send_coins_from_mint_to_account a coins) s1 t tt rest in
      let same : s2 ≡ s1 = ground arith in
      l.supply-send a coins s2 t sent ∙ ap l.supply same ∙ l.supply-mint_coins coins s s1 minted

  each-supply :
      (coins : Coins) (accounts : List String) (s t : State)
      → for_each (fund_account k coins) accounts s ≡ (ok tt, t)
      → l.supply t ≡ l.supply s + length accounts * l.worth coins
  each-supply coins [] s t e =
      let same : t ≡ s = unfold for_each in ground arith in ap l.supply same ∙ omega arith
  each-supply coins (a ∷ accounts) s t e =
      let (s', p, q) = for_each_round (fund_account k coins) a accounts s t e in
      let first = fund_account-supply coins a s s' p in
      let more = each-supply coins accounts s' t q in grind (arith, first, more)

  -- Funding that ends well raises the supply by 1,000,000,000 for each account.
  pub fund_accounts-supply :
      (accounts : List String) (s t : State)
      → fund_accounts k accounts s ≡ (ok tt, t)
      → l.supply t ≡ l.supply s + length accounts * 1000000000
  unfolding fund_accounts
  fund_accounts-supply accounts s t e = elim (Outcome-cases (k.bond_denom s)) [
    | inr bad ↦ absurd (ground arith)
    | inl (denom, p) ↦ elim (Option-cases (k.new_coins denom 1000000000)) [
      | inl q ↦ absurd (ground arith)
      | inr (coins, q) ↦
          let run : for_each (fund_account k coins) accounts s ≡ (ok tt, t) = ground arith in
          each-supply coins accounts s t run
          ∙ ap (λ w. l.supply s + length accounts * w) (l.worth-new_coins denom 1000000000 coins q)
    ]
  ]

split_empty : split "" ≡ "" ∷ []
unfolding split
split_empty = refl

module _ (k : InPlaceSdk) where
  open k use {Opts, State, Ext}

  empty_account_fails :
      (e : Ext) (s t : State)
      → k.account_bytes "" ≡ err e
      → fund_accounts k ("" ∷ []) s ≢ (ok tt, t)
  unfolding fund_accounts fund_account for_each
  empty_account_fails e s t h run = ground arith

  args_accounts :
      (opts : Opts) (args : ValArgs k)
      → get_command_args k opts ≡ ok args
      → args.accounts_to_fund ≡ split (k.get_accounts_to_fund opts)
  unfolding get_command_args
  args_accounts opts args e = ground arith

  -- Where the flag of the accounts to fund is empty and the empty text is no address, the testnet is
  -- never set up: the empty flag is split into one empty account.
  pub unset_accounts_fail :
      (opts : Opts) (e : Ext) (s t : State)
      → k.get_accounts_to_fund opts ≡ ""
      → k.account_bytes "" ≡ err e
      → new_testnet_app k opts s ≢ (ok tt, t)
  unfolding new_testnet_app
  unset_accounts_fail opts e s t unset h run = elim (Outcome-cases (get_command_args k opts)) [
    | inr bad ↦ absurd (ground arith)
    | inl (args, p) ↦
        let one : args.accounts_to_fund ≡ "" ∷ [] =
          args_accounts opts args p ∙ ap split unset ∙ split_empty in
        let init : (set_up_validator k args >> fund_accounts k args.accounts_to_fund) s
            ≡ (ok tt, t) =
          unfold init_app_for_testnet in ground arith in
        let (s', _, funded) =
          then-ok (set_up_validator k args) (fund_accounts k args.accounts_to_fund) s t tt init in
        empty_account_fails e s' t h (ap (λ as'. fund_accounts k as' s') (sym one) ∙ funded)
  ]
