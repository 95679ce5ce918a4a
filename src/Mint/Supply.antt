-- ===== src/Mint/Supply.antt =====
-- What one run of the mint function of app/mint_hardcap.go does to the supplies and the events.
use base_protocol_system.Base.{
  ◌≡◌, ◌∙◌, ap, sym, refl, false, inl, inr, true, some, List, [], ◌++◌, String, arith,
  if◌then◌else◌, Bool-cases, ℤ, pos, ◌+ℤ◌, ok, str_eq, Option-cases, Outcome-cases, settled,
  int_laws,
}
use mathlib.Core.List.{append_assoc, append-nil}
use base_protocol_system.Mint.Sdk.{
  Coin, Minter, Event, SdkMath, SdkMathLaws, MintKeeper, MintKeeperLaws,
}
use base_protocol_system.Mint.{
  Ctx, clamp_mint_to_hard_cap, mint_and_collect, mint_provision, recalculated, mint_event, report,
  hard_cap_mint_fn,
}

module _ (m : SdkMath) where
  open m use {Int, value, is_positive}

  -- What minting a coin adds to the supply of a denomination.
  abbrev pub added : Coin Int → String → ℤ
  added minted d =
      if is_positive minted.amount
      then (if str_eq minted.denom d then value minted.amount else pos 0)
      else pos 0

module _ (m : SdkMath) (l : SdkMathLaws m) (k : MintKeeper m) (kl : MintKeeperLaws m k) where
  open m use {Int, value, is_positive, new_coins}
  open k use {State, Error, LegacyDec, MintParams, get_supply, mint_coins, add_collected_fees}

  -- A successful `mint_and_collect` of a positive coin, call by call.
  collect_inv :
      (minted : Coin Int) (c c' : Ctx State Int)
      → is_positive minted.amount ≡ true
      → mint_and_collect m k minted c ≡ (ok tt, c')
      → (cs : List (Coin Int)) × (new_coins minted ≡ some cs)
        × (paid : State × List Event) × (collected : State × List Event) × (mint_coins cs
              (c.store, c.events)
            ≡ (ok tt, paid))
        × (add_collected_fees cs paid ≡ (ok tt, collected))
        × (c' ≡ record c { store = collected.0; events = collected.1 })
  unfolding mint_and_collect
  collect_inv minted c c' p e = elim (Option-cases (new_coins minted)) [
    | inl bad ↦ absurd (ground arith)
    | inr (cs, q) ↦
        let m1 = mint_coins cs (c.store, c.events) in
        elim (Outcome-cases (m1.0)) [
          | inr bad ↦ absurd (ground arith)
          | inl (u, r) ↦
              let m2 = add_collected_fees cs (m1.1) in
              elim (Outcome-cases (m2.0)) [
                | inr bad ↦ absurd (ground arith)
                | inl (v, w) ↦ (cs, q, m1.1, m2.1, settled m1 r, settled m2 w, ground arith)
              ]
        ]
  ]

  -- What a successful `mint_and_collect` does to the supplies.
  pub mint_and_collect_supply :
      (minted : Coin Int) (c c' : Ctx State Int) (d : String)
      → mint_and_collect m k minted c ≡ (ok tt, c')
      → value (get_supply c'.store d) ≡ value (get_supply c.store d) +ℤ added m minted d
  mint_and_collect_supply minted c c' d e = elim (Bool-cases (is_positive minted.amount)) [
    | inr nothing ↦
        let same : c ≡ c' = unfold mint_and_collect in ground arith in
        rw (nothing, ← same) (omega int_laws)
    | inl p ↦
        let (cs, q, paid, collected, r, t, u) = collect_inv minted c c' p e in
        let one = l.new_coins_some minted cs p q in
        let up = kl.supply-mint_coins minted (c.store, c.events) paid d (rw (← one) r) in
        let same = kl.supply-add_collected_fees cs paid collected d t in rw (u, same, p) up
  ]

  -- The events of minting and of the fees stand behind those before, and there are none where nothing is
  -- minted.
  pub collect_reports :
      (minted : Coin Int) (c c' : Ctx State Int)
      → mint_and_collect m k minted c ≡ (ok tt, c')
      → (es : List Event) × (c'.events ≡ c.events ++ es)
        × (is_positive minted.amount ≡ false → es ≡ [])
  collect_reports minted c c' e = elim (Bool-cases (is_positive minted.amount)) [
    | inr nothing ↦
        let same : c ≡ c' = unfold mint_and_collect in ground arith in
        ([], ap (λ x. x.events) (sym same) ∙ sym (append-nil c.events), λ h. refl)
    | inl p ↦
        let (cs, q, paid, collected, r, t, u) = collect_inv minted c c' p e in
        let (first, f) = kl.events-mint_coins cs (c.store, c.events) in
        let (second, g) = kl.events-add_collected_fees cs paid in
        let at_paid : paid.1 ≡ c.events ++ first = ap (λ x. x.1.1) (sym r) ∙ f in
        let at_end : collected.1 ≡ paid.1 ++ second = ap (λ x. x.1.1) (sym t) ∙ g in
        (
          first ++ second,
          ap (λ x. x.events) u
              ∙ at_end
              ∙ ap (λ es. es ++ second) at_paid
              ∙ append_assoc c.events first second,
          λ h. absurd (ground arith),
        )
  ]

  pub provision_inv :
      (cap_denom : String) (limit : Int) (minter : Minter LegacyDec) (params : MintParams)
      (c c' : Ctx State Int) (minted : Coin Int)
      → mint_provision m k cap_denom limit minter params c ≡ (ok minted, c')
      → (provision : Coin Int) × (k.block_provision minter params ≡ some provision)
        × (clamp_mint_to_hard_cap m (get_supply c.store cap_denom) provision cap_denom limit
            ≡ some minted)
        × (mint_and_collect m k minted c ≡ (ok tt, c'))
  unfolding mint_provision
  provision_inv cap_denom limit minter params c c' minted e =
      elim (Option-cases (k.block_provision minter params)) [
        | inl bad ↦ absurd (ground arith)
        | inr (p, q) ↦ (p, q, ground arith, ground arith)
      ]

  -- The fields of a minter that was recalculated.
  pub recalculated_lem :
      (minter old : Minter LegacyDec) (params : MintParams) (total : Int) (ratio : LegacyDec)
      → minter ≡ recalculated m k old params total ratio
      → (minter.inflation ≡ k.default_inflation_calculation_fn old params ratio)
        × (minter.annual_provisions
            ≡ k.next_annual_provisions (record old { inflation = minter.inflation }) params total)
  unfolding recalculated
  recalculated_lem minter old params total ratio e =
      let p = ap (λ (x : Minter LegacyDec). x.inflation) e in
      (
        p,
        ap (λ (x : Minter LegacyDec). x.annual_provisions) e
            ∙ ap (λ x. k.next_annual_provisions (record old { inflation = x }) params total)
                (sym p),
      )

  -- How a run comes to its minter: from the four reads, which succeed.
  abbrev pub Derived : Ctx State Int → Minter LegacyDec → MintParams → LegacyDec → Type 0
  Derived c minter params ratio =
      (old : Minter LegacyDec) × (total : Int) × (k.minter_get c.store ≡ ok old)
      × (k.params_get c.store ≡ ok params)
      × (k.staking_token_supply c.store ≡ ok total)
      × (k.bonded_ratio c.store ≡ ok ratio)
      × (minter ≡ recalculated m k old params total ratio)

  -- The reads of a successful run, the minter that it stores, and what it does from there on.
  pub hard_cap_inv :
      (cap_denom : String) (limit : Int) (c c' : Ctx State Int)
      → hard_cap_mint_fn m k cap_denom limit c ≡ (ok tt, c')
      → (minter : Minter LegacyDec) × (params : MintParams) × (ratio : LegacyDec) × (minted : Coin
          Int)
        × (s : State) × (t : Ctx State Int) × Derived c minter params ratio
        × (k.minter_set minter c.store ≡ (ok tt, s))
        × (mint_provision m k cap_denom limit minter params (record c { store = s })
            ≡ (ok minted, t))
        × (report m k (mint_event m k minter ratio minted) minted t ≡ (ok tt, c'))
  unfolding hard_cap_mint_fn
  hard_cap_inv cap_denom limit c c' e = elim (Outcome-cases (k.minter_get c.store)) [
    | inr bad ↦ absurd (ground arith)
    | inl (old, p) ↦ elim (Outcome-cases (k.params_get c.store)) [
      | inr bad ↦ absurd (ground arith)
      | inl (params, q) ↦ elim (Outcome-cases (k.staking_token_supply c.store)) [
        | inr bad ↦ absurd (ground arith)
        | inl (total, r) ↦ elim (Outcome-cases (k.bonded_ratio c.store)) [
          | inr bad ↦ absurd (ground arith)
          | inl (ratio, u) ↦
              let minter = recalculated m k old params total ratio in
              let s = (k.minter_set minter c.store).1 in
              let run = mint_provision m k cap_denom limit minter params (record c { store = s }) in
              elim (Outcome-cases run.0) [
                | inr bad ↦ absurd (ground arith)
                | inl (minted, w) ↦ (
                  minter,
                  params,
                  ratio,
                  minted,
                  s,
                  run.1,
                  (old, total, p, q, r, u, refl),
                  ground arith,
                  settled run w,
                  ground arith,
                )
              ]
        ]
      ]
    ]
  ]
