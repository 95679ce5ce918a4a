-- ===== src/Mint/Progress.antt =====
-- When the keepers serve it, the mint function of app/mint_hardcap.go ends well, and mints the
-- provision of the block up to the room below the cap.
use base_protocol_system.Base.{
  ℤ, leb_ℤ, sym, ◌≡◌, ◌∙◌, ap, inl, inr, true, some, List, [], ◌∷◌, String, arith, pos, ◌+ℤ◌, ◌≤ℤ◌,
  ok, Bool-cases, settled, -ℤ_parts, str_eq_same, Outcome, Option, pos_part, ◌<◌, ◌^◌,
}
use base_protocol_system.Mint.Sdk.{
  Coin, Minter, Event, SdkMath, SdkMathLaws, MintKeeper, MintKeeperLaws,
}
use base_protocol_system.Mint.{
  Ctx, recalculated, mint_and_collect, mint_provision, report, hard_cap_mint_fn,
  clamp_mint_to_hard_cap,
}
use base_protocol_system.Mint.Clamp.{IsCapped, min_ℤ, room, clamp_capped}
use base_protocol_system.Mint.Supply.{added}
use base_protocol_system.Mint.Cap.{supply, Minted, hard_cap_effect}

same_ok : {E A : Type 0} (o : Outcome E A) {a b : A} → o ≡ ok a → o ≡ ok b → a ≡ b
same_ok o p q = cc

same_some : {A : Type 0} (o : Option A) {a b : A} → o ≡ some a → o ≡ some b → a ≡ b
same_some o p q = cc

min_ℤ-le : (a b : ℤ) → min_ℤ a b ≤ℤ a
min_ℤ-le a b = elim (Bool-cases (leb_ℤ a b)) [
  | inl under ↦ rw under (omega arith)
  | inr over ↦ rw over (ground arith)
]

module _ (m : SdkMath) (l : SdkMathLaws m) (k : MintKeeper m) (kl : MintKeeperLaws m k) where
  open m use {Int, value, is_positive, is_valid_denom}
  open k use {State, Error, LegacyDec, MintParams, get_supply, mint_coins, add_collected_fees}

  -- A positive coin of the provision's denomination, and at most the provision.
  pub record IsPart (provision part : Coin Int) : Type 0 where
    pub denom_same : part.denom ≡ provision.denom
    pub part_positive : is_positive part.amount ≡ true
    pub part_fits : value part.amount ≤ℤ value provision.amount

  -- The reads succeed, the minter is stored, and from there the keepers mint and collect any part of
  -- the provision.
  pub record IsServed (c : Ctx State Int) (provision : Coin Int) : Type 0 where
    pub old : Minter LegacyDec
    pub params : MintParams
    pub total : Int
    pub ratio : LegacyDec
    pub old_read : k.minter_get c.store ≡ ok old
    pub params_read : k.params_get c.store ≡ ok params
    pub total_read : k.staking_token_supply c.store ≡ ok total
    pub ratio_read : k.bonded_ratio c.store ≡ ok ratio
    pub stored : State
    pub minter_stored :
        k.minter_set (recalculated m k old params total ratio) c.store ≡ (ok tt, stored)
    pub provided :
        k.block_provision (recalculated m k old params total ratio) params ≡ some provision
    pub mints :
        (part : Coin Int)
        → IsPart provision part
        → (mint_coins (part ∷ []) (stored, c.events)).0 ≡ ok tt
    pub collects :
        (part : Coin Int) (x : State × List Event)
        → IsPart provision part
        → mint_coins (part ∷ []) (stored, c.events) ≡ (ok tt, x)
        → (add_collected_fees (part ∷ []) x).0 ≡ ok tt

  collect_ends :
      (minted : Coin Int) (c : Ctx State Int)
      → is_valid_denom minted.denom ≡ true
      → (is_positive minted.amount ≡ true
          → ((mint_coins (minted ∷ []) (c.store, c.events)).0 ≡ ok tt)
            × ((add_collected_fees (minted ∷ []) (mint_coins (minted ∷ []) (c.store, c.events)).1).0
                ≡ ok tt))
      → (mint_and_collect m k minted c).0 ≡ ok tt
  unfolding mint_and_collect
  collect_ends minted c valid serves = elim (Bool-cases (is_positive minted.amount)) [
    | inr nothing ↦ rw nothing
    | inl p ↦
        let q = l.new_coins_valid minted valid p in let (r, s) = serves p in ground (arith, q, r, s)
  ]

  provision_ends :
      (cap_denom : String) (limit : Int) (minter : Minter LegacyDec) (params : MintParams)
      (c : Ctx State Int) (provision minted : Coin Int)
      → k.block_provision minter params ≡ some provision
      → clamp_mint_to_hard_cap m (get_supply c.store cap_denom) provision cap_denom limit
        ≡ some minted
      → (mint_and_collect m k minted c).0 ≡ ok tt
      → (mint_provision m k cap_denom limit minter params c).0 ≡ ok minted
  unfolding mint_provision
  provision_ends cap_denom limit minter params c provision minted p q r = ground arith

  -- A served run, over a supply that is not negative, with a cap of 256 bits and a capped provision
  -- of a valid denomination, succeeds.
  pub hard_cap_ends :
      (cap_denom : String) (limit : Int) (c : Ctx State Int) (provision : Coin Int)
      → IsServed c provision
      → IsCapped m provision cap_denom limit
      → is_valid_denom cap_denom ≡ true
      → pos_part (value limit) < 2 ^ 256
      → pos 0 ≤ℤ supply m l k kl c cap_denom
      → (hard_cap_mint_fn m k cap_denom limit c).0 ≡ ok tt
  unfolding hard_cap_mint_fn report
  hard_cap_ends cap_denom limit c provision served capped valid wide nonneg =
      let minter = recalculated m k served.old served.params served.total served.ratio in
      let s = served.stored in
      let same = kl.supply-minter_set minter c.store s cap_denom served.minter_stored in
      let (minted, q, d, amount) =
        clamp_capped m l (get_supply s cap_denom) provision cap_denom limit capped valid wide
          (rw same nonneg) in
      let c1 : Ctx State Int = record c { store = s } in
      let run =
        provision_ends cap_denom limit minter served.params c1 provision minted served.provided q (
          collect_ends minted c1 (rw d valid) λ p.
            let part : IsPart provision minted = record {
              denom_same = d ∙ sym capped.same_denom;
              part_positive = p;
              part_fits = rw amount (min_ℤ-le (value provision.amount) _);
            } in
            let run = mint_coins (minted ∷ []) (s, c.events) in
            let pays = served.mints minted part in
            (pays, served.collects minted run.1 part (settled run pays))) in
      ground (
        arith, run, served.old_read, served.params_read, served.total_read, served.ratio_read,
        served.minter_stored,
      )

  -- The recalculated minter is the one that has its two fields.
  minter_same :
      (minter old : Minter LegacyDec) (params : MintParams) (total : Int) (ratio : LegacyDec)
      → minter.inflation ≡ k.default_inflation_calculation_fn old params ratio
      → minter.annual_provisions
        ≡ k.next_annual_provisions (record old { inflation = minter.inflation }) params total
      → minter ≡ recalculated m k old params total ratio
  unfolding recalculated
  minter_same minter old params total ratio p q =
      let q' =
        q ∙ ap (λ x. k.next_annual_provisions (record old { inflation = x }) params total) p in
      λ i. record { inflation = p i; annual_provisions = q' i }

  -- The minter and the provision of a successful run are those of the reads.
  provision_same :
      (cap_denom : String) (limit : Int) (c c' : Ctx State Int) (provision : Coin Int)
      → IsServed c provision
      → (h : Minted m l k kl cap_denom limit c c') → h.provision ≡ provision
  provision_same cap_denom limit c c' provision served h =
      let old = same_ok _ h.old_read served.old_read in
      let params = same_ok _ h.params_read served.params_read in
      let total = same_ok _ h.total_read served.total_read in
      let ratio = same_ok _ h.ratio_read served.ratio_read in
      let minter : h.minter ≡ recalculated m k served.old served.params served.total served.ratio =
        minter_same h.minter h.old h.params h.total h.ratio h.inflation_lem h.annual_provisions_lem
        ∙ cc (old, params, total, ratio) in
      cc (minter, params, h.provided, served.provided)

  added-eq-amount :
      (minted : Coin Int) (d : String)
      → minted.denom ≡ d
      → pos 0 ≤ℤ value minted.amount
      → added m minted d ≡ value minted.amount
  added-eq-amount minted d same nonneg = elim (Bool-cases (is_positive minted.amount)) [
    | inl p ↦ rw (p, str_eq_same minted.denom d same)
    | inr nothing ↦ rw nothing (ground (arith, l.is_positive_lem minted.amount))
  ]

  -- Where the reads succeed, the minter is stored, and the keepers then mint and collect any positive
  -- coin of the provision's denomination up to the provision, a run over a supply that is not
  -- negative, with a cap of 256 bits and a capped provision of a valid denomination, succeeds and
  -- raises the supply by the smaller of the provision and the room left below the cap.
  pub hard_cap_mints :
      (cap_denom : String) (limit : Int) (c : Ctx State Int) (provision : Coin Int)
      → IsServed c provision
      → IsCapped m provision cap_denom limit
      → is_valid_denom cap_denom ≡ true
      → pos_part (value limit) < 2 ^ 256
      → pos 0 ≤ℤ supply m l k kl c cap_denom
      → (c' : Ctx State Int) × (hard_cap_mint_fn m k cap_denom limit c ≡ (ok tt, c'))
        × (supply m l k kl c' cap_denom
            ≡ supply m l k kl c cap_denom
              +ℤ min_ℤ (value provision.amount) (room (supply m l k kl c cap_denom) (value limit)))
  hard_cap_mints cap_denom limit c provision served capped valid wide nonneg =
      let run = hard_cap_mint_fn m k cap_denom limit c in
      let e : run ≡ (ok tt, run.1) =
        settled run (hard_cap_ends cap_denom limit c provision served capped valid wide nonneg) in
      let h = hard_cap_effect m l k kl cap_denom limit c run.1 e in
      let (minted, q, d, amount) =
        clamp_capped m l (get_supply c.store cap_denom) provision cap_denom limit capped valid wide
          nonneg in
      let same : h.minted ≡ minted =
        cc (h.clamped, provision_same cap_denom limit c run.1 provision served h, q) in
      let nonneg' : pos 0 ≤ℤ value minted.amount = rw amount (
        ground (
          arith,
          capped.positive,
          -ℤ_parts (value limit) (value (get_supply c.store cap_denom)),
        )) in
      (
        run.1,
        e,
        h.supplied cap_denom
            ∙ ap (λ x. value (get_supply c.store cap_denom) +ℤ x)
                (ap (λ x. added m x cap_denom) same
                  ∙ added-eq-amount minted cap_denom d nonneg'
                  ∙ amount),
      )
