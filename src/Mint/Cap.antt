-- ===== src/Mint/Cap.antt =====
-- One run of the mint function of app/mint_hardcap.go: what it does, and the hard cap.
use base_protocol_system.Base.{
  refl, Outcome, List, false, ◌≡◌, sym, ◌∙◌, ap, ◌≢◌, ◌⊎◌, inl, inr, some, [], ◌∷◌, ◌++◌, String,
  arith, Bool-cases, ℤ, pos, ◌+ℤ◌, ◌≤ℤ◌, ◌<ℤ◌, +ℤ_parts, ok, str_eq, str_eq→eq, int_laws,
}
use mathlib.Core.List.{append_assoc}
use base_protocol_system.Mint.Sdk.{
  Coin, Minter, Event, SdkMath, SdkMathLaws, MintKeeper, MintKeeperLaws,
}
use base_protocol_system.Mint.{
  Ctx, clamp_mint_to_hard_cap, mint_event, report, hard_cap_mint_fn, provide_hard_cap_mint_fn,
  mint_hard_cap_denom, mint_hard_cap_amount,
}
use base_protocol_system.Mint.Bounds.{clamp-le-cap}
use base_protocol_system.Mint.Supply.{
  added, recalculated_lem, hard_cap_inv, provision_inv, mint_and_collect_supply, collect_reports,
}

named : mint_hard_cap_denom ≢ ""
named e = cc

module _ (m : SdkMath) (l : SdkMathLaws m) (k : MintKeeper m) (kl : MintKeeperLaws m k) where
  open m use {Int, value, is_positive}
  open k use {State, LegacyDec, MintParams, get_supply}

  abbrev pub supply : Ctx State Int → String → ℤ
  supply c d = value (get_supply c.store d)

  -- What a successful run read, the minter that it stored, the coin that it minted, and the last
  -- event, which reports them behind those before and those of the bank.
  pub record Minted (cap_denom : String) (limit : Int) (c c' : Ctx State Int) : Type 0 where
    pub old : Minter LegacyDec
    pub params : MintParams
    pub total : Int
    pub ratio : LegacyDec
    pub old_read : k.minter_get c.store ≡ ok old
    pub params_read : k.params_get c.store ≡ ok params
    pub total_read : k.staking_token_supply c.store ≡ ok total
    pub ratio_read : k.bonded_ratio c.store ≡ ok ratio
    pub minter : Minter LegacyDec
    pub inflation_lem : minter.inflation ≡ k.default_inflation_calculation_fn old params ratio
    pub annual_provisions_lem :
        minter.annual_provisions
        ≡ k.next_annual_provisions (record old { inflation = minter.inflation }) params total
    pub minter_stored : (k.minter_set minter c.store).0 ≡ ok tt
    pub provision : Coin Int
    pub minted : Coin Int
    pub provided : k.block_provision minter params ≡ some provision
    pub clamped :
        clamp_mint_to_hard_cap m (get_supply c.store cap_denom) provision cap_denom limit
        ≡ some minted
    pub supplied : (d : String) → supply c' d ≡ supply c d +ℤ added m minted d
    pub event : Event
    pub kind_lem : event.kind ≡ k.event_type_mint
    pub attributes_lem :
        event.attributes
        ≡ (k.attribute_key_bonded_ratio, k.dec_string ratio)
          ∷ (k.attribute_key_inflation, k.dec_string minter.inflation)
          ∷ (k.attribute_key_annual_provisions, k.dec_string minter.annual_provisions)
          ∷ (k.attribute_key_amount, m.int_string minted.amount)
          ∷ []
    pub banked : List Event
    pub none_banked : is_positive minted.amount ≡ false → banked ≡ []
    pub reported : c'.events ≡ c.events ++ (banked ++ (event ∷ []))

  pub hard_cap_effect :
      (cap_denom : String) (limit : Int) (c c' : Ctx State Int)
      → hard_cap_mint_fn m k cap_denom limit c ≡ (ok tt, c')
      → Minted cap_denom limit c c'
  hard_cap_effect cap_denom limit c c' e =
      let (minter, params, ratio, minted, s, t, derived, set, run, rep) =
        hard_cap_inv m l k kl cap_denom limit c c' e in
      let c1 : Ctx State Int = record c { store = s } in
      let (provision, p, q, r) =
        provision_inv m l k kl cap_denom limit minter params c1 t minted run in
      let same = λ (d : String). kl.supply-minter_set minter c.store s d set in
      let event = mint_event m k minter ratio minted in
      let (old, total, old_read, params_read, total_read, ratio_read, made) = derived in
      let fields = recalculated_lem m l k kl minter old params total ratio made in
      let (banked, behind, none_banked) = collect_reports m l k kl minted c1 t r in
      let final : (c'.store ≡ t.store) × (c'.events ≡ t.events ++ (event ∷ [])) =
        unfold report in (ground arith, ground arith) in
      record {
        old = old;
        params = params;
        total = total;
        ratio = ratio;
        old_read = old_read;
        params_read = params_read;
        total_read = total_read;
        ratio_read = ratio_read;
        minter = minter;
        inflation_lem = fields.0;
        annual_provisions_lem = fields.1;
        minter_stored = ap (λ (x : Outcome k.Error (Unit {0}) × State). x.0) set;
        provision = provision;
        minted = minted;
        provided = p;
        clamped =
            ap (λ x. clamp_mint_to_hard_cap m x provision cap_denom limit) (sym (same cap_denom))
            ∙ q;
        supplied = λ d.
            ap (λ x. value (get_supply x d)) final.0
            ∙ mint_and_collect_supply m l k kl minted c1 t d r
            ∙ ap (λ x. value x +ℤ added m minted d) (same d);
        event = event;
        kind_lem = unfold mint_event in refl;
        attributes_lem = unfold mint_event in refl;
        banked = banked;
        none_banked = none_banked;
        reported =
            final.1
            ∙ ap (λ es. es ++ (event ∷ [])) behind
            ∙ append_assoc c.events banked (event ∷ []);
      }

  added_cases :
      (minted : Coin Int) (d : String)
      → (added m minted d ≡ pos 0)
        ⊎ ((minted.denom ≡ d)
            × (pos 0 <ℤ value minted.amount)
            × (added m minted d ≡ value minted.amount))
  added_cases minted d = elim (Bool-cases (is_positive minted.amount)) [
    | inr nothing ↦ inl (rw nothing)
    | inl p ↦ elim (Bool-cases (str_eq minted.denom d)) [
      | inr other ↦ inl (rw (p, other))
      | inl same ↦ inr (
        str_eq→eq minted.denom d same,
        ground (arith, l.is_positive_lem minted.amount),
        rw (p, same),
      )
    ]
  ]

  -- With a named denomination and a positive cap, a successful run leaves the supply of the capped
  -- denomination as it was or raises it to the cap at most.
  pub hard_cap_bound :
      (cap_denom : String) (limit : Int) (c c' : Ctx State Int)
      → cap_denom ≢ ""
      → pos 0 <ℤ value limit
      → hard_cap_mint_fn m k cap_denom limit c ≡ (ok tt, c')
      → (supply c' cap_denom ≡ supply c cap_denom)
        ⊎ ((supply c cap_denom <ℤ supply c' cap_denom) × (supply c' cap_denom ≤ℤ value limit))
  hard_cap_bound cap_denom limit c c' named pl e =
      let h = hard_cap_effect cap_denom limit c c' e in
      elim (added_cases h.minted cap_denom) [
        | inl zero ↦
            inl (h.supplied cap_denom ∙ ap (λ x. supply c cap_denom +ℤ x) zero ∙ omega int_laws)
        | inr (same, p, amount) ↦
            let fits =
              clamp-le-cap m l (get_supply c.store cap_denom) h.provision h.minted cap_denom limit
                named pl h.clamped same p in
            let e' = h.supplied cap_denom ∙ ap (λ x. supply c cap_denom +ℤ x) amount in
            inr (
              rw e' (omega (arith, p, +ℤ_parts (supply c cap_denom) (value h.minted.amount))),
              rw e' fits,
            )
      ]

  -- A successful run lowers no supply, of whatever denomination.
  pub hard_cap_mono :
      (cap_denom : String) (limit : Int) (c c' : Ctx State Int) (d : String)
      → hard_cap_mint_fn m k cap_denom limit c ≡ (ok tt, c')
      → supply c d ≤ℤ supply c' d
  hard_cap_mono cap_denom limit c c' d e =
      let h = hard_cap_effect cap_denom limit c c' e in
      rw (h.supplied d) (elim (added_cases h.minted d) [
        | inl zero ↦ rw zero (omega (arith, +ℤ_parts (supply c d) (pos 0)))
        | inr (same, p, amount) ↦
            rw amount (omega (arith, p, +ℤ_parts (supply c d) (value h.minted.amount)))
      ])

  -- A successful run of the function that the application is built with leaves the supply of `ubps`
  -- as it was or raises it to 100,000,000,000,000 at most.
  pub provided_bound :
      (c c' : Ctx State Int)
      → provide_hard_cap_mint_fn m k c ≡ (ok tt, c')
      → (supply c' "ubps" ≡ supply c "ubps")
        ⊎ ((supply c "ubps" <ℤ supply c' "ubps") × (supply c' "ubps" ≤ℤ pos 100_000_000_000_000))
  unfolding provide_hard_cap_mint_fn
  provided_bound c c' e =
      let v = l.value-new_int 100_000_000_000_000 in
      elim (hard_cap_bound mint_hard_cap_denom (mint_hard_cap_amount m) c c' named
        (rw v (omega arith)) e) [
          | inl same ↦ inl same
          | inr (more, fits) ↦ inr (more, rw v at fits)
        ]
