-- ===== src/Mint/Bounds.antt =====
-- What every coin that `clampMintToHardCap` returns satisfies, whatever it was given.
use base_protocol_system.Base.{
  ◌≡◌, refl, sym, ◌∙◌, ap, ◌≢◌, ◌⊎◌, inl, inr, true, false, Option, none, some, String, arith,
  if◌then◌else◌, Bool-cases, pos, ◌+ℤ◌, ◌≤ℤ◌, ◌<ℤ◌, -ℤ_parts, +ℤ_parts, str_eq_same, str_eq,
  str_eq→eq, pos_part, neg_part,
}
use mathlib.Core.Bool.{false≢true}
use base_protocol_system.Mint.Sdk.{Coin, SdkMath, SdkMathLaws}
use base_protocol_system.Mint.{remaining_or_minted, clamp_mint_to_hard_cap}
use base_protocol_system.Mint.Clamp.{IsCapped, clamp_reduce}

module _ (m : SdkMath) (l : SdkMathLaws m) where
  open m use {Int, value, is_positive, gte, gt, sub, zero_int}

  -- Where the clamp looks below the cap: the coin asked for, or one of the difference.
  remaining_bounds :
      (minted : Coin Int) (o : Option Int) (c : Coin Int)
      → remaining_or_minted m minted o ≡ some c
      → (r : Int) × (o ≡ some r)
        × (c.denom ≡ minted.denom)
        × (value c.amount ≤ℤ value minted.amount)
        × (value c.amount ≤ℤ value r)
  unfolding remaining_or_minted
  remaining_bounds minted none c e = absurd (cc)
  remaining_bounds minted (some r) c e = elim (Bool-cases (gt minted.amount r)) [
    | inl over ↦
        let e' : m.new_coin minted.denom r ≡ some c = rw over at e in
        let k = l.new_coin_some minted.denom r c e' in
        (
          r,
          refl,
          ap (λ x. x.denom) k,
          ground (arith, k, l.gt_lem minted.amount r),
          ground (arith, k),
        )
    | inr fits ↦
        let e' : some minted ≡ some c = rw fits at e in
        (r, refl, ground arith, ground arith, ground (arith, l.gt_lem minted.amount r))
  ]

  -- The tests that the clamp makes before it looks at the supply.
  abbrev AppliesTo : Coin Int → String → Int → Type 0
  AppliesTo minted cap_denom limit =
      (is_positive minted.amount ≡ true)
      × (str_eq cap_denom "" ≡ false)
      × (is_positive limit ≡ true)
      × (str_eq minted.denom cap_denom ≡ true)

  clamp_split :
      (supply : Int) (minted : Coin Int) (cap_denom : String) (limit : Int)
      → (clamp_mint_to_hard_cap m supply minted cap_denom limit ≡ some minted)
        ⊎ AppliesTo minted cap_denom limit
  unfolding clamp_mint_to_hard_cap
  clamp_split supply minted cap_denom limit = ground arith

  applies→IsCapped :
      (minted : Coin Int) (cap_denom : String) (limit : Int)
      → AppliesTo minted cap_denom limit
      → IsCapped m minted cap_denom limit
  applies→IsCapped minted cap_denom limit (p, q, r, s) = record {
    positive = ground (arith, l.is_positive_lem minted.amount);
    cap_positive = ground (arith, l.is_positive_lem limit);
    named = λ e. false≢true (sym q ∙ str_eq_same cap_denom "" e);
    same_denom = str_eq→eq minted.denom cap_denom s;
  }

  -- A capped coin, either at the cap or below it.
  capped_bounds :
      (supply : Int) (minted c : Coin Int) (limit : Int)
      → pos 0 <ℤ value minted.amount
      → (if gte supply limit
          then m.new_coin minted.denom zero_int
          else remaining_or_minted m minted (sub limit supply))
        ≡ some c
      → (c.denom ≡ minted.denom)
        × (value c.amount ≤ℤ value minted.amount)
        × ((value c.amount ≡ pos 0) ⊎ (value supply +ℤ value c.amount ≤ℤ value limit))
  capped_bounds supply minted c limit p e = elim (Bool-cases (gte supply limit)) [
    | inl full ↦
        let e' : m.new_coin minted.denom zero_int ≡ some c = rw full at e in
        let k = l.new_coin_some minted.denom zero_int c e' in
        let z : value c.amount ≡ pos 0 = ap (λ x. value x.amount) k ∙ l.value-zero_int in
        (ap (λ x. x.denom) k, ground arith, inl z)
    | inr below ↦
        let e' : remaining_or_minted m minted (sub limit supply) ≡ some c = rw below at e in
        let (r, q, s, lo, hi) = remaining_bounds minted (sub limit supply) c e' in
        let v = l.value-sub limit supply r q in
        (
          s,
          lo,
          inr (
              omega (
                arith,
                hi,
                ap pos_part v,
                ap neg_part v,
                -ℤ_parts (value limit) (value supply),
                +ℤ_parts (value supply) (value c.amount),
              )),
        )
  ]

  -- The clamp keeps the denomination and never raises the amount.
  pub clamp-le :
      (supply : Int) (minted c : Coin Int) (cap_denom : String) (limit : Int)
      → clamp_mint_to_hard_cap m supply minted cap_denom limit ≡ some c
      → (c.denom ≡ minted.denom) × (value c.amount ≤ℤ value minted.amount)
  clamp-le supply minted c cap_denom limit e = elim (clamp_split supply minted cap_denom limit) [
    | inl same ↦ let k : some minted ≡ some c = sym same ∙ e in (ground arith, ground arith)
    | inr applies ↦
        let h = applies→IsCapped minted cap_denom limit applies in
        let b =
          capped_bounds supply minted c limit h.positive
            (sym (clamp_reduce m l supply minted cap_denom limit h) ∙ e) in
        (b.0, b.1)
  ]

  -- With a named denomination and a positive cap, a coin of that denomination that is still positive
  -- fits below the cap, whatever the supply was.
  pub clamp-le-cap :
      (supply : Int) (minted c : Coin Int) (cap_denom : String) (limit : Int)
      → cap_denom ≢ ""
      → pos 0 <ℤ value limit
      → clamp_mint_to_hard_cap m supply minted cap_denom limit ≡ some c
      → c.denom ≡ cap_denom
      → pos 0 <ℤ value c.amount
      → value supply +ℤ value c.amount ≤ℤ value limit
  clamp-le-cap supply minted c cap_denom limit named pl e d pc =
      let (same, below) = clamp-le supply minted c cap_denom limit e in
      let h : IsCapped m minted cap_denom limit = record {
        positive = omega (arith, below, pc);
        cap_positive = pl;
        named = named;
        same_denom = sym same ∙ d;
      } in
      let b =
        capped_bounds supply minted c limit h.positive
          (sym (clamp_reduce m l supply minted cap_denom limit h) ∙ e) in
      elim b.2 [ inl z ↦ absurd (ground (arith, z, pc)) | inr fits ↦ fits ]
