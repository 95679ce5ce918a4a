-- ===== src/Mint/Clamp.antt =====
-- `clampMintToHardCap` of app/mint_hardcap.go against the arithmetic of a capped supply.
use base_protocol_system.Base.{
  ◌≡◌, refl, ◌≢◌, inl, inr, true, some, String, arith, if◌then◌else◌, Bool-cases, ℤ, pos, ◌-ℤ◌,
  ◌≤ℤ◌, ◌<ℤ◌, leb_ℤ, -ℤ_parts, ◌∙◌, str_eq_ne, str_eq_same, pos_part, ◌<◌, ◌^◌,
}
use base_protocol_system.Mint.Sdk.{Coin, SdkMath, SdkMathLaws}
use base_protocol_system.Mint.{remaining_or_minted, clamp_mint_to_hard_cap}

-- What may still be minted: up to the cap, and nothing above it.
abbrev pub room : ℤ → ℤ → ℤ
room supply limit = if leb_ℤ supply limit then limit -ℤ supply else pos 0

abbrev pub min_ℤ : ℤ → ℤ → ℤ
min_ℤ a b = if leb_ℤ a b then a else b

-- A coin and a cap to which the cap applies.
pub record IsCapped (m : SdkMath) (minted : Coin m.Int) (cap_denom : String) (limit : m.Int)
    : Type 0 where
  pub positive : pos 0 <ℤ m.value minted.amount
  pub cap_positive : pos 0 <ℤ m.value limit
  pub named : cap_denom ≢ ""
  pub same_denom : minted.denom ≡ cap_denom

module _ (m : SdkMath) (l : SdkMathLaws m) where
  open m use {Int, value, is_positive, gte, gt, sub, zero_int, is_valid_denom}

  remaining_lem :
      (minted : Coin Int) (r : Int)
      → is_valid_denom minted.denom ≡ true
      → pos 0 ≤ℤ value r
      → (c : Coin Int) × (remaining_or_minted m minted (some r) ≡ some c)
        × (c.denom ≡ minted.denom)
        × (value c.amount ≡ min_ℤ (value minted.amount) (value r))
  unfolding remaining_or_minted
  remaining_lem minted r valid nonneg = elim (Bool-cases (gt minted.amount r)) [
    | inl over ↦ (
      record { denom = minted.denom; amount = r },
      rw over (l.new_coin_valid minted.denom r valid (ground arith)),
      refl,
      ground (arith, l.gt_lem minted.amount r),
    )
    | inr fits ↦ (minted, rw fits, refl, ground (arith, l.gt_lem minted.amount r))
  ]

  -- The difference of the cap and a supply below it does not panic.
  sub_within :
      (supply limit : Int)
      → pos_part (value limit) < 2 ^ 256
      → pos 0 ≤ℤ value supply
      → value supply <ℤ value limit
      → (d : Int) × (sub limit supply ≡ some d)
  sub_within supply limit wide nonneg below =
      l.sub_fits limit supply (ground (arith, -ℤ_parts (value limit) (value supply)))

  -- A capped coin: the clamp is the choice between nothing and what is left below the cap.
  pub clamp_reduce :
      (supply : Int) (minted : Coin Int) (cap_denom : String) (limit : Int)
      → IsCapped m minted cap_denom limit
      → clamp_mint_to_hard_cap m supply minted cap_denom limit ≡ (
          if gte supply limit
          then m.new_coin minted.denom zero_int
          else remaining_or_minted m minted (sub limit supply))
  unfolding clamp_mint_to_hard_cap
  clamp_reduce supply minted cap_denom limit h =
      let p : is_positive minted.amount ≡ true = ground (arith, l.is_positive_lem minted.amount) in
      let q : is_positive limit ≡ true = ground (arith, l.is_positive_lem limit) in
      rw (p, q, str_eq_ne cap_denom "" h.named, str_eq_same _ _ h.same_denom)

  -- On a capped coin of a valid denomination, with a cap of 256 bits and over a supply that is not
  -- negative, the clamp does not panic: it keeps the denomination, and the amount is the smaller of the coin's and the room.
  pub clamp_capped :
      (supply : Int) (minted : Coin Int) (cap_denom : String) (limit : Int)
      → IsCapped m minted cap_denom limit
      → is_valid_denom cap_denom ≡ true
      → pos_part (value limit) < 2 ^ 256
      → pos 0 ≤ℤ value supply
      → (c : Coin Int) × (clamp_mint_to_hard_cap m supply minted cap_denom limit ≡ some c)
        × (c.denom ≡ cap_denom)
        × (value c.amount ≡ min_ℤ (value minted.amount) (room (value supply) (value limit)))
  clamp_capped supply minted cap_denom limit h valid wide nonneg =
      let valid' : is_valid_denom minted.denom ≡ true = rw h.same_denom valid in
      elim (Bool-cases (gte supply limit)) [
        | inl full ↦ (
          record { denom = minted.denom; amount = zero_int },
          rw (clamp_reduce supply minted cap_denom limit h, full)
              (l.new_coin_valid minted.denom zero_int valid' (ground (arith, l.value-zero_int))),
          h.same_denom,
          ground (
            arith,
            h.positive,
            l.value-zero_int,
            l.gte_lem supply limit,
            -ℤ_parts (value limit) (value supply),
          ),
        )
        | inr below ↦
            let (d, e) =
              sub_within supply limit wide nonneg (ground (arith, l.gte_lem supply limit)) in
            let v = l.value-sub limit supply d e in
            let (c, r, s, a) =
              remaining_lem minted d valid' (
                ground (arith, v, l.gte_lem supply limit, -ℤ_parts (value limit) (value supply))) in
            (
              c,
              rw (clamp_reduce supply minted cap_denom limit h, below, e) r,
              s ∙ h.same_denom,
              ground (arith, a, v, l.gte_lem supply limit),
            )
      ]
