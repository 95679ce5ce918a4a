-- ===== src/Mint/Chain.antt =====
-- The supply over a chain of blocks, each with the mint function of app/mint_hardcap.go.
use base_protocol_system.Base.{◌≡◌, ◌≢◌, inl, inr, String, arith, pos, ◌≤ℤ◌, ◌<ℤ◌, ok}
use base_protocol_system.Mint.Sdk.{SdkMath, SdkMathLaws, MintKeeper, MintKeeperLaws}
use base_protocol_system.Mint.{Ctx, hard_cap_mint_fn}
use base_protocol_system.Mint.Cap.{supply, hard_cap_bound}

module _ (m : SdkMath) (l : SdkMathLaws m) (k : MintKeeper m) (kl : MintKeeperLaws m k) where
  open m use {Int, value, is_positive, is_valid_denom}
  open k use {State, Error, LegacyDec, MintParams, get_supply, mint_coins, add_collected_fees}

  -- A step of the chain: the mint function of a block, or anything else that happens to the stores
  -- and does not raise the supply of the capped denomination.
  pub data ChainStep (cap_denom : String) (limit : Int) (c c' : Ctx State Int) : Type 0 where
    begin_block :
        hard_cap_mint_fn m k cap_denom limit c ≡ (ok tt, c') → ChainStep cap_denom limit c c'
    other :
        supply m l k kl c' cap_denom ≤ℤ supply m l k kl c cap_denom → ChainStep cap_denom limit c c'

  pub data Chain (cap_denom : String) (limit : Int) (c : Ctx State Int)
      : Ctx State Int → Type 0 where
    genesis : Chain cap_denom limit c c
    next :
        {c1 c2 : Ctx State Int}
        → Chain cap_denom limit c c1
        → ChainStep cap_denom limit c1 c2
        → Chain cap_denom limit c c2

  step_keeps_cap :
      (cap_denom : String) (limit : Int) (c c' : Ctx State Int)
      → cap_denom ≢ ""
      → pos 0 <ℤ value limit
      → ChainStep cap_denom limit c c'
      → supply m l k kl c cap_denom ≤ℤ value limit
      → supply m l k kl c' cap_denom ≤ℤ value limit
  step_keeps_cap cap_denom limit c c' named pl (begin_block e) h =
      elim (hard_cap_bound m l k kl cap_denom limit c c' named pl e) [
        | inl same ↦ rw same h
        | inr (_, fits) ↦ fits
      ]
  step_keeps_cap cap_denom limit c c' named pl (other lower) h = omega (arith, lower, h)

  -- From a supply within a positive cap on a named denomination, every chain of successful mint
  -- functions and of other steps that do not raise that supply stays within the cap.
  pub chain_keeps_cap :
      (cap_denom : String) (limit : Int) (c c' : Ctx State Int)
      → cap_denom ≢ ""
      → pos 0 <ℤ value limit
      → supply m l k kl c cap_denom ≤ℤ value limit
      → Chain cap_denom limit c c'
      → supply m l k kl c' cap_denom ≤ℤ value limit
  chain_keeps_cap cap_denom limit c c' named pl h genesis = h
  chain_keeps_cap cap_denom limit c c' named pl h (next {c1 = c1} before step) =
      step_keeps_cap cap_denom limit c1 c' named pl step
        (chain_keeps_cap cap_denom limit c c1 named pl h before)
