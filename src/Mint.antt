-- ===== src/Mint.antt =====
-- app/mint_hardcap.go: the mint function of a block, with the hard cap on the supply of `ubps`.
-- It runs on a context of the keepers' state, the events emitted and the gauge of minted tokens.
pub mod Sdk
pub mod Clamp
mod Runs
pub mod Progress
pub mod Chain
pub mod Cap
pub mod Supply
pub mod Bounds
use base_protocol_system.Base.{
  ◌≡◌, Bool, true, false, not, ◌||◌, Option, none, some, List, [], ◌∷◌, ◌++◌, String, if◌then◌else◌,
  str_eq,
}
use base_protocol_system.Base.{
  Outcome, Action, ok, err, panic, ◌>>=◌, ◌>>◌, pure, read, gets, must, modify,
}
use Sdk.{Coin, Minter, Event, SdkMath, MintKeeper}

abbrev pub mint_hard_cap_denom : String
mint_hard_cap_denom = "ubps"

-- 100,000,000 BPS of 1,000,000 ubps each.
abbrev pub mint_hard_cap_amount : (m : SdkMath) → m.Int
mint_hard_cap_amount m = m.new_int 100_000_000_000_000

module _ (m : SdkMath) where
  open m use {Int, is_positive, gte, gt, sub, zero_int, new_coin}

  pub remaining_or_minted : Coin Int → Option Int → Option (Coin Int)
  remaining_or_minted minted none = none
  remaining_or_minted minted (some remaining) =
      if gt minted.amount remaining then new_coin minted.denom remaining else some minted

  pub clamp_mint_to_hard_cap : Int → Coin Int → String → Int → Option (Coin Int)
  unfolding remaining_or_minted
  clamp_mint_to_hard_cap current_supply minted cap_denom cap_amount =
      if not (is_positive minted.amount)
      then some minted
      else if str_eq cap_denom "" || not (is_positive cap_amount)
      then some minted
      else if not (str_eq minted.denom cap_denom)
      then some minted
      else if gte current_supply cap_amount
      then new_coin minted.denom zero_int
      else remaining_or_minted minted (sub cap_amount current_supply)

-- What the function can change: the stores, the events and the telemetry gauge.
pub record Ctx (State Int : Type 0) : Type 0 where
  pub store : State
  pub events : List Event
  pub gauge : List Int

module _ (m : SdkMath) (k : MintKeeper m) where
  open m use {Int, is_positive, new_coins, is_int64, int_string}
  open k use {
    State, Error, LegacyDec, MintParams, minter_get, minter_set, params_get, staking_token_supply,
    bonded_ratio, default_inflation_calculation_fn, next_annual_provisions, block_provision,
    get_supply, mint_coins, add_collected_fees, dec_string, event_type_mint,
    attribute_key_bonded_ratio, attribute_key_inflation, attribute_key_annual_provisions,
    attribute_key_amount,
  }

  -- A call that moves coins, which emits its events to the context's.
  abbrev pub on_ctx :
      {A : Type 0} → Action (State × List Event) Error A → Action (Ctx State Int) Error A
  on_ctx f c = let (r, (s, es)) = f (c.store, c.events) in (r, record c { store = s; events = es })

  -- To store the minter, which emits no event.
  abbrev pub on_store : {A : Type 0} → Action State Error A → Action (Ctx State Int) Error A
  on_store f c = let (r, s) = f c.store in (r, record c { store = s })

  abbrev pub store_read : {A : Type 0} → (State → Outcome Error A) → Action (Ctx State Int) Error A
  store_read f = read (λ c. f c.store)

  -- Inflation first, and the provisions from the minter that has it.
  pub recalculated : Minter LegacyDec → MintParams → Int → LegacyDec → Minter LegacyDec
  recalculated minter params total_staking_supply ratio =
      let minter' = record minter {
        inflation = default_inflation_calculation_fn minter params ratio;
      } in
      record minter' {
        annual_provisions = next_annual_provisions minter' params total_staking_supply;
      }

  pub mint_and_collect : Coin Int → Action (Ctx State Int) Error (Unit {0})
  mint_and_collect minted =
      if is_positive minted.amount
      then (do
        minted_coins ← must (new_coins minted)
        on_ctx (mint_coins minted_coins)
        on_ctx (add_collected_fees minted_coins))
      else pure tt

  pub mint_event : Minter LegacyDec → LegacyDec → Coin Int → Event
  mint_event minter ratio minted = record {
    kind = event_type_mint;
    attributes =
        (attribute_key_bonded_ratio, dec_string ratio)
        ∷ (attribute_key_inflation, dec_string minter.inflation)
        ∷ (attribute_key_annual_provisions, dec_string minter.annual_provisions)
        ∷ (attribute_key_amount, int_string minted.amount)
        ∷ [];
  }

  -- `EmitEvent`, and the deferred gauge, which is set when the function returns.
  pub report : Event → Coin Int → Action (Ctx State Int) Error (Unit {0})
  report event minted = do
    modify (λ c. record c { events = c.events ++ (event ∷ []) })
    modify (λ c. record c {
      gauge = if is_int64 minted.amount then minted.amount ∷ c.gauge else c.gauge;
    })

  -- Clamping and minting the provision of a minter that is stored.
  pub mint_provision :
      String → Int → Minter LegacyDec → MintParams → Action (Ctx State Int) Error (Coin Int)
  mint_provision cap_denom cap_amount minter params = do
    provision ← must (block_provision minter params)
    current_supply ← gets (λ c. get_supply c.store cap_denom)
    minted ← must (clamp_mint_to_hard_cap m current_supply provision cap_denom cap_amount)
    mint_and_collect minted
    pure minted

  -- The function that `NewHardCapMintFn` returns.
  pub hard_cap_mint_fn : String → Int → Action (Ctx State Int) Error (Unit {0})
  hard_cap_mint_fn cap_denom cap_amount = do
    old ← store_read minter_get
    params ← store_read params_get
    total_staking_supply ← store_read staking_token_supply
    ratio ← store_read bonded_ratio
    let minter = recalculated old params total_staking_supply ratio
    on_store (minter_set minter)
    minted ← mint_provision cap_denom cap_amount minter params
    report (mint_event minter ratio minted) minted

  -- The function that the application is built with: at most 100,000,000,000,000 `ubps`.
  pub provide_hard_cap_mint_fn : Action (Ctx State Int) Error (Unit {0})
  provide_hard_cap_mint_fn = hard_cap_mint_fn mint_hard_cap_denom (mint_hard_cap_amount m)
