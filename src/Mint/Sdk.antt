-- ===== src/Mint/Sdk.antt =====
-- What app/mint_hardcap.go takes from outside the repository: the integers and coins of
-- `cosmossdk.io/math` and the SDK's `types`, and the keepers of its mint and bank modules.
use base_protocol_system.Base.{
  ℕ, ◌+◌, ◌^◌, ◌<◌, ◌≡◌, Bool, true, Option, some, List, [], ◌∷◌, ◌++◌, String, if◌then◌else◌,
  str_eq,
}
use base_protocol_system.Base.{ℤ, pos, pos_part, neg_part, ◌+ℤ◌, ◌-ℤ◌, ltb_ℤ, leb_ℤ}
use base_protocol_system.Base.{Outcome, Action, ok}

-- `sdk.Coin`
pub record Coin (Int : Type 0) : Type 0 where
  pub denom : String
  pub amount : Int

-- The two fields of `minttypes.Minter`.
pub record Minter (LegacyDec : Type 0) : Type 0 where
  pub inflation : LegacyDec
  pub annual_provisions : LegacyDec

-- `sdk.Event`, with its attributes in order.
pub record Event : Type 0 where
  pub kind : String
  pub attributes : List (String × String)

-- `sdkmath.Int` and `sdk.Coin`; `none` is a panic.
pub record SdkMath : Type 1 where
  pub Int : Type 0
  pub value : Int → ℤ
  pub zero_int : Int
  pub new_int : ℕ → Int
  pub is_positive : Int → Bool
  pub gte : Int → Int → Bool
  pub gt : Int → Int → Bool
  pub sub : Int → Int → Option Int
  pub is_int64 : Int → Bool
  pub int_string : Int → String
  pub is_valid_denom : String → Bool
  pub new_coin : String → Int → Option (Coin Int)
  pub new_coins : Coin Int → Option (List (Coin Int))

-- An `sdkmath.Int` stands for an integer, and a difference within 256 bits does not panic.
-- `sdk.NewCoin` takes a valid denomination with an amount that is not negative, and
-- `sdk.NewCoins` of one positive coin is the list of that coin.
pub record SdkMathLaws (m : SdkMath) : Type 0 where
  pub value-new_int : (n : ℕ) → m.value (m.new_int n) ≡ pos n
  pub value-zero_int : m.value m.zero_int ≡ pos 0
  pub is_positive_lem : (a : m.Int) → m.is_positive a ≡ ltb_ℤ (pos 0) (m.value a)
  pub gte_lem : (a b : m.Int) → m.gte a b ≡ leb_ℤ (m.value b) (m.value a)
  pub gt_lem : (a b : m.Int) → m.gt a b ≡ ltb_ℤ (m.value b) (m.value a)
  pub sub_fits :
      (a b : m.Int)
      → pos_part (m.value a -ℤ m.value b) + neg_part (m.value a -ℤ m.value b) < 2 ^ 256
      → (d : m.Int) × (m.sub a b ≡ some d)
  pub value-sub : (a b d : m.Int) → m.sub a b ≡ some d → m.value d ≡ m.value a -ℤ m.value b
  pub new_coin_valid :
      (d : String) (a : m.Int)
      → m.is_valid_denom d ≡ true
      → leb_ℤ (pos 0) (m.value a) ≡ true
      → m.new_coin d a ≡ some (record { denom = d; amount = a })
  pub new_coin_some :
      (d : String) (a : m.Int) (c : Coin m.Int)
      → m.new_coin d a ≡ some c
      → c ≡ record { denom = d; amount = a }
  pub new_coins_valid :
      (c : Coin m.Int)
      → m.is_valid_denom c.denom ≡ true
      → m.is_positive c.amount ≡ true
      → m.new_coins c ≡ some (c ∷ [])
  pub new_coins_some :
      (c : Coin m.Int) (cs : List (Coin m.Int))
      → m.is_positive c.amount ≡ true
      → m.new_coins c ≡ some cs
      → cs ≡ c ∷ []

-- The keepers, over a state of their own, and the formatting of the event. The two calls that move coins
-- emit the bank's events, behind those that were emitted; to store the minter emits none.
pub record MintKeeper (m : SdkMath) : Type 1 where
  pub State : Type 0
  pub Error : Type 0
  pub LegacyDec : Type 0
  pub MintParams : Type 0
  pub minter_get : State → Outcome Error (Minter LegacyDec)
  pub minter_set : Minter LegacyDec → Action State Error (Unit {0})
  pub params_get : State → Outcome Error MintParams
  pub staking_token_supply : State → Outcome Error m.Int
  pub bonded_ratio : State → Outcome Error LegacyDec
  pub default_inflation_calculation_fn : Minter LegacyDec → MintParams → LegacyDec → LegacyDec
  pub next_annual_provisions : Minter LegacyDec → MintParams → m.Int → LegacyDec
  pub block_provision : Minter LegacyDec → MintParams → Option (Coin m.Int)
  pub get_supply : State → String → m.Int
  pub mint_coins : List (Coin m.Int) → Action (State × List Event) Error (Unit {0})
  pub add_collected_fees : List (Coin m.Int) → Action (State × List Event) Error (Unit {0})
  pub dec_string : LegacyDec → String
  pub event_type_mint : String
  pub attribute_key_bonded_ratio : String
  pub attribute_key_inflation : String
  pub attribute_key_annual_provisions : String
  pub attribute_key_amount : String

-- Of the calls that `NewHardCapMintFn` makes, a successful `MintCoins` alone changes a supply,
-- by the amount of its coin. The events that were emitted stay.
pub record MintKeeperLaws (m : SdkMath) (k : MintKeeper m) : Type 0 where
  pub supply-minter_set :
      (x : Minter k.LegacyDec) (s t : k.State) (d : String)
      → k.minter_set x s ≡ (ok tt, t)
      → k.get_supply t d ≡ k.get_supply s d
  pub supply-mint_coins :
      (c : Coin m.Int) (x y : k.State × List Event) (d : String)
      → k.mint_coins (c ∷ []) x ≡ (ok tt, y)
      → m.value (k.get_supply (y.0) d)
        ≡ m.value (k.get_supply (x.0) d) +ℤ (if str_eq c.denom d then m.value c.amount else pos 0)
  pub supply-add_collected_fees :
      (cs : List (Coin m.Int)) (x y : k.State × List Event) (d : String)
      → k.add_collected_fees cs x ≡ (ok tt, y)
      → k.get_supply (y.0) d ≡ k.get_supply (x.0) d
  pub events-mint_coins :
      (cs : List (Coin m.Int)) (x : k.State × List Event)
      → (es : List Event) × ((k.mint_coins cs x).1.1 ≡ x.1 ++ es)
  pub events-add_collected_fees :
      (cs : List (Coin m.Int)) (x : k.State × List Event)
      → (es : List Event) × ((k.add_collected_fees cs x).1.1 ≡ x.1 ++ es)
