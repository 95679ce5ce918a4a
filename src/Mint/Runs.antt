-- ===== src/Mint/Runs.antt =====
-- Runs of the mint function over a small bank, and the theorems of its modules at concrete inputs.
use base_protocol_system.Base.{
  ℕ, ◌≡◌, refl, sym, ap, ◌≢◌, ◌⊎◌, true, not, Option, none, some, List, [], ◌∷◌, ◌++◌, String,
  arith, if◌then◌else◌, ℤ, pos, ◌+ℤ◌, ◌-ℤ◌, ◌≤ℤ◌, ◌<ℤ◌, ltb_ℤ, leb_ℤ, Outcome, Action, ok,
  Bool-cases, inl, inr, str_eq,
}
use mathlib.Core.List.{append-nil}
use base_protocol_system.Mint.Sdk.{
  Coin, Minter, Event, SdkMath, SdkMathLaws, MintKeeper, MintKeeperLaws,
}
use base_protocol_system.Mint.{
  Ctx, clamp_mint_to_hard_cap, hard_cap_mint_fn, provide_hard_cap_mint_fn, mint_hard_cap_denom,
  remaining_or_minted, mint_and_collect, mint_provision, report,
}
use base_protocol_system.Mint.Clamp.{IsCapped, clamp_capped, min_ℤ, room}
use base_protocol_system.Mint.Bounds.{clamp-le-cap}
use base_protocol_system.Mint.Cap.{supply, hard_cap_bound, hard_cap_mono, provided_bound}
use base_protocol_system.Mint.Chain.{begin_block, Chain, genesis, next, chain_keeps_cap}
use base_protocol_system.Mint.Progress.{IsServed, hard_cap_mints}

abbrev new_coin : String → ℤ → Option (Coin ℤ)
new_coin d a = if leb_ℤ (pos 0) a then some (record { denom = d; amount = a }) else none

-- Unbounded integers, which panic on no difference.
abbrev math : SdkMath
math = record {
  Int = ℤ;
  value = λ a. a;
  zero_int = pos 0;
  new_int = pos;
  is_positive = λ a. ltb_ℤ (pos 0) a;
  gte = λ a b. leb_ℤ b a;
  gt = λ a b. ltb_ℤ b a;
  sub = λ a b. some (a -ℤ b);
  is_int64 = λ a. true;
  int_string = λ a. "amount";
  is_valid_denom = λ d. not (str_eq d "");
  new_coin = new_coin;
  new_coins = λ c. some (c ∷ []);
}

new_coin_some :
    (d : String) (a : ℤ) (c : Coin ℤ) → new_coin d a ≡ some c → c ≡ record { denom = d; amount = a }
new_coin_some d a c e = elim (Bool-cases (leb_ℤ (pos 0) a)) [
  | inl h ↦ let e' : some (record { denom = d; amount = a }) ≡ some c = rw h at e in ground arith
  | inr h ↦ let e' : none ≡ some c = rw h at e in absurd (cc)
]

math_laws : SdkMathLaws math
math_laws = record {
  value-new_int = λ n. refl;
  value-zero_int = refl;
  is_positive_lem = λ a. refl;
  gte_lem = λ a b. refl;
  gt_lem = λ a b. refl;
  sub_fits = λ a b h. (a -ℤ b, refl);
  value-sub = λ a b d e. ground arith;
  new_coin_valid = λ d a h nonneg. rw nonneg;
  new_coin_some = new_coin_some;
  new_coins_valid = λ c h p. refl;
  new_coins_some = λ c cs p e. ground arith;
}

-- A bank that holds a supply for each denomination; a minter and decimals that are one number.
record Bank : Type 0 where
  minter : Minter (Unit {0})
  supplies : String → ℤ

abbrev mint_supplies : List (Coin ℤ) → Bank → Bank
mint_supplies [] s = s
mint_supplies (c ∷ cs) s =
    mint_supplies cs
      (record s { supplies = λ d. s.supplies d +ℤ (if str_eq c.denom d then c.amount else pos 0) })

-- The event of the bank.
abbrev coinbase : Event
coinbase = record { kind = "coinbase"; attributes = [] }

abbrev mint_coins : List (Coin ℤ) → Action (Bank × List Event) String (Unit {0})
mint_coins cs x = (ok tt, (mint_supplies cs (x.0), x.1 ++ (coinbase ∷ [])))

-- Every block provides 300 `ubps`.
abbrev keeper : MintKeeper math
keeper = record {
  State = Bank;
  Error = String;
  LegacyDec = Unit {0};
  MintParams = Coin ℤ;
  minter_get = λ s. ok s.minter;
  minter_set = λ x s. (ok tt, record s { minter = x });
  params_get = λ s. ok (record { denom = mint_hard_cap_denom; amount = pos 300 });
  staking_token_supply = λ s. ok (s.supplies mint_hard_cap_denom);
  bonded_ratio = λ s. ok tt;
  default_inflation_calculation_fn = λ x p r. tt;
  next_annual_provisions = λ x p t. tt;
  block_provision = λ x p. some p;
  get_supply = λ s d. s.supplies d;
  mint_coins = mint_coins;
  add_collected_fees = λ cs x. (ok tt, x);
  dec_string = λ x. "decimal";
  event_type_mint = "mint";
  attribute_key_bonded_ratio = "bonded_ratio";
  attribute_key_inflation = "inflation";
  attribute_key_annual_provisions = "annual_provisions";
  attribute_key_amount = "amount";
}

keeper_laws : MintKeeperLaws math keeper
keeper_laws = record {
  supply-minter_set = λ x s t d e. ground arith;
  supply-mint_coins = λ c x y d e.
      ap (λ (p : Outcome String (Unit {0}) × (Bank × List Event)). p.1.0.supplies d) (sym e);
  supply-add_collected_fees = λ cs x y d e. ground arith;
  events-mint_coins = λ cs x. (coinbase ∷ [], refl);
  events-add_collected_fees = λ cs x. ([], sym (append-nil (x.1)));
}

abbrev at_supply : ℕ → Ctx Bank ℤ
at_supply n = record {
  store = record {
    minter = record { inflation = tt; annual_provisions = tt };
    supplies = λ d. pos n;
  };
  events = [];
  gauge = [];
}

abbrev asked : Coin ℤ
asked = record { denom = "ubps"; amount = pos 300 }

-- The cases of the repository's own test of the clamp.
clamp_near_cap :
    clamp_mint_to_hard_cap math
      (pos 9_800)
      (record { denom = "ubps"; amount = pos 500 })
      "ubps"
      (pos 10_000)
    ≡ some (record { denom = "ubps"; amount = pos 200 })
unfolding clamp_mint_to_hard_cap remaining_or_minted ◌-ℤ◌
clamp_near_cap = refl

clamp_other_denom :
    clamp_mint_to_hard_cap math
      (pos 1_000)
      (record { denom = "utoken"; amount = pos 250 })
      "ubps"
      (pos 10_000)
    ≡ some (record { denom = "utoken"; amount = pos 250 })
unfolding clamp_mint_to_hard_cap
clamp_other_denom = refl

after : ℕ → Ctx Bank ℤ
after n = (hard_cap_mint_fn math keeper "ubps" (pos 10_000) (at_supply n)).1

after_provided : Ctx Bank ℤ
after_provided = (provide_hard_cap_mint_fn math keeper (at_supply 5)).1

runs_ok : hard_cap_mint_fn math keeper "ubps" (pos 10_000) (at_supply 9_800) ≡ (ok tt, after 9_800)
unfolding after hard_cap_mint_fn mint_provision mint_and_collect report clamp_mint_to_hard_cap
    remaining_or_minted ◌-ℤ◌
runs_ok = refl

named : mint_hard_cap_denom ≢ ""
named e = cc

asked-IsCapped : IsCapped math asked "ubps" (pos 10_000)
asked-IsCapped = record {
  positive = omega arith;
  cap_positive = omega arith;
  named = named;
  same_denom = refl;
}

asked-IsServed : IsServed math math_laws keeper keeper_laws (at_supply 9_800) asked
asked-IsServed = record {
  old = record { inflation = tt; annual_provisions = tt };
  params = asked;
  total = pos 9_800;
  ratio = tt;
  old_read = refl;
  params_read = refl;
  total_read = refl;
  ratio_read = refl;
  stored = (at_supply 9_800).store;
  minter_stored = refl;
  provided = refl;
  mints = λ part p. refl;
  collects = λ part x p e. refl;
}

-- The theorems at a supply of 9,800 under a cap of 10,000, with 300 asked for.
clamp_capped_example :
    (c : Coin ℤ) × (clamp_mint_to_hard_cap math (pos 9_800) asked "ubps" (pos 10_000) ≡ some c)
    × (c.denom ≡ "ubps")
    × (c.amount ≡ min_ℤ (pos 300) (room (pos 9_800) (pos 10_000)))
clamp_capped_example =
    clamp_capped math math_laws (pos 9_800) asked "ubps" (pos 10_000) asked-IsCapped refl
      (omega arith) (omega arith)

clamp_left :
    clamp_mint_to_hard_cap math (pos 9_800) asked "ubps" (pos 10_000)
    ≡ some (record { denom = "ubps"; amount = pos 200 })
unfolding clamp_mint_to_hard_cap remaining_or_minted ◌-ℤ◌
clamp_left = refl

clamp-le-cap_example : pos 9_800 +ℤ pos 200 ≤ℤ pos 10_000
clamp-le-cap_example =
    clamp-le-cap math math_laws (pos 9_800) asked (record { denom = "ubps"; amount = pos 200 })
      "ubps" (pos 10_000) named (omega arith) clamp_left refl (omega arith)

hard_cap_bound_example :
    (supply math math_laws keeper keeper_laws (after 9_800) "ubps" ≡ pos 9_800)
    ⊎ ((pos 9_800 <ℤ supply math math_laws keeper keeper_laws (after 9_800) "ubps")
        × (supply math math_laws keeper keeper_laws (after 9_800) "ubps" ≤ℤ pos 10_000))
hard_cap_bound_example =
    hard_cap_bound math math_laws keeper keeper_laws "ubps" (pos 10_000) (at_supply 9_800)
      (after 9_800) named (omega arith) runs_ok

hard_cap_mono_example : pos 9_800 ≤ℤ supply math math_laws keeper keeper_laws (after 9_800) "utoken"
hard_cap_mono_example =
    hard_cap_mono math math_laws keeper keeper_laws "ubps" (pos 10_000) (at_supply 9_800)
      (after 9_800) "utoken" runs_ok

one_block :
    Chain math math_laws keeper keeper_laws "ubps" (pos 10_000) (at_supply 9_800) (after 9_800)
one_block = next genesis (begin_block runs_ok)

chain_keeps_cap_example :
    supply math math_laws keeper keeper_laws (after 9_800) "ubps" ≤ℤ pos 10_000
chain_keeps_cap_example =
    chain_keeps_cap math math_laws keeper keeper_laws "ubps" (pos 10_000) (at_supply 9_800)
      (after 9_800) named (omega arith) (omega arith) one_block

hard_cap_mints_example :
    (c' : Ctx Bank ℤ) × (hard_cap_mint_fn math keeper "ubps" (pos 10_000) (at_supply 9_800)
      ≡ (ok tt, c'))
    × (supply math math_laws keeper keeper_laws c' "ubps"
        ≡ pos 9_800 +ℤ min_ℤ (pos 300) (room (pos 9_800) (pos 10_000)))
hard_cap_mints_example =
    hard_cap_mints math math_laws keeper keeper_laws "ubps" (pos 10_000) (at_supply 9_800) asked
      asked-IsServed asked-IsCapped refl (omega arith) (omega arith)

provided_runs : provide_hard_cap_mint_fn math keeper (at_supply 5) ≡ (ok tt, after_provided)
unfolding after_provided provide_hard_cap_mint_fn hard_cap_mint_fn mint_provision mint_and_collect
    report clamp_mint_to_hard_cap remaining_or_minted ◌-ℤ◌
provided_runs = refl

provided_bound_example :
    (supply math math_laws keeper keeper_laws after_provided "ubps" ≡ pos 5)
    ⊎ ((pos 5 <ℤ supply math math_laws keeper keeper_laws after_provided "ubps")
        × (supply math math_laws keeper keeper_laws after_provided "ubps"
            ≤ℤ pos 100_000_000_000_000))
provided_bound_example =
    provided_bound math math_laws keeper keeper_laws (at_supply 5) after_provided provided_runs
