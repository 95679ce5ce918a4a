-- ===== src/Wiring/Runs.antt =====
-- Sample texts of the constants, and the theorems of these modules at them.
use base_protocol_system.Base.{
  ◌≡◌, refl, sym, ap, ◌∙◌, ◌↔◌, ◌⊎◌, true, List, [], ◌∷◌, String, str_eq, if◌then◌else◌,
}
use base_protocol_system.Wiring.{Name, is_blocked}
use base_protocol_system.Wiring.Accounts.{Distinct, is_blocked_iff}

abbrev text : Name → String
text Name.upgrade = "upgrade"
text Name.auth = "auth"
text Name.distr = "distr"
text Name.mint = "mint"
text Name.slashing = "slashing"
text Name.evidence = "evidence"
text Name.staking = "staking"
text Name.authz = "authz"
text Name.epochs = "epochs"
text Name.ibc = "ibc"
text Name.bps = "bps"
text Name.gov = "gov"
text Name.feegrant = "feegrant"
text Name.group = "group"
text Name.consensus = "consensus"
text Name.bank = "bank"
text Name.genutil = "genutil"
text Name.vesting = "vesting"
text Name.nft = "nft"
text Name.circuit = "circuit"
text Name.transfer = "transfer"
text Name.ica = "ica"
text Name.params = "params"
text Name.tx = "tx"
text Name.runtime = "runtime"
text Name.fee_collector = "fee_collector"
text Name.bonded_pool = "bonded_pool"
text Name.not_bonded_pool = "not_bonded_pool"
text Name.minter = "minter"
text Name.burner = "burner"
text Name.acc = "acc"
text Name.legacy_bps_store_key = "legacy_bps_store_key"

abbrev all_names : List Name
all_names =
    Name.upgrade ∷ Name.auth ∷ Name.distr ∷ Name.mint ∷ Name.slashing ∷ Name.evidence ∷ Name.staking
    ∷ Name.authz ∷ Name.epochs ∷ Name.ibc ∷ Name.bps ∷ Name.gov ∷ Name.feegrant ∷ Name.group
    ∷ Name.consensus ∷ Name.bank ∷ Name.genutil ∷ Name.vesting ∷ Name.nft ∷ Name.circuit
    ∷ Name.transfer ∷ Name.ica ∷ Name.params ∷ Name.tx ∷ Name.runtime ∷ Name.fee_collector
    ∷ Name.bonded_pool ∷ Name.not_bonded_pool ∷ Name.minter ∷ Name.burner ∷ Name.acc
    ∷ Name.legacy_bps_store_key ∷ []

find : String → List Name → Name
find s [] = Name.tx
find s (n ∷ ns) = if str_eq (text n) s then n else find s ns

find-text : (n : Name) → find (text n) all_names ≡ n
unfolding find
find-text Name.tx = refl
find-text n = refl

text-Distinct : Distinct text
text-Distinct a b e = sym (find-text a) ∙ ap (λ s. find s all_names) e ∙ find-text b

is_blocked_iff_example : (is_blocked text "gov" ≡ true) ↔ (
    (Name.fee_collector ≡ Name.gov)
    ⊎ ((Name.distr ≡ Name.gov)
        ⊎ ((Name.mint ≡ Name.gov)
            ⊎ ((Name.bonded_pool ≡ Name.gov)
                ⊎ ((Name.not_bonded_pool ≡ Name.gov) ⊎ (Name.nft ≡ Name.gov))))))
is_blocked_iff_example = is_blocked_iff text text-Distinct Name.gov
