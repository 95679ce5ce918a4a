-- ===== src/Wiring/Accounts.antt =====
-- Which module accounts may receive coins, and which may mint and burn them.
use base_protocol_system.Base.{
  ◌≡◌, refl, ap, ◌↔◌, ◌⊎◌, inl, inr, Bool, true, false, ◌||◌, Option, none, some, List, [], ◌∷◌,
  String, str_eq, str_eq_same, str_eq→eq, str_eq_ne, if◌then◌else◌, arith, map,
}
use text.Mathlib.TextEquality.{eq_iff}
use base_protocol_system.Wiring.{
  Name, insert, lookup, mark_all, blocked_addresses, blocked_from, block_acc_addrs, is_blocked,
  copy_perms, get_macc_perms,
}

-- Constants with the same text are the same.
abbrev pub Distinct : (Name → String) → Type 0
Distinct text = (a b : Name) → text a ≡ text b → a ≡ b

-- A text stands in a list.
unfoldable pub contains : List String → String → Bool
contains [] addr = false
contains (n ∷ ns) addr = str_eq n addr || contains ns addr

lookup-insert :
    {V : Type 0} (k j : String) (v : V) (m : List (String × V))
    → lookup j (insert k v m) ≡ (if str_eq k j then some v else lookup j m)
unfolding lookup insert
lookup-insert k j v [] = refl
lookup-insert k j v ((i, w) ∷ m) =
    let later = lookup-insert k j v m in ground (arith, eq_iff i k, eq_iff k j, eq_iff i j, later)

lookup-mark_all :
    (text : Name → String) (addrs : List String) (result : List (String × Bool)) (addr : String)
    → lookup addr (mark_all text addrs result)
      ≡ (if contains addrs addr then some true else lookup addr result)
unfolding mark_all contains
lookup-mark_all text [] result addr = refl
lookup-mark_all text (a ∷ as') result addr =
    let later = lookup-mark_all text as' (insert a true result) addr in
    let here = lookup-insert a addr true result in ground (arith, later, here)

unfoldable pub Name-discrete : Discrete Name
Name-discrete = hlevel

unfoldable pub same : Name → Name → Bool
unfolding Name-discrete
same a b = elim (Name-discrete a b) [ yes _ ↦ true | no _ ↦ false ]

pub str_eq-same :
    (text : Name → String) → Distinct text → (a b : Name) → str_eq (text a) (text b) ≡ same a b
unfolding same
str_eq-same text d a b =
    elim (Name-discrete a b)
      as (λ r. str_eq (text a) (text b) ≡ (elim r [ yes _ ↦ true | no _ ↦ false ])) [
        | yes e ↦ str_eq_same (text a) (text b) (ap text e)
        | no ne ↦ str_eq_ne (text a) (text b) (λ e. ne (d a b e))
      ]

module _ (text : Name → String) where
  -- Whatever the texts of the constants are, an address is blocked exactly where it is the text of one
  -- of the constants in `blockAccAddrs`.
  pub is_blocked-contains :
      (addr : String) → is_blocked text addr ≡ contains (map text block_acc_addrs) addr
  unfolding is_blocked blocked_addresses blocked_from
  is_blocked-contains addr =
      let m = lookup-mark_all text (map text block_acc_addrs) [] addr in
      let empty : lookup addr (let e : List (String × Bool) = [] in e) ≡ none =
        unfold lookup in refl in
      ground (arith, m, empty)

  same_text : Distinct text → (a b : Name) → (str_eq (text a) (text b) ≡ true) ↔ (a ≡ b)
  same_text d a b =
      (λ e. d a b (str_eq→eq (text a) (text b) e), λ e. str_eq_same (text a) (text b) (ap text e))

  -- Where the constants have distinct texts, the blocked ones are the fee collector, the
  -- distribution, mint and nft modules and the two pools of the staking module; the accounts of
  -- gov, transfer and ica are not blocked.
  pub is_blocked_iff :
      Distinct text
      → (n : Name)
      → (is_blocked text (text n) ≡ true) ↔ (
          (Name.fee_collector ≡ n)
          ⊎ ((Name.distr ≡ n)
              ⊎ ((Name.mint ≡ n)
                  ⊎ ((Name.bonded_pool ≡ n) ⊎ ((Name.not_bonded_pool ≡ n) ⊎ (Name.nft ≡ n))))))
  unfolding contains
  is_blocked_iff d n =
      let b = is_blocked-contains (text n) in
      let s = λ (a : Name). same_text d a n in
      (
        (λ e. ground (
          arith,
          b,
          s Name.fee_collector,
          s Name.distr,
          s Name.mint,
          s Name.bonded_pool,
          s Name.not_bonded_pool,
          s Name.nft,
        )),
        (λ e. ground (
          arith,
          b,
          s Name.fee_collector,
          s Name.distr,
          s Name.mint,
          s Name.bonded_pool,
          s Name.not_bonded_pool,
          s Name.nft,
        )),
      )

  pub among : Name → Option (List String) → Bool
  among permission none = false
  among permission (some perms) = contains perms (text permission)

  -- Whether `GetMaccPerms()` gives an account a permission.
  pub permitted : Name → String → Bool
  permitted permission account = among permission (lookup account (get_macc_perms text))

  -- The permissions of an account, by the last of the entries that name it.
  perms_of :
      (account : String)
      → lookup account (get_macc_perms text) ≡ (
          if str_eq (text Name.ica) account
          then some []
          else if str_eq (text Name.transfer) account
          then some (text Name.minter ∷ text Name.burner ∷ [])
          else if str_eq (text Name.nft) account
          then some []
          else if str_eq (text Name.gov) account
          then some (text Name.burner ∷ [])
          else if str_eq (text Name.not_bonded_pool) account
          then some (text Name.burner ∷ text Name.staking ∷ [])
          else if str_eq (text Name.bonded_pool) account
          then some (text Name.burner ∷ text Name.staking ∷ [])
          else if str_eq (text Name.mint) account
          then some (text Name.minter ∷ [])
          else if str_eq (text Name.distr) account
          then some []
          else if str_eq (text Name.fee_collector) account
          then some []
          else none)
  unfolding get_macc_perms copy_perms
  perms_of account =
      let empty : lookup {V = List String} account [] ≡ none = unfold lookup in refl in
      simp (lookup-insert, empty)

  may_mint : Name → Bool
  may_mint Name.mint = true
  may_mint Name.transfer = true
  may_mint _ = false

  permitted-may_mint : Distinct text → (n : Name) → permitted Name.minter (text n) ≡ may_mint n
  unfolding permitted among contains same may_mint
  permitted-may_mint d Name.mint = simp (perms_of (text Name.mint), str_eq-same text d)
  permitted-may_mint d n = simp (perms_of (text n), str_eq-same text d)

  -- Where the constants have distinct texts, the accounts of mint and transfer may mint coins, and no
  -- others.
  pub minters_iff :
      Distinct text
      → (n : Name)
      → (permitted Name.minter (text n) ≡ true) ↔ ((n ≡ Name.mint) ⊎ (n ≡ Name.transfer))
  unfolding may_mint
  minters_iff d Name.mint = (λ _. inl refl, λ _. permitted-may_mint d Name.mint)
  minters_iff d Name.transfer = (λ _. inr refl, λ _. permitted-may_mint d Name.transfer)
  minters_iff d n =
      (λ e. absurd (let p = permitted-may_mint d n in cc), λ e. elim e [ inl q ↦ cc | inr q ↦ cc ])
