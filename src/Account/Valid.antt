-- ===== src/Account/Valid.antt =====
-- Which genesis accounts pass `Validate`.
use base_protocol_system.Base.{
  ◌≡◌, refl, ◌↔◌, ◌⊎◌, inl, inr, true, false, not, ◌&&◌, ◌<ℤ◌, leb_ℤ, str_eq, str_eq→eq,
  str_eq_same, Bool-cases, ok, arith,
}
use base_protocol_system.Account.{AuthSdk, GenesisAccount, validate_account}

module _ (k : AuthSdk) where
  open k use {Coins, BaseAccount, Error, is_zero, validate_base_account, validate_module_account}

  -- The three things that `Validate` asks for.
  pub record IsValid (sga : GenesisAccount k) : Type 0 where
    pub vesting : (is_zero sga.original_vesting ≡ true) ⊎ (sga.start_time <ℤ sga.end_time)
    pub module_account :
        (sga.module_name ≡ "")
        ⊎ (validate_module_account sga.base_account sga.module_name sga.module_permissions ≡ ok tt)
    pub base : validate_base_account sga.base_account ≡ ok tt

  IsValid-only_if : (sga : GenesisAccount k) → validate_account k sga ≡ ok tt → IsValid sga
  unfolding validate_account
  IsValid-only_if sga e = record {
    vesting = elim (Bool-cases (is_zero sga.original_vesting)) [
      | inl z ↦ inl z
      | inr nz ↦ inr (ground arith)
    ];
    module_account = elim (Bool-cases (str_eq sga.module_name "")) [
      | inl z ↦ inl (str_eq→eq sga.module_name "" z)
      | inr nz ↦ inr (ground arith)
    ];
    base = ground arith;
  }

  IsValid-if : (sga : GenesisAccount k) → IsValid sga → validate_account k sga ≡ ok tt
  unfolding validate_account
  IsValid-if sga h =
      let b = h.base in
      let open_end : (not (is_zero sga.original_vesting) && leb_ℤ sga.end_time sga.start_time)
          ≡ false =
        elim h.vesting [ inl z ↦ rw (z) refl | inr lt ↦ ground arith ] in
      elim h.module_account [
        | inl none_named ↦ (let e = str_eq_same sga.module_name "" none_named in ground arith)
        | inr m ↦ ground arith
      ]

  -- `Validate` accepts an account exactly where it has nothing vesting or starts to vest before it
  -- ends to, where it names no module or is a valid module account of it, and where its base
  -- account is valid.
  pub validate_account_iff :
      (sga : GenesisAccount k) → (validate_account k sga ≡ ok tt) ↔ IsValid sga
  validate_account_iff sga = (IsValid-only_if sga, IsValid-if sga)
