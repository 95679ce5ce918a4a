-- ===== src/Keeper/Authority.antt =====
-- Who may change the parameters, and what the two servers of x/bps/keeper answer.
use base_protocol_system.Base.{
  ◌≡◌, refl, sym, ap, ◌∙◌, ◌≢◌, ◌↔◌, ◌⊎◌, inl, inr, true, some, String, arith, Bool-cases,
  Outcome-cases, ok, err,
}
use base_protocol_system.Keeper.Sdk.{KeeperSdk, KeeperSdkLaws}
use base_protocol_system.Keeper.{
  Params, GenesisState, MsgUpdateParams, Keeper, new_keeper, provide_module, update_params,
  query_params, default_params,
}

module _ (k : KeeperSdk Params GenesisState) (l : KeeperSdkLaws k) where
  open k use {
    State, Ext, Bytes, is_not_found, string_to_bytes, bytes_to_string, params_get, params_set,
  }

  update_params_only_if :
      (keeper : Keeper k) (req : MsgUpdateParams) (s t : State)
      → update_params k keeper req s ≡ (ok tt, t)
      → (string_to_bytes req.authority ≡ ok keeper.authority_bytes)
        × (params_set req.new_params s ≡ (ok tt, t))
  unfolding update_params
  update_params_only_if keeper req s t e = elim (Outcome-cases (string_to_bytes req.authority)) [
    | inr bad ↦ absurd (ground arith)
    | inl (b, p) ↦ elim (Bool-cases (k.bytes_equal keeper.authority_bytes b)) [
      | inr other ↦ absurd (ground arith)
      | inl same ↦
          (p ∙ ap ok (sym ((l.bytes_equal_iff keeper.authority_bytes b).0 same)), ground arith)
    ]
  ]

  update_params_if :
      (keeper : Keeper k) (req : MsgUpdateParams) (s t : State)
      → (string_to_bytes req.authority ≡ ok keeper.authority_bytes)
        × (params_set req.new_params s ≡ (ok tt, t))
      → update_params k keeper req s ≡ (ok tt, t)
  unfolding update_params
  update_params_if keeper req s t (p, q) =
      let same = (l.bytes_equal_iff keeper.authority_bytes keeper.authority_bytes).1 refl in
      ground arith

  query_only_if :
      (s t : State) (p : Params)
      → query_params k (some tt) s ≡ (ok p, t)
      → (t ≡ s)
        × ((params_get s ≡ ok p)
            ⊎ ((e : Ext) × (params_get s ≡ err e) × (is_not_found e ≡ true) × (p ≡ default_params)))
  unfolding query_params
  query_only_if s t p h = elim (Outcome-cases (params_get s)) [
    | inl (a, q) ↦ (ground arith, inl (ground arith))
    | inr (inr q) ↦ absurd (ground arith)
    | inr (inl (e, q)) ↦ elim (Bool-cases (is_not_found e)) [
      | inr other ↦ absurd (ground arith)
      | inl missing ↦ (ground arith, inr (e, q, missing, ground arith))
    ]
  ]

  query_if :
      (s t : State) (p : Params)
      → (t ≡ s)
        × ((params_get s ≡ ok p)
            ⊎ ((e : Ext) × (params_get s ≡ err e) × (is_not_found e ≡ true) × (p ≡ default_params)))
      → query_params k (some tt) s ≡ (ok p, t)
  unfolding query_params
  query_if s t p (same, inl q) = ground arith
  query_if s t p (same, inr (e, q, missing, d)) = ground arith

  -- `UpdateParams` succeeds exactly when the request's authority decodes to the keeper's and the store
  -- takes the parameters, and it leaves what the store left.
  pub update_params_iff :
      (keeper : Keeper k) (req : MsgUpdateParams) (s t : State)
      → (update_params k keeper req s ≡ (ok tt, t)) ↔ (
          (string_to_bytes req.authority ≡ ok keeper.authority_bytes)
          × (params_set req.new_params s ≡ (ok tt, t)))
  update_params_iff keeper req s t =
      (update_params_only_if keeper req s t, update_params_if keeper req s t)

  -- A request whose authority does not decode to the keeper's does not succeed, whatever its
  -- parameters, and leaves the state alone.
  pub update_params_refused :
      (keeper : Keeper k) (req : MsgUpdateParams) (s : State)
      → string_to_bytes req.authority ≢ ok keeper.authority_bytes
      → ((update_params k keeper req s).0 ≢ ok tt) × ((update_params k keeper req s).1 ≡ s)
  unfolding update_params
  update_params_refused keeper req s h = elim (Outcome-cases (string_to_bytes req.authority)) [
    | inr bad ↦ (λ e. ground arith, ground arith)
    | inl (b, p) ↦ elim (Bool-cases (k.bytes_equal keeper.authority_bytes b)) [
      | inr other ↦ (λ e. ground arith, ground arith)
      | inl same ↦
          absurd (h (p ∙ ap ok (sym ((l.bytes_equal_iff keeper.authority_bytes b).0 same))))
    ]
  ]

  -- After an update that succeeded, a query answers the parameters of the request.
  pub query-update :
      (keeper : Keeper k) (req : MsgUpdateParams) (s t : State)
      → update_params k keeper req s ≡ (ok tt, t)
      → query_params k (some tt) t ≡ (ok req.new_params, t)
  unfolding query_params
  query-update keeper req s t e =
      let read = l.get-set req.new_params s t (update_params_only_if keeper req s t e).1 in
      ground arith

  -- A query that is not nil succeeds exactly where the store has parameters, which it answers, or
  -- where the store has none, when it answers the default ones; and it never changes the state.
  pub query_params_iff :
      (s t : State) (p : Params)
      → (query_params k (some tt) s ≡ (ok p, t)) ↔ (
          (t ≡ s)
          × ((params_get s ≡ ok p)
              ⊎ ((e : Ext) × (params_get s ≡ err e)
                  × (is_not_found e ≡ true)
                  × (p ≡ default_params))))
  query_params_iff s t p = (query_only_if s t p, query_if s t p)

module _ (k : KeeperSdk Params GenesisState) where
  open k use {
    Bytes, bytes_to_string, build_schema, new_module_address, new_module_address_or_bech32_address,
  }

  pub query_params_reads :
      (s : k.State) → query_params k (some tt) s ≡ ((query_params k (some tt) s).0, s)
  unfolding query_params
  query_params_reads s = refl

  new_keeper_only_if :
      (authority : Bytes) (keeper : Keeper k)
      → new_keeper k authority ≡ some keeper
      → ((s : String) × (bytes_to_string authority ≡ ok s))
        × (build_schema ≡ true)
        × (keeper.authority_bytes ≡ authority)
  unfolding new_keeper
  new_keeper_only_if authority keeper h = elim (Outcome-cases (bytes_to_string authority)) [
    | inr bad ↦ absurd (ground arith)
    | inl (s, p) ↦ ((s, p), ground arith, ground arith)
  ]

  new_keeper_if :
      (authority : Bytes) (keeper : Keeper k)
      → ((s : String) × (bytes_to_string authority ≡ ok s))
        × (build_schema ≡ true)
        × (keeper.authority_bytes ≡ authority)
      → new_keeper k authority ≡ some keeper
  unfolding new_keeper
  new_keeper_if authority keeper ((s, p), q, r) = ground arith

  -- A keeper is built exactly where its authority has a text and the schema builds, and it has the
  -- authority that it was given.
  pub new_keeper_iff :
      (authority : Bytes) (keeper : Keeper k)
      → (new_keeper k authority ≡ some keeper) ↔ (
          ((s : String) × (bytes_to_string authority ≡ ok s))
          × (build_schema ≡ true)
          × (keeper.authority_bytes ≡ authority))
  new_keeper_iff authority keeper =
      (new_keeper_only_if authority keeper, new_keeper_if authority keeper)

module _ (k : KeeperSdk Params GenesisState) (l : KeeperSdkLaws k) where
  open k use {State, string_to_bytes, new_module_address}

  -- In a module that is configured with no authority, an update of the parameters succeeds only for
  -- the address of the module `gov`.
  pub default_authority_is_gov :
      (keeper : Keeper k) (req : MsgUpdateParams) (s t : State)
      → provide_module k "" ≡ some keeper
      → update_params k keeper req s ≡ (ok tt, t)
      → string_to_bytes req.authority ≡ ok (new_module_address "gov")
  unfolding provide_module
  default_authority_is_gov keeper req s t h e =
      (update_params_only_if k l keeper req s t e).0
      ∙ ap ok ((new_keeper_only_if k (new_module_address "gov") keeper h).2)
