-- ===== src/MultiNode/Removal.antt =====
-- What is left behind when the files of a node cannot be made.
use base_protocol_system.Base.{
  ℕ, pos, itoa, ◌⧺◌, [], ◌∷◌, ◌≡◌, ◌∙◌, ◌⊎◌, sym, ap, none, false, String, arith, inl, inr, Action,
  ok, err, Outcome-cases, settled,
}
use base_protocol_system.MultiNode.Sdk.{MultiNodeSdk, MultiNodeLaws, NodeConfig}
use base_protocol_system.MultiNode.Args.{InitArgs}
use base_protocol_system.MultiNode.Nodes.{
  Nodes, or_remove, make_node, prepare_node, node_dir, config_of,
}

module _ (k : MultiNodeSdk) where
  open k use {State, Ext, Coin, PubKey, Rest}

  -- A step that fails ends in its own error, after the removal of the directory.
  or_remove-err :
      {A : Type 0} (dir : String) (m : Action State Ext A) (s t : State) (e : Ext)
      → or_remove k dir m s ≡ (err e, t)
      → (u : State) × (m s ≡ (err e, u)) × ((k.remove_all dir u).1 ≡ t)
  unfolding or_remove
  or_remove-err dir m s t e h = elim (Outcome-cases ((m s).0)) [
    | inl (a, p) ↦ absurd (ground arith)
    | inr (inl (x, p)) ↦ ((m s).1, settled (m s) p ∙ ground arith, ground arith)
    | inr (inr p) ↦ absurd (ground arith)
  ]

  or_remove-ok :
      {A : Type 0} (dir : String) (m : Action State Ext A) (s t : State) (a : A)
      → or_remove k dir m s ≡ (ok a, t)
      → m s ≡ (ok a, t)
  unfolding or_remove
  or_remove-ok dir m s t a h = elim (Outcome-cases ((m s).0)) [
    | inl (b, p) ↦ settled (m s) p ∙ ground arith
    | inr (inl (x, p)) ↦ absurd (ground arith)
    | inr (inr p) ↦ absurd (ground arith)
  ]

  -- How making a node's directory and its validator's files fails: by either of the two.
  abbrev pub FailsAt : InitArgs Coin → ℕ → NodeConfig Rest → State → Ext → State → Type 0
  FailsAt args i config s e u =
      let dir =
        k.join
          (k.join (args.output_dir ∷ (args.node_dir_prefix ⧺ itoa (pos i)) ∷ []) ∷ "config" ∷ []) in
      (k.mkdir_all dir s ≡ (err e, u))
      ⊎ ((v : State) × (k.mkdir_all dir s ≡ (ok tt, v))
          × (k.initialize_node_validator_files config v ≡ (err e, u)))

  make_node-err :
      (args : InitArgs Coin) (i : ℕ) (config : NodeConfig Rest) (s t : State) (e : Ext)
      → make_node k args i config s ≡ (err e, t)
      → (u : State) × FailsAt args i config s e u × ((k.remove_all args.output_dir u).1 ≡ t)
  unfolding make_node
  make_node-err args i config s t e h =
      let dir = k.mkdir_all (k.join (node_dir k args i ∷ "config" ∷ [])) in
      let first = or_remove k args.output_dir dir in
      elim (Outcome-cases ((first s).0)) [
        | inl (x, p) ↦
            let (u, failed, removed) =
              or_remove-err args.output_dir (k.initialize_node_validator_files config) ((first s).1)
                t e (ground arith) in
            (
              u,
              inr (
                (first s).1,
                or_remove-ok args.output_dir dir s ((first s).1) x (settled (first s) p),
                failed,
              ),
              removed,
            )
        | inr (inl (x, p)) ↦
            let (u, failed, removed) =
              or_remove-err args.output_dir dir s t e (settled (first s) p ∙ ground arith) in
            (u, inl failed, removed)
        | inr (inr p) ↦ absurd (ground arith)
      ]

module _ (k : MultiNodeSdk) (laws : MultiNodeLaws k) where
  open k use {State, Ext, Coin}

  -- Where preparing a node ends in an error, it is the error of making the node's directory or of the
  -- files of its validator, and not one of the removal that follows; where the removal has no error,
  -- the whole output directory is gone, with the nodes that were made before.
  pub prepare_node_removes :
      (args : InitArgs Coin) (i : ℕ) (nodes : Nodes k) (s t : State) (e : Ext)
      → prepare_node k args i nodes s ≡ (err e, t)
      → (u : State) × FailsAt k args i (config_of k args i nodes.node_config) s e u
        × ((k.remove_all args.output_dir u).1 ≡ t)
        × ((k.remove_all args.output_dir u).0 ≡ none → laws.there args.output_dir t ≡ false)
  unfolding prepare_node
  prepare_node_removes args i nodes s t e h =
      let (u, failed, removed) =
        make_node-err k args i (config_of k args i nodes.node_config) s t e (ground arith) in
      (
        u,
        failed,
        removed,
        λ gone.
            ap (laws.there args.output_dir) (sym removed)
            ∙ laws.there-remove_all args.output_dir u gone,
      )
