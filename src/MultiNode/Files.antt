-- ===== src/MultiNode/Files.antt =====
-- cmd/bpsd/cmd/testnet_multi_node.go, the helpers on files and texts.
use base_protocol_system.Base.{
  ℕ, zero, suc, Bool, not, ◌&&◌, [], ◌∷◌, String, ◌⧺◌, Outcome, Action, ok, err, panic, ◌>>=◌, ◌>>◌,
  pure, must, starts_with, char_at?,
}
use base_protocol_system.MultiNode.Sdk.{MultiNodeSdk}

abbrev pub charset : String
charset = "abcdefghijklmnopqrstuvwxyz0123456789"

-- `for i := 0; i < n; i++`, over what the rounds hand on; `i` is the first index, and `n` rounds follow.
unfoldable pub count_up : {S E B : Type 0} → (ℕ → B → Action S E B) → ℕ → ℕ → B → Action S E B
count_up body i zero b s = (ok b, s)
count_up body i (suc n) b s =
    let (r, s') = body i b s in
    elim r [ ok b' ↦ count_up body (suc i) n b' s' | err e ↦ (err e, s') | panic ↦ (panic, s') ]

module _ (k : MultiNodeSdk) where
  open k use {State, Ext, Bytes, File}

  unfoldable pub write_file : String → String → Bytes → Action State Ext (Unit {0})
  write_file file dir contents = k.mkdir_all dir >> k.write_os_file file contents

  -- `defer f.Close()`
  abbrev closing : {A : Type 0} → File → Action State Ext A → Action State Ext A
  closing f m s = let (r, s') = m s in (r, k.close f s')

  unfoldable pub copy_file : String → String → Action State Ext ℕ
  copy_file src dst_dir = do
    source_file ← k.open_file src
    closing source_file (do
      destination_file ← k.create (k.join (dst_dir ∷ k.base src ∷ []))
      closing destination_file (do
        bytes_copied ← k.copy destination_file source_file
        k.sync destination_file
        pure bytes_copied))

  unfoldable pub is_sub_dir : String → String → State → Outcome Ext Bool
  is_sub_dir src dst_dir s = elim (k.abs src s) [
    | err e ↦ err e
    | panic ↦ panic
    | ok abs_src ↦ elim (k.abs dst_dir s) [
      | err e ↦ err e
      | panic ↦ panic
      | ok abs_dst_dir ↦ elim (k.rel abs_dst_dir abs_src) [
        | err e ↦ err e
        | panic ↦ panic
        | ok relative_path ↦
            ok (not (starts_with relative_path "..") && not (k.is_abs relative_path))
      ]
    ]
  ]

  -- The texts are put together from the front, as the array is filled.
  pub random_char : ℕ → String → Action State Ext String
  random_char i b = do
    drawn ← k.intn 36
    c ← must (char_at? charset drawn)
    pure (b ⧺ String.◌∷◌ c String.[])

  pub generate_random_string : ℕ → Action State Ext String
  generate_random_string n = count_up random_char 0 n ""
