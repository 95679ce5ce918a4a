-- ===== src/MultiNode/Copies.antt =====
-- cmd/bpsd/cmd/testnet_multi_node.go, what copyFile and isSubDir do to the contents of the files.
use base_protocol_system.Base.{
  ℕ, zero, suc, ◌+◌, ◌≤◌, ◌<◌, ◌≡◌, ◌≢◌, ◌⊎◌, refl, sym, ap, ◌∙◌, inl, inr, All, Bool, true, false,
  Option, List, [], ◌∷◌, String, Apart, apart_mem, arith, Outcome, Action, ok, err, panic, ◌>>=◌,
  ◌>>◌, pure, for_each, Outcome-cases, Bool-cases, ==_iff, ◌==◌, settled, bind-ok, then-ok,
  if◌then◌else◌,
}
use mathlib.Core.Path.{subst}
use mathlib.Core.List.{Memᴰ}
use mathlib.Core.List.Memᴰ
use base_protocol_system.MultiNode.Sdk.{MultiNodeSdk}
use base_protocol_system.MultiNode.Files.{copy_file, is_sub_dir, count_up}
pub mod EveryNode
mod Runs

-- The contents of the files. A file that was opened and copied into one that was created has its
-- contents there, and the other files stay; so they do when a file is synced or closed. The working
-- directory stays.
pub record FileLaws (k : MultiNodeSdk) : Type 0 where
  pub content : String → k.State → Option k.Bytes
  pub copy_content :
      (src dst : String) (s s1 s2 s3 : k.State) (f d : k.File) (n : ℕ)
      → k.open_file src s ≡ (ok f, s1)
      → k.create dst s1 ≡ (ok d, s2)
      → k.copy d f s2 ≡ (ok n, s3)
      → src ≢ dst
      → (content dst s3 ≡ content src s) × ((q : String) → q ≢ dst → content q s3 ≡ content q s)
  pub sync_content :
      (q : String) (f : k.File) (s : k.State) → content q ((k.sync f s).1) ≡ content q s
  pub close_content :
      (q : String) (f : k.File) (s : k.State) → content q (k.close f s) ≡ content q s
  pub abs_fixed : (p : String) (s t : k.State) → k.abs p s ≡ k.abs p t

module _ (k : MultiNodeSdk) where
  open k use {State, Ext}

  -- Where a copy of a file in a directory is.
  abbrev pub place : String → String → String
  place dir file = k.join (dir ∷ k.base file ∷ [])

  -- The file is in the directory already, or the code cannot tell.
  abbrev pub IsPassed : String → String → State → Type 0
  IsPassed dir file s =
      (is_sub_dir k file dir s ≡ ok true) ⊎ ((e : Ext) × (is_sub_dir k file dir s ≡ err e))

module _ (k : MultiNodeSdk) (l : FileLaws k) where
  open k use {State, Ext, File, Coin}

  pub is_sub_dir_fixed :
      (dir file : String) (s t : State) → is_sub_dir k file dir s ≡ is_sub_dir k file dir t
  unfolding is_sub_dir
  is_sub_dir_fixed dir file s t =
      let of_file = l.abs_fixed file s t in let of_dir = l.abs_fixed dir s t in ground arith

  closing-ok :
      {A : Type 0} (f : File) (m : Action State Ext A) (s t : State) (a : A)
      → ◌≡◌ {A = Outcome Ext A × State} ((m s).0, k.close f ((m s).1)) (ok a, t)
      → (m s ≡ (ok a, (m s).1)) × ((q : String) → l.content q t ≡ l.content q ((m s).1))
  closing-ok f m s t a e =
      let state : k.close f ((m s).1) ≡ t = ap (λ p. p.1) e in
      (
        settled (m s) (ap (λ p. p.0) e),
        λ q. ap (l.content q) (sym state) ∙ l.close_content q f ((m s).1),
      )

  -- What the code does with the two files, once they are open.
  abbrev copied_synced : File → File → Action State Ext ℕ
  copied_synced f d = k.copy d f >>= λ n. k.sync d >> pure n

  copied_synced-ok :
      (f d : File) (s t : State) (n : ℕ)
      → copied_synced f d s ≡ (ok n, t)
      → (m : ℕ) × (u : State) × (k.copy d f s ≡ (ok m, u))
        × ((q : String) → l.content q t ≡ l.content q u)
  copied_synced-ok f d s t n e =
      let synced : ℕ → Action State Ext ℕ = λ m. k.sync d >> pure m in
      let (m, u, copied, e') = bind-ok (k.copy d f) synced s t n e in
      let (v, done, e'') = then-ok (k.sync d) (pure m) u t n e' in
      let state : v ≡ t = ap (λ p. p.1) e'' in
      let state' : (k.sync d u).1 ≡ v = ap (λ p. p.1) done in
      (m, u, copied, λ q. ap (l.content q) (sym (state' ∙ state)) ∙ l.sync_content q d u)

  abbrev created : File → File → Action State Ext ℕ
  created f d s = ((copied_synced f d s).0, k.close d ((copied_synced f d s).1))

  created-ok :
      (f d : File) (s t : State) (n : ℕ)
      → created f d s ≡ (ok n, t)
      → (m : ℕ) × (u : State) × (k.copy d f s ≡ (ok m, u))
        × ((q : String) → l.content q t ≡ l.content q u)
  created-ok f d s t n e =
      let (inner, kept) = closing-ok d (copied_synced f d) s t n e in
      let (m, u, copied, kept') = copied_synced-ok f d s ((copied_synced f d s).1) n inner in
      (m, u, copied, λ q. kept q ∙ kept' q)

  pub copy_file_ok :
      (src dir : String) (s t : State) (n : ℕ)
      → copy_file k src dir s ≡ (ok n, t)
      → src ≢ place k dir src
      → (l.content (place k dir src) t ≡ l.content src s)
        × ((q : String) → q ≢ place k dir src → l.content q t ≡ l.content q s)
  unfolding copy_file
  copy_file_ok src dir s t n e other =
      let opened : File → Action State Ext ℕ =
        λ f u. (k.create (place k dir src) >>= created f) u in
      let closed : File → Action State Ext ℕ =
        λ f u. ((opened f u).0, k.close f ((opened f u).1)) in
      let (f, s1, at_src, e1) = bind-ok (k.open_file src) closed s t n e in
      let (inner, kept) = closing-ok f (opened f) s1 t n e1 in
      let (d, s2, at_dst, e2) =
        bind-ok (k.create (place k dir src)) (created f) s1 ((opened f s1).1) n inner in
      let (m, s3, copied, kept') = created-ok f d s2 ((opened f s1).1) n e2 in
      let (same, others) =
        l.copy_content src (place k dir src) s s1 s2 s3 f d m at_src at_dst copied other in
      (
        kept (place k dir src) ∙ kept' (place k dir src) ∙ same,
        λ q h. kept q ∙ kept' q ∙ others q h,
      )
