-- ===== src/MultiNode/Copies/EveryNode.antt =====
-- cmd/bpsd/cmd/testnet_multi_node.go, the loops that copy the files of the transactions to the nodes.
use base_protocol_system.Base.{
  ℕ, zero, suc, ◌+◌, ◌≤◌, ◌<◌, ◌≡◌, ◌≢◌, ◌⊎◌, refl, sym, ap, ◌∙◌, inl, inr, true, List, [], ◌∷◌,
  String, Apart, apart_mem, arith, Action, ok, ◌>>◌, pure, for_each, Outcome-cases, Bool-cases,
  ==_iff, ◌==◌, bind-ok, then-ok,
}
use mathlib.Core.Path.{subst}
use mathlib.Core.List.{Memᴰ}
use mathlib.Core.List.Memᴰ
use base_protocol_system.MultiNode.Sdk.{MultiNodeSdk}
use base_protocol_system.MultiNode.Files.{copy_file, is_sub_dir, count_up}
use base_protocol_system.MultiNode.Args.{InitArgs}
use base_protocol_system.MultiNode.Nodes.{node_dir}
use base_protocol_system.MultiNode.Testnet.{copy_gentx, copy_gentxs}
use base_protocol_system.MultiNode.Copies.{
  FileLaws, place, IsPassed, is_sub_dir_fixed, copy_file_ok,
}

module _ (k : MultiNodeSdk) where
  open k use {State, Coin}

  -- The name is not the place of the file's copy, or the file is in the directory and not copied.
  abbrev pub IsApart : String → String → String → Type 0
  IsApart dir q file = (q ≢ place k dir file) ⊎ ((s : State) → is_sub_dir k file dir s ≡ ok true)

  -- The copies of the files in the first n directories have different places, and none is written
  -- over one of the files.
  pub record AreApart (files : List String) (n : ℕ) (dir : ℕ → String) : Type 0 where
    pub names : Apart files
    pub sources :
        (f g : String) → Memᴰ f files → Memᴰ g files → (i : ℕ) → i < n → IsApart (dir i) f g
    pub places :
        (f g : String)
        → Memᴰ f files
        → Memᴰ g files
        → (i j : ℕ) → i < n
        → j < n
        → place k (dir i) f ≡ place k (dir j) g
        → (i ≡ j) × (f ≡ g)

  -- The directory of a node's transactions.
  abbrev pub gentxs_of : InitArgs Coin → ℕ → String
  gentxs_of args i = k.join (node_dir k args i ∷ "config" ∷ "gentx" ∷ [])

module _ (k : MultiNodeSdk) (l : FileLaws k) where
  open k use {State, Ext, File, Coin}

  -- What a copy leaves in a directory.
  abbrev pub IsDone : String → String → State → State → Type 0
  IsDone dir file s t = IsPassed k dir file s ⊎ (l.content (place k dir file) t ≡ l.content file s)

  IsPassed-fixed : (dir file : String) (s t : State) → IsPassed k dir file s → IsPassed k dir file t
  IsPassed-fixed dir file s t (inl p) = inl (is_sub_dir_fixed k l dir file t s ∙ p)
  IsPassed-fixed dir file s t (inr (e, p)) = inr (e, is_sub_dir_fixed k l dir file t s ∙ p)

  copy_gentx_ok :
      (dir file : String) (s t : State)
      → copy_gentx k dir file s ≡ (ok tt, t)
      → IsApart k dir file file
      → IsDone dir file s t × ((q : String) → IsApart k dir q file → l.content q t ≡ l.content q s)
  unfolding copy_gentx
  copy_gentx_ok dir file s t e other = elim (Outcome-cases (is_sub_dir k file dir s)) [
    | inr (inr p) ↦ absurd (ground arith)
    | inr (inl (x, p)) ↦
        let same : s ≡ t = ground arith in (inl (inr (x, p)), λ q h. ap (l.content q) (sym same))
    | inl (b, p) ↦ elim (Bool-cases b) [
      | inl inside ↦
          let same : s ≡ t = ground arith in
          (inl (inl (p ∙ ap ok inside)), λ q h. ap (l.content q) (sym same))
      | inr outside ↦
          let run : (copy_file k file dir >> pure tt) s ≡ (ok tt, t) = ground arith in
          let (n, u, copied, e') = bind-ok (copy_file k file dir) (λ _. pure tt) s t tt run in
          let state : u ≡ t = ap (λ p. p.1) e' in
          let not_inside : (q : String) → IsApart k dir q file → q ≢ place k dir file = λ q h.
            elim h [
              | inl differ ↦ differ
              | inr inside ↦ let within = inside s in absurd (ground arith)
            ] in
          let (same, others) =
            copy_file_ok k l file dir s t n (copied ∙ ap (λ x. (ok n, x)) state)
              (not_inside file other) in
          (inr same, λ q h. others q (not_inside q h))
    ]
  ]

  -- A copy that is made later, of a file that stayed, and one whose place stays.
  later-IsDone :
      (dir f : String) (s u t : State)
      → IsDone dir f u t
      → l.content f u ≡ l.content f s
      → IsDone dir f s t
  later-IsDone dir f s u t (inl passed) same = inl (IsPassed-fixed dir f u s passed)
  later-IsDone dir f s u t (inr there) same = inr (there ∙ same)

  sooner-IsDone :
      (dir f : String) (s u t : State)
      → IsDone dir f s u
      → l.content (place k dir f) t ≡ l.content (place k dir f) u
      → IsDone dir f s t
  sooner-IsDone dir f s u t (inl passed) same = inl passed
  sooner-IsDone dir f s u t (inr there) same = inr (same ∙ there)

  -- All names but the places in a directory stay.
  abbrev Stays : String → List String → State → State → Type 0
  Stays dir fs s t =
      (q : String) → ((g : String) → Memᴰ g fs → IsApart k dir q g) → l.content q t ≡ l.content q s

  module _ (files : List String) (n : ℕ) (dir : ℕ → String) (apart : AreApart k files n dir) where
    places-IsApart :
        (i : ℕ) (f g : String)
        → i < n
        → Memᴰ f files
        → Memᴰ g files
        → f ≢ g
        → IsApart k (dir i) (place k (dir i) f) g
    places-IsApart i f g h m m' differ = inl (λ e. differ ((apart.places f g m m' i i h h e).1))

    one_directory :
        (i : ℕ)
        → i < n
        → (fs : List String) (s t : State) → ((f : String) → Memᴰ f fs → Memᴰ f files)
        → Apart fs
        → for_each (copy_gentx k (dir i)) fs s ≡ (ok tt, t)
        → ((f : String) → Memᴰ f fs → IsDone (dir i) f s t) × Stays (dir i) fs s t
    unfolding for_each
    one_directory i h [] s t sub names e =
        (λ f m. absurd (Memᴰ.not-nil m), λ q h'. ap (l.content q) (sym (ap (λ p. p.1) e)))
    one_directory i h (f ∷ fs) s t sub (differ, names) e =
        let (u, first, rest) =
          then-ok (copy_gentx k (dir i) f) (for_each (copy_gentx k (dir i)) fs) s t tt e in
        let here = sub f (Memᴰ.head refl) in
        let (done, stays) = copy_gentx_ok (dir i) f s u first (apart.sources f f here here i h) in
        let (all_done, all_stay) =
          one_directory i h fs u t (λ g m. sub g (Memᴰ.tail m)) names rest in
        (
          λ g m. elim (Memᴰ.cases_cons m) [
            | inl same ↦
                subst (λ x. IsDone (dir i) x s t) (sym same)
                  (sooner-IsDone (dir i) f s u t done (
                    all_stay (place k (dir i) f) λ g' m'.
                      places-IsApart i f g' h here (sub g' (Memᴰ.tail m'))
                        (apart_mem f g' fs differ m')))
            | inr m' ↦
                later-IsDone (dir i) g s u t (all_done g m')
                  (stays g (apart.sources g f (sub g (Memᴰ.tail m')) here i h))
          ],
          λ q q_apart.
              all_stay q (λ g m. q_apart g (Memᴰ.tail m)) ∙ stays q (q_apart f (Memᴰ.head refl)),
        )

    abbrev copied_to : ℕ → Unit {0} → Action State Ext (Unit {0})
    copied_to i done = for_each (copy_gentx k (dir i)) files

    source-Stays :
        (i : ℕ)
        → i < n
        → (s u : State) → Stays (dir i) files s u
        → (f : String) → Memᴰ f files
        → l.content f u ≡ l.content f s
    source-Stays i h s u stays f m = stays f (λ g m'. apart.sources f g m m' i h)

    -- From the i-th directory on: each of them gets its copies, and the places in the ones before stay.
    directories :
        (i r : ℕ) (s t : State)
        → i + r ≡ n
        → count_up copied_to i r tt s ≡ (ok tt, t)
        → ((j : ℕ) (f : String) → i ≤ j → j < n → Memᴰ f files → IsDone (dir j) f s t)
          × ((j : ℕ) (f : String)
              → j < i
              → Memᴰ f files
              → l.content (place k (dir j) f) t ≡ l.content (place k (dir j) f) s)
    unfolding count_up
    directories i zero s t size e = (
      λ j f at_least below m. absurd (omega (arith, size, at_least, below)),
      λ j f before m. ap (l.content (place k (dir j) f)) (sym (ap (λ p. p.1) e)),
    )
    directories i (suc r) s t size e =
        let inside : i < n = omega (arith, size) in
        let (done', u, first, rest) =
          bind-ok (copied_to i tt) (count_up copied_to (suc i) r) s t tt e in
        let (done, stays) = one_directory i inside files s u (λ f m. m) apart.names first in
        let (all_done, all_stay) = directories (suc i) r u t (omega (arith, size)) rest in
        (
          λ j f at_least below m. elim (Bool-cases (i == j)) [
            | inl same ↦
                subst (λ x. IsDone (dir x) f s t) ((==_iff i j).0 same)
                  (sooner-IsDone (dir i) f s u t (done f m) (all_stay i f (omega arith) m))
            | inr differ ↦
                let later : i < j = ground arith in
                later-IsDone (dir j) f s u t (all_done j f later below m)
                  (source-Stays i inside s u stays f m)
          ],
          λ j f before m.
              all_stay j f (omega (arith, before)) m
              ∙ stays (place k (dir j) f) λ g m'. inl λ p.
                let same = (apart.places f g m m' j i (omega (arith, before, inside)) inside p).0 in
                absurd (omega (arith, before, same)),
        )

  -- When the copying of the transactions' files to the first n nodes succeeds, where the copies'
  -- places are all different and none of them is one of the files, but for a file that its node's
  -- directory has already, then each of these nodes has each of the files: the file was in its
  -- directory, or the code could not tell, or the copy has the contents that the file had before.
  pub copy_gentxs-IsDone :
      (args : InitArgs Coin) (files : List String) (n : ℕ)
      → AreApart k files n (gentxs_of k args)
      → (s t : State) → count_up (copy_gentxs k args files) 0 n tt s ≡ (ok tt, t)
      → (i : ℕ) (f : String) → i < n
      → Memᴰ f files
      → IsDone (gentxs_of k args i) f s t
  unfolding copy_gentxs
  copy_gentxs-IsDone args files n apart s t e i f below m =
      (directories files n (gentxs_of k args) apart 0 n s t (omega arith) e).0 i f (omega arith)
        below m
