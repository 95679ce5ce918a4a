-- ===== src/MultiNode/Copies/Runs.antt =====
-- The copies of two nodes' transactions on the platform of the other runs.
use base_protocol_system.Base.{
  ℕ, zero, suc, ◌<◌, ◌≡◌, ◌≢◌, refl, sym, ap, ◌∙◌, inl, inr, Option, none, some, List, [], ◌∷◌,
  String, str_eq, str_eq_same, str_eq_ne, itoa, digits, arith, ok, for_each, Apart, false,
  if◌then◌else◌,
}
use mathlib.Core.Path.{subst}
use mathlib.Core.List.{Memᴰ}
use mathlib.Core.List.Memᴰ
use base_protocol_system.MultiNode.Files.{copy_file, is_sub_dir, count_up}
use base_protocol_system.MultiNode.Testnet.{copy_gentx, copy_gentxs}
use base_protocol_system.MultiNode.Runs.{sdk, good, joined, last_part}
use base_protocol_system.MultiNode.Copies.{FileLaws, place}
use base_protocol_system.MultiNode.Copies.EveryNode.{IsApart, IsDone, gentxs_of, copy_gentxs-IsDone}

copied :
    (src dst : String) (s s1 s2 s3 : String → Option String) (f d : String) (n : ℕ)
    → sdk.open_file src s ≡ (ok f, s1)
    → sdk.create dst s1 ≡ (ok d, s2)
    → sdk.copy d f s2 ≡ (ok n, s3)
    → (s3 dst ≡ s src) × ((q : String) → q ≢ dst → s3 q ≡ s q)
copied src dst s s1 s2 s3 f d n e e1 e2 =
    let of_src : src ≡ f = ground arith in
    let of_dst : dst ≡ d = ground arith in
    let state : s2 ≡ s = ground arith in
    let at : (q : String) → (if str_eq q d then s2 f else s2 q) ≡ s3 q = λ q. ap (λ p. p.1 q) e2 in
    let kept : (q : String) → s2 q ≡ s q = λ q. ap (λ g. g q) state in
    (
      (let same = str_eq_same dst d of_dst in
          let there : s2 f ≡ s3 dst = let a = at dst in ground arith in
          sym there ∙ kept f ∙ ap s (sym of_src)),
      λ q other.
          let differ = str_eq_ne q d (λ e'. other (e' ∙ sym of_dst)) in
          let stays : s2 q ≡ s3 q = let a = at q in ground arith in sym stays ∙ kept q,
    )

abbrev laws : FileLaws sdk
laws = record {
  content = λ q s. s q;
  copy_content = λ src dst s s1 s2 s3 f d n e e1 e2 other. copied src dst s s1 s2 s3 f d n e e1 e2;
  sync_content = λ q f s. refl;
  close_content = λ q f s. refl;
  abs_fixed = λ p s t. refl;
}

abbrev file0 : String
file0 = "out/node0/config/gentx/gentx-node0.json"

abbrev file1 : String
file1 = "out/node1/config/gentx/gentx-node1.json"

abbrev files : List String
files = file0 ∷ file1 ∷ []

ne : (s t : String) → str_eq s t ≡ false → s ≢ t
ne s t h e = let same = str_eq_same s t e in absurd (ground arith)

names : Apart files
names = ((ne file0 file1 refl, tt), (tt, tt))

no : {A : Type 0} {s t : String} → str_eq s t ≡ false → s ≡ t → A
no {A} {s} {t} h e = absurd (ne s t h e)

each_file : (P : String → Type 0) → P file0 → P file1 → (f : String) → Memᴰ f files → P f
each_file P p0 p1 f (Memᴰ.head e) = subst P (sym e) p0
each_file P p0 p1 f (Memᴰ.tail (Memᴰ.head e)) = subst P (sym e) p1
each_file P p0 p1 f (Memᴰ.tail (Memᴰ.tail m)) = absurd (Memᴰ.not-nil m)

each_node : (P : ℕ → Type 0) → P 0 → P 1 → (i : ℕ) → i < 2 → P i
each_node P p0 p1 zero h = p0
each_node P p0 p1 (suc zero) h = p1
each_node P p0 p1 (suc (suc i)) h = absurd (omega (arith, h))

abbrev dir : ℕ → String
dir = gentxs_of sdk good

sources : (f g : String) → Memᴰ f files → Memᴰ g files → (i : ℕ) → i < 2 → IsApart sdk (dir i) f g
unfolding is_sub_dir joined last_part itoa digits
sources f g m m' i h =
    each_node (λ i. IsApart sdk (dir i) f g)
      (each_file (λ g. IsApart sdk (dir 0) f g) (inr (λ s. refl))
        (each_file (λ f. IsApart sdk (dir 0) f file1) (inl (ne _ _ refl)) (inl (ne _ _ refl)) f m) g
        m')
      (each_file (λ g. IsApart sdk (dir 1) f g)
        (each_file (λ f. IsApart sdk (dir 1) f file0) (inl (ne _ _ refl)) (inl (ne _ _ refl)) f m)
        (inr (λ s. refl)) g m')
      i h

-- The places of the copies.
abbrev place_of : ℕ → String → String
place_of i f = place sdk (dir i) f

abbrev Differ : ℕ → String → ℕ → String → Type 0
Differ i f j g = place_of i f ≡ place_of j g → (i ≡ j) × (f ≡ g)

each_place :
    (P : ℕ → String → Type 0)
    → P 0 file0
    → P 0 file1
    → P 1 file0
    → P 1 file1
    → (f : String) → Memᴰ f files
    → (i : ℕ) → i < 2
    → P i f
each_place P a b c d f m i h =
    each_node (λ i. P i f) (each_file (P 0) a b f m) (each_file (P 1) c d f m) i h

places : (f g : String) → Memᴰ f files → Memᴰ g files → (i j : ℕ) → i < 2 → j < 2 → Differ i f j g
unfolding joined last_part itoa digits
places f g m m' i j h h' =
    each_place (λ i f. Differ i f j g)
      (each_place (Differ 0 file0) (λ e. (refl, refl)) (no refl) (no refl) (no refl) g m' j h')
      (each_place (Differ 0 file1) (no refl) (λ e. (refl, refl)) (no refl) (no refl) g m' j h')
      (each_place (Differ 1 file0) (no refl) (no refl) (λ e. (refl, refl)) (no refl) g m' j h')
      (each_place (Differ 1 file1) (no refl) (no refl) (no refl) (λ e. (refl, refl)) g m' j h') f m
      i h

-- The nodes' own transactions, and no other file.
abbrev before : String → Option String
before q = if str_eq q file0 then some "a" else if str_eq q file1 then some "b" else none

-- What each name holds when the copies are made.
abbrev after : String → Option String
after = (count_up (copy_gentxs sdk good files) 0 2 tt before).1

run : count_up (copy_gentxs sdk good files) 0 2 tt before ≡ (ok tt, after)
unfolding count_up copy_gentxs copy_gentx for_each is_sub_dir copy_file joined last_part itoa digits
run = refl

copy_gentxs-IsDone_example : IsDone sdk laws (dir 1) file0 before after
copy_gentxs-IsDone_example =
    copy_gentxs-IsDone sdk laws good files 2
      (record { names = names; sources = sources; places = places }) before after run 1 file0
      (omega arith) (Memᴰ.head refl)
