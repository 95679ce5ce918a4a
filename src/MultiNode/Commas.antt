-- ===== src/MultiNode/Commas.antt =====
-- Lists of texts with commas between them, as cmd/bpsd/cmd/testnet_multi_node.go puts the peers together.
use base_protocol_system.Base.{
  ℕ, suc, ◌+◌, ◌≡◌, ◌≢◌, refl, sym, ap, ◌∙◌, List, [], ◌∷◌, ◌++◌, length, String, ◌⧺◌, str_eq_ne,
  arith,
}
use text.Mathlib.TextLemmas.{append_assoc, cons-append, cons-ne-nil, append-ne-nil_of_right_ne-nil}
use base_protocol_system.MultiNode.Nodes.{add_peer}

-- A list with commas between its texts.
unfoldable pub join_comma : List String → String
join_comma [] = ""
join_comma (p ∷ []) = p
join_comma (p ∷ q ∷ ps) = p ⧺ "," ⧺ join_comma (q ∷ ps)

-- What `f` makes of each text and its place, counted from `i`.
unfoldable pub indexed : (ℕ → String → String) → ℕ → List String → List String
indexed f i [] = []
indexed f i (x ∷ xs) = f i x ∷ indexed f (suc i) xs

pub indexed-append :
    (f : ℕ → String → String) (i j : ℕ) (xs : List String) (x : String)
    → i + length xs ≡ j
    → indexed f i (xs ++ (x ∷ [])) ≡ indexed f i xs ++ (f j x ∷ [])
unfolding indexed
indexed-append f i j [] x e = let same : i ≡ j = omega (arith, e) in rw (same) refl
indexed-append f i j (y ∷ ys) x e = rw (indexed-append f (suc i) j ys x (omega (arith, e))) refl

-- None of the texts is empty.
unfoldable pub AllText : List String → Type 0
AllText [] = Unit
AllText (s ∷ ss) = (s ≢ String.[]) × AllText ss

join_comma-text :
    (p : String) (ps : List String) → p ≢ String.[] → AllText ps → join_comma (p ∷ ps) ≢ String.[]
unfolding join_comma AllText
join_comma-text p [] h hs = h
join_comma-text p (q ∷ ps) h (g, gs) =
    append-ne-nil_of_right_ne-nil p (append-ne-nil_of_right_ne-nil "," (join_comma-text q ps g gs))

pub join_comma-append :
    (ps : List String) (q : String)
    → AllText ps
    → join_comma (ps ++ (q ∷ [])) ≡ add_peer (join_comma ps) q
unfolding join_comma AllText
join_comma-append [] q h = refl
join_comma-append (p ∷ []) q (h, _) = rw (str_eq_ne p "" h) refl
join_comma-append (p ∷ p' ∷ ps) q (h, (g, gs)) =
    let joined = join_comma (p' ∷ ps) in
    let whole = str_eq_ne (p ⧺ "," ⧺ joined) "" (join_comma-text p (p' ∷ ps) h (g, gs)) in
    let part = str_eq_ne joined "" (join_comma-text p' ps g gs) in
    let inner : join_comma (p' ∷ (ps ++ (q ∷ []))) ≡ joined ⧺ "," ⧺ q =
      join_comma-append (p' ∷ ps) q (g, gs) ∙ rw (part) refl in
    rw (inner, whole)
      (sym (
        append_assoc p ("," ⧺ joined) ("," ⧺ q)
        ∙ ap (λ r. p ⧺ r) (append_assoc "," joined ("," ⧺ q))))

pub at-ne-nil : (s : String) → "@" ⧺ s ≢ String.[]
at-ne-nil s e = cons-ne-nil _ (String.[] ⧺ s) (sym (cons-append _ String.[] s) ∙ e)
