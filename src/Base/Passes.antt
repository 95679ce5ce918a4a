-- ===== src/Base/Passes.antt =====
-- Loops that rewrite the records of a store one by one, and what they leave alone.
use mathlib.Core.Bool.{Bool, true, false}
use mathlib.Core.List.{List, [], ◌∷◌, ◌++◌, map, append_assoc}
use mathlib.Core.Logic.{◌⊎◌, inl, inr}
use mathlib.Core.Path.{◌≡◌, refl, sym, ◌∙◌}
use native.Mathlib.Omega.{arith}
use base_protocol_system.Base.Go.{Action, ok, visit, for_each, Outcome-cases, settled}
use base_protocol_system.Base.Tests.{Bool-cases}

module _ {S E A : Type 0} where
  -- One round of an iteration that ends well: it stops there, or goes on.
  pub visit_round :
      (body : A → Action S E Bool) (a : A) (todo : List A) (s t : S)
      → visit body (a ∷ todo) s ≡ (ok tt, t)
      → (body a s ≡ (ok true, t))
        ⊎ ((s' : S) × (body a s ≡ (ok false, s')) × (visit body todo s' ≡ (ok tt, t)))
  unfolding visit
  visit_round body a todo s t e = elim (Outcome-cases ((body a s).0)) [
    | inl (stop, p) ↦ elim (Bool-cases stop) [
      | inl yes' ↦ inl (ground arith)
      | inr no' ↦ inr ((body a s).1, ground arith, ground arith)
    ]
    | inr bad ↦ absurd (ground arith)
  ]

  pub for_each_round :
      (body : A → Action S E (Unit {0})) (a : A) (todo : List A) (s t : S)
      → for_each body (a ∷ todo) s ≡ (ok tt, t)
      → (s' : S) × (body a s ≡ (ok tt, s')) × (for_each body todo s' ≡ (ok tt, t))
  unfolding for_each
  for_each_round body a todo s t e = elim (Outcome-cases ((body a s).0)) [
    | inl (u, p) ↦ ((body a s).1, settled (body a s) p, ground arith)
    | inr bad ↦ absurd (ground arith)
  ]

  -- What each round leaves alone, the loop leaves alone.
  pub visit_keeps :
      {B : Type 0} (seen : S → B) (body : A → Action S E Bool)
      → ((a : A) (s t : S) (stop : Bool) → body a s ≡ (ok stop, t) → seen t ≡ seen s)
      → (todo : List A) (s t : S) → visit body todo s ≡ (ok tt, t)
      → seen t ≡ seen s
  visit_keeps seen body keep [] s t e = unfold visit in ground arith
  visit_keeps seen body keep (a ∷ todo) s t e = elim (visit_round body a todo s t e) [
    | inl p ↦ keep a s t true p
    | inr (s', p, q) ↦ visit_keeps seen body keep todo s' t q ∙ keep a s s' false p
  ]

  pub for_each_keeps :
      {B : Type 0} (seen : S → B) (body : A → Action S E (Unit {0}))
      → ((a : A) (s t : S) → body a s ≡ (ok tt, t) → seen t ≡ seen s)
      → (todo : List A) (s t : S) → for_each body todo s ≡ (ok tt, t)
      → seen t ≡ seen s
  for_each_keeps seen body keep [] s t e = unfold for_each in ground arith
  for_each_keeps seen body keep (a ∷ todo) s t e =
      let (s', p, q) = for_each_round body a todo s t e in
      for_each_keeps seen body keep todo s' t q ∙ keep a s s' p

-- A loop whose rounds each put `g a` in the place of `a` and go on maps `g` over the records.
module _ {S E A : Type 0} (items : S → List A) (g : A → A) where
  pub visit_maps :
      (body : A → Action S E Bool)
      → ((before after : List A) (a : A) (s t : S) (stop : Bool)
          → items s ≡ before ++ (a ∷ after)
          → body a s ≡ (ok stop, t)
          → (stop ≡ false) × (items t ≡ before ++ (g a ∷ after)))
      → (before todo : List A) (s t : S) → items s ≡ before ++ todo
      → visit body todo s ≡ (ok tt, t)
      → items t ≡ before ++ map g todo
  visit_maps body write before [] s t h e = unfold visit in ground arith
  visit_maps body write before (a ∷ todo) s t h e = elim (visit_round body a todo s t e) [
    | inl p ↦ absurd (let (more, _) = write before todo a s t true h p in cc)
    | inr (s', p, q) ↦
        let (_, w) = write before todo a s s' false h p in
        visit_maps body write (before ++ (g a ∷ [])) todo s' t
          (w ∙ sym (append_assoc before (g a ∷ []) todo)) q
        ∙ append_assoc before (g a ∷ []) (map g todo)
  ]

  pub for_each_maps :
      (body : A → Action S E (Unit {0}))
      → ((before after : List A) (a : A) (s t : S)
          → items s ≡ before ++ (a ∷ after)
          → body a s ≡ (ok tt, t)
          → items t ≡ before ++ (g a ∷ after))
      → (before todo : List A) (s t : S) → items s ≡ before ++ todo
      → for_each body todo s ≡ (ok tt, t)
      → items t ≡ before ++ map g todo
  for_each_maps body write before [] s t h e = unfold for_each in ground arith
  for_each_maps body write before (a ∷ todo) s t h e =
      let (s', p, q) = for_each_round body a todo s t e in
      for_each_maps body write (before ++ (g a ∷ [])) todo s' t
        (write before todo a s s' h p ∙ sym (append_assoc before (g a ∷ []) todo)) q
      ∙ append_assoc before (g a ∷ []) (map g todo)

pub for_each-map :
    {S E A B : Type 0} (f : A → B) (body : B → Action S E (Unit {0})) (todo : List A) (s : S)
    → for_each body (map f todo) s ≡ for_each (λ a. body (f a)) todo s
unfolding for_each
for_each-map f body [] s = refl
for_each-map f body (a ∷ todo) s = elim (Outcome-cases ((body (f a) s).0)) [
  | inl (u, p) ↦ rw (p, for_each-map f body todo ((body (f a) s).1)) refl
  | inr (inl (e, p)) ↦ rw (p) refl
  | inr (inr p) ↦ rw (p) refl
]
