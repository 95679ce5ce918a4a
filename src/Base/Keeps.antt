-- ===== src/Base/Keeps.antt =====
-- Functions that keep a property of the state where they end well.
use mathlib.Core.Path.{◌≡◌}
use mathlib.Core.List.{List, [], ◌∷◌}
use mathlib.Core.Logic.{inl, inr}
use mathlib.Core.Option.{Option}
use native.Mathlib.Omega.{arith}
use base_protocol_system.Base.Go.{Outcome, Action, ok, ◌>>=◌, read, must, for_each, bind-ok}
use base_protocol_system.Base.Tests.{Option-cases}
use base_protocol_system.Base.Passes.{for_each_round}

module _ {S E : Type 0} (P : S → Type 0) where
  abbrev pub Keeps : {A : Type 0} → Action S E A → Type 0
  Keeps {A} m = (s t : S) (a : A) → m s ≡ (ok a, t) → P s → P t

  pub Keeps-bind :
      {A B : Type 0} (m : Action S E A) (f : A → Action S E B)
      → Keeps m
      → ((a : A) → Keeps (f a))
      → Keeps (m >>= f)
  Keeps-bind m f first next s t b e h =
      let (a, s', p, q) = bind-ok m f s t b e in next a s' t b q (first s s' a p h)

  pub Keeps-read : {A : Type 0} (f : S → Outcome E A) → Keeps (read f)
  Keeps-read f s t a e h = let same : s ≡ t = ground arith in rw same at h

  pub Keeps-must : {A : Type 0} (o : Option A) → Keeps (must o)
  Keeps-must o s t a e h = elim (Option-cases o) [
    | inl p ↦ absurd (ground arith)
    | inr (b, p) ↦ let same : s ≡ t = ground arith in rw same at h
  ]

  pub Keeps-for_each :
      {A : Type 0} (body : A → Action S E (Unit {0})) (todo : List A)
      → ((a : A) → Keeps (body a))
      → Keeps (for_each body todo)
  Keeps-for_each body [] keep s t a e h =
      let same : s ≡ t = unfold for_each in ground arith in rw same at h
  Keeps-for_each body (x ∷ xs) keep s t a e h =
      let (s', p, q) = for_each_round body x xs s t e in
      Keeps-for_each body xs keep s' t a q (keep x s s' tt p h)
