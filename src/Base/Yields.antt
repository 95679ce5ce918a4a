-- ===== src/Base/Yields.antt =====
-- What a function of a state returns where it ends well, and loops that keep an invariant of it.
use mathlib.Core.Path.{◌≡◌, ap, sym, subst}
use mathlib.Core.Logic.{inl, inr}
use native.Mathlib.Omega.{arith}
use base_protocol_system.Base.Go.{Outcome, Action, ok, err, panic, ◌>>=◌, Outcome-cases}

-- A property of what is returned, where it is no error and no panic.
abbrev pub Yields : {E A : Type 0} → (A → Type 0) → Outcome E A → Type 0
Yields P (ok a) = P a
Yields P (err e) = Unit
Yields P panic = Unit

module _ {S E : Type 0} where
  pub Yields-bind :
      {A B : Type 0} (P : B → Type 0) (m : Action S E A) (f : A → Action S E B) (s : S)
      → ((a : A) (t : S) → Yields P ((f a t).0))
      → Yields P (((m >>= f) s).0)
  Yields-bind P m f s next = elim (Outcome-cases ((m s).0)) [
    | inl (a, p) ↦
        let e : ((m >>= f) s).0 ≡ (f a ((m s).1)).0 = ground arith in
        subst (λ r. Yields P r) (sym e) (next a ((m s).1))
    | inr (inl (x, p)) ↦
        let e : ((m >>= f) s).0 ≡ err x = ground arith in subst (λ r. Yields P r) (sym e) tt
    | inr (inr p) ↦
        let e : ((m >>= f) s).0 ≡ panic = ground arith in subst (λ r. Yields P r) (sym e) tt
  ]

  pub Yields-then :
      {A B : Type 0} (P : A → Type 0) (Q : B → Type 0) (m : Action S E A) (f : A → Action S E B)
      (s : S)
      → Yields P ((m s).0)
      → ((a : A) (t : S) → P a → Yields Q ((f a t).0))
      → Yields Q (((m >>= f) s).0)
  Yields-then P Q m f s first next = elim (Outcome-cases ((m s).0)) [
    | inl (a, p) ↦
        let e : ((m >>= f) s).0 ≡ (f a ((m s).1)).0 = ground arith in
        subst (λ r. Yields Q r) (sym e) (next a ((m s).1) (rw p at first))
    | inr (inl (x, p)) ↦
        let e : ((m >>= f) s).0 ≡ err x = ground arith in subst (λ r. Yields Q r) (sym e) tt
    | inr (inr p) ↦
        let e : ((m >>= f) s).0 ≡ panic = ground arith in subst (λ r. Yields Q r) (sym e) tt
  ]

  pub Yields-ok :
      {A : Type 0} (P : A → Type 0) (m : Action S E A) (s t : S) (a : A)
      → Yields P ((m s).0)
      → m s ≡ (ok a, t)
      → P a
  Yields-ok P m s t a h e = let r : (m s).0 ≡ ok a = ap (λ p. p.0) e in rw r at h
