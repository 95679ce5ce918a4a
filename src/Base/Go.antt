-- ===== src/Base/Go.antt =====
-- How a Go function ends, and Go functions that change a state: a call returns a value, returns
-- an error, or panics, and what was written before that stays written.
use mathlib.Core.Bool.{Bool, true, false}
use mathlib.Core.List.{List, [], ◌∷◌}
use mathlib.Core.Logic.{◌⊎◌, inl, inr}
use mathlib.Core.Option.{Option, none, some}
use mathlib.Core.Path.{◌≡◌, refl, ◌∙◌}
use native.Mathlib.Omega.{arith}

pub data Outcome (E A : Type 0) : Type 0 where
  ok : A → Outcome E A
  err : E → Outcome E A
  panic : Outcome E A

abbrev pub Action : Type 0 → Type 0 → Type 0 → Type 0
Action S E A = S → Outcome E A × S

infixl 5 ◌>>=◌ ◌>>◌
abbrev pub ◌>>=◌ : {S E A B : Type 0} → Action S E A → (A → Action S E B) → Action S E B
◌>>=◌ m f s =
    let (r, s') = m s in elim r [ ok a ↦ f a s' | err e ↦ (err e, s') | panic ↦ (panic, s') ]

abbrev pub ◌>>◌ : {S E A B : Type 0} → Action S E A → Action S E B → Action S E B
m >> k = m >>= λ _. k

module _ {S E A : Type 0} where
  abbrev pub pure : A → Action S E A
  pure a s = (ok a, s)

  abbrev pub throw : E → Action S E A
  throw e s = (err e, s)

  -- A read: it ends as it ends, and the state stays.
  abbrev pub read : (S → Outcome E A) → Action S E A
  read f s = (f s, s)

  abbrev pub gets : (S → A) → Action S E A
  gets f s = (ok (f s), s)

  -- A call of a function that panics where the model says `none`.
  abbrev pub must : Option A → Action S E A
  must none s = (panic, s)
  must (some a) s = (ok a, s)

abbrev pub modify : {S E : Type 0} → (S → S) → Action S E (Unit {0})
modify f s = (ok tt, f s)

-- `if err != nil { panic(err) }`
abbrev pub panics : {S E F A : Type 0} → Action S E A → Action S F A
panics m s =
    let (r, s') = m s in elim r [ ok a ↦ (ok a, s') | err e ↦ (panic, s') | panic ↦ (panic, s') ]

-- `_, _ = f()`: the result and the error are dropped.
abbrev pub dropped : {S E F A : Type 0} → Action S E A → Action S F (Unit {0})
dropped m s =
    let (r, s') = m s in elim r [ ok a ↦ (ok tt, s') | err e ↦ (ok tt, s') | panic ↦ (panic, s') ]

-- `for _, a := range as`
unfoldable pub for_each :
    {S E A : Type 0} → (A → Action S E (Unit {0})) → List A → Action S E (Unit {0})
for_each f [] s = (ok tt, s)
for_each f (a ∷ as') s =
    let (r, s') = f a s in
    elim r [ ok _ ↦ for_each f as' s' | err e ↦ (err e, s') | panic ↦ (panic, s') ]

-- An iterator of the SDK, over records that were listed: the callback says whether to stop.
unfoldable pub visit : {S E A : Type 0} → (A → Action S E Bool) → List A → Action S E (Unit {0})
visit f [] s = (ok tt, s)
visit f (a ∷ as') s =
    let (r, s') = f a s in
    elim r [
      | ok true ↦ (ok tt, s')
      | ok false ↦ visit f as' s'
      | err e ↦ (err e, s')
      | panic ↦ (panic, s')
    ]

pub Outcome-cases :
    {E A : Type 0} (o : Outcome E A)
    → ((a : A) × (o ≡ ok a)) ⊎ (((e : E) × (o ≡ err e)) ⊎ (o ≡ panic))
Outcome-cases (ok a) = inl (a, refl)
Outcome-cases (err e) = inr (inl (e, refl))
Outcome-cases panic = inr (inr refl)

-- A call by how it ended, and the state that it left.
pub settled : {S E A : Type 0} (p : Outcome E A × S) {r : Outcome E A} → p.0 ≡ r → p ≡ (r, p.1)
settled p h = λ i. (h i, p.1)

-- A chain that succeeds, taken apart.
pub then-ok :
    {S E A : Type 0} (m : Action S E (Unit {0})) (k : Action S E A) (s t : S) (a : A)
    → (m >> k) s ≡ (ok a, t)
    → (s' : S) × (m s ≡ (ok tt, s')) × (k s' ≡ (ok a, t))
then-ok m k s t a e = elim (Outcome-cases ((m s).0)) [
  | inl (u, p) ↦ ((m s).1, settled (m s) p, ground arith)
  | inr bad ↦ absurd (ground arith)
]

pub bind-ok :
    {S E A B : Type 0} (m : Action S E A) (f : A → Action S E B) (s t : S) (b : B)
    → (m >>= f) s ≡ (ok b, t)
    → (a : A) × (s' : S) × (m s ≡ (ok a, s')) × (f a s' ≡ (ok b, t))
bind-ok m f s t b e = elim (Outcome-cases ((m s).0)) [
  | inl (a, p) ↦ (a, (m s).1, settled (m s) p, ground arith)
  | inr bad ↦ absurd (ground arith)
]

pub panics-ok :
    {S E F A : Type 0} (m : Action S E A) (s t : S) (a : A)
    → ◌≡◌ {A = Outcome F A × S} (panics m s) (ok a, t)
    → m s ≡ (ok a, t)
panics-ok m s t a e = elim (Outcome-cases ((m s).0)) [
  | inl (b, p) ↦ settled (m s) p ∙ ground arith
  | inr bad ↦ absurd (ground arith)
]

-- A callback of an iterator that writes and goes on.
pub write_on-ok :
    {S E F : Type 0} (m : Action S E (Unit {0})) (s t : S) (stop : Bool)
    → ◌≡◌ {A = Outcome F Bool × S} ((panics m >> pure false) s) (ok stop, t)
    → (stop ≡ false) × (m s ≡ (ok tt, t))
write_on-ok m s t stop e = elim (Outcome-cases ((m s).0)) [
  | inl (b, p) ↦ (ground arith, settled (m s) p ∙ ground arith)
  | inr bad ↦ absurd (ground arith)
]

pub dropped-ok :
    {S E F : Type 0} (m : Action S E (Unit {0})) (s t : S) (stop : Bool)
    → (m s).0 ≡ ok tt
    → ◌≡◌ {A = Outcome F Bool × S} ((dropped m >> pure false) s) (ok stop, t)
    → (stop ≡ false) × (m s ≡ (ok tt, t))
dropped-ok m s t stop p e = (ground arith, settled (m s) p ∙ ground arith)

pub dropped_state :
    {S E F : Type 0} (m : Action S E (Unit {0})) (s t : S) (stop : Bool)
    → ◌≡◌ {A = Outcome F Bool × S} ((dropped m >> pure false) s) (ok stop, t)
    → t ≡ (m s).1
dropped_state m s t stop e = elim (Outcome-cases ((m s).0)) [
  | inl (u, p) ↦ ground arith
  | inr (inl (x, p)) ↦ ground arith
  | inr (inr p) ↦ absurd (ground arith)
]

pub for_each-next :
    {S E A : Type 0} (f : A → Action S E (Unit {0})) (a : A) (todo : List A) (s t : S)
    → f a s ≡ (ok tt, t)
    → for_each f (a ∷ todo) s ≡ for_each f todo t
unfolding for_each
for_each-next f a todo s t e = ground arith
