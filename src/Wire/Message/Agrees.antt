-- ===== src/Wire/Message/Agrees.antt =====
-- Two readings that agree: they give the same value, or an error each, perhaps of another kind.
use base_protocol_system.Base.{
  ◌≡◌, refl, ap, ◌∙◌, Bool, true, false, ◌||◌, Option, none, some, if◌then◌else◌,
}
use base_protocol_system.Wire.Error.{Decoded, DecodeError, ok, err, stuck, ◌>>=◌}
use base_protocol_system.Wire.Skip.Moves.{Gives}

-- The same value, or an error each.
abbrev pub Agrees : {A : Type 0} → Decoded A → Decoded A → Type 0
Agrees (ok a) (ok b) = a ≡ b
Agrees (err e) (err x) = Unit
Agrees stuck stuck = Unit
Agrees (ok a) (err x) = ⊥
Agrees (ok a) stuck = ⊥
Agrees (err e) (ok b) = ⊥
Agrees (err e) stuck = ⊥
Agrees stuck (ok b) = ⊥
Agrees stuck (err x) = ⊥

pub Agrees-refl : {A : Type 0} (d : Decoded A) → Agrees d d
Agrees-refl (ok a) = refl
Agrees-refl (err e) = tt
Agrees-refl stuck = tt

pub Agrees-trans : {A : Type 0} (c d e : Decoded A) → Agrees c d → Agrees d e → Agrees c e
Agrees-trans (ok a) (ok b) (ok x) p q = p ∙ q
Agrees-trans (ok a) (ok b) (err x) p q = absurd q
Agrees-trans (ok a) (ok b) stuck p q = absurd q
Agrees-trans (ok a) (err y) e p q = absurd p
Agrees-trans (ok a) stuck e p q = absurd p
Agrees-trans (err x) (err y) (ok a) p q = absurd q
Agrees-trans (err x) (err y) (err z) p q = tt
Agrees-trans (err x) (err y) stuck p q = absurd q
Agrees-trans (err x) (ok a) e p q = absurd p
Agrees-trans (err x) stuck e p q = absurd p
Agrees-trans stuck stuck e p q = q
Agrees-trans stuck (ok a) e p q = absurd p
Agrees-trans stuck (err x) e p q = absurd p

pub then_Agrees :
    {A B : Type 0} (P : A → Type 0) (d e : Decoded A) (f g : A → Decoded B)
    → Gives P d
    → Agrees d e
    → ((a : A) → P a → Agrees (f a) (g a))
    → Agrees (d >>= f) (e >>= g)
then_Agrees P (ok a) (ok b) f g p same next = rw (← same) (next a p)
then_Agrees P (ok a) (err x) f g p same next = absurd same
then_Agrees P (ok a) stuck f g p same next = absurd same
then_Agrees P (err x) (ok b) f g p same next = absurd same
then_Agrees P (err x) (err y) f g p same next = tt
then_Agrees P (err x) stuck f g p same next = absurd same
then_Agrees P stuck (ok b) f g p same next = absurd same
then_Agrees P stuck (err y) f g p same next = absurd same
then_Agrees P stuck stuck f g p same next = tt

pub map_Agrees :
    {A B : Type 0} (d e : Decoded A) (f : A → B)
    → Agrees d e
    → Agrees (d >>= λ a. ok (f a)) (e >>= λ a. ok (f a))
map_Agrees (ok a) (ok b) f same = ap f same
map_Agrees (ok a) (err x) f same = absurd same
map_Agrees (ok a) stuck f same = absurd same
map_Agrees (err x) (ok b) f same = absurd same
map_Agrees (err x) (err y) f same = tt
map_Agrees (err x) stuck f same = absurd same
map_Agrees stuck (ok b) f same = absurd same
map_Agrees stuck (err y) f same = absurd same
map_Agrees stuck stuck f same = tt

-- Tests in a row that end in errors, of which one holds on the one side where one holds on the other.
pub two_guards_Agree :
    {A : Type 0} (a b a' b' : Bool) (x y : DecodeError) (r : A)
    → (a || b) ≡ (a' || b')
    → Agrees
        (if a then err x else if b then err y else ok r)
        (if a' then err x else if b' then err y else ok r)
two_guards_Agree true b true b' x y r h = tt
two_guards_Agree true b false true x y r h = tt
two_guards_Agree true b false false x y r h = absurd (cc)
two_guards_Agree false true true b' x y r h = tt
two_guards_Agree false true false true x y r h = tt
two_guards_Agree false true false false x y r h = absurd (cc)
two_guards_Agree false false true b' x y r h = absurd (cc)
two_guards_Agree false false false true x y r h = absurd (cc)
two_guards_Agree false false false false x y r h = refl

pub guard_Agrees :
    {A : Type 0} (a : Bool) (x : DecodeError) (d e : Decoded A)
    → (a ≡ false → Agrees d e)
    → Agrees (if a then err x else d) (if a then err x else e)
guard_Agrees true x d e h = tt
guard_Agrees false x d e h = h refl

abbrev pub AgreesO : {A : Type 0} → Option (Decoded A) → Option (Decoded A) → Type 0
AgreesO none none = Unit
AgreesO (some d) (some e) = Agrees d e
AgreesO none (some e) = ⊥
AgreesO (some d) none = ⊥
