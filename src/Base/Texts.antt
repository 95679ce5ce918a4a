-- ===== src/Base/Texts.antt =====
-- Texts: the equality test, and what the code uses of strings and strconv.
use mathlib.Core.Path.{◌≡◌, ◌∙◌}
use mathlib.Core.List.{Memᴰ}
use mathlib.Core.List.Memᴰ
use mathlib.Core.Logic.{◌≢◌, inl, inr}
use mathlib.Core.Bool.{true, false}
use Prim.Native.Nat.{ℕ, zero, suc, ◌/◌, ◌%◌}
use Prim.Native.Char.{Char, code}
use Prim.Native.String.{String, ◌++◌ as str_append}
use mathlib.Core.List.{List, [], ◌∷◌}
use mathlib.Core.Option.{Option, none, some}
use text.Mathlib.Text.{◌==◌ as str_eq, char_at?}
use text.Mathlib.TextEquality.{eq_iff}
use base_protocol_system.Base.Tests.{Bool-cases, ◌==◌, if◌then◌else◌, ltb}
use base_protocol_system.Base.Int.{ℤ, pos, negsuc}
use base_protocol_system.Base.Lists.{All}

pub str_eq_same : (s t : String) → s ≡ t → str_eq s t ≡ true
str_eq_same s t h = (eq_iff s t).1 h

pub str_eq→eq : (s t : String) → str_eq s t ≡ true → s ≡ t
str_eq→eq s t h = (eq_iff s t).0 h

pub str_eq_ne : (s t : String) → s ≢ t → str_eq s t ≡ false
str_eq_ne s t h = elim (Bool-cases (str_eq s t)) [
  | inl e ↦ absurd (h (str_eq→eq s t e))
  | inr e ↦ e
]

-- `strings.Split(s, ",")`, on the characters of a text: n commas separate n + 1 pieces.
abbrev comma : ℕ
comma = b','

abbrev push : Char → List String → List String
push c [] = (String.◌∷◌ c String.[]) ∷ []
push c (p ∷ ps) = String.◌∷◌ c p ∷ ps

unfoldable pub split : String → List String
split String.[] = String.[] ∷ []
split (String.◌∷◌ c s) =
    let rest = split s in if code c == comma then String.[] ∷ rest else push c rest

infixr 65 ◌⧺◌
abbrev pub ◌⧺◌ : String → String → String
s ⧺ t = str_append s t

-- `strconv.Itoa`: a number has at most as many digits as its value and one more.
abbrev digit : ℕ → String
digit n = elim (char_at? "0123456789" n) [ none ↦ String.[] | some c ↦ String.◌∷◌ c String.[] ]

unfoldable pub digits : ℕ → ℕ → String → String
digits zero n acc = acc
digits (suc fuel) n acc =
    let rest = digits fuel (n / 10) (digit (n % 10) ⧺ acc) in
    if ltb n 10 then digit n ⧺ acc else rest

unfoldable pub itoa : ℤ → String
itoa (pos n) = digits (suc n) n ""
itoa (negsuc n) = "-" ⧺ digits (suc (suc n)) (suc n) ""

-- `ss[i]`, where there is one.
unfoldable pub nth : {A : Type 0} → List A → ℕ → Option A
nth [] i = none
nth (a ∷ as') zero = some a
nth (a ∷ as') (suc i) = nth as' i

-- Names that are all different.
abbrev pub Apart : List String → Type 0
Apart [] = Unit {0}
Apart (n ∷ ns) = All (λ m. n ≢ m) ns × Apart ns

pub apart_mem : (n m : String) (ns : List String) → All (λ k. n ≢ k) ns → Memᴰ m ns → n ≢ m
apart_mem n m [] differ h e = absurd (Memᴰ.not-nil h)
apart_mem n m (k ∷ ns) (d, differ) (Memᴰ.head p) e = d (e ∙ p)
apart_mem n m (k ∷ ns) (d, differ) (Memᴰ.tail h) e = apart_mem n m ns differ h e
