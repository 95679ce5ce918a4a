-- ===== src/Base/Bits.antt =====
-- Masks and unions of bits as arithmetic, on numbers of any size.
use Prim.Native.Nat.{
  ℕ, zero, suc, ◌+◌, ◌*◌, ◌/◌, ◌%◌, ◌^◌, ◌≤◌, ◌<◌, min, max, bit_and, bit_or, digits,
  bit_and-bitwise, bit_or-bitwise,
}
use mathlib.Core.Path.{◌≡◌, refl, sym, ap, ◌∙◌}
use native.Mathlib.Nat.{pow-suc}
use native.Mathlib.Omega.{arith}

module _ (last : ℕ → ℕ) (combine : ℕ → ℕ → ℕ) where
  -- Rounds beyond the digits of the first number change nothing in a native operation.
  spare_rounds :
      (x y rounds others : ℕ)
      → x ≤ rounds
      → x ≤ others
      → digits last combine rounds x y ≡ digits last combine others x y
  spare_rounds zero y zero zero h k = refl
  spare_rounds zero y zero (suc others) h k = refl
  spare_rounds zero y (suc rounds) zero h k = refl
  spare_rounds zero y (suc rounds) (suc others) h k = refl
  spare_rounds (suc x) y zero others h k = absurd (omega arith)
  spare_rounds (suc x) y (suc rounds) zero h k = absurd (omega arith)
  spare_rounds (suc x) y (suc rounds) (suc others) h k =
      let half : suc x / 2 ≤ x = omega arith in
      omega (
        arith,
        spare_rounds (suc x / 2) (y / 2) rounds others (omega (arith, half)) (omega (arith, half)),
      )

  -- The lowest digit apart from the rest.
  digits_apart :
      (x y : ℕ)
      → digits last combine (suc x) (suc x) y
        ≡ digits last combine (suc x / 2) (suc x / 2) (y / 2) * 2 + combine (suc x % 2) (y % 2)
  digits_apart x y =
      omega (arith, spare_rounds (suc x / 2) (y / 2) x (suc x / 2) (omega arith) (omega arith))

pub zero-bit_or : (b : ℕ) → bit_or 0 b ≡ b
zero-bit_or b = bit_or-bitwise 0 b

pub bit_or_step : (x y : ℕ) → bit_or x y ≡ bit_or (x / 2) (y / 2) * 2 + max (x % 2) (y % 2)
bit_or_step zero y = omega (arith, zero-bit_or y, zero-bit_or (y / 2))
bit_or_step (suc x) y =
    bit_or-bitwise (suc x) y
    ∙ digits_apart (λ d. d) max x y
    ∙ ap (λ (u : ℕ). u * 2 + max (suc x % 2) (y % 2)) (sym (bit_or-bitwise (suc x / 2) (y / 2)))

pub bit_and_step : (x y : ℕ) → bit_and x y ≡ bit_and (x / 2) (y / 2) * 2 + min (x % 2) (y % 2)
bit_and_step zero y = omega (arith, bit_and-bitwise 0 y, bit_and-bitwise 0 (y / 2))
bit_and_step (suc x) y =
    bit_and-bitwise (suc x) y
    ∙ digits_apart (λ d. 0) min x y
    ∙ ap (λ (u : ℕ). u * 2 + min (suc x % 2) (y % 2)) (sym (bit_and-bitwise (suc x / 2) (y / 2)))

-- No bits on the right, for numbers below a bound.
no_bits : (bound x : ℕ) → x < bound → (bit_or x 0 ≡ x) × (bit_and x 0 ≡ 0)
no_bits zero x h = absurd (omega arith)
no_bits (suc bound) zero h = (refl, refl)
no_bits (suc bound) (suc x) h =
    let (union, mask) = no_bits bound (suc x / 2) (omega arith) in
    (omega (arith, union, bit_or_step (suc x) 0), omega (arith, mask, bit_and_step (suc x) 0))

-- A union with a number whose digits all stand above is a sum.
pub bit_or_add : (s a g : ℕ) → a < 2 ^ s → bit_or a (g * 2 ^ s) ≡ a + g * 2 ^ s
bit_or_add zero a g h = let z : a ≡ 0 = omega arith in rw z (omega (arith, zero-bit_or (g * 1)))
bit_or_add (suc s) a g h =
    bit_or_step a (g * 2 ^ suc s)
    ∙ rw (halves.0, halves.1, bit_or_add s (a / 2) g (omega (arith, pow-suc 2 s)))
        (omega (arith, ap (λ (t : ℕ). g * t) (pow-suc 2 s)))
  where
    halves : (g * 2 ^ suc s / 2 ≡ g * 2 ^ s) × (g * 2 ^ suc s % 2 ≡ 0)
    halves = rw pow-suc (omega arith)

-- `x | 1`
pub bit_or-one : (x : ℕ) → bit_or x 1 ≡ x / 2 * 2 + 1
bit_or-one x = omega (arith, bit_or_step x 1, (no_bits (x / 2 + 1) (x / 2) (omega arith)).0)

bit_and-one : (x : ℕ) → bit_and x 1 ≡ x % 2
bit_and-one x = omega (arith, bit_and_step x 1, (no_bits (x / 2 + 1) (x / 2) (omega arith)).1)

bit_and_three : (x : ℕ) → bit_and x 3 ≡ x % 4
bit_and_three x = omega (arith, bit_and_step x 3, bit_and-one (x / 2))

-- `x & 0x7` and `x & 0x7f`
pub bit_and_seven : (x : ℕ) → bit_and x 7 ≡ x % 8
bit_and_seven x = omega (arith, bit_and_step x 7, bit_and_three (x / 2))

bit_and_15 : (x : ℕ) → bit_and x 15 ≡ x % 16
bit_and_15 x = omega (arith, bit_and_step x 15, bit_and_seven (x / 2))

bit_and_31 : (x : ℕ) → bit_and x 31 ≡ x % 32
bit_and_31 x = omega (arith, bit_and_step x 31, bit_and_15 (x / 2))

bit_and_63 : (x : ℕ) → bit_and x 63 ≡ x % 64
bit_and_63 x = omega (arith, bit_and_step x 63, bit_and_31 (x / 2))

pub bit_and_127 : (x : ℕ) → bit_and x 127 ≡ x % 128
bit_and_127 x = omega (arith, bit_and_step x 127, bit_and_63 (x / 2))

-- `x & 0x7f | 0x80`
pub high_group : (x : ℕ) → bit_or (bit_and x 127) 128 ≡ x % 128 + 128
high_group x = rw bit_and_127 (bit_or_add 7 (x % 128) 1 (omega arith))
