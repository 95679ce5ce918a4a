-- ===== src/Wire/Varint/Format.antt =====
-- The bytes of a varint in plain arithmetic, and how many they are.
use base_protocol_system.Base.Bits.{bit_or-one}
use native.Mathlib.Nat.{pow-suc}
use base_protocol_system.Base.{
  ℕ, zero, suc, ◌+◌, ◌*◌, ◌/◌, ◌%◌, ◌^◌, ◌≤◌, ◌<◌, ◌≡◌, refl, ap, ◌∙◌, List, [], ◌∷◌, length, ltb,
  if◌then◌else◌, arith, inl, inr, true, false, Bool-cases,
}
use base_protocol_system.Wire.Varint.{bit_length, sov}

-- The groups of seven bits of `v`, lowest first, for `v` below 128 ^ (k + 1).
unfoldable pub varint_bytes : ℕ → ℕ → List ℕ
varint_bytes zero v = v ∷ []
varint_bytes (suc k) v =
    let more = varint_bytes k (v / 128) in if ltb v 128 then v ∷ [] else (v % 128 + 128) ∷ more

-- Rounds of `bit_length` for k + 1 groups, the last of one bit.
abbrev rounds : ℕ → ℕ
rounds zero = 1
rounds (suc k) = suc (suc (suc (suc (suc (suc (suc (rounds k)))))))

bit_length-zero : (n : ℕ) → bit_length n 0 ≡ 0
unfolding bit_length
bit_length-zero zero = refl
bit_length-zero (suc n) = refl

bit_length-suc : (n x : ℕ) → 0 < x → bit_length (suc n) x ≡ suc (bit_length n (x / 2))
unfolding bit_length
bit_length-suc n x h = ground arith

bit_length-le : (m n x : ℕ) → x < 2 ^ m → bit_length n x ≤ m
unfolding bit_length
bit_length-le zero n x h = let z : x ≡ 0 = omega arith in rw (z, bit_length-zero n) (omega arith)
bit_length-le (suc m) zero x h = omega arith
bit_length-le (suc m) (suc n) x h =
    ground (arith, bit_length-le m n (x / 2) (omega (arith, pow-suc 2 m)))

-- A number of more than seven bits.
bit_length_large :
    (n x : ℕ)
    → 128 ≤ x
    → bit_length (suc (suc (suc (suc (suc (suc (suc n))))))) x ≡ 7 + bit_length n (x / 128)
bit_length_large n x h = omega (
  arith,
  bit_length-suc (suc (suc (suc (suc (suc (suc n)))))) x (omega arith),
  bit_length-suc (suc (suc (suc (suc (suc n))))) (x / 2) (omega arith),
  bit_length-suc (suc (suc (suc (suc n)))) (x / 2 / 2) (omega arith),
  bit_length-suc (suc (suc (suc n))) (x / 2 / 2 / 2) (omega arith),
  bit_length-suc (suc (suc n)) (x / 2 / 2 / 2 / 2) (omega arith),
  bit_length-suc (suc n) (x / 2 / 2 / 2 / 2 / 2) (omega arith),
  bit_length-suc n (x / 2 / 2 / 2 / 2 / 2 / 2) (omega arith),
  ap (bit_length n) (seven_halves x),
)
  where
    seven_halves : (y : ℕ) → y / 2 / 2 / 2 / 2 / 2 / 2 / 2 ≡ y / 128
    seven_halves y = omega arith

-- Seven bits to a byte, rounded up.
groups :
    (k x : ℕ)
    → 0 < x
    → x < 2 * 128 ^ k
    → (bit_length (rounds k) x + 6) / 7 ≡ length (varint_bytes k x)
unfolding varint_bytes
groups zero x p h = let one : x ≡ 1 = omega arith in rw one (unfold bit_length in refl)
groups (suc k) x p h = elim (Bool-cases (ltb x 128)) [
  | inl small ↦ rw small (
      ground (
        arith,
        bit_length-le 7 (rounds (suc k)) x (ground arith),
        bit_length-suc (suc (suc (suc (suc (suc (suc (rounds k))))))) x p,
      ))
  | inr large ↦ rw large (
      ground (
        arith,
        bit_length_large (rounds k) x (ground arith),
        groups k (x / 128) (ground arith) (ground (arith, pow-suc 128 k)),
      ))
]

-- A lowest bit that is set leaves the number of bytes as it is.
length-set_low_bit : (v : ℕ) → length (varint_bytes 9 (v / 2 * 2 + 1)) ≡ length (varint_bytes 9 v)
unfolding varint_bytes
length-set_low_bit v = elim (Bool-cases (ltb v 128)) [
  | inl small ↦ let small' : ltb (v / 2 * 2 + 1) 128 ≡ true = ground arith in rw (small, small')
  | inr large ↦
      let large' : ltb (v / 2 * 2 + 1) 128 ≡ false = ground arith in
      let same : (v / 2 * 2 + 1) / 128 ≡ v / 128 = ground arith in rw (large, large', same)
]

-- `sov` is the number of bytes of a uint64.
pub sov-eq-length : (v : ℕ) → v < 2 ^ 64 → sov v ≡ length (varint_bytes 9 v)
unfolding sov
sov-eq-length v h =
    rw bit_or-one (groups 9 (v / 2 * 2 + 1) (omega arith) (omega arith) ∙ length-set_low_bit v)

pub length-varint_bytes :
    (k v : ℕ) → (1 ≤ length (varint_bytes k v)) × (length (varint_bytes k v) ≤ k + 1)
unfolding varint_bytes
length-varint_bytes zero v = omega arith
length-varint_bytes (suc k) v = ground (arith, length-varint_bytes k (v / 128))
