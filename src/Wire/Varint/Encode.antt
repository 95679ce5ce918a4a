-- ===== src/Wire/Varint/Encode.antt =====
-- `encodeVarint` writes the bytes of a varint into the room that `sov` counts, and the reading loop
-- gives the number back.
use base_protocol_system.Base.Bits.{bit_or_add, bit_and_127, high_group}
use base_protocol_system.Base.{
  ℕ, zero, suc, ◌+◌, ◌-◌, ◌*◌, ◌/◌, ◌%◌, ◌^◌, ◌≤◌, ◌<◌, ◌≡◌, refl, ap, ◌∙◌, List, [], ◌∷◌, ◌++◌,
  length, length-append, ltb, arith, inl, inr, false, Bool-cases, some,
}
use base_protocol_system.Wire.Error.{ok}
use base_protocol_system.Wire.Varint.{
  write_byte, encode_loop, encode_varint, sov, read_loop, read_varint,
}
use base_protocol_system.Wire.Varint.Format.{varint_bytes, sov-eq-length, length-varint_bytes}
use mathlib.Core.List.{append_assoc}
use native.Mathlib.Nat.{pow-suc, pow-le-pow_right, div-add-mod}
use native.Mathlib.Decide.{dec_lt}
use native.Mathlib.Numerals.{towards_suc}

pub write_byte-append :
    (front back : List ℕ) (x b : ℕ)
    → write_byte (front ++ (x ∷ back)) (length front) b ≡ some (front ++ (b ∷ back))
unfolding write_byte
write_byte-append [] back x b = refl
write_byte-append (y ∷ front) back x b = rw (write_byte-append front back x b)

nil_of_length : (xs : List ℕ) → length xs ≡ 0 → xs ≡ []
nil_of_length [] h = refl
nil_of_length (x ∷ xs) h = absurd (omega arith)

last_round :
    (n v x : ℕ) (front back : List ℕ)
    → v < 128
    → encode_loop (suc n) (front ++ (x ∷ back)) (length front) v ≡ some (front ++ (v ∷ back))
unfolding encode_loop
last_round n v x front back h = ground (arith, write_byte-append front back x v)

inner_round :
    (n v x : ℕ) (front back : List ℕ)
    → 128 ≤ v
    → encode_loop (suc n) (front ++ (x ∷ back)) (length front) v
      ≡ encode_loop n (front ++ ((v % 128 + 128) ∷ back)) (length front + 1) (v / 128)
unfolding encode_loop
inner_round n v x front back h =
    ground (arith, high_group v, write_byte-append front back x (v % 128 + 128))

-- The loop fills a hole of as many bytes as the varint has.
encode_loop-append :
    (k n v : ℕ) (front hole back : List ℕ)
    → k < n
    → length hole ≡ length (varint_bytes k v)
    → v < 128 ^ suc k
    → encode_loop n (front ++ (hole ++ back)) (length front) v
      ≡ some (front ++ (varint_bytes k v ++ back))
encode_loop-append k zero v front hole back h e fits = elim h [ ]
encode_loop-append k (suc n) v front [] back h e fits =
    absurd (omega (arith, length-varint_bytes k v))
encode_loop-append zero (suc n) v front (x ∷ hole) back h e fits =
    let none_left : hole ≡ [] = nil_of_length hole (unfold varint_bytes in omega arith) in
    rw none_left (unfold varint_bytes in last_round n v x front back (omega arith))
encode_loop-append (suc k) (suc n) v front (x ∷ hole) back h e fits =
    elim (Bool-cases (ltb v 128)) [
      | inl small ↦
          let few : length (varint_bytes (suc k) v) ≡ 1 = unfold varint_bytes in rw small in
          let none_left : hole ≡ [] = nil_of_length hole (omega arith) in
          let bytes : varint_bytes (suc k) v ≡ v ∷ [] = unfold varint_bytes in rw small in
          rw (none_left, bytes) (last_round n v x front back (ground arith))
      | inr large ↦
          let bytes : varint_bytes (suc k) v ≡ (v % 128 + 128) ∷ varint_bytes k (v / 128) =
            unfold varint_bytes in rw large in
          let c : List ℕ = (v % 128 + 128) ∷ [] in
          let more = varint_bytes k (v / 128) in
          let as_long : length hole ≡ length more = omega (arith, e ∙ ap length bytes) in
          let ih =
            encode_loop-append k n (v / 128) (front ++ c) hole back (omega arith) as_long
              (omega (arith, pow-suc 128 (suc k))) in
          rw bytes (
            inner_round n v x front (hole ++ back) (ground arith)
            ∙ (rw
                (
                  append_assoc front c (hole ++ back),
                  append_assoc front c (more ++ back),
                  length-append front c,
                )
                at ih))
    ]

-- Into a hole of as many bytes as `sov` counts, before `back`, `encodeVarint` writes the bytes of any
-- uint64, and returns where they begin.
pub encode_varint-append :
    (v : ℕ) (front hole back : List ℕ)
    → v < 2 ^ 64
    → length hole ≡ sov v
    → encode_varint (front ++ (hole ++ back)) (length front + length hole) v
      ≡ some (front ++ (varint_bytes 9 v ++ back), length front)
unfolding encode_varint
encode_varint-append v front hole back h e =
    let loop =
      encode_loop-append 9 10 v front hole back (omega arith) (e ∙ sov-eq-length v h)
        (omega arith) in
    let at : length front + length hole - sov v ≡ length front = omega arith in
    let inside : ltb (length front + length hole) (sov v) ≡ false = ground arith in
    rw (inside, at, loop) (rw at)

-- A byte below 128 ends the loop, and any other hands on what it holds.
last_byte :
    (w acc s : ℕ) (rest : List ℕ)
    → w < 128
    → s < 64
    → acc < 2 ^ s
    → acc + w * 2 ^ s < 2 ^ 64
    → read_loop s acc (w ∷ rest) ≡ ok (acc + w * 2 ^ s, rest)
unfolding read_loop
last_byte w acc s rest hw hs low fits = ground (arith, bit_and_127 w, bit_or_add s acc w low)

inner_byte :
    (g acc s : ℕ) (rest : List ℕ)
    → g < 128
    → s < 64
    → acc < 2 ^ s
    → acc + g * 2 ^ s < 2 ^ 64
    → read_loop s acc ((g + 128) ∷ rest) ≡ read_loop (s + 7) (acc + g * 2 ^ s) rest
unfolding read_loop
inner_byte g acc s rest hg hs low fits =
    ground (arith, bit_and_127 (g + 128), bit_or_add s acc g low)

pow_seven : (s : ℕ) → 2 ^ (s + 7) ≡ 128 * 2 ^ s
pow_seven s = simp towards_suc (omega arith)

-- A lowest group and the rest, as the loop finds them.
group_and_rest : (w s : ℕ) → w * 2 ^ s ≡ w % 128 * 2 ^ s + w / 128 * 2 ^ (s + 7)
group_and_rest w s = omega (
  arith,
  ap (λ (t : ℕ). t * 2 ^ s) (div-add-mod w 128),
  ap (λ (t : ℕ). w / 128 * t) (pow_seven s),
)

scale : (a b p : ℕ) → a ≤ b → a * p ≤ b * p
scale a b p h = grind arith

-- A number that still has a group above bit `s` leaves `s + 7` below 64.
shift_below : (w acc s : ℕ) → 128 ≤ w → acc + w * 2 ^ s < 2 ^ 64 → s + 7 < 64
shift_below w acc s hw fits = elim (dec_lt (s + 7) 64) [
  | yes p ↦ p
  | no p ↦
      let wide : 2 ^ 64 ≤ 2 ^ (s + 7) =
        pow-le-pow_right {n = 2} (omega arith) {i = 64} {j = s + 7} (omega arith) in
      let more = scale 128 w (2 ^ s) hw in absurd (omega (arith, wide, more, pow_seven s))
]

group_below : (g acc s : ℕ) → g < 128 → acc < 2 ^ s → acc + g * 2 ^ s < 2 ^ (s + 7)
group_below g acc s hg low =
    let most = scale g 127 (2 ^ s) (omega arith) in omega (arith, most, pow_seven s)

read_loop-varint_bytes :
    (k w acc s : ℕ) (rest : List ℕ)
    → w < 128 ^ suc k
    → s < 64
    → acc < 2 ^ s
    → acc + w * 2 ^ s < 2 ^ 64
    → read_loop s acc (varint_bytes k w ++ rest) ≡ ok (acc + w * 2 ^ s, rest)
unfolding varint_bytes
read_loop-varint_bytes zero w acc s rest hw hs low fits =
    last_byte w acc s rest (omega arith) hs low fits
read_loop-varint_bytes (suc k) w acc s rest hw hs low fits = elim (Bool-cases (ltb w 128)) [
  | inl small ↦ rw small (last_byte w acc s rest (ground arith) hs low fits)
  | inr large ↦
      let g = w % 128 in
      let split = group_and_rest w s in
      rw large (
        inner_byte g acc s (varint_bytes k (w / 128) ++ rest) (omega arith) hs low
          (omega (arith, split))
        ∙ read_loop-varint_bytes k (w / 128) (acc + g * 2 ^ s) (s + 7) rest
            (omega (arith, pow-suc 128 (suc k))) (shift_below w acc s (ground arith) fits)
            (group_below g acc s (omega arith) low) (omega (arith, split))
        ∙ ap (λ n. ok (n, rest)) (omega (arith, split)))
]

-- The reading loop gives back any uint64 from its bytes, and leaves what follows them.
pub read-varint_bytes :
    (v : ℕ) (rest : List ℕ) → v < 2 ^ 64 → read_varint (varint_bytes 9 v ++ rest) ≡ ok (v, rest)
unfolding read_varint
read-varint_bytes v rest h =
    read_loop-varint_bytes 9 v 0 0 rest (omega arith) (omega arith) (omega arith) (omega arith)
    ∙ ap (λ n. ok (n, rest)) (omega arith)
