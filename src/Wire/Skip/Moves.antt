-- ===== src/Wire/Skip/Moves.antt =====
-- What skip returns: a length that is not zero, so that a field that is passed over takes a byte.
use Prim.Native.Nat.{bit_and}
use base_protocol_system.Base.{
  ℕ, zero, suc, ◌+◌, ◌^◌, ◌≤◌, ◌<◌, ◌≡◌, refl, ◌⊎◌, inl, inr, ◌==◌, Bool, true, false, List, length,
  length-drop, arith, leb, if◌then◌else◌, Bool-cases,
}
use base_protocol_system.Wire.Error.{Decoded, DecodeError, ok, err, stuck, ◌>>=◌}
use base_protocol_system.Wire.Varint.{read_varint, read_loop, pass_loop}
use base_protocol_system.Wire.Skip.{
  Cursor, skip, skip_loop, skip_field, skip_value, skip_length, is_negative, read_to, advance,
  add_int,
}
use base_protocol_system.Wire.Skip.Ends.{
  Leaves, left, read_loop-Leaves, pass_loop-Leaves, skip_field-Leaves,
}

-- What a reading gives, where it is no error.
abbrev pub Gives : {A : Type 0} → (A → Type 0) → Decoded A → Type 0
Gives P (ok a) = P a
Gives P (err e) = Unit
Gives P stuck = ⊥

pub then_Gives :
    {A B : Type 0} (P : A → Type 0) (Q : B → Type 0) (d : Decoded A) (f : A → Decoded B)
    → Gives P d
    → ((a : A) → P a → Gives Q (f a))
    → Gives Q (d >>= f)
then_Gives P Q (ok a) f p next = next a p
then_Gives P Q (err e) f p next = tt
then_Gives P Q stuck f p next = p

pub if_Gives :
    {A : Type 0} (P : A → Type 0) (b : Bool) (x y : Decoded A)
    → (b ≡ true → Gives P x)
    → (b ≡ false → Gives P y)
    → Gives P (if b then x else y)
if_Gives P true x y p q = p refl
if_Gives P false x y p q = q refl

-- A test that ends in an error where it holds.
pub guard_Gives :
    {A : Type 0} (P : A → Type 0) (b : Bool) (e : DecodeError) (y : Decoded A)
    → Gives P y
    → Gives P (if b then err e else y)
guard_Gives P true e y q = tt
guard_Gives P false e y q = q

pub Leaves-Gives :
    {A : Type 0} (rest : A → List ℕ) (n : ℕ) (d : Decoded A)
    → Leaves rest n d
    → Gives (λ a. length (rest a) < n) d
Leaves-Gives rest n (ok a) l = l
Leaves-Gives rest n (err e) l = tt
Leaves-Gives rest n stuck l = l

pub both :
    {A : Type 0} (P : A → Type 0) (rest : A → List ℕ) (n : ℕ) (d : Decoded A)
    → Gives P d
    → Leaves rest n d
    → Gives (λ a. P a × (length (rest a) < n)) d
both P rest n (ok a) p l = (p, l)
both P rest n (err e) p l = tt
both P rest n stuck p l = p

module _ (total : ℕ) (fits : total < 2 ^ 63) where
  -- A cursor behind the first byte, and at its place among the bytes unless it has passed the end.
  abbrev pub IsPlaced : Cursor → Type 0
  IsPlaced c = (1 ≤ c.index) × ((length c.rest ≡ 0) ⊎ (c.index + length c.rest ≤ total))

  abbrev pub IsInside : Cursor → Type 0
  IsInside c = (1 ≤ c.index) × (c.index + length c.rest ≤ total)

  advance-IsPlaced : (n : ℕ) (c : Cursor) → n < 2 ^ 63 → IsInside c → IsPlaced (advance n c)
  advance-IsPlaced n c h (behind, inside) =
      let left = length-drop n c.rest in
      let sum : add_int c.index n ≡ c.index + n = omega arith in
      elim (Bool-cases (leb n (length c.rest))) [
        | inl h' ↦ (omega (arith, sum), inr (ground (arith, sum, left)))
        | inr h' ↦ (omega (arith, sum), inl (ground (arith, left)))
      ]

  read_to-IsInside :
      (c : Cursor) (rest : List ℕ)
      → length rest < length c.rest
      → IsInside c
      → IsInside (read_to c rest)
  read_to-IsInside c rest shorter (behind, inside) = (omega arith, omega arith)

  skip_length-IsPlaced : (c : Cursor) → IsInside c → Gives IsPlaced (skip_length c)
  unfolding skip_length read_varint
  skip_length-IsPlaced c h =
      then_Gives (λ r. length r.1 < length c.rest) IsPlaced (read_varint c.rest) _
        (Leaves-Gives (λ r. r.1) (length c.rest) (read_loop 0 0 c.rest)
          (read_loop-Leaves 0 0 c.rest))
        λ (n, rest) shorter.
          if_Gives IsPlaced (is_negative n) _ _ (λ _. tt)
            λ small.
              advance-IsPlaced n (read_to c rest) (ground arith) (read_to-IsInside c rest shorter h)

  skip_value-IsPlaced :
      (wire_type : ℕ) (c : Cursor) → IsInside c → Gives IsPlaced (skip_value wire_type c)
  unfolding skip_value
  skip_value-IsPlaced wire_type c h =
      if_Gives IsPlaced (wire_type == 0) _ _
        (λ _.
          then_Gives (λ r. length r < length c.rest) IsPlaced (pass_loop 0 c.rest) _
            (Leaves-Gives (λ r. r) (length c.rest) (pass_loop 0 c.rest) (pass_loop-Leaves 0 c.rest))
            λ rest shorter.
              let (behind, inside) = read_to-IsInside c rest shorter h in (behind, inr inside))
        λ _.
          if_Gives IsPlaced (wire_type == 1) _ _ (λ _. advance-IsPlaced 8 c (omega arith) h)
            λ _.
              if_Gives IsPlaced (wire_type == 2) _ _ (λ _. skip_length-IsPlaced c h)
                λ _.
                  if_Gives IsPlaced (wire_type == 3) _ _ (λ _. (h.0, inr h.1))
                    λ _.
                      if_Gives IsPlaced (wire_type == 4) _ _
                        (λ _. if_Gives IsPlaced (c.depth == 0) _ _ (λ _. tt) (λ _. (h.0, inr h.1)))
                        λ _.
                          if_Gives IsPlaced (wire_type == 5) _ _
                            (λ _. advance-IsPlaced 4 c (omega arith) h) (λ _. tt)

  skip_field-IsPlaced :
      (c : Cursor) → c.index + length c.rest ≤ total → Gives IsPlaced (skip_field c)
  unfolding skip_field read_varint
  skip_field-IsPlaced c h =
      then_Gives (λ r. length r.1 < length c.rest) IsPlaced (read_varint c.rest) _
        (Leaves-Gives (λ r. r.1) (length c.rest) (read_loop 0 0 c.rest)
          (read_loop-Leaves 0 0 c.rest))
        λ (wire, rest) shorter.
          skip_value-IsPlaced (bit_and wire 0x7) (read_to c rest)
            (omega (arith, shorter), omega (arith, shorter))

  IsPlaced-inside :
      (c : Cursor) → IsPlaced c → (length c.rest == 0) ≡ false → c.index + length c.rest ≤ total
  IsPlaced-inside c (behind, inl none_left) h = absurd (ground arith)
  IsPlaced-inside c (behind, inr inside) h = inside

  skip_loop-pos :
      (fuel : ℕ) (c : Cursor)
      → ((length c.rest == 0) ≡ false → c.index + length c.rest ≤ total)
      → length c.rest < fuel
      → Gives (λ n. 1 ≤ n) (skip_loop fuel c)
  unfolding skip_loop
  skip_loop-pos zero c h enough = absurd (omega (arith, enough))
  skip_loop-pos (suc fuel) c h enough =
      if_Gives (λ n. 1 ≤ n) (length c.rest == 0) _ _ (λ _. tt)
        λ some_left.
          then_Gives (λ c'. IsPlaced c' × (length c'.rest < length c.rest)) (λ n. 1 ≤ n)
            (skip_field c) _
            (both IsPlaced left (length c.rest) (skip_field c) (skip_field-IsPlaced c (h some_left))
              (skip_field-Leaves c))
            λ c' (placed, shorter).
              if_Gives (λ n. 1 ≤ n) (is_negative c'.index) _ _ (λ _. tt)
                λ _.
                  if_Gives (λ n. 1 ≤ n) (c'.depth == 0) _ _ (λ _. placed.0)
                    λ _.
                      skip_loop-pos fuel c' (IsPlaced-inside c' placed)
                        (omega (arith, shorter, enough))

-- What skip returns for bytes that fit an int is not zero.
pub skip-pos : (bytes : List ℕ) → length bytes < 2 ^ 63 → Gives (λ n. 1 ≤ n) (skip bytes)
unfolding skip
skip-pos bytes h =
    skip_loop-pos (length bytes) h (length bytes + 1)
      (record { index = 0; depth = 0; rest = bytes }) (λ _. omega arith) (omega arith)
