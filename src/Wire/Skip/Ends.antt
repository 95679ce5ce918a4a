-- ===== src/Wire/Skip/Ends.antt =====
-- How the loops that skip a field end, by the bytes that each round leaves.
use Prim.Native.Nat.{bit_and}
use base_protocol_system.Base.{
  ℕ, zero, suc, ◌+◌, ◌≤◌, ◌<◌, ◌≢◌, ◌==◌, Bool, true, false, List, [], ◌∷◌, length, length-drop,
  arith, ltb, leb, if◌then◌else◌,
}
use base_protocol_system.Wire.Error.{Decoded, ok, err, stuck, ◌>>=◌}
use base_protocol_system.Wire.Varint.{read_varint, read_loop, pass_loop, add_group}
use base_protocol_system.Wire.Skip.{
  Cursor, skip, skip_loop, skip_field, skip_value, skip_length, is_negative, read_to,
}

-- A reading that leaves fewer than n bytes behind, or that fails; it is not stuck.
abbrev pub Leaves : {A : Type 0} → (A → List ℕ) → ℕ → Decoded A → Type 0
Leaves rest n (ok a) = length (rest a) < n
Leaves rest n (err e) = Unit
Leaves rest n stuck = ⊥

pub either_way :
    {A : Type 0} (P : A → Type 0) (b : Bool) {x y : A} → P x → P y → P (if b then x else y)
either_way P true p q = p
either_way P false p q = q

pub Leaves-more :
    {A : Type 0} (rest : A → List ℕ) (n m : ℕ) (d : Decoded A)
    → n ≤ m
    → Leaves rest n d
    → Leaves rest m d
Leaves-more rest n m (ok a) h l = omega (arith, h, l)
Leaves-more rest n m (err e) h l = tt
Leaves-more rest n m stuck h l = l

pub read_loop-Leaves :
    (shift acc : ℕ) (bytes : List ℕ) → Leaves (λ r. r.1) (length bytes) (read_loop shift acc bytes)
unfolding read_loop
read_loop-Leaves shift acc [] = either_way (Leaves (λ r. r.1) 0) (leb 64 shift) tt tt
read_loop-Leaves shift acc (b ∷ bytes) =
    let P = Leaves {A = ℕ × List ℕ} (λ r. r.1) (suc (length bytes)) in
    either_way P (leb 64 shift) tt (
      either_way P (ltb b 0x80) (omega arith) (
        Leaves-more (λ r. r.1) (length bytes) (suc (length bytes))
          (read_loop (shift + 7) (add_group acc b shift) bytes) (omega arith)
          (read_loop-Leaves (shift + 7) (add_group acc b shift) bytes)))

pub pass_loop-Leaves :
    (shift : ℕ) (bytes : List ℕ) → Leaves (λ r. r) (length bytes) (pass_loop shift bytes)
unfolding pass_loop
pass_loop-Leaves shift [] = either_way (Leaves (λ r. r) 0) (leb 64 shift) tt tt
pass_loop-Leaves shift (b ∷ bytes) =
    let P = Leaves {A = List ℕ} (λ r. r) (suc (length bytes)) in
    either_way P (leb 64 shift) tt (
      either_way P (ltb b 0x80) (omega arith) (
        Leaves-more (λ r. r) (length bytes) (suc (length bytes)) (pass_loop (shift + 7) bytes)
          (omega arith) (pass_loop-Leaves (shift + 7) bytes)))

pub then_Leaves :
    {A B : Type 0} (rest : A → List ℕ) (rest' : B → List ℕ) (n m : ℕ) (d : Decoded A)
    (f : A → Decoded B)
    → Leaves rest n d
    → ((a : A) → length (rest a) < n → Leaves rest' m (f a))
    → Leaves rest' m (d >>= f)
then_Leaves rest rest' n m (ok a) f l next = next a l
then_Leaves rest rest' n m (err e) f l next = tt
then_Leaves rest rest' n m stuck f l next = l

abbrev pub left : Cursor → List ℕ
left c = c.rest

skip_length-Leaves : (c : Cursor) → Leaves left (suc (length c.rest)) (skip_length c)
unfolding skip_length read_varint
skip_length-Leaves c =
    then_Leaves (λ r. r.1) left (length c.rest) (suc (length c.rest)) (read_varint c.rest) _
      (read_loop-Leaves 0 0 c.rest)
      λ (n, rest) shorter.
        either_way (Leaves left (suc (length c.rest))) (is_negative n) tt
          (omega (arith, shorter, length-drop n rest))

skip_value-Leaves :
    (wire_type : ℕ) (c : Cursor) → Leaves left (suc (length c.rest)) (skip_value wire_type c)
unfolding skip_value
skip_value-Leaves wire_type c =
    let P = Leaves left (suc (length c.rest)) in
    either_way P (wire_type == 0)
      (then_Leaves (λ r. r) left (length c.rest) (suc (length c.rest)) (pass_loop 0 c.rest) _
        (pass_loop-Leaves 0 c.rest) (λ rest shorter. omega (arith, shorter)))
      (either_way P (wire_type == 1) (omega (arith, length-drop 8 c.rest)) (
        either_way P (wire_type == 2) (skip_length-Leaves c) (
          either_way P (wire_type == 3) (omega arith) (
            either_way P (wire_type == 4) (either_way P (c.depth == 0) tt (omega arith))
              (either_way P (wire_type == 5) (omega (arith, length-drop 4 c.rest)) tt)))))

pub skip_field-Leaves : (c : Cursor) → Leaves left (length c.rest) (skip_field c)
unfolding skip_field read_varint
skip_field-Leaves c =
    then_Leaves (λ r. r.1) left (length c.rest) (length c.rest) (read_varint c.rest) _
      (read_loop-Leaves 0 0 c.rest)
      λ (wire, rest) shorter.
        Leaves-more left (suc (length rest)) (length c.rest)
          (skip_value (bit_and wire 0x7) (read_to c rest)) (omega (arith, shorter))
          (skip_value-Leaves (bit_and wire 0x7) (read_to c rest))

-- A loop that ended: it is not stuck.
abbrev pub Ends : {A : Type 0} → Decoded A → Type 0
Ends (ok a) = Unit
Ends (err e) = Unit
Ends stuck = ⊥

then_Ends :
    {A B : Type 0} (rest : A → List ℕ) (n : ℕ) (d : Decoded A) (f : A → Decoded B)
    → Leaves rest n d
    → ((a : A) → length (rest a) < n → Ends (f a))
    → Ends (d >>= f)
then_Ends rest n (ok a) f l next = next a l
then_Ends rest n (err e) f l next = tt
then_Ends rest n stuck f l next = l

pub skip_loop-Ends : (fuel : ℕ) (c : Cursor) → length c.rest < fuel → Ends (skip_loop fuel c)
unfolding skip_loop
skip_loop-Ends zero c h = absurd (omega (arith, h))
skip_loop-Ends (suc fuel) c h = either_way Ends (length c.rest == 0) tt (
    then_Ends left (length c.rest) (skip_field c) _ (skip_field-Leaves c) λ c' shorter.
      either_way Ends (is_negative c'.index) tt
        (either_way Ends (c'.depth == 0) tt (skip_loop-Ends fuel c' (omega (arith, shorter, h)))))

pub Ends-not_stuck : {A : Type 0} (d : Decoded A) → Ends d → d ≢ stuck
Ends-not_stuck (ok a) h e = absurd (cc)
Ends-not_stuck (err x) h e = absurd (cc)
Ends-not_stuck stuck h e = h

-- The rounds that `skip` is given are enough, whatever the bytes: it returns a length or an error.
pub skip_ends : (bytes : List ℕ) → skip bytes ≢ stuck
unfolding skip
skip_ends bytes = Ends-not_stuck (skip bytes) (
    skip_loop-Ends (length bytes + 1) (record { index = 0; depth = 0; rest = bytes }) (omega arith))
