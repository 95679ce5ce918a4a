-- ===== src/Wire/Skip/Values.antt =====
-- A field as it stands in a message, of each wire type but the groups, as skip passes over it.
use Prim.Native.Nat.{bit_and}
use base_protocol_system.Base.{
  ℕ, suc, ◌+◌, ◌-◌, ◌*◌, ◌/◌, ◌%◌, ◌^◌, ◌≤◌, ◌<◌, ◌≡◌, refl, sym, ap, ◌∙◌, false, List, [], ◌∷◌,
  ◌++◌, length, length-append, drop-append, arith, ◌==◌,
}
use base_protocol_system.Base.Bits.{bit_and_seven}
use mathlib.Core.List.{append_assoc}
use base_protocol_system.Wire.Error.{ok}
use base_protocol_system.Wire.Varint.{read_varint, read_loop, pass_loop, add_group}
use base_protocol_system.Wire.Varint.Format.{varint_bytes, length-varint_bytes}
use base_protocol_system.Wire.Varint.Encode.{read-varint_bytes}
use base_protocol_system.Wire.Skip.{
  skip, skip_length, skip_loop, skip_field, skip_value, advance, is_negative, add_int,
}
use base_protocol_system.Wire.Skip.Delimited.{skip_length-delimited}

pub data Value : Type 0 where
  varint : ℕ → Value
  fixed64 delimited fixed32 : List ℕ → Value

abbrev pub wire_type : Value → ℕ
wire_type (varint v) = 0
wire_type (fixed64 bytes) = 1
wire_type (delimited bytes) = 2
wire_type (fixed32 bytes) = 5

abbrev pub value_bytes : Value → List ℕ
value_bytes (varint v) = varint_bytes 9 v
value_bytes (fixed64 bytes) = bytes
value_bytes (delimited bytes) = varint_bytes 9 (length bytes) ++ bytes
value_bytes (fixed32 bytes) = bytes

abbrev pub IsValue : Value → Type 0
IsValue (varint v) = v < 2 ^ 64
IsValue (fixed64 bytes) = length bytes ≡ 8
IsValue (delimited bytes) = length bytes < 2 ^ 63
IsValue (fixed32 bytes) = length bytes ≡ 4

-- A varint that can be read can be passed over.
pass_loop-read_loop :
    (shift acc v : ℕ) (bytes rest : List ℕ)
    → read_loop shift acc bytes ≡ ok (v, rest)
    → pass_loop shift bytes ≡ ok rest
unfolding read_loop pass_loop
pass_loop-read_loop shift acc v [] rest e = absurd (ground arith)
pass_loop-read_loop shift acc v (b ∷ bytes) rest e =
    let later = pass_loop-read_loop (shift + 7) (add_group acc b shift) v bytes rest in
    ground (arith, later)

-- `iNdEx` behind some bytes of a fixed number.
advance-append :
    (index : ℕ) (bytes rest : List ℕ)
    → index + length (bytes ++ rest) < 2 ^ 63
    → advance (length bytes) (record { index = index; depth = 0; rest = bytes ++ rest })
      ≡ record { index = index + length bytes; depth = 0; rest = rest }
advance-append index bytes rest fits =
    let sum : add_int index (length bytes) ≡ index + length bytes =
      omega (arith, length-append bytes rest) in
    rw (sum, drop-append bytes rest) refl

skip_value-append :
    (index : ℕ) (x : Value) (rest : List ℕ)
    → IsValue x
    → index + length (value_bytes x ++ rest) < 2 ^ 63
    → skip_value (wire_type x) (record { index = index; depth = 0; rest = value_bytes x ++ rest })
      ≡ ok (record { index = index + length (value_bytes x); depth = 0; rest = rest })
unfolding skip_value
skip_value-append index (varint v) rest h fits =
    let lens = varint_bytes 9 v in
    let passed : pass_loop 0 (lens ++ rest) ≡ ok rest =
      pass_loop-read_loop 0 0 v (lens ++ rest) rest
        (unfold read_varint in (read-varint_bytes v rest h)) in
    let index' : length (lens ++ rest) - length rest ≡ length lens =
      omega (arith, length-append lens rest) in
    rw (passed, index') refl
skip_value-append index (fixed64 bytes) rest h fits =
    ap (λ n. ok (advance n (record { index = index; depth = 0; rest = bytes ++ rest }))) (sym h)
    ∙ ap ok (advance-append index bytes rest fits)
skip_value-append index (delimited bytes) rest h fits =
    let apart : (varint_bytes 9 (length bytes) ++ bytes) ++ rest
        ≡ varint_bytes 9 (length bytes) ++ (bytes ++ rest) =
      append_assoc (varint_bytes 9 (length bytes)) bytes rest in
    let fits' = ap length apart in
    ap (λ l. skip_length (record { index = index; depth = 0; rest = l })) apart
    ∙ skip_length-delimited index bytes rest (omega (arith, fits, fits'))
skip_value-append index (fixed32 bytes) rest h fits =
    ap (λ n. ok (advance n (record { index = index; depth = 0; rest = bytes ++ rest }))) (sym h)
    ∙ ap ok (advance-append index bytes rest fits)

-- A field: its number and its value, under a tag that has both.
pub record Field : Type 0 where
  pub number : ℕ
  pub value : Value

abbrev pub tag : Field → ℕ
tag f = f.number * 8 + wire_type f.value

abbrev pub field_bytes : Field → List ℕ
field_bytes f = varint_bytes 9 (tag f) ++ value_bytes f.value

-- Field numbers have 29 bits, and 0 is none.
abbrev pub IsField : Field → Type 0
IsField f = (1 ≤ f.number) × (f.number < 2 ^ 29) × IsValue f.value

pub wire_type_small : (x : Value) → wire_type x ≤ 5
wire_type_small (varint v) = omega arith
wire_type_small (fixed64 bytes) = omega arith
wire_type_small (delimited bytes) = omega arith
wire_type_small (fixed32 bytes) = omega arith

pub not_group : (x : Value) → (wire_type x == 4) ≡ false
not_group (varint v) = refl
not_group (fixed64 bytes) = refl
not_group (delimited bytes) = refl
not_group (fixed32 bytes) = refl

pub tag-lt : (f : Field) → IsField f → tag f < 2 ^ 32
tag-lt f (some_number, small, h) = omega (arith, wire_type_small f.value, small)

pub bit_and-tag : (f : Field) → bit_and (tag f) 0x7 ≡ wire_type f.value
bit_and-tag f = omega (arith, bit_and_seven (tag f), wire_type_small f.value)

pub read_varint-field_bytes :
    (f : Field) (rest : List ℕ)
    → IsField f
    → read_varint (field_bytes f ++ rest) ≡ ok (tag f, value_bytes f.value ++ rest)
read_varint-field_bytes f rest h =
    ap read_varint (append_assoc (varint_bytes 9 (tag f)) (value_bytes f.value) rest)
    ∙ read-varint_bytes (tag f) (value_bytes f.value ++ rest) (omega (arith, tag-lt f h))

skip_field-field_bytes :
    (f : Field) (rest : List ℕ)
    → IsField f
    → length (field_bytes f ++ rest) < 2 ^ 63
    → skip_field (record { index = 0; depth = 0; rest = field_bytes f ++ rest })
      ≡ ok (record { index = length (field_bytes f); depth = 0; rest = rest })
unfolding skip_field
skip_field-field_bytes f rest h fits =
    let lens = varint_bytes 9 (tag f) in
    let bytes = value_bytes f.value in
    let all = length-append (field_bytes f) rest in
    let parts = length-append lens bytes in
    let more = length-append bytes rest in
    let index : 0 + (length (field_bytes f ++ rest) - length (bytes ++ rest)) ≡ length lens =
      omega (arith, all, parts, more) in
    rw (read_varint-field_bytes f rest h, bit_and-tag f, index)
      (skip_value-append (length lens) f.value rest h.2 (omega (arith, all, parts, more, fits))
        ∙ ap (λ n. ok (record { index = n; depth = 0; rest = rest })) (sym parts))

pub tag_number : (f : Field) → IsField f → tag f / 8 % 2 ^ 32 ≡ f.number
tag_number f (some_number, small, h) = omega (arith, wire_type_small f.value, small)

-- skip gives the length of a field, whatever follows.
pub skip-field_bytes :
    (f : Field) (rest : List ℕ)
    → IsField f
    → length (field_bytes f ++ rest) < 2 ^ 63
    → skip (field_bytes f ++ rest) ≡ ok (length (field_bytes f))
unfolding skip skip_loop
skip-field_bytes f rest h fits =
    let bytes = field_bytes f ++ rest in
    let size : length bytes
        ≡ length (varint_bytes 9 (tag f)) + length (value_bytes f.value) + length rest =
      omega (
        arith,
        length-append (field_bytes f) rest,
        length-append (varint_bytes 9 (tag f)) (value_bytes f.value),
      ) in
    let parts = length-append (varint_bytes 9 (tag f)) (value_bytes f.value) in
    let (at_least, _) = length-varint_bytes 9 (tag f) in
    let rounds : length bytes + 1 ≡ suc (length bytes) = omega arith in
    let some_left : (length bytes == 0) ≡ false = ground (arith, size, at_least) in
    let positive : is_negative (length (field_bytes f)) ≡ false =
      ground (arith, size, parts, fits) in
    rw (rounds, some_left, skip_field-field_bytes f rest h fits, positive) refl
