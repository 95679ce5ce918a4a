-- ===== src/Wire/Message/Unknown.antt =====
-- A field that a message does not know: a round of its Unmarshal goes past it.
use base_protocol_system.Base.{
  ℕ, suc, ◌+◌, ◌-◌, ◌^◌, ◌≤◌, ◌<◌, ◌≡◌, ap, refl, false, List, [], ◌∷◌, ◌++◌, none, String, length,
  length-append, drop-append, arith, ltb, leb, ◌==◌, ◌||◌,
}
use base_protocol_system.Wire.Error.{ok}
use base_protocol_system.Wire.Varint.Format.{varint_bytes, length-varint_bytes}
use base_protocol_system.Wire.Skip.{is_negative, add_int}
use base_protocol_system.Wire.Skip.Values.{
  Field, tag, wire_type, value_bytes, field_bytes, IsField, tag_number, not_group, bit_and-tag,
  read_varint-field_bytes, skip-field_bytes,
}
use base_protocol_system.Wire.Message.{
  FieldReader, skip_unknown, from_field, unmarshal_field, unmarshal_loop,
}
use base_protocol_system.Wire.Message.Read.{unmarshal_loop-next}

pub length-field_bytes : (f : Field) → 1 ≤ length (field_bytes f)
length-field_bytes f =
    let (at_least, _) = length-varint_bytes 9 (tag f) in
    omega (arith, at_least, length-append (varint_bytes 9 (tag f)) (value_bytes f.value))

skip_unknown-field_bytes :
    (total : ℕ) (f : Field) (rest : List ℕ)
    → IsField f
    → total < 2 ^ 63
    → length (field_bytes f ++ rest) ≤ total
    → skip_unknown total (field_bytes f ++ rest) ≡ ok rest
unfolding skip_unknown
skip_unknown-field_bytes total f rest h fits inside =
    let sum = length-append (field_bytes f) rest in
    let n = length (field_bytes f) in
    let index = total - length (field_bytes f ++ rest) in
    let counted : add_int index n ≡ index + n = omega (arith, sum, inside, fits) in
    let positive : is_negative n ≡ false = ground (arith, sum, inside, fits) in
    let positive' : is_negative (index + n) ≡ false = ground (arith, sum, inside, fits) in
    let within : ltb total (index + n) ≡ false = ground (arith, sum, inside, fits) in
    rw
      (
        skip-field_bytes f rest h (omega (arith, fits, inside)),
        counted,
        positive,
        positive',
        within,
      )
      (ap ok (drop-append (field_bytes f) rest))

module _ {M : Type 0} (name : String) (field : FieldReader M) where
  unmarshal_loop_step :
      (fuel total : ℕ) (bytes rest : List ℕ) (m m' : M)
      → 1 ≤ length bytes
      → unmarshal_field name field total bytes m ≡ ok (m', rest)
      → unmarshal_loop name field total (suc fuel) bytes m
        ≡ unmarshal_loop name field total fuel rest m'
  unmarshal_loop_step fuel total [] rest m m' h e = absurd (omega (arith, h))
  unmarshal_loop_step fuel total (b ∷ bytes) rest m m' h e =
      unmarshal_loop-next name field total fuel b bytes rest m m' e

  -- A field whose number the message does not have is passed over whatever its value, a varint, four
  -- or eight bytes, or a length and its bytes: the loop of Unmarshal goes on behind it, with the
  -- message as it was, where the buffer fits an int.
  pub unmarshal_loop-unknown :
      (fuel total : ℕ) (f : Field) (rest : List ℕ) (m : M)
      → IsField f
      → ((more : List ℕ) → field total f.number (wire_type f.value) more m ≡ none)
      → total < 2 ^ 63
      → length (field_bytes f ++ rest) ≤ total
      → unmarshal_loop name field total (suc fuel) (field_bytes f ++ rest) m
        ≡ unmarshal_loop name field total fuel rest m
  unfolding unmarshal_field from_field
  unmarshal_loop-unknown fuel total f rest m h unknown fits inside =
      let named : (f.number == 0 || leb (2 ^ 31) f.number) ≡ false = ground (arith, h.0, h.1) in
      let group : (wire_type f.value == 4) ≡ false = not_group f.value in
      let skipped = skip_unknown-field_bytes total f rest h fits inside in
      unmarshal_loop_step fuel total (field_bytes f ++ rest) rest m m
        (omega (arith, length-append (field_bytes f) rest, length-field_bytes f))
        (rw
          (
            read_varint-field_bytes f rest h,
            bit_and-tag f,
            group,
            tag_number f h,
            named,
            unknown (value_bytes f.value ++ rest),
            skipped,
          )
          refl)
