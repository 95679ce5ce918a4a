-- ===== src/Wire/Message.antt =====
-- What the `Unmarshal` and `MarshalToSizedBuffer` methods of the .pb.go files of x/bps/types share.
pub mod Write
pub mod Read
pub mod Ends
pub mod Unknown
pub mod Agrees
pub mod Buffers
use Prim.Native.Nat.{bit_and}
use base_protocol_system.Base.{
  ℕ, zero, suc, ◌+◌, ◌-◌, ◌/◌, ◌%◌, ◌^◌, Bool, ◌||◌, Option, none, some, String, List, [], ◌∷◌,
  ◌++◌, length, take, drop, replicate, leb, ltb, ◌==◌, if◌then◌else◌,
}
use mathlib.Core.Option
use base_protocol_system.Wire.Error.{
  Decoded, ok, err, stuck, ◌>>=◌, unexpected_eof, invalid_length, end_group_for_non_group,
  illegal_tag, wrong_wire_type,
}
use base_protocol_system.Wire.Varint.{read_varint, write_byte, encode_varint, sov}
use base_protocol_system.Wire.Skip.{skip, is_negative, add_int}

-- A method's `switch fieldNum`: the field that a number and a wire type name, read from the bytes
-- behind the tag into the message; `none` is the `default` case. The first number is `len(dAtA)`.
abbrev pub FieldReader : Type 0 → Type 0
FieldReader M = ℕ → ℕ → ℕ → List ℕ → M → Option (Decoded (M × List ℕ))

-- The `default` case: an unknown field is passed over, from its tag on.
pub skip_unknown : ℕ → List ℕ → Decoded (List ℕ)
skip_unknown total bytes = do
  skippy ← skip bytes
  let index = total - length bytes
  if is_negative skippy || is_negative (add_int index skippy)
      then err invalid_length
      else if ltb total (add_int index skippy)
      then err unexpected_eof
      else ok (drop skippy bytes)

-- A length and as many bytes, which are in the buffer.
pub read_bytes : ℕ → List ℕ → Decoded (List ℕ × List ℕ)
read_bytes total bytes = do
  (n, rest) ← read_varint bytes
  let post_index = add_int (total - length rest) n
  if is_negative n
      then err invalid_length
      else if is_negative post_index
      then err invalid_length
      else if ltb total post_index
      then err unexpected_eof
      else ok (take n rest, drop n rest)

module _ {M : Type 0} (name : String) (field : FieldReader M) (total : ℕ) where
  -- `int32(wire >> 3)`, which is not positive at 0 and from 2^31 on.
  abbrev pub field_num : ℕ → ℕ
  field_num wire = wire / 8 % 2 ^ 32

  pub from_field : List ℕ → M → Option (Decoded (M × List ℕ)) → Decoded (M × List ℕ)
  from_field start m none = do rest ← skip_unknown total start; ok (m, rest)
  from_field start m (some r) = r

  -- One round of `Unmarshal`, on the bytes from `iNdEx` on.
  pub unmarshal_field : List ℕ → M → Decoded (M × List ℕ)
  unfolding from_field
  unmarshal_field bytes m = do
    (wire, rest) ← read_varint bytes
    let wire_type = bit_and wire 0x7
    if wire_type == 4
        then err (end_group_for_non_group name)
        else if field_num wire == 0 || leb (2 ^ 31) (field_num wire)
        then err (illegal_tag name (field_num wire) wire)
        else from_field bytes m (field total (field_num wire) wire_type rest m)

  pub unmarshal_loop : ℕ → List ℕ → M → Decoded M
  unmarshal_loop fuel [] m = ok m
  unmarshal_loop zero (b ∷ bytes) m = stuck
  unmarshal_loop (suc fuel) (b ∷ bytes) m =
      unmarshal_field (b ∷ bytes) m >>= λ (m', rest). unmarshal_loop fuel rest m'

-- `Unmarshal` into `m`: each round takes a byte at least.
pub unmarshal : {M : Type 0} → String → FieldReader M → List ℕ → M → Decoded M
unmarshal name field bytes m = unmarshal_loop name field (length bytes) (length bytes) bytes m

-- A field of bytes, with its wire type checked.
pub read_delimited : String → ℕ → ℕ → List ℕ → Decoded (List ℕ × List ℕ)
read_delimited name total wire_type bytes =
    if wire_type == 2 then read_bytes total bytes else err (wrong_wire_type wire_type name)

-- `copy(dAtA[i:], bytes)`, for bytes that end within the buffer.
pub copy_at : List ℕ → ℕ → List ℕ → List ℕ
copy_at buffer i [] = buffer
copy_at [] i (b ∷ bytes) = []
copy_at (x ∷ buffer) zero (b ∷ bytes) = b ∷ copy_at buffer zero bytes
copy_at (x ∷ buffer) (suc i) (b ∷ bytes) = x ∷ copy_at buffer i (b ∷ bytes)

-- `i--; dAtA[i] = tag`, where `none` is the panic of an index below 0.
pub write_tag : ℕ → List ℕ × ℕ → Option (List ℕ × ℕ)
write_tag tag (buffer, zero) = none
write_tag tag (buffer, suc i) = Option.map (λ buffer'. (buffer', i)) (write_byte buffer i tag)

-- A field that is a message: `write` puts it at the end of `dAtA[:i]` and returns its size, and the
-- length and the tag go before it. The buffer that comes back is the whole one.
pub write_message : ℕ → (List ℕ → Option (List ℕ × ℕ)) → List ℕ → ℕ → Option (List ℕ × ℕ)
unfolding Option.bind
write_message tag write buffer i = Option.bind (write (take i buffer)) λ (front, size).
    if ltb i size
    then none
    else Option.bind (encode_varint (front ++ drop i buffer) (i - size) size) (write_tag tag)

-- A field that is a string: nothing where it is empty, else its bytes, its length and its tag.
pub write_string : ℕ → List ℕ → List ℕ → ℕ → Option (List ℕ × ℕ)
unfolding Option.bind
write_string tag [] buffer i = some (buffer, i)
write_string tag (b ∷ bytes) buffer i =
    let size = length (b ∷ bytes) in
    if ltb i size
    then none
    else Option.bind (encode_varint (copy_at buffer (i - size) (b ∷ bytes)) (i - size) size)
        (write_tag tag)

-- `return len(dAtA) - i`
abbrev pub finish : List ℕ → Option (List ℕ × ℕ) → Option (List ℕ × ℕ)
finish buffer none = none
finish buffer (some (buffer', i)) = some (buffer', length buffer - i)

-- What `Size` counts for a string field.
abbrev pub string_size : List ℕ → ℕ
string_size [] = 0
string_size (b ∷ bytes) = 1 + length (b ∷ bytes) + sov (length (b ∷ bytes))

-- `Marshal`: a buffer of the message's size, of which the first bytes that it took are returned.
unfoldable pub marshal : ℕ → (List ℕ → Option (List ℕ × ℕ)) → Option (List ℕ)
marshal size write = Option.map (λ (buffer, n). take n buffer) (write (replicate size 0))

-- `MarshalTo`, on a slice of this capacity: the first bytes are written, as many as `Size` counts.
pub marshal_to : ℕ → (List ℕ → Option (List ℕ × ℕ)) → List ℕ → Option (List ℕ × ℕ)
marshal_to size write buffer =
    if ltb (length buffer) size
    then none
    else Option.map (λ (front, n). (front ++ drop size buffer, n)) (write (take size buffer))
