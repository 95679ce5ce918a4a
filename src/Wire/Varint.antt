-- ===== src/Wire/Varint.antt =====
-- Base-128 varints, as the functions `encodeVarint…`, `sov…` and the reading loops of the .pb.go files
-- of x/bps/types have them. A byte slice is a list of numbers, and an `int` or a `uint64` is the
-- number of its 64 bits, so that an `int` is negative from 2^63 on.
pub mod Format
pub mod Encode
use Prim.Native.Nat.{bit_and, bit_or}
use base_protocol_system.Base.{
  ℕ, zero, suc, ◌+◌, ◌-◌, ◌*◌, ◌/◌, ◌%◌, ◌^◌, ◌≤◌, Bool, true, false, Option, none, some, List, [],
  ◌∷◌, ltb, leb, ◌==◌, if◌then◌else◌,
}
use base_protocol_system.Wire.Error.{Decoded, ok, int_overflow, unexpected_eof, err}

-- `dAtA[offset] = b`; `none` is the panic of an index out of range.
pub write_byte : List ℕ → ℕ → ℕ → Option (List ℕ)
write_byte [] offset b = none
write_byte (x ∷ xs) zero b = some (b ∷ xs)
write_byte (x ∷ xs) (suc offset) b = elim (write_byte xs offset b) [
  | none ↦ none
  | some ys ↦ some (x ∷ ys)
]

-- `math_bits.Len64`; 64 rounds read every bit.
unfoldable pub bit_length : ℕ → ℕ → ℕ
bit_length zero x = 0
bit_length (suc rounds) x = let rest = bit_length rounds (x / 2) in if x == 0 then 0 else suc rest

abbrev pub len64 : ℕ → ℕ
len64 x = bit_length 64 x

-- `sovParams` and its copies: the number of bytes of a varint.
unfoldable pub sov : ℕ → ℕ
sov x = (len64 (bit_or x 1) + 6) / 7

-- The loop of `encodeVarintParams`; each round takes seven bits, so that ten rounds write every uint64.
pub encode_loop : ℕ → List ℕ → ℕ → ℕ → Option (List ℕ)
encode_loop zero buffer offset v = none
encode_loop (suc rounds) buffer offset v =
    if leb 128 v
    then elim (write_byte buffer offset (bit_or (bit_and v 0x7f) 0x80)) [
      | none ↦ none
      | some buffer' ↦ encode_loop rounds buffer' (offset + 1) (v / 128)
    ]
    else write_byte buffer offset v

-- `encodeVarintParams` and its copies: it writes up to `offset` and returns where it began. An offset
-- below 0 panics at the first write.
pub encode_varint : List ℕ → ℕ → ℕ → Option (List ℕ × ℕ)
encode_varint buffer offset v =
    if ltb offset (sov v) then none else elim (encode_loop 10 buffer (offset - sov v) v) [
      | none ↦ none
      | some buffer' ↦ some (buffer', offset - sov v)
    ]

-- `wire |= uint64(b&0x7F) << shift`
abbrev pub add_group : ℕ → ℕ → ℕ → ℕ
add_group acc b shift = bit_or acc (bit_and b 0x7f * 2 ^ shift % 2 ^ 64)

-- The loop that reads a varint, on the bytes from `iNdEx` on; it returns the bytes that follow.
unfoldable pub read_loop : ℕ → ℕ → List ℕ → Decoded (ℕ × List ℕ)
read_loop shift acc [] = if leb 64 shift then err int_overflow else err unexpected_eof
read_loop shift acc (b ∷ rest) =
    let more = read_loop (shift + 7) (add_group acc b shift) rest in
    if leb 64 shift
    then err int_overflow
    else if ltb b 0x80
    then ok (add_group acc b shift, rest)
    else more

unfoldable pub read_varint : List ℕ → Decoded (ℕ × List ℕ)
read_varint bytes = read_loop 0 0 bytes

-- The loop of `skipParams` that passes over a varint and keeps no value.
unfoldable pub pass_loop : ℕ → List ℕ → Decoded (List ℕ)
pass_loop shift [] = if leb 64 shift then err int_overflow else err unexpected_eof
pass_loop shift (b ∷ rest) =
    let more = pass_loop (shift + 7) rest in
    if leb 64 shift then err int_overflow else if ltb b 0x80 then ok rest else more
