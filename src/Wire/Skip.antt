-- ===== src/Wire/Skip.antt =====
-- `skipParams` and its copies in the .pb.go files of x/bps/types: the length of one field of any kind,
-- groups included. The model keeps the bytes from `iNdEx` on beside `iNdEx`, which may have passed the
-- end; there are none of them then, as in the test `iNdEx < l`.
pub mod Ends
pub mod Moves
pub mod Delimited
pub mod Values
use Prim.Native.Nat.{bit_and}
use base_protocol_system.Base.{
  ℕ, zero, suc, ◌+◌, ◌-◌, ◌%◌, ◌^◌, Bool, List, [], ◌∷◌, length, drop, leb, ◌==◌, if◌then◌else◌,
}
use base_protocol_system.Wire.Error.{
  Decoded, ok, err, stuck, ◌>>=◌, unexpected_eof, invalid_length, unexpected_end_of_group,
  illegal_wire_type,
}
use base_protocol_system.Wire.Varint.{read_varint, pass_loop}

-- Whether the `int` of these 64 bits is negative, and the sum of two of them.
abbrev pub is_negative : ℕ → Bool
is_negative n = leb (2 ^ 63) n

abbrev pub add_int : ℕ → ℕ → ℕ
add_int a b = (a + b) % 2 ^ 64

-- `iNdEx`, the depth of open groups, and the bytes that follow.
pub record Cursor : Type 0 where
  pub index : ℕ
  pub depth : ℕ
  pub rest : List ℕ

-- `iNdEx += n`
abbrev pub advance : ℕ → Cursor → Cursor
advance n c = record c { index = add_int c.index n; rest = drop n c.rest }

-- The cursor after some reads that left `rest'`.
abbrev pub read_to : Cursor → List ℕ → Cursor
read_to c rest' = record c { index = c.index + (length c.rest - length rest'); rest = rest' }

pub skip_length : Cursor → Decoded Cursor
skip_length c = do
  (n, rest) ← read_varint c.rest
  if is_negative n then err invalid_length else ok (advance n (read_to c rest))

-- The `switch wireType`.
pub skip_value : ℕ → Cursor → Decoded Cursor
unfolding skip_length
skip_value wire_type c =
    if wire_type == 0
    then (do rest ← pass_loop 0 c.rest; ok (read_to c rest))
    else if wire_type == 1
    then ok (advance 8 c)
    else if wire_type == 2
    then skip_length c
    else if wire_type == 3
    then ok (record c { depth = c.depth + 1 })
    else if wire_type == 4
    then (if c.depth == 0
        then err unexpected_end_of_group
        else ok (record c { depth = c.depth - 1 }))
    else if wire_type == 5
    then ok (advance 4 c)
    else err (illegal_wire_type wire_type)

-- One round: a tag, and the value of its wire type.
pub skip_field : Cursor → Decoded Cursor
skip_field c = do (wire, rest) ← read_varint c.rest; skip_value (bit_and wire 0x7) (read_to c rest)

-- What the end of a round does: stop at depth 0, or go on.
pub skip_loop : ℕ → Cursor → Decoded ℕ
skip_loop zero c = stuck
skip_loop (suc fuel) c =
    if length c.rest == 0
    then err unexpected_eof
    else skip_field c >>= λ c'.
        let more = skip_loop fuel c' in
        if is_negative c'.index
        then err invalid_length
        else if c'.depth == 0
        then ok c'.index
        else more

-- Each round reads a byte at least, so that one round more than there are bytes is enough.
pub skip : List ℕ → Decoded ℕ
skip bytes = skip_loop (length bytes + 1) (record { index = 0; depth = 0; rest = bytes })
