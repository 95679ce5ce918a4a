-- ===== src/Wire/Skip/Delimited.antt =====
-- A length and as many bytes, as skip passes over them.
use base_protocol_system.Base.{
  ℕ, ◌+◌, ◌-◌, ◌^◌, ◌<◌, ◌≡◌, refl, false, List, ◌++◌, length, length-append, drop-append, arith,
}
use base_protocol_system.Wire.Error.{ok}
use base_protocol_system.Wire.Varint.Format.{varint_bytes}
use base_protocol_system.Wire.Varint.Encode.{read-varint_bytes}
use base_protocol_system.Wire.Skip.{skip_length, is_negative, add_int}

pub skip_length-delimited :
    (index : ℕ) (bytes rest : List ℕ)
    → index + length (varint_bytes 9 (length bytes) ++ (bytes ++ rest)) < 2 ^ 63
    → skip_length (record {
      index = index;
      depth = 0;
      rest = varint_bytes 9 (length bytes) ++ (bytes ++ rest);
    })
      ≡ ok (record {
        index = index + length (varint_bytes 9 (length bytes) ++ bytes);
        depth = 0;
        rest = rest;
      })
unfolding skip_length
skip_length-delimited index bytes rest fits =
    let n = length bytes in
    let lens = varint_bytes 9 n in
    let sum = length-append bytes rest in
    let whole = length-append lens (bytes ++ rest) in
    let field = length-append lens bytes in
    let r = read-varint_bytes n (bytes ++ rest) (omega (arith, sum, whole)) in
    let positive : is_negative n ≡ false = ground (arith, sum, whole) in
    let at : add_int (index + (length (lens ++ (bytes ++ rest)) - length (bytes ++ rest))) n
        ≡ index + length (lens ++ bytes) =
      omega (arith, sum, whole, field) in
    rw (r, positive, at, drop-append bytes rest) refl
