-- ===== src/Wire/Module/RoundTrip.antt =====
-- The bytes of a configuration of x/bps/types/module.pb.go, written and read back.
use base_protocol_system.Base.{
  ℕ, suc, ◌+◌, ◌^◌, ◌≤◌, ◌<◌, ◌≡◌, refl, ◌∙◌, List, [], ◌∷◌, ◌++◌, length, length-append, arith,
  some,
}
use base_protocol_system.Wire.Error.{ok}
use base_protocol_system.Wire.Varint.Format.{varint_bytes}
use base_protocol_system.Wire.Message.{unmarshal_field, string_size}
use base_protocol_system.Wire.Message.Write.{
  string_field, length-string_field, marshal-string_field,
}
use base_protocol_system.Wire.Message.Read.{
  read_delimited-append, unmarshal_field-some, unmarshal_loop-next, unmarshal_loop-end,
  unmarshal_lem, read_varint-small,
}
use mathlib.Core.List.{append-nil}
use base_protocol_system.Wire.Module.{
  Module, module_size, module_field, module_marshal, module_marshal_to_sized_buffer,
  module_unmarshal,
}

short : (text : List ℕ) → string_size text < 2 ^ 63 → length text < 2 ^ 63
short [] h = omega arith
short (b ∷ bytes) h = omega arith

-- `Marshal` does not panic, and writes the authority as field 1, or nothing where it is empty.
pub module_marshal-string_field :
    (m : Module)
    → length m.config_authority < 2 ^ 63
    → module_marshal m ≡ some (string_field 0xa m.config_authority)
unfolding module_marshal module_size module_marshal_to_sized_buffer
module_marshal-string_field m h = marshal-string_field 0xa m.config_authority (omega arith)

authority_read :
    (total : ℕ) (text rest : List ℕ) (m : Module)
    → total < 2 ^ 63
    → length (text ++ rest) ≤ total
    → unmarshal_field "Module" module_field total
        (0xa ∷ (varint_bytes 9 (length text) ++ (text ++ rest)))
        m
      ≡ ok (record m { config_authority = text }, rest)
unfolding module_field
authority_read total text rest m h fits =
    let bytes = varint_bytes 9 (length text) ++ (text ++ rest) in
    let read = read_delimited-append "Authority" total text rest h fits in
    unmarshal_field-some "Module" module_field total 0xa bytes m
      (ok (record m { config_authority = text }, rest)) (read_varint-small 0xa bytes (omega arith))
      refl refl (rw (read) refl)

string_field_read :
    (text : List ℕ)
    → string_size text < 2 ^ 63
    → module_unmarshal (string_field 0xa text) (record { config_authority = [] })
      ≡ ok (record { config_authority = text })
unfolding module_unmarshal
string_field_read [] h =
    let empty : Module = record { config_authority = [] } in
    unmarshal_lem "Module" module_field [] empty
    ∙ unmarshal_loop-end "Module" module_field 0 0 empty
string_field_read (b ∷ bytes) h =
    let text : List ℕ = b ∷ bytes in
    let empty : Module = record { config_authority = [] } in
    let filled : Module = record { config_authority = text } in
    let rest = varint_bytes 9 (length text) ++ text in
    let fuel = length rest in
    let size : suc fuel ≡ string_size text = length-string_field 0xa text (omega arith) in
    let sum : fuel ≡ length (varint_bytes 9 (length text)) + length text =
      length-append (varint_bytes 9 (length text)) text in
    let read : unmarshal_field "Module" module_field (suc fuel) (0xa ∷ rest) empty
        ≡ ok (filled, []) =
      (rw (append-nil text) at (
        authority_read (suc fuel) text [] empty (omega (arith, size))
          (omega (arith, sum, length-append text [])))) in
    unmarshal_lem "Module" module_field (0xa ∷ rest) empty
    ∙ unmarshal_loop-next "Module" module_field (suc fuel) fuel 0xa rest [] empty filled read
    ∙ unmarshal_loop-end "Module" module_field (suc fuel) fuel filled

-- What `Marshal` writes of a configuration that fits an int, `Unmarshal` reads back.
pub module_unmarshal-module_marshal :
    (m : Module)
    → module_size m < 2 ^ 63
    → (bytes : List ℕ) × (module_marshal m ≡ some bytes)
      × (length bytes ≡ module_size m)
      × (module_unmarshal bytes (record { config_authority = [] }) ≡ ok m)
unfolding module_size
module_unmarshal-module_marshal m h =
    let text = m.config_authority in
    let size : length (string_field 0xa text) ≡ string_size text =
      length-string_field 0xa text (omega (arith, short text h)) in
    (
      string_field 0xa text,
      module_marshal-string_field m (short text h),
      size,
      string_field_read text h,
    )
