-- ===== src/Wire/Tx/RoundTrip.antt =====
-- The bytes of a message of x/bps/types/tx.pb.go, written and read back.
use base_protocol_system.Base.{
  ℕ, zero, suc, ◌+◌, ◌-◌, ◌^◌, ◌≤◌, ◌<◌, ◌≡◌, refl, ap, ◌∙◌, List, [], ◌∷◌, ◌++◌, length, take_all,
  length-append, arith, some, replicate, length-replicate, replicate_add,
}
use base_protocol_system.Wire.Error.{ok}
use base_protocol_system.Wire.Varint.{sov, bit_length}
use base_protocol_system.Wire.Varint.Format.{varint_bytes, length-varint_bytes}
use base_protocol_system.Wire.Message.{
  unmarshal_field, unmarshal_loop, read_delimited, string_size, marshal, write_string,
}
use base_protocol_system.Wire.Message.Write.{
  string_field, length-string_field, write_string-append, write_empty_message,
}
use base_protocol_system.Wire.Message.Read.{
  read_delimited-append, unmarshal_field-some, unmarshal_loop-next, unmarshal_loop-end,
  unmarshal_lem, read_varint-small,
}
use mathlib.Core.List.{append_assoc}
use mathlib.Core.Option
use base_protocol_system.Wire.Params.{params, params_size, params_marshal_to_sized_buffer}
use base_protocol_system.Wire.Params.Empty.{no_params_read, only_params}
use base_protocol_system.Wire.Tx.{
  MsgUpdateParams, msg_size, msg_field, msg_marshal, msg_marshal_to_sized_buffer, msg_unmarshal,
}

-- The parameters as they stand in a message: field 2, of no bytes.
params_bytes : List ℕ
params_bytes = 0x12 ∷ 0 ∷ []

short : (text : List ℕ) → string_size text + 2 < 2 ^ 63 → length text < 2 ^ 63
short [] h = omega arith
short (b ∷ bytes) h = omega arith

pub as_suc : (n : ℕ) → 1 ≤ n → (k : ℕ) × (n ≡ suc k)
as_suc zero h = absurd (omega arith)
as_suc (suc k) h = (k, refl)

msg_size_lem : (m : MsgUpdateParams) → msg_size m ≡ string_size m.authority + 2
unfolding msg_size params_size sov bit_length
msg_size_lem m = refl

written :
    (m : MsgUpdateParams) (hole : List ℕ)
    → length m.authority < 2 ^ 64
    → length hole ≡ string_size m.authority
    → msg_marshal_to_sized_buffer m (hole ++ (0 ∷ 0 ∷ []))
      ≡ some (string_field 0xa m.authority ++ params_bytes, length (hole ++ (0 ∷ 0 ∷ [])))
unfolding msg_marshal_to_sized_buffer params_marshal_to_sized_buffer Option.bind params_bytes
written m hole h room =
    let all : length (hole ++ (0 ∷ 0 ∷ [])) ≡ length hole + 2 = length-append hole (0 ∷ 0 ∷ []) in
    let start : 0 + length hole ≡ length hole = omega arith in
    let w = write_empty_message 0x12 0 0 hole [] in
    let w' : write_string 0xa m.authority (hole ++ (0x12 ∷ 0 ∷ [])) (length hole)
        ≡ some (string_field 0xa m.authority ++ (0x12 ∷ 0 ∷ []), 0) =
      (rw (start) at (write_string-append 0xa m.authority [] hole (0x12 ∷ 0 ∷ []) h room)) in
    let none_left : length hole + 2 - 0 ≡ length hole + 2 = omega arith in
    rw (all, w, w', all, none_left) refl

-- `Marshal` does not panic; it writes the authority as field 1, left out where it is empty, and the
-- parameters as field 2.
pub msg_marshal-string_field :
    (m : MsgUpdateParams)
    → length m.authority < 2 ^ 63
    → msg_marshal m ≡ some (string_field 0xa m.authority ++ (0x12 ∷ 0 ∷ []))
unfolding msg_marshal marshal params_bytes
msg_marshal-string_field m h =
    let n = string_size m.authority in
    let hole : List ℕ = replicate n 0 in
    let w = written m hole (omega arith) (length-replicate n 0) in
    let out = string_field 0xa m.authority ++ (0x12 ∷ 0 ∷ []) in
    let sizes : length out ≡ length (hole ++ (0 ∷ 0 ∷ [])) = omega (
      arith,
      length-append (string_field 0xa m.authority) (0x12 ∷ 0 ∷ []),
      length-append hole (0 ∷ 0 ∷ []),
      length-replicate {A = ℕ} n 0,
      length-string_field 0xa m.authority (omega arith),
    ) in
    rw
      (
        msg_size_lem m,
        replicate_add {A = ℕ} n 2 0,
        w,
        take_all (length (hole ++ (0 ∷ 0 ∷ []))) out sizes,
      )
      refl

authority_read :
    (total : ℕ) (text rest : List ℕ) (m : MsgUpdateParams)
    → total < 2 ^ 63
    → length (text ++ rest) ≤ total
    → unmarshal_field "MsgUpdateParams" msg_field total
        (0xa ∷ (varint_bytes 9 (length text) ++ (text ++ rest)))
        m
      ≡ ok (record m { authority = text }, rest)
unfolding msg_field
authority_read total text rest m h fits =
    let bytes = varint_bytes 9 (length text) ++ (text ++ rest) in
    let read = read_delimited-append "Authority" total text rest h fits in
    unmarshal_field-some "MsgUpdateParams" msg_field total 0xa bytes m
      (ok (record m { authority = text }, rest)) (read_varint-small 0xa bytes (omega arith)) refl
      refl (rw (read) refl)

params_read :
    (total : ℕ) (rest : List ℕ) (m : MsgUpdateParams)
    → total < 2 ^ 63
    → length rest ≤ total
    → unmarshal_field "MsgUpdateParams" msg_field total (0x12 ∷ 0 ∷ rest) m ≡ ok (m, rest)
unfolding msg_field
params_read total rest m h fits =
    let zero_bytes : varint_bytes 9 0 ≡ 0 ∷ [] = unfold varint_bytes in refl in
    let read : read_delimited "Params" total 2 (0 ∷ rest) ≡ ok ([], rest) =
      (rw (zero_bytes) at (read_delimited-append "Params" total [] rest h fits)) in
    unmarshal_field-some "MsgUpdateParams" msg_field total 0x12 (0 ∷ rest) m (ok (m, rest))
      (read_varint-small 0x12 (0 ∷ rest) (omega arith)) refl refl
      (rw (read, no_params_read m.new_params) refl)

string_field_read :
    (text : List ℕ)
    → string_size text + 2 < 2 ^ 63
    → msg_unmarshal
        (string_field 0xa text ++ (0x12 ∷ 0 ∷ []))
        (record { authority = []; new_params = params })
      ≡ ok (record { authority = text; new_params = params })
unfolding msg_unmarshal
string_field_read [] h =
    let empty : MsgUpdateParams = record { authority = []; new_params = params } in
    unmarshal_lem "MsgUpdateParams" msg_field (0x12 ∷ 0 ∷ []) empty
    ∙ unmarshal_loop-next "MsgUpdateParams" msg_field 2 1 0x12 (0 ∷ []) [] empty empty
        (params_read 2 [] empty (omega arith) (omega arith))
    ∙ unmarshal_loop-end "MsgUpdateParams" msg_field 2 1 empty
string_field_read (b ∷ bytes) h =
    let text : List ℕ = b ∷ bytes in
    let empty : MsgUpdateParams = record { authority = []; new_params = params } in
    let filled : MsgUpdateParams = record { authority = text; new_params = params } in
    let more : List ℕ = 0x12 ∷ 0 ∷ [] in
    let lens = varint_bytes 9 (length text) in
    let rest : List ℕ = lens ++ (text ++ more) in
    let fuel = length rest in
    let size = length-string_field 0xa text (omega arith) in
    let (at_least, _) = length-varint_bytes 9 (length text) in
    let sum : fuel ≡ length lens + (length text + 2) =
      omega (arith, length-append lens (text ++ more), length-append text more) in
    let bound : suc fuel < 2 ^ 63 = omega (arith, sum, size, length-append lens text) in
    let (left, e) = as_suc fuel (omega (arith, sum, at_least)) in
    let read =
      authority_read (suc fuel) text more empty bound
        (omega (arith, sum, length-append text more)) in
    let last = params_read (suc fuel) [] filled bound (omega arith) in
    ap (λ l. msg_unmarshal (0xa ∷ l) empty) (append_assoc lens text more)
    ∙ unmarshal_lem "MsgUpdateParams" msg_field (0xa ∷ rest) empty
    ∙ unmarshal_loop-next "MsgUpdateParams" msg_field (suc fuel) fuel 0xa rest more empty filled
        read
    ∙ ap (λ f. unmarshal_loop "MsgUpdateParams" msg_field (suc fuel) f more filled) e
    ∙ unmarshal_loop-next "MsgUpdateParams" msg_field (suc fuel) left 0x12 (0 ∷ []) [] filled filled
        last
    ∙ unmarshal_loop-end "MsgUpdateParams" msg_field (suc fuel) left filled

-- What `Marshal` writes of a message that fits an int has the length that `Size` counts, and
-- `Unmarshal` reads the message back from it.
pub msg_unmarshal-msg_marshal :
    (m : MsgUpdateParams)
    → msg_size m < 2 ^ 63
    → (bytes : List ℕ) × (msg_marshal m ≡ some bytes)
      × (length bytes ≡ msg_size m)
      × (msg_unmarshal bytes (record { authority = []; new_params = params }) ≡ ok m)
msg_unmarshal-msg_marshal m h =
    let text = m.authority in
    let size = msg_size_lem m in
    let bound : length text < 2 ^ 63 = short text (omega (arith, size)) in
    let bytes : List ℕ = string_field 0xa text ++ (0x12 ∷ 0 ∷ []) in
    let back : MsgUpdateParams = record { authority = text; new_params = params } in
    let same : back ≡ m =
      ap (λ p. record { authority = text; new_params = p }) (only_params params m.new_params) in
    (
      bytes,
      msg_marshal-string_field m bound,
      omega (
        arith,
        size,
        length-append (string_field 0xa text) (0x12 ∷ 0 ∷ []),
        length-string_field 0xa text (omega (arith, bound)),
      ),
      string_field_read text (omega (arith, size)) ∙ ap ok same,
    )
