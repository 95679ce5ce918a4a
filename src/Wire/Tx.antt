-- ===== src/Wire/Tx.antt =====
-- x/bps/types/tx.pb.go: the message that updates the parameters, and its empty response. A Go string is
-- the list of its bytes.
pub mod RoundTrip
use base_protocol_system.Base.{
  ℕ, zero, suc, ◌+◌, ◌-◌, Option, none, some, List, [], ◌∷◌, length, String, ◌==◌, if◌then◌else◌,
}
use base_protocol_system.Wire.Error.{Decoded, ok, ◌>>=◌}
use base_protocol_system.Wire.Varint.{sov, encode_varint}
use base_protocol_system.Wire.Skip.{skip}
use base_protocol_system.Wire.Message.{
  FieldReader, unmarshal, marshal, marshal_to, marshal_to, read_delimited, write_message,
  write_string, finish, string_size,
}
use base_protocol_system.Wire.Params.{
  Params, params, params_size, params_marshal_to_sized_buffer, params_unmarshal,
}
use mathlib.Core.Option

pub record MsgUpdateParams : Type 0 where
  pub authority : List ℕ
  pub new_params : Params

pub data MsgUpdateParamsResponse : Type 0 where
  response : MsgUpdateParamsResponse

unfoldable pub msg_size : MsgUpdateParams → ℕ
msg_size m = let l = params_size m.new_params in string_size m.authority + (1 + l + sov l)

-- From the last field to the first.
pub msg_marshal_to_sized_buffer : MsgUpdateParams → List ℕ → Option (List ℕ × ℕ)
unfolding Option.bind
msg_marshal_to_sized_buffer m buffer = finish buffer (
    Option.bind
      (write_message 0x12 (params_marshal_to_sized_buffer m.new_params) buffer (length buffer))
      λ (buffer', i). write_string 0xa m.authority buffer' i)

pub msg_marshal : MsgUpdateParams → Option (List ℕ)
msg_marshal m = marshal (msg_size m) (msg_marshal_to_sized_buffer m)

pub msg_marshal_to : MsgUpdateParams → List ℕ → Option (List ℕ × ℕ)
msg_marshal_to m = marshal_to (msg_size m) (msg_marshal_to_sized_buffer m)

unfoldable pub msg_field : FieldReader MsgUpdateParams
msg_field total field_num wire_type bytes m =
    if field_num == 1
    then some (do
      (text, rest) ← read_delimited "Authority" total wire_type bytes
      ok (record m { authority = text }, rest))
    else if field_num == 2
    then some (do
      (sub, rest) ← read_delimited "Params" total wire_type bytes
      p ← params_unmarshal sub m.new_params
      ok (record m { new_params = p }, rest))
    else none

unfoldable pub msg_unmarshal : List ℕ → MsgUpdateParams → Decoded MsgUpdateParams
msg_unmarshal = unmarshal "MsgUpdateParams" msg_field

pub response_size : MsgUpdateParamsResponse → ℕ
response_size m = 0

pub response_marshal_to_sized_buffer : MsgUpdateParamsResponse → List ℕ → Option (List ℕ × ℕ)
response_marshal_to_sized_buffer m buffer = some (buffer, 0)

pub response_marshal : MsgUpdateParamsResponse → Option (List ℕ)
response_marshal m = marshal (response_size m) (response_marshal_to_sized_buffer m)

pub response_marshal_to : MsgUpdateParamsResponse → List ℕ → Option (List ℕ × ℕ)
response_marshal_to m = marshal_to (response_size m) (response_marshal_to_sized_buffer m)

unfoldable pub response_field : FieldReader MsgUpdateParamsResponse
response_field total field_num wire_type bytes m = none

unfoldable pub response_unmarshal :
    List ℕ → MsgUpdateParamsResponse → Decoded MsgUpdateParamsResponse
response_unmarshal = unmarshal "MsgUpdateParamsResponse" response_field

-- `encodeVarintTx`, `sovTx` and `skipTx`: the copies of this file.
encode_varint_tx : List ℕ → ℕ → ℕ → Option (List ℕ × ℕ)
encode_varint_tx = encode_varint

sov_tx : ℕ → ℕ
sov_tx = sov

skip_tx : List ℕ → Decoded ℕ
skip_tx = skip
