-- ===== src/Wire/Query.antt =====
-- x/bps/types/query.pb.go: the empty request of the parameters, and the response that holds them.
pub mod RoundTrip
use base_protocol_system.Base.{ℕ, ◌+◌, Option, none, some, List, length, ◌==◌, if◌then◌else◌}
use base_protocol_system.Wire.Error.{Decoded, ok, ◌>>=◌}
use base_protocol_system.Wire.Varint.{sov, encode_varint}
use base_protocol_system.Wire.Skip.{skip}
use base_protocol_system.Wire.Message.{
  FieldReader, unmarshal, marshal, marshal_to, marshal_to, read_delimited, write_message, finish,
}
use base_protocol_system.Wire.Params.{
  Params, params_size, params_marshal_to_sized_buffer, params_unmarshal,
}

pub data QueryParamsRequest : Type 0 where
  request : QueryParamsRequest

pub record QueryParamsResponse : Type 0 where
  pub found_params : Params

pub request_size : QueryParamsRequest → ℕ
request_size m = 0

pub request_marshal_to_sized_buffer : QueryParamsRequest → List ℕ → Option (List ℕ × ℕ)
request_marshal_to_sized_buffer m buffer = some (buffer, 0)

pub request_marshal : QueryParamsRequest → Option (List ℕ)
request_marshal m = marshal (request_size m) (request_marshal_to_sized_buffer m)

pub request_marshal_to : QueryParamsRequest → List ℕ → Option (List ℕ × ℕ)
request_marshal_to m = marshal_to (request_size m) (request_marshal_to_sized_buffer m)

unfoldable pub request_field : FieldReader QueryParamsRequest
request_field total field_num wire_type bytes m = none

unfoldable pub request_unmarshal : List ℕ → QueryParamsRequest → Decoded QueryParamsRequest
request_unmarshal = unmarshal "QueryParamsRequest" request_field

pub found_size : QueryParamsResponse → ℕ
found_size m = let l = params_size m.found_params in 1 + l + sov l

pub found_marshal_to_sized_buffer : QueryParamsResponse → List ℕ → Option (List ℕ × ℕ)
found_marshal_to_sized_buffer m buffer =
    finish buffer
      (write_message 0xa (params_marshal_to_sized_buffer m.found_params) buffer (length buffer))

pub found_marshal : QueryParamsResponse → Option (List ℕ)
found_marshal m = marshal (found_size m) (found_marshal_to_sized_buffer m)

pub found_marshal_to : QueryParamsResponse → List ℕ → Option (List ℕ × ℕ)
found_marshal_to m = marshal_to (found_size m) (found_marshal_to_sized_buffer m)

unfoldable pub found_field : FieldReader QueryParamsResponse
found_field total field_num wire_type bytes m =
    if field_num == 1
    then some (do
      (sub, rest) ← read_delimited "Params" total wire_type bytes
      p ← params_unmarshal sub m.found_params
      ok (record m { found_params = p }, rest))
    else none

unfoldable pub found_unmarshal : List ℕ → QueryParamsResponse → Decoded QueryParamsResponse
found_unmarshal = unmarshal "QueryParamsResponse" found_field

-- `encodeVarintQuery`, `sovQuery` and `skipQuery`: the copies of this file.
encode_varint_query : List ℕ → ℕ → ℕ → Option (List ℕ × ℕ)
encode_varint_query = encode_varint

sov_query : ℕ → ℕ
sov_query = sov

skip_query : List ℕ → Decoded ℕ
skip_query = skip
