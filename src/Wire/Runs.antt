-- ===== src/Wire/Runs.antt =====
-- Small buffers written and read, and the theorems of these modules at concrete inputs.
use base_protocol_system.Base.{
  ℕ, All, ◌≡◌, refl, ◌<◌, ◌≤◌, ◌^◌, ◌++◌, List, [], ◌∷◌, some, length, arith,
}
use base_protocol_system.Base.{◌≢◌}
use base_protocol_system.Wire.Error.{stuck, ok}
use base_protocol_system.Wire.Varint.{sov, bit_length}
use base_protocol_system.Wire.Varint.Format.{varint_bytes, sov-eq-length}
use base_protocol_system.Wire.Ends.{unmarshal_ends}
use base_protocol_system.Wire.Genesis.{GenesisState, genesis_unmarshal}
use base_protocol_system.Wire.Query.{
  QueryParamsRequest, QueryParamsResponse, request_unmarshal, found_unmarshal,
}
use base_protocol_system.Wire.Message.{string_size}
use base_protocol_system.Wire.Skip.Values.{Field, varint, fixed64, delimited, fixed32, IsField}
use base_protocol_system.Wire.Message.Agrees.{Agrees}
use base_protocol_system.Wire.Forward.{fields_bytes, unmarshal-fields}
use base_protocol_system.Wire.Params.{Params, params, params_size, params_unmarshal}
use base_protocol_system.Wire.Module.{Module, module_size, module_marshal, module_unmarshal}
use base_protocol_system.Wire.Module.RoundTrip.{module_unmarshal-module_marshal}
use base_protocol_system.Wire.Tx.{
  MsgUpdateParams, MsgUpdateParamsResponse, msg_size, msg_marshal, msg_unmarshal,
  response_unmarshal,
}
use base_protocol_system.Wire.Tx.RoundTrip.{msg_unmarshal-msg_marshal}

sov-eq-length_example : sov 300 ≡ length (varint_bytes 9 300)
sov-eq-length_example = sov-eq-length 300 (omega arith)

four_bytes : 4 ≡ string_size (65 ∷ 66 ∷ [])
unfolding sov bit_length
four_bytes = refl

abbrev config : Module
config = record { config_authority = 65 ∷ 66 ∷ [] }

config_fits : module_size config < 2 ^ 63
unfolding module_size sov bit_length
config_fits = omega arith

module_unmarshal-module_marshal_example :
    (bytes : List ℕ) × (module_marshal config ≡ some bytes)
    × (length bytes ≡ module_size config)
    × (module_unmarshal bytes (record { config_authority = [] }) ≡ ok config)
module_unmarshal-module_marshal_example = module_unmarshal-module_marshal config config_fits

abbrev update : MsgUpdateParams
update = record { authority = 65 ∷ 66 ∷ []; new_params = params }

update_fits : msg_size update < 2 ^ 63
unfolding msg_size params_size sov bit_length
update_fits = omega arith

msg_unmarshal-msg_marshal_example :
    (bytes : List ℕ) × (msg_marshal update ≡ some bytes)
    × (length bytes ≡ msg_size update)
    × (msg_unmarshal bytes (record { authority = []; new_params = params }) ≡ ok update)
msg_unmarshal-msg_marshal_example = msg_unmarshal-msg_marshal update update_fits

-- A varint field and a byte of the next field, which has no end.
abbrev unended : List ℕ
unended = 24 ∷ 150 ∷ 1 ∷ 135 ∷ []

unmarshal_ends_example :
    ((m : MsgUpdateParams) → msg_unmarshal unended m ≢ stuck)
    × ((m : MsgUpdateParamsResponse) → response_unmarshal unended m ≢ stuck)
    × ((m : QueryParamsRequest) → request_unmarshal unended m ≢ stuck)
    × ((m : QueryParamsResponse) → found_unmarshal unended m ≢ stuck)
    × ((m : GenesisState) → genesis_unmarshal unended m ≢ stuck)
    × ((m : Module) → module_unmarshal unended m ≢ stuck)
    × ((m : Params) → params_unmarshal unended m ≢ stuck)
unmarshal_ends_example = unmarshal_ends unended (omega arith)

-- A varint, eight bytes, four bytes, and a length with two bytes.
abbrev later_fields : List Field
later_fields =
    (record { number = 3; value = varint 300 })
    ∷ (record { number = 16; value = fixed64 (1 ∷ 2 ∷ 3 ∷ 4 ∷ 5 ∷ 6 ∷ 7 ∷ 8 ∷ []) })
    ∷ (record { number = 4; value = fixed32 (1 ∷ 2 ∷ 3 ∷ 4 ∷ []) })
    ∷ (record { number = 5; value = delimited (10 ∷ 11 ∷ []) })
    ∷ []

later_fields-IsField : All (λ f. IsField f × (3 ≤ f.number)) later_fields
later_fields-IsField = (
  ((omega arith, omega arith, omega arith), omega arith),
  (
    ((omega arith, omega arith, refl), omega arith),
    (
      ((omega arith, omega arith, refl), omega arith),
      (((omega arith, omega arith, omega arith), omega arith), tt),
    ),
  ),
)

-- An authority of one byte.
abbrev behind : List ℕ
behind = 10 ∷ 1 ∷ 65 ∷ []

later_fit : length (fields_bytes later_fields ++ behind) < 2 ^ 63
unfolding fields_bytes varint_bytes
later_fit = omega arith

unmarshal-fields_example :
    ((m : MsgUpdateParams)
      → Agrees (msg_unmarshal (fields_bytes later_fields ++ behind) m) (msg_unmarshal behind m))
    × ((m : MsgUpdateParamsResponse)
        → Agrees
            (response_unmarshal (fields_bytes later_fields ++ behind) m)
            (response_unmarshal behind m))
    × ((m : QueryParamsRequest)
        → Agrees
            (request_unmarshal (fields_bytes later_fields ++ behind) m)
            (request_unmarshal behind m))
    × ((m : QueryParamsResponse)
        → Agrees
            (found_unmarshal (fields_bytes later_fields ++ behind) m)
            (found_unmarshal behind m))
    × ((m : GenesisState)
        → Agrees
            (genesis_unmarshal (fields_bytes later_fields ++ behind) m)
            (genesis_unmarshal behind m))
    × ((m : Module)
        → Agrees
            (module_unmarshal (fields_bytes later_fields ++ behind) m)
            (module_unmarshal behind m))
    × ((m : Params)
        → Agrees
            (params_unmarshal (fields_bytes later_fields ++ behind) m)
            (params_unmarshal behind m))
unmarshal-fields_example = unmarshal-fields later_fields behind later_fields-IsField later_fit
