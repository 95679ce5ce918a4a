-- ===== src/Wire/Params.antt =====
-- x/bps/types/params.pb.go: a message with no field.
pub mod Empty
use base_protocol_system.Base.{Bool, true, false, ℕ, Option, none, some, List}
use base_protocol_system.Wire.Error.{Decoded}
use base_protocol_system.Wire.Message.{FieldReader, unmarshal, marshal, marshal_to}

pub data Params : Type 0 where
  params : Params

unfoldable pub params_size : Params → ℕ
params_size m = 0

-- `MarshalToSizedBuffer`: the buffer, and how many of its last bytes the message takes.
unfoldable pub params_marshal_to_sized_buffer : Params → List ℕ → Option (List ℕ × ℕ)
params_marshal_to_sized_buffer m buffer = some (buffer, 0)

pub params_marshal : Params → Option (List ℕ)
params_marshal m = marshal (params_size m) (params_marshal_to_sized_buffer m)

pub params_marshal_to : Params → List ℕ → Option (List ℕ × ℕ)
params_marshal_to m = marshal_to (params_size m) (params_marshal_to_sized_buffer m)

unfoldable pub params_field : FieldReader Params
params_field total field_num wire_type bytes m = none

unfoldable pub params_unmarshal : List ℕ → Params → Decoded Params
params_unmarshal = unmarshal "Params" params_field

-- `Equal`: its receiver may be nil (`none`), and its argument is nil, a `Params` or a pointer to
-- one, or a value of another type.
data Other : Type 0 where
  nil not_params : Other
  other_params : Params → Other

params_equal : Option Params → Other → Bool
params_equal none nil = true
params_equal (some _) nil = false
params_equal m not_params = false
params_equal none (other_params _) = false
params_equal (some _) (other_params _) = true
