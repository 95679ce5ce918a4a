-- ===== src/Wire/Module.antt =====
-- x/bps/types/module.pb.go: the module's configuration, with its authority as field 1. A Go string is
-- the list of its bytes.
pub mod RoundTrip
use base_protocol_system.Base.{
  ℕ, zero, suc, ◌+◌, ◌-◌, Option, none, some, List, [], ◌∷◌, length, String, ◌==◌, if◌then◌else◌,
}
use base_protocol_system.Wire.Error.{Decoded, ok, ◌>>=◌}
use base_protocol_system.Wire.Varint.{sov, encode_varint}
use base_protocol_system.Wire.Skip.{skip}
use base_protocol_system.Wire.Message.{
  FieldReader, unmarshal, marshal, marshal_to, read_delimited, write_message, write_string, finish,
  string_size,
}
use base_protocol_system.Wire.Params.{
  Params, params, params_size, params_marshal_to_sized_buffer, params_unmarshal,
}
use mathlib.Core.Option

pub record Module : Type 0 where
  pub config_authority : List ℕ

unfoldable pub module_size : Module → ℕ
module_size m = string_size m.config_authority

pub module_marshal_to_sized_buffer : Module → List ℕ → Option (List ℕ × ℕ)
module_marshal_to_sized_buffer m buffer =
    finish buffer (write_string 0xa m.config_authority buffer (length buffer))

pub module_marshal : Module → Option (List ℕ)
module_marshal m = marshal (module_size m) (module_marshal_to_sized_buffer m)

pub module_marshal_to : Module → List ℕ → Option (List ℕ × ℕ)
module_marshal_to m = marshal_to (module_size m) (module_marshal_to_sized_buffer m)

unfoldable pub module_field : FieldReader Module
module_field total field_num wire_type bytes m =
    if field_num == 1
    then some (do
      (text, rest) ← read_delimited "Authority" total wire_type bytes
      ok (record m { config_authority = text }, rest))
    else none

unfoldable pub module_unmarshal : List ℕ → Module → Decoded Module
module_unmarshal = unmarshal "Module" module_field

-- `encodeVarintModule`, `sovModule` and `skipModule`: the copies of this file.
encode_varint_module : List ℕ → ℕ → ℕ → Option (List ℕ × ℕ)
encode_varint_module = encode_varint

sov_module : ℕ → ℕ
sov_module = sov

skip_module : List ℕ → Decoded ℕ
skip_module = skip
