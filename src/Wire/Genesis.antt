-- ===== src/Wire/Genesis.antt =====
-- x/bps/types/genesis.pb.go: the genesis state, with the parameters as field 1.
use base_protocol_system.Base.{ℕ, ◌+◌, Option, none, some, List, length, ◌==◌, if◌then◌else◌}
use base_protocol_system.Wire.Error.{Decoded, ok, ◌>>=◌}
use base_protocol_system.Wire.Varint.{sov, encode_varint}
use base_protocol_system.Wire.Skip.{skip}
use base_protocol_system.Wire.Message.{
  FieldReader, unmarshal, marshal, marshal_to, read_delimited, write_message, finish,
}
use base_protocol_system.Wire.Params.{
  Params, params_size, params_marshal_to_sized_buffer, params_unmarshal,
}

pub record GenesisState : Type 0 where
  pub state_params : Params

pub genesis_size : GenesisState → ℕ
genesis_size m = let l = params_size m.state_params in 1 + l + sov l

pub genesis_marshal_to_sized_buffer : GenesisState → List ℕ → Option (List ℕ × ℕ)
genesis_marshal_to_sized_buffer m buffer =
    finish buffer
      (write_message 0xa (params_marshal_to_sized_buffer m.state_params) buffer (length buffer))

pub genesis_marshal : GenesisState → Option (List ℕ)
genesis_marshal m = marshal (genesis_size m) (genesis_marshal_to_sized_buffer m)

pub genesis_marshal_to : GenesisState → List ℕ → Option (List ℕ × ℕ)
genesis_marshal_to m = marshal_to (genesis_size m) (genesis_marshal_to_sized_buffer m)

unfoldable pub genesis_field : FieldReader GenesisState
genesis_field total field_num wire_type bytes m =
    if field_num == 1
    then some (do
      (sub, rest) ← read_delimited "Params" total wire_type bytes
      p ← params_unmarshal sub m.state_params
      ok (record m { state_params = p }, rest))
    else none

unfoldable pub genesis_unmarshal : List ℕ → GenesisState → Decoded GenesisState
genesis_unmarshal = unmarshal "GenesisState" genesis_field

-- `encodeVarintGenesis`, `sovGenesis` and `skipGenesis`: the copies of this file.
encode_varint_genesis : List ℕ → ℕ → ℕ → Option (List ℕ × ℕ)
encode_varint_genesis = encode_varint

sov_genesis : ℕ → ℕ
sov_genesis = sov

skip_genesis : List ℕ → Decoded ℕ
skip_genesis = skip
