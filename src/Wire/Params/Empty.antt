-- ===== src/Wire/Params/Empty.antt =====
-- The parameters, which have no bytes.
use base_protocol_system.Base.{◌≡◌, refl, ◌∙◌, []}
use base_protocol_system.Wire.Error.{ok}
use base_protocol_system.Wire.Message.Read.{unmarshal_lem, unmarshal_loop-end}
use base_protocol_system.Wire.Params.{Params, params, params_field, params_unmarshal}

pub no_params_read : (m : Params) → params_unmarshal [] m ≡ ok m
unfolding params_unmarshal
no_params_read m =
    unmarshal_lem "Params" params_field [] m ∙ unmarshal_loop-end "Params" params_field 0 0 m

pub only_params : (p q : Params) → p ≡ q
only_params params params = refl
