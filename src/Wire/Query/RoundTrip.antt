-- ===== src/Wire/Query/RoundTrip.antt =====
-- The bytes of the messages of x/bps/types/query.pb.go, written and read back.
use base_protocol_system.Base.{ℕ, ◌≡◌, refl, ap, ◌∙◌, List, [], ◌∷◌, some, arith}
use base_protocol_system.Wire.Error.{ok}
use base_protocol_system.Wire.Varint.Format.{varint_bytes}
use base_protocol_system.Wire.Message.{read_delimited, unmarshal_field, marshal}
use base_protocol_system.Wire.Message.Write.{marshal_empty_message}
use base_protocol_system.Wire.Message.Read.{
  read_delimited-append, unmarshal_field-some, unmarshal_loop-next, unmarshal_loop-end,
  unmarshal_lem, read_varint-small,
}
use base_protocol_system.Wire.Params.{params_size, params_marshal_to_sized_buffer}
use base_protocol_system.Wire.Params.Empty.{no_params_read, only_params}
use base_protocol_system.Wire.Query.{
  QueryParamsRequest, request_marshal, request_marshal_to_sized_buffer, request_size,
  QueryParamsResponse, found_size, found_field, found_marshal, found_marshal_to_sized_buffer,
  found_unmarshal,
}

pub request_marshal-nil : (r : QueryParamsRequest) → request_marshal r ≡ some []
unfolding request_marshal marshal request_size request_marshal_to_sized_buffer
request_marshal-nil r = refl

pub found_marshal-bytes : (m : QueryParamsResponse) → found_marshal m ≡ some (0xa ∷ 0 ∷ [])
unfolding found_marshal found_size found_marshal_to_sized_buffer params_size
    params_marshal_to_sized_buffer
found_marshal-bytes m = marshal_empty_message

found_read :
    (m : QueryParamsResponse)
    → unmarshal_field "QueryParamsResponse" found_field 2 (0xa ∷ 0 ∷ []) m ≡ ok (m, [])
unfolding found_field
found_read m =
    let zero_bytes : varint_bytes 9 0 ≡ 0 ∷ [] = unfold varint_bytes in refl in
    let read : read_delimited "Params" 2 2 (0 ∷ []) ≡ ok ([], []) =
      (rw (zero_bytes) at (read_delimited-append "Params" 2 [] [] (omega arith) (omega arith))) in
    unmarshal_field-some "QueryParamsResponse" found_field 2 0xa (0 ∷ []) m (ok (m, []))
      (read_varint-small 0xa (0 ∷ []) (omega arith)) refl refl
      (rw (read, no_params_read m.found_params) refl)

-- What `Marshal` writes of a response is read back by `Unmarshal`, into whatever response.
pub found_unmarshal-found_marshal :
    (m old : QueryParamsResponse)
    → (bytes : List ℕ) × (found_marshal m ≡ some bytes) × (found_unmarshal bytes old ≡ ok m)
unfolding found_unmarshal
found_unmarshal-found_marshal m old =
    let bytes : List ℕ = 0xa ∷ 0 ∷ [] in
    (
      bytes,
      found_marshal-bytes m,
      unmarshal_lem "QueryParamsResponse" found_field bytes old
          ∙ unmarshal_loop-next "QueryParamsResponse" found_field 2 1 0xa (0 ∷ []) [] old old
              (found_read old)
          ∙ unmarshal_loop-end "QueryParamsResponse" found_field 2 1 old
          ∙ ap (λ p. ok (record { found_params = p }))
              (only_params old.found_params m.found_params),
    )
