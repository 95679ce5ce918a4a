-- ===== src/Wire/Forward.antt =====
-- Messages of x/bps/types with fields that a later version may have added.
use base_protocol_system.Base.{
  ℕ, ◌^◌, ◌≤◌, ◌<◌, ◌≡◌, refl, ap, All, none, List, [], ◌∷◌, ◌++◌, length, length-append, String,
  arith, Bool, true, false, ◌==◌, if◌then◌else◌, Option, some,
}
use mathlib.Core.List.{append_assoc}
use base_protocol_system.Wire.Error.{Decoded, ◌>>=◌}
use base_protocol_system.Wire.Skip.Values.{Field, field_bytes, IsField, wire_type}
use base_protocol_system.Wire.Message.{FieldReader, unmarshal, read_delimited, unmarshal_loop}
use base_protocol_system.Wire.Message.Read.{unmarshal_lem}
use base_protocol_system.Wire.Message.Ends.{NeverStuck, read_delimited-shorter}
use base_protocol_system.Wire.Message.Unknown.{length-field_bytes, unmarshal_loop-unknown}
use base_protocol_system.Wire.Message.Agrees.{
  Agrees, Agrees-refl, Agrees-trans, then_Agrees, AgreesO,
}
use base_protocol_system.Wire.Message.Buffers.{
  TotalFree, unmarshal_loop-Agrees, read_delimited-Agrees,
}
use base_protocol_system.Wire.Ends.{
  no_case, genesis_field-NeverStuck, found_field-NeverStuck, module_field-NeverStuck,
  msg_field-NeverStuck,
}
use base_protocol_system.Wire.Tx.RoundTrip.{as_suc}
use base_protocol_system.Wire.Params.{Params, params_field, params_unmarshal}
use base_protocol_system.Wire.Genesis.{GenesisState, genesis_field, genesis_unmarshal}
use base_protocol_system.Wire.Module.{Module, module_field, module_unmarshal}
use base_protocol_system.Wire.Query.{
  QueryParamsRequest, QueryParamsResponse, request_field, request_unmarshal, found_field,
  found_unmarshal,
}
use base_protocol_system.Wire.Tx.{
  MsgUpdateParams, MsgUpdateParamsResponse, msg_field, msg_unmarshal, response_field,
  response_unmarshal,
}

-- Fields one after the other.
unfoldable pub fields_bytes : List Field → List ℕ
fields_bytes [] = []
fields_bytes (f ∷ fs) = field_bytes f ++ fields_bytes fs

module _ {M : Type 0} (name : String) (field : FieldReader M) (free : TotalFree field)
    (never : NeverStuck field) where
  one_field :
      (f : Field) (rest : List ℕ) (m : M)
      → IsField f
      → ((t : ℕ) (more : List ℕ) → field t f.number (wire_type f.value) more m ≡ none)
      → length (field_bytes f ++ rest) < 2 ^ 63
      → Agrees (unmarshal name field (field_bytes f ++ rest) m) (unmarshal name field rest m)
  one_field f rest m h unknown fits =
      let total = length (field_bytes f ++ rest) in
      let sum = length-append (field_bytes f) rest in
      let some_bytes = length-field_bytes f in
      let (fuel, e) = as_suc total (omega (arith, sum, some_bytes)) in
      let first = unmarshal_lem name field (field_bytes f ++ rest) m in
      let round = ap (λ n. unmarshal_loop name field total n (field_bytes f ++ rest) m) e in
      let next =
        unmarshal_loop-unknown name field fuel total f rest m h (unknown total) fits
          (omega arith) in
      let tail =
        unmarshal_loop-Agrees total (length rest) fits (omega (arith, sum, fits)) name field free
          never fuel (length rest) rest m (omega (arith, sum, some_bytes, e)) (omega arith)
          (omega (arith, sum)) (omega arith) in
      rw (first, round, next, unmarshal_lem name field rest m) tail

  -- Of fields that it does not know, in front of others, an Unmarshal reads nothing.
  unknown_fields :
      (fs : List Field) (rest : List ℕ) (m : M)
      → All (λ f. IsField f × (3 ≤ f.number)) fs
      → ((f : Field) (t : ℕ) (more : List ℕ)
          → 3 ≤ f.number
          → field t f.number (wire_type f.value) more m ≡ none)
      → length (fields_bytes fs ++ rest) < 2 ^ 63
      → Agrees (unmarshal name field (fields_bytes fs ++ rest) m) (unmarshal name field rest m)
  unfolding fields_bytes
  unknown_fields [] rest m h unknown fits = Agrees-refl (unmarshal name field rest m)
  unknown_fields (f ∷ fs) rest m ((is_field, large), h) unknown fits =
      let others = fields_bytes fs ++ rest in
      let apart : (field_bytes f ++ fields_bytes fs) ++ rest ≡ field_bytes f ++ others =
        append_assoc (field_bytes f) (fields_bytes fs) rest in
      let sizes = ap length apart in
      let sum = length-append (field_bytes f) others in
      rw (apart) (
        Agrees-trans (unmarshal name field (field_bytes f ++ others) m)
          (unmarshal name field others m) (unmarshal name field rest m)
          (one_field f others m is_field (λ t more. unknown f t more large)
            (omega (arith, sizes, fits)))
          (unknown_fields fs rest m h unknown (omega (arith, sizes, sum, fits))))

-- `case n:` in front of the other cases, for two totals.
case_Agrees :
    {A : Type 0} (b : Bool) (d e : Decoded A) (r r' : Option (Decoded A))
    → Agrees d e
    → AgreesO r r'
    → AgreesO (if b then some d else r) (if b then some e else r')
case_Agrees true d e r r' same others = same
case_Agrees false d e r r' same others = others

-- A case that reads a string or a message, whatever it does with what it read.
delimited_case :
    {A : Type 0} (name : String) (t t' wire_type : ℕ) (bytes : List ℕ)
    (put : List ℕ × List ℕ → Decoded A)
    → length bytes ≤ t
    → length bytes ≤ t'
    → t < 2 ^ 63
    → t' < 2 ^ 63
    → Agrees
        (read_delimited name t wire_type bytes >>= put)
        (read_delimited name t' wire_type bytes >>= put)
delimited_case name t t' wire_type bytes put h h' fits fits' =
    then_Agrees (λ r. (length r.0 ≤ length bytes) × (length r.1 < length bytes))
      (read_delimited name t wire_type bytes) (read_delimited name t' wire_type bytes) put put
      (read_delimited-shorter name t wire_type bytes)
      (read_delimited-Agrees t t' fits fits' name wire_type bytes h h') λ r _. Agrees-refl (put r)

genesis_field-TotalFree : TotalFree genesis_field
unfolding genesis_field
genesis_field-TotalFree t t' number wire_type bytes m h h' fits fits' =
    case_Agrees (number == 1) _ _ none none
      (delimited_case "Params" t t' wire_type bytes _ h h' fits fits') tt

found_field-TotalFree : TotalFree found_field
unfolding found_field
found_field-TotalFree t t' number wire_type bytes m h h' fits fits' =
    case_Agrees (number == 1) _ _ none none
      (delimited_case "Params" t t' wire_type bytes _ h h' fits fits') tt

module_field-TotalFree : TotalFree module_field
unfolding module_field
module_field-TotalFree t t' number wire_type bytes m h h' fits fits' =
    case_Agrees (number == 1) _ _ none none
      (delimited_case "Authority" t t' wire_type bytes _ h h' fits fits') tt

msg_field-TotalFree : TotalFree msg_field
unfolding msg_field
msg_field-TotalFree t t' number wire_type bytes m h h' fits fits' =
    case_Agrees (number == 1) _ _ _ _
      (delimited_case "Authority" t t' wire_type bytes _ h h' fits fits')
      (case_Agrees (number == 2) _ _ none none
        (delimited_case "Params" t t' wire_type bytes _ h h' fits fits') tt)

-- Fields of numbers from 3 on, of varints, of four or eight bytes or of a length and its bytes, that
-- stand in front of a message change nothing for the Unmarshal of any message, where the whole fits
-- an int: it gives the same message, or an error in both cases.
pub unmarshal-fields :
    (fs : List Field) (bytes : List ℕ)
    → All (λ f. IsField f × (3 ≤ f.number)) fs
    → length (fields_bytes fs ++ bytes) < 2 ^ 63
    → ((m : MsgUpdateParams)
        → Agrees (msg_unmarshal (fields_bytes fs ++ bytes) m) (msg_unmarshal bytes m))
      × ((m : MsgUpdateParamsResponse)
          → Agrees (response_unmarshal (fields_bytes fs ++ bytes) m) (response_unmarshal bytes m))
      × ((m : QueryParamsRequest)
          → Agrees (request_unmarshal (fields_bytes fs ++ bytes) m) (request_unmarshal bytes m))
      × ((m : QueryParamsResponse)
          → Agrees (found_unmarshal (fields_bytes fs ++ bytes) m) (found_unmarshal bytes m))
      × ((m : GenesisState)
          → Agrees (genesis_unmarshal (fields_bytes fs ++ bytes) m) (genesis_unmarshal bytes m))
      × ((m : Module)
          → Agrees (module_unmarshal (fields_bytes fs ++ bytes) m) (module_unmarshal bytes m))
      × ((m : Params)
          → Agrees (params_unmarshal (fields_bytes fs ++ bytes) m) (params_unmarshal bytes m))
unfolding msg_unmarshal response_unmarshal request_unmarshal found_unmarshal genesis_unmarshal
    module_unmarshal params_unmarshal msg_field response_field request_field found_field
    genesis_field module_field params_field
unmarshal-fields fs bytes h fits = (
  λ m.
      unknown_fields "MsgUpdateParams" msg_field msg_field-TotalFree msg_field-NeverStuck fs bytes m
        h (λ f t more large. ground arith) fits,
  λ m.
      unknown_fields "MsgUpdateParamsResponse" response_field (λ t t' n w b m h h' k k'. tt)
        (no_case response_field (λ t n w b m. refl)) fs bytes m h (λ f t more large. refl) fits,
  λ m.
      unknown_fields "QueryParamsRequest" request_field (λ t t' n w b m h h' k k'. tt)
        (no_case request_field (λ t n w b m. refl)) fs bytes m h (λ f t more large. refl) fits,
  λ m.
      unknown_fields "QueryParamsResponse" found_field found_field-TotalFree found_field-NeverStuck
        fs bytes m h (λ f t more large. ground arith) fits,
  λ m.
      unknown_fields "GenesisState" genesis_field genesis_field-TotalFree genesis_field-NeverStuck
        fs bytes m h (λ f t more large. ground arith) fits,
  λ m.
      unknown_fields "Module" module_field module_field-TotalFree module_field-NeverStuck fs bytes m
        h (λ f t more large. ground arith) fits,
  λ m.
      unknown_fields "Params" params_field (λ t t' n w b m h h' k k'. tt)
        (no_case params_field (λ t n w b m. refl)) fs bytes m h (λ f t more large. refl) fits,
)
