-- ===== src/Wire/Ends.antt =====
-- `Unmarshal` of every message of x/bps/types ends.
use base_protocol_system.Base.{
  ℕ, ◌^◌, ◌≤◌, ◌<◌, ◌≡◌, refl, ◌≢◌, ◌==◌, Bool, true, false, Option, none, some, List, length,
  String, arith, if◌then◌else◌,
}
use base_protocol_system.Wire.Error.{Decoded, ok, stuck, ◌>>=◌}
use base_protocol_system.Wire.Skip.Moves.{Gives, then_Gives}
use base_protocol_system.Wire.Message.{FieldReader, read_delimited, unmarshal}
use base_protocol_system.Wire.Message.Ends.{
  NeverStuck, Gives-not_stuck, read_delimited-shorter, unmarshal-Gives,
}
use base_protocol_system.Wire.Params.{Params, params_field, params_unmarshal}
use base_protocol_system.Wire.Genesis.{GenesisState, genesis_field, genesis_unmarshal}
use base_protocol_system.Wire.Module.{Module, module_field, module_unmarshal}
use base_protocol_system.Wire.Query.{
  QueryParamsRequest, QueryParamsResponse, request_field, request_unmarshal, found_field,
  found_unmarshal,
}
use base_protocol_system.Wire.Tx.{
  MsgUpdateParams, MsgUpdateParamsResponse, msg_field, msg_unmarshal, response_field,
  response_unmarshal,
}

-- A `switch` with no case.
pub no_case :
    {M : Type 0} (field : FieldReader M)
    → ((t n w : ℕ) (b : List ℕ) (m : M) → field t n w b m ≡ none)
    → NeverStuck field
no_case field empty total number wire_type bytes m r fits e =
    absurd (let n = empty total number wire_type bytes m in cc)

params-Gives :
    (bytes : List ℕ) (m : Params)
    → length bytes < 2 ^ 63
    → Gives (λ _. Unit {0}) (params_unmarshal bytes m)
unfolding params_unmarshal params_field
params-Gives = unmarshal-Gives "Params" params_field (no_case params_field (λ t n w b m. refl))

-- A case that reads a string, and one that reads the parameters.
text_case :
    {M : Type 0} (name : String) (put : List ℕ → M) (total wire_type : ℕ) (bytes : List ℕ)
    → Gives
        (λ (p : M × List ℕ). length p.1 ≤ length bytes)
        (read_delimited name total wire_type bytes >>= λ (text, rest). ok (put text, rest))
text_case {M} name put total wire_type bytes =
    then_Gives (λ r. (length r.0 ≤ length bytes) × (length r.1 < length bytes))
      (λ (p : M × List ℕ). length p.1 ≤ length bytes) (read_delimited name total wire_type bytes) _
      (read_delimited-shorter name total wire_type bytes)
      λ (text, rest) (small, shorter). omega (arith, shorter)

params_case :
    {M : Type 0} (old : Params) (put : Params → M) (total wire_type : ℕ) (bytes : List ℕ)
    → length bytes < 2 ^ 63
    → Gives
        (λ (p : M × List ℕ). length p.1 ≤ length bytes)
        (read_delimited "Params" total wire_type bytes >>= λ (sub, rest).
          params_unmarshal sub old >>= λ q. ok (put q, rest))
params_case {M} old put total wire_type bytes fits =
    let P : M × List ℕ → Type 0 = λ p. length p.1 ≤ length bytes in
    then_Gives (λ r. (length r.0 ≤ length bytes) × (length r.1 < length bytes)) P
      (read_delimited "Params" total wire_type bytes) _
      (read_delimited-shorter "Params" total wire_type bytes)
      λ (sub, rest) (small, shorter).
        then_Gives (λ _. Unit {0}) P (params_unmarshal sub old) _
          (params-Gives sub old (omega (arith, small))) λ q done. omega (arith, shorter)

-- `case n:` in front of the other cases.
case_or :
    {A : Type 0} (P : A → Type 0) (b : Bool) (d r : Decoded A) (others : Option (Decoded A))
    → (if b then some d else others) ≡ some r
    → Gives P d
    → (others ≡ some r → Gives P r)
    → Gives P r
case_or P true d r others e p q = let same : d ≡ r = cc in rw same at p
case_or P false d r others e p q = q e

no_more : {A : Type 0} (P : A → Type 0) (r : Decoded A) → none ≡ some r → Gives P r
no_more P r e = absurd (cc)

pub genesis_field-NeverStuck : NeverStuck genesis_field
unfolding genesis_field
genesis_field-NeverStuck total number wire_type bytes m r fits e =
    let P : GenesisState × List ℕ → Type 0 = λ p. length p.1 ≤ length bytes in
    case_or P (number == 1) _ r none e
      (params_case m.state_params (λ q. record m { state_params = q }) total wire_type bytes fits)
      (no_more P r)

pub found_field-NeverStuck : NeverStuck found_field
unfolding found_field
found_field-NeverStuck total number wire_type bytes m r fits e =
    let P : QueryParamsResponse × List ℕ → Type 0 = λ p. length p.1 ≤ length bytes in
    case_or P (number == 1) _ r none e
      (params_case m.found_params (λ q. record m { found_params = q }) total wire_type bytes fits)
      (no_more P r)

pub module_field-NeverStuck : NeverStuck module_field
unfolding module_field
module_field-NeverStuck total number wire_type bytes m r fits e =
    let P : Module × List ℕ → Type 0 = λ p. length p.1 ≤ length bytes in
    case_or P (number == 1) _ r none e
      (text_case "Authority" (λ text. record m { config_authority = text }) total wire_type bytes)
      (no_more P r)

pub msg_field-NeverStuck : NeverStuck msg_field
unfolding msg_field
msg_field-NeverStuck total number wire_type bytes m r fits e =
    let P : MsgUpdateParams × List ℕ → Type 0 = λ p. length p.1 ≤ length bytes in
    let text =
      text_case "Authority" (λ text. record m { authority = text }) total wire_type bytes in
    let sub =
      params_case m.new_params (λ q. record m { new_params = q }) total wire_type bytes fits in
    case_or P (number == 1) _ r _ e text λ e'. case_or P (number == 2) _ r none e' sub (no_more P r)

ends :
    {M : Type 0} (name : String) (field : FieldReader M) (never : NeverStuck field) (bytes : List ℕ)
    (m : M)
    → length bytes < 2 ^ 63
    → unmarshal name field bytes m ≢ stuck
ends name field never bytes m h =
    Gives-not_stuck (λ _. Unit {0}) (unmarshal name field bytes m)
      (unmarshal-Gives name field never bytes m h)

-- `Unmarshal` of every message returns a message or an error, whatever the bytes, where their number
-- fits an int: the rounds that the loops are given are enough.
pub unmarshal_ends :
    (bytes : List ℕ)
    → length bytes < 2 ^ 63
    → ((m : MsgUpdateParams) → msg_unmarshal bytes m ≢ stuck)
      × ((m : MsgUpdateParamsResponse) → response_unmarshal bytes m ≢ stuck)
      × ((m : QueryParamsRequest) → request_unmarshal bytes m ≢ stuck)
      × ((m : QueryParamsResponse) → found_unmarshal bytes m ≢ stuck)
      × ((m : GenesisState) → genesis_unmarshal bytes m ≢ stuck)
      × ((m : Module) → module_unmarshal bytes m ≢ stuck)
      × ((m : Params) → params_unmarshal bytes m ≢ stuck)
unfolding msg_unmarshal response_unmarshal request_unmarshal found_unmarshal genesis_unmarshal
    module_unmarshal response_field request_field
unmarshal_ends bytes h = (
  λ m. ends "MsgUpdateParams" msg_field msg_field-NeverStuck bytes m h,
  λ m.
      ends "MsgUpdateParamsResponse" response_field (no_case response_field (λ t n w b m'. refl))
        bytes m h,
  λ m.
      ends "QueryParamsRequest" request_field (no_case request_field (λ t n w b m'. refl)) bytes m
        h,
  λ m. ends "QueryParamsResponse" found_field found_field-NeverStuck bytes m h,
  λ m. ends "GenesisState" genesis_field genesis_field-NeverStuck bytes m h,
  λ m. ends "Module" module_field module_field-NeverStuck bytes m h,
  λ m. Gives-not_stuck (λ _. Unit {0}) _ (params-Gives bytes m h),
)
