-- ===== src/Wire/Message/Ends.antt =====
-- The loop of an `Unmarshal` ends: each round takes a byte at least, whatever the bytes.
use Prim.Native.Nat.{bit_and}
use base_protocol_system.Base.{
  ℕ, zero, suc, ◌-◌, ◌^◌, ◌≤◌, ◌<◌, ◌≡◌, ◌≢◌, ◌==◌, ◌||◌, some, List, [], ◌∷◌, length, take, drop,
  length-drop, length-take-le, String, inl, inr, Option-cases, arith, leb, ltb, if◌then◌else◌,
}
use base_protocol_system.Wire.Error.{
  Decoded, ok, err, stuck, unexpected_eof, invalid_length, end_group_for_non_group, illegal_tag,
  wrong_wire_type,
}
use base_protocol_system.Wire.Varint.{read_varint, read_loop}
use base_protocol_system.Wire.Skip.{skip, is_negative, add_int}
use base_protocol_system.Wire.Skip.Ends.{read_loop-Leaves}
use base_protocol_system.Wire.Skip.Moves.{
  Gives, then_Gives, if_Gives, guard_Gives, Leaves-Gives, skip-pos,
}
use base_protocol_system.Wire.Message.{
  FieldReader, skip_unknown, read_bytes, read_delimited, field_num, from_field, unmarshal_field,
  unmarshal_loop, unmarshal,
}

pub Gives-not_stuck : {A : Type 0} (P : A → Type 0) (d : Decoded A) → Gives P d → d ≢ stuck
Gives-not_stuck P (ok a) h e = absurd (cc)
Gives-not_stuck P (err x) h e = absurd (cc)
Gives-not_stuck P stuck h e = h

pub read_varint-shorter :
    (bytes : List ℕ) → Gives (λ r. length r.1 < length bytes) (read_varint bytes)
unfolding read_varint
read_varint-shorter bytes =
    Leaves-Gives (λ r. r.1) (length bytes) (read_loop 0 0 bytes) (read_loop-Leaves 0 0 bytes)

skip_unknown-shorter :
    (total : ℕ) (bytes : List ℕ)
    → 0 < length bytes
    → length bytes < 2 ^ 63
    → Gives (λ rest. length rest < length bytes) (skip_unknown total bytes)
unfolding skip_unknown
skip_unknown-shorter total bytes some_left fits =
    let P : List ℕ → Type 0 = λ rest. length rest < length bytes in
    then_Gives (λ n. 1 ≤ n) P (skip bytes) _ (skip-pos bytes fits)
      λ n h.
        let index = total - length bytes in
        let out = if ltb total (add_int index n) then err unexpected_eof else ok (drop n bytes) in
        guard_Gives P (is_negative n || is_negative (add_int index n)) invalid_length out (
          guard_Gives P (ltb total (add_int index n)) unexpected_eof (ok (drop n bytes))
            (omega (arith, length-drop n bytes)))

read_bytes-shorter :
    (total : ℕ) (bytes : List ℕ)
    → Gives
        (λ r. (length r.0 ≤ length bytes) × (length r.1 < length bytes))
        (read_bytes total bytes)
unfolding read_bytes
read_bytes-shorter total bytes =
    let P : List ℕ × List ℕ → Type 0 =
      λ r. (length r.0 ≤ length bytes) × (length r.1 < length bytes) in
    then_Gives (λ r. length r.1 < length bytes) P (read_varint bytes) _ (read_varint-shorter bytes)
      λ (n, rest) shorter.
        let index = add_int (total - length rest) n in
        let out : Decoded (List ℕ × List ℕ) = ok (take n rest, drop n rest) in
        let inside = if ltb total index then err unexpected_eof else out in
        let positive = if is_negative index then err invalid_length else inside in
        guard_Gives P (is_negative n) invalid_length positive (
          guard_Gives P (is_negative index) invalid_length inside (
            guard_Gives P (ltb total index) unexpected_eof out (
              omega (arith, length-take-le n rest, shorter),
              omega (arith, length-drop n rest, shorter),
            )))

-- The field of a string or of a message, and the bytes behind it.
pub read_delimited-shorter :
    (name : String) (total wire_type : ℕ) (bytes : List ℕ)
    → Gives
        (λ r. (length r.0 ≤ length bytes) × (length r.1 < length bytes))
        (read_delimited name total wire_type bytes)
unfolding read_delimited
read_delimited-shorter name total wire_type bytes =
    let P : List ℕ × List ℕ → Type 0 =
      λ r. (length r.0 ≤ length bytes) × (length r.1 < length bytes) in
    if_Gives P (wire_type == 2) (read_bytes total bytes) (err (wrong_wire_type wire_type name))
      (λ _. read_bytes-shorter total bytes) (λ _. tt)

-- A `switch` whose cases leave no more bytes than they are given.
abbrev pub NeverStuck : {M : Type 0} → FieldReader M → Type 0
NeverStuck {M} field =
    (total number wire_type : ℕ) (bytes : List ℕ) (m : M) (r : Decoded (M × List ℕ))
    → length bytes < 2 ^ 63
    → field total number wire_type bytes m ≡ some r
    → Gives (λ (p : M × List ℕ). length p.1 ≤ length bytes) r

module _ {M : Type 0} (name : String) (field : FieldReader M) (never : NeverStuck field)
    (total : ℕ) where
  from_field-shorter :
      (start rest : List ℕ) (m : M) (number wire_type : ℕ)
      → length start < 2 ^ 63
      → length rest < length start
      → Gives
          (λ (p : M × List ℕ). length p.1 < length start)
          (from_field name field total start m (field total number wire_type rest m))
  unfolding from_field
  from_field-shorter start rest m number wire_type fits shorter =
      elim (Option-cases (field total number wire_type rest m)) [
        | inl e ↦ rw (e) (
            then_Gives (λ rest'. length rest' < length start)
              (λ (p : M × List ℕ). length p.1 < length start) (skip_unknown total start) _
              (skip_unknown-shorter total start (omega arith) fits) (λ rest' h. h))
        | inr (r, e) ↦ rw (e) (weaker r (never total number wire_type rest m r (omega arith) e))
      ]
    where
      weaker :
          (r : Decoded (M × List ℕ))
          → Gives (λ (p : M × List ℕ). length p.1 ≤ length rest) r
          → Gives (λ (p : M × List ℕ). length p.1 < length start) r
      weaker (ok p) h = omega arith
      weaker (err e) h = tt
      weaker stuck h = h

  pub unmarshal_field-shorter :
      (bytes : List ℕ) (m : M)
      → length bytes < 2 ^ 63
      → Gives
          (λ (p : M × List ℕ). length p.1 < length bytes)
          (unmarshal_field name field total bytes m)
  unfolding unmarshal_field
  unmarshal_field-shorter bytes m fits =
      let P : M × List ℕ → Type 0 = λ p. length p.1 < length bytes in
      then_Gives (λ r. length r.1 < length bytes) P (read_varint bytes) _
        (read_varint-shorter bytes)
        λ (wire, rest) shorter.
          let number = field_num name field total wire in
          let wire_type = bit_and wire 0x7 in
          let read = from_field name field total bytes m (field total number wire_type rest m) in
          let named =
            if number == 0 || leb (2 ^ 31) number
            then err (illegal_tag name number wire)
            else read in
          guard_Gives P (wire_type == 4) (end_group_for_non_group name) named (
            guard_Gives P (number == 0 || leb (2 ^ 31) number) (illegal_tag name number wire) read
              (from_field-shorter bytes rest m number wire_type fits shorter))

  unmarshal_loop-Ends :
      (fuel : ℕ) (bytes : List ℕ) (m : M)
      → length bytes ≤ fuel
      → length bytes < 2 ^ 63
      → Gives (λ _. Unit {0}) (unmarshal_loop name field total fuel bytes m)
  unfolding unmarshal_loop
  unmarshal_loop-Ends fuel [] m enough fits = tt
  unmarshal_loop-Ends zero (b ∷ bytes) m enough fits = absurd (omega arith)
  unmarshal_loop-Ends (suc fuel) (b ∷ bytes) m enough fits =
      then_Gives (λ (p : M × List ℕ). length p.1 < length (b ∷ bytes)) (λ _. Unit {0})
        (unmarshal_field name field total (b ∷ bytes) m) _
        (unmarshal_field-shorter (b ∷ bytes) m fits)
        λ (m', rest) shorter.
          unmarshal_loop-Ends fuel rest m' (omega (arith, shorter, enough))
            (omega (arith, shorter, fits))

pub unmarshal-Gives :
    {M : Type 0} (name : String) (field : FieldReader M) (never : NeverStuck field) (bytes : List ℕ)
    (m : M)
    → length bytes < 2 ^ 63
    → Gives (λ _. Unit {0}) (unmarshal name field bytes m)
unfolding unmarshal
unmarshal-Gives name field never bytes m h =
    unmarshal_loop-Ends name field never (length bytes) (length bytes) bytes m (omega arith) h
