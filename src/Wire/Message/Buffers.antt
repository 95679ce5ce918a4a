-- ===== src/Wire/Message/Buffers.antt =====
-- The bytes in front of a message in its buffer, and spare rounds, change nothing but the kind of an
-- error.
use Prim.Native.Nat.{bit_and}
use base_protocol_system.Base.{
  ℕ, zero, suc, ◌-◌, ◌^◌, ◌≤◌, ◌<◌, ◌≡◌, refl, Bool, true, false, ◌==◌, ◌||◌, Option, none, some,
  String, List, [], ◌∷◌, length, take, drop, arith, leb, ltb, if◌then◌else◌,
}
use base_protocol_system.Wire.Error.{
  Decoded, ok, err, stuck, ◌>>=◌, unexpected_eof, invalid_length, end_group_for_non_group,
  illegal_tag, wrong_wire_type,
}
use base_protocol_system.Wire.Varint.{read_varint}
use base_protocol_system.Wire.Skip.{skip, is_negative, add_int}
use base_protocol_system.Wire.Message.Agrees.{
  Agrees, Agrees-refl, then_Agrees, map_Agrees, two_guards_Agree, guard_Agrees, AgreesO,
}
use base_protocol_system.Wire.Message.{
  FieldReader, skip_unknown, read_bytes, read_delimited, field_num, from_field, unmarshal_field,
  unmarshal_loop,
}
use base_protocol_system.Wire.Message.Ends.{
  NeverStuck, read_varint-shorter, unmarshal_field-shorter,
}

-- A length leads out of the buffer where it is more than what is left, wherever that begins.
outside :
    (total left n : ℕ)
    → left ≤ total
    → total < 2 ^ 63
    → is_negative n ≡ false
    → (is_negative (add_int (total - left) n) || ltb total (add_int (total - left) n)) ≡ ltb left n
outside total left n h fits positive = ground arith

outside_or :
    (total left n : ℕ)
    → left ≤ total
    → total < 2 ^ 63
    → ((is_negative n || is_negative (add_int (total - left) n))
        || ltb total (add_int (total - left) n))
      ≡ (is_negative n || ltb left n)
outside_or total left n h fits = ground arith

-- A `switch` whose cases agree, wherever the message begins in its buffer.
abbrev pub TotalFree : {M : Type 0} → FieldReader M → Type 0
TotalFree {M} field =
    (t t' number wire_type : ℕ) (bytes : List ℕ) (m : M)
    → length bytes ≤ t
    → length bytes ≤ t'
    → t < 2 ^ 63
    → t' < 2 ^ 63
    → AgreesO (field t number wire_type bytes m) (field t' number wire_type bytes m)

module _ (t t' : ℕ) (fits : t < 2 ^ 63) (fits' : t' < 2 ^ 63) where
  skip_unknown-Agrees :
      (bytes : List ℕ)
      → length bytes ≤ t
      → length bytes ≤ t'
      → Agrees (skip_unknown t bytes) (skip_unknown t' bytes)
  unfolding skip_unknown
  skip_unknown-Agrees bytes h h' = whichever (skip bytes)
    where
      whichever :
          (d : Decoded ℕ)
          → Agrees
              (d >>= λ n.
                let index = t - length bytes in
                if is_negative n || is_negative (add_int index n)
                then err invalid_length
                else if ltb t (add_int index n)
                then err unexpected_eof
                else ok (drop n bytes))
              (d >>= λ n.
                let index = t' - length bytes in
                if is_negative n || is_negative (add_int index n)
                then err invalid_length
                else if ltb t' (add_int index n)
                then err unexpected_eof
                else ok (drop n bytes))
      whichever (ok n) =
          two_guards_Agree (is_negative n || is_negative (add_int (t - length bytes) n))
            (ltb t (add_int (t - length bytes) n))
            (is_negative n || is_negative (add_int (t' - length bytes) n))
            (ltb t' (add_int (t' - length bytes) n)) invalid_length unexpected_eof (drop n bytes)
            (rw (outside_or t (length bytes) n h fits, outside_or t' (length bytes) n h' fits')
              refl)
      whichever (err e) = tt
      whichever stuck = tt

  read_bytes-Agrees :
      (bytes : List ℕ)
      → length bytes ≤ t
      → length bytes ≤ t'
      → Agrees (read_bytes t bytes) (read_bytes t' bytes)
  unfolding read_bytes
  read_bytes-Agrees bytes h h' =
      then_Agrees (λ (r : ℕ × List ℕ). length r.1 < length bytes) (read_varint bytes)
        (read_varint bytes) _ _ (read_varint-shorter bytes) (Agrees-refl (read_varint bytes))
        λ (n, rest) shorter.
          let at = add_int (t - length rest) n in
          let at' = add_int (t' - length rest) n in
          let out : Decoded (List ℕ × List ℕ) = ok (take n rest, drop n rest) in
          guard_Agrees (is_negative n) invalid_length
            (if is_negative at
              then err invalid_length
              else if ltb t at
              then err unexpected_eof
              else out)
            (if is_negative at'
              then err invalid_length
              else if ltb t' at'
              then err unexpected_eof
              else out)
            λ positive.
              two_guards_Agree (is_negative at) (ltb t at) (is_negative at') (ltb t' at')
                invalid_length unexpected_eof (take n rest, drop n rest)
                (rw
                  (
                    outside t (length rest) n (omega (arith, shorter, h)) fits positive,
                    outside t' (length rest) n (omega (arith, shorter, h')) fits' positive,
                  )
                  refl)

  pub read_delimited-Agrees :
      (name : String) (wire_type : ℕ) (bytes : List ℕ)
      → length bytes ≤ t
      → length bytes ≤ t'
      → Agrees (read_delimited name t wire_type bytes) (read_delimited name t' wire_type bytes)
  unfolding read_delimited
  read_delimited-Agrees name wire_type bytes h h' = whichever (wire_type == 2)
    where
      whichever :
          (b : Bool)
          → Agrees
              (if b then read_bytes t bytes else err (wrong_wire_type wire_type name))
              (if b then read_bytes t' bytes else err (wrong_wire_type wire_type name))
      whichever true = read_bytes-Agrees bytes h h'
      whichever false = tt

  module _ {M : Type 0} (name : String) (field : FieldReader M) (free : TotalFree field)
      (never : NeverStuck field) where
    from_field-Agrees :
        (start : List ℕ) (m : M) (r r' : Option (Decoded (M × List ℕ)))
        → length start ≤ t
        → length start ≤ t'
        → AgreesO r r'
        → Agrees (from_field name field t start m r) (from_field name field t' start m r')
    unfolding from_field
    from_field-Agrees start m none none h h' same =
        map_Agrees (skip_unknown t start) (skip_unknown t' start) (λ rest. (m, rest))
          (skip_unknown-Agrees start h h')
    from_field-Agrees start m (some d) (some e) h h' same = same
    from_field-Agrees start m none (some e) h h' same = absurd same
    from_field-Agrees start m (some d) none h h' same = absurd same

    unmarshal_field-Agrees :
        (bytes : List ℕ) (m : M)
        → length bytes ≤ t
        → length bytes ≤ t'
        → Agrees (unmarshal_field name field t bytes m) (unmarshal_field name field t' bytes m)
    unfolding unmarshal_field
    unmarshal_field-Agrees bytes m h h' =
        then_Agrees (λ (r : ℕ × List ℕ). length r.1 < length bytes) (read_varint bytes)
          (read_varint bytes) _ _ (read_varint-shorter bytes) (Agrees-refl (read_varint bytes))
          λ (wire, rest) shorter.
            let number = field_num name field t wire in
            let kind = bit_and wire 0x7 in
            let read = from_field name field t bytes m (field t number kind rest m) in
            let read' = from_field name field t' bytes m (field t' number kind rest m) in
            let bad = number == 0 || leb (2 ^ 31) number in
            guard_Agrees (kind == 4) (end_group_for_non_group name)
              (if bad then err (illegal_tag name number wire) else read)
              (if bad then err (illegal_tag name number wire) else read')
              λ _. guard_Agrees bad (illegal_tag name number wire) read read' λ _.
                from_field-Agrees bytes m (field t number kind rest m) (field t' number kind rest m)
                  h h'
                  (free t t' number kind rest m (omega (arith, shorter, h))
                    (omega (arith, shorter, h')) fits fits')

    -- The rounds may be more than the bytes, too.
    pub unmarshal_loop-Agrees :
        (fuel fuel' : ℕ) (bytes : List ℕ) (m : M)
        → length bytes ≤ fuel
        → length bytes ≤ fuel'
        → length bytes ≤ t
        → length bytes ≤ t'
        → Agrees
            (unmarshal_loop name field t fuel bytes m)
            (unmarshal_loop name field t' fuel' bytes m)
    unfolding unmarshal_loop
    unmarshal_loop-Agrees fuel fuel' [] m enough enough' h h' = refl
    unmarshal_loop-Agrees zero fuel' (b ∷ bytes) m enough enough' h h' =
        absurd (omega (arith, enough))
    unmarshal_loop-Agrees (suc fuel) zero (b ∷ bytes) m enough enough' h h' =
        absurd (omega (arith, enough'))
    unmarshal_loop-Agrees (suc fuel) (suc fuel') (b ∷ bytes) m enough enough' h h' =
        then_Agrees (λ (p : M × List ℕ). length p.1 < length (b ∷ bytes))
          (unmarshal_field name field t (b ∷ bytes) m) (unmarshal_field name field t' (b ∷ bytes) m)
          _ _ (unmarshal_field-shorter name field never t (b ∷ bytes) m (omega (arith, h)))
          (unmarshal_field-Agrees (b ∷ bytes) m h h')
          λ (m', rest) shorter.
            unmarshal_loop-Agrees fuel fuel' rest m' (omega (arith, shorter, enough))
              (omega (arith, shorter, enough')) (omega (arith, shorter, h))
              (omega (arith, shorter, h'))
