-- ===== src/Wire/Message/Read.antt =====
-- What the loop of an `Unmarshal` reads from the bytes of a string field.
use Prim.Native.Nat.{bit_and}
use base_protocol_system.Base.{
  ℕ, suc, ◌+◌, ◌-◌, ◌^◌, ◌≤◌, ◌<◌, ◌≡◌, refl, List, [], ◌∷◌, ◌++◌, length, length-append,
  take-append, drop-append, arith, ltb, leb, false, some, String, ◌==◌, ◌||◌,
}
use base_protocol_system.Wire.Error.{Decoded, ok}
use base_protocol_system.Wire.Skip.{is_negative, add_int}
use base_protocol_system.Wire.Varint.{read_varint}
use base_protocol_system.Wire.Varint.Format.{varint_bytes}
use base_protocol_system.Wire.Varint.Encode.{read-varint_bytes}
use base_protocol_system.Wire.Message.{
  FieldReader, read_bytes, read_delimited, field_num, unmarshal_field, unmarshal_loop, unmarshal,
}

-- A length and its bytes are read from a buffer of `total` bytes that ends with them and what
-- follows, for a `total` that fits an int.
pub read_bytes-append :
    (total : ℕ) (bytes rest : List ℕ)
    → total < 2 ^ 63
    → length (bytes ++ rest) ≤ total
    → read_bytes total (varint_bytes 9 (length bytes) ++ (bytes ++ rest)) ≡ ok (bytes, rest)
unfolding read_bytes
read_bytes-append total bytes rest h fits =
    let n = length bytes in
    let sum : length (bytes ++ rest) ≡ n + length rest = length-append bytes rest in
    let r = read-varint_bytes n (bytes ++ rest) (omega (arith, sum)) in
    let index = total - length (bytes ++ rest) in
    let fitting : add_int index n ≡ index + n = omega (arith, sum) in
    let positive : is_negative n ≡ false = ground (arith, sum) in
    let positive' : is_negative (index + n) ≡ false = ground (arith, sum) in
    let inside : ltb total (index + n) ≡ false = ground (arith, sum) in
    rw (r, fitting, positive, positive', inside, take-append bytes rest, drop-append bytes rest)
      refl

pub read_delimited-append :
    (name : String) (total : ℕ) (bytes rest : List ℕ)
    → total < 2 ^ 63
    → length (bytes ++ rest) ≤ total
    → read_delimited name total 2 (varint_bytes 9 (length bytes) ++ (bytes ++ rest))
      ≡ ok (bytes, rest)
unfolding read_delimited
read_delimited-append name total bytes rest h fits = read_bytes-append total bytes rest h fits

module _ {M : Type 0} (name : String) (field : FieldReader M) (total : ℕ) where
  -- A round whose tag is one byte and names a field is the reading of the field.
  pub unmarshal_field-some :
      (tag : ℕ) (rest : List ℕ) (m : M) (r : Decoded (M × List ℕ))
      → read_varint (tag ∷ rest) ≡ ok (tag, rest)
      → (bit_and tag 0x7 == 4) ≡ false
      → (field_num name field total tag == 0 || leb (2 ^ 31) (field_num name field total tag))
        ≡ false
      → field total (field_num name field total tag) (bit_and tag 0x7) rest m ≡ some r
      → unmarshal_field name field total (tag ∷ rest) m ≡ r
  unfolding unmarshal_field
  unmarshal_field-some tag rest m r read group number named = rw (read, group, number, named) refl

  pub unmarshal_loop-next :
      (fuel b : ℕ) (bytes rest : List ℕ) (m m' : M)
      → unmarshal_field name field total (b ∷ bytes) m ≡ ok (m', rest)
      → unmarshal_loop name field total (suc fuel) (b ∷ bytes) m
        ≡ unmarshal_loop name field total fuel rest m'
  unfolding unmarshal_loop
  unmarshal_loop-next fuel b bytes rest m m' e = rw (e) refl

  pub unmarshal_loop-end : (fuel : ℕ) (m : M) → unmarshal_loop name field total fuel [] m ≡ ok m
  unfolding unmarshal_loop
  unmarshal_loop-end fuel m = refl

pub unmarshal_lem :
    {M : Type 0} (name : String) (field : FieldReader M) (bytes : List ℕ) (m : M)
    → unmarshal name field bytes m ≡ unmarshal_loop name field (length bytes) (length bytes) bytes m
unfolding unmarshal
unmarshal_lem name field bytes m = refl

-- A tag of one byte is read as it is.
pub read_varint-small : (b : ℕ) (rest : List ℕ) → b < 128 → read_varint (b ∷ rest) ≡ ok (b, rest)
read_varint-small b rest h =
    let small : varint_bytes 9 b ≡ b ∷ [] = unfold varint_bytes in ground arith in
    (rw (small) at (read-varint_bytes b rest (omega arith)))
