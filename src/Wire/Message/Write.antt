-- ===== src/Wire/Message/Write.antt =====
-- What the field writers put into the room before what is already written.
use base_protocol_system.Base.{
  ℕ, suc, ◌+◌, ◌-◌, ◌^◌, ◌<◌, ◌≡◌, refl, sym, ap, ap₂, ◌∙◌, List, [], ◌∷◌, ◌++◌, length,
  length-append, take, drop, take-append-drop, length-take, length-drop, some, arith, ltb, false,
  replicate, length-replicate, take_all,
}
use base_protocol_system.Wire.Varint.{sov, encode_varint, bit_length}
use base_protocol_system.Wire.Varint.Format.{varint_bytes, sov-eq-length}
use base_protocol_system.Wire.Varint.Encode.{encode_varint-append, write_byte-append}
use base_protocol_system.Wire.Message.{
  copy_at, write_tag, write_string, write_message, string_size, marshal, finish,
}
use mathlib.Core.Option
use mathlib.Core.List.{append_assoc, append-nil}

-- A string field as it stands in a message; an empty string is left out.
abbrev pub string_field : ℕ → List ℕ → List ℕ
string_field tag [] = []
string_field tag (b ∷ bytes) = tag ∷ (varint_bytes 9 (length (b ∷ bytes)) ++ (b ∷ bytes))

copy_at-append :
    (front hole bytes back : List ℕ)
    → length hole ≡ length bytes
    → copy_at (front ++ (hole ++ back)) (length front) bytes ≡ front ++ (bytes ++ back)
unfolding copy_at
copy_at-append [] [] [] back e = refl
copy_at-append [] (x ∷ hole) [] back e = absurd (omega arith)
copy_at-append [] [] (b ∷ bytes) back e = absurd (omega arith)
copy_at-append [] (x ∷ hole) (b ∷ bytes) back e =
    ap (λ l. b ∷ l) (copy_at-append [] hole bytes back (omega arith))
copy_at-append (y ∷ front) [] [] back e = refl
copy_at-append (y ∷ front) (x ∷ hole) [] back e = absurd (omega arith)
copy_at-append (y ∷ front) [] (b ∷ bytes) back e = absurd (omega arith)
copy_at-append (y ∷ front) (x ∷ hole) (b ∷ bytes) back e =
    ap (λ l. y ∷ l) (copy_at-append front (x ∷ hole) (b ∷ bytes) back e)

write_tag-append :
    (tag x : ℕ) (front back : List ℕ)
    → write_tag tag (front ++ (x ∷ back), suc (length front))
      ≡ some (front ++ (tag ∷ back), length front)
unfolding write_tag
write_tag-append tag x front back = rw (write_byte-append front back x tag)

sov-zero : 1 ≡ sov 0
unfolding sov bit_length
sov-zero = refl

-- A length and a tag before `back`, in the room that `1 + sov n` counts.
header :
    (tag n x : ℕ) (front hole back : List ℕ)
    → n < 2 ^ 64
    → length hole ≡ sov n
    → (r : List ℕ × ℕ) × (encode_varint
          (front ++ (x ∷ (hole ++ back)))
          (suc (length front + length hole))
          n
        ≡ some r)
      × (write_tag tag r ≡ some (front ++ (tag ∷ (varint_bytes 9 n ++ back)), length front))
header tag n x front hole back h e =
    let front' : List ℕ = front ++ (x ∷ []) in
    let at : length front' ≡ suc (length front) = length-append front (x ∷ []) ∙ omega arith in
    let at' : length front' + length hole ≡ suc (length front + length hole) = omega (arith, at) in
    let out : List ℕ × ℕ = (front ++ (x ∷ (varint_bytes 9 n ++ back)), suc (length front)) in
    (
      out,
      (rw
          (
            append_assoc front (x ∷ []) (hole ++ back),
            append_assoc front (x ∷ []) (varint_bytes 9 n ++ back),
            at',
            at,
          )
          at (encode_varint-append n front' hole back h e)),
      write_tag-append tag x front (varint_bytes 9 n ++ back),
    )

-- A nonempty string into a hole whose parts are known: the tag's byte, the length's and the text's.
string_into :
    (tag x b : ℕ) (bytes front lens hole back : List ℕ)
    → length (b ∷ bytes) < 2 ^ 64
    → length lens ≡ sov (length (b ∷ bytes))
    → length hole ≡ length (b ∷ bytes)
    → write_string tag
        (b ∷ bytes)
        (front ++ (x ∷ (lens ++ (hole ++ back))))
        (suc (length front + length lens) + length hole)
      ≡ some (front ++ (string_field tag (b ∷ bytes) ++ back), length front)
unfolding write_string
string_into tag x b bytes front lens hole back h el eh =
    let text : List ℕ = b ∷ bytes in
    let before : List ℕ = front ++ (x ∷ lens) in
    let at : length before ≡ suc (length front + length lens) =
      length-append front (x ∷ lens) ∙ omega arith in
    let inside : ltb (suc (length front + length lens) + length hole) (length text) ≡ false =
      ground (arith, eh) in
    let left : suc (length front + length lens) + length hole - length text
        ≡ suc (length front + length lens) =
      omega (arith, eh) in
    let copied : copy_at (front ++ (x ∷ (lens ++ (hole ++ back))))
          (suc (length front + length lens)) text
        ≡ front ++ (x ∷ (lens ++ (text ++ back))) =
      (rw
        (
          append_assoc front (x ∷ lens) (hole ++ back),
          append_assoc front (x ∷ lens) (text ++ back),
          at,
        )
        at (copy_at-append before hole text back eh)) in
    let (r, e, w) = header tag (length text) x front lens (text ++ back) h el in
    rw (inside, left, copied, e)
      (w
        ∙ ap (λ l. some (front ++ (tag ∷ l), length front))
            (sym (append_assoc (varint_bytes 9 (length text)) text back)))

-- A string field is written into the room that `Size` counts for it, before what is written already;
-- the empty string takes none.
pub write_string-append :
    (tag : ℕ) (bytes front hole back : List ℕ)
    → length bytes < 2 ^ 64
    → length hole ≡ string_size bytes
    → write_string tag bytes (front ++ (hole ++ back)) (length front + length hole)
      ≡ some (front ++ (string_field tag bytes ++ back), length front)
write_string-append tag [] front [] back h e = unfold write_string in ground arith
write_string-append tag [] front (x ∷ hole) back h e = absurd (omega arith)
write_string-append tag (b ∷ bytes) front [] back h e = absurd (omega arith)
write_string-append tag (b ∷ bytes) front (x ∷ hole) back h e =
    let k = sov (length (b ∷ bytes)) in
    let lens = take k hole in
    let text = drop k hole in
    let el : length lens ≡ k = length-take k hole (omega arith) in
    let et : length text ≡ length (b ∷ bytes) = length-drop k hole ∙ omega arith in
    let parts : lens ++ (text ++ back) ≡ hole ++ back =
      sym (append_assoc lens text back) ∙ ap (λ l. l ++ back) (take-append-drop k hole) in
    let sum : suc (length front + length lens) + length text ≡ length front + suc (length hole) =
      omega (arith, el, et) in
    (rw (parts, sum) at (string_into tag x b bytes front lens text back h el et))

-- A string field takes the bytes that `Size` counts for it.
pub length-string_field :
    (tag : ℕ) (bytes : List ℕ)
    → length bytes < 2 ^ 64
    → length (string_field tag bytes) ≡ string_size bytes
length-string_field tag [] h = refl
length-string_field tag (b ∷ bytes) h =
    let n = length (b ∷ bytes) in
    omega (arith, length-append (varint_bytes 9 n) (b ∷ bytes), sov-eq-length n h)

-- A message whose one field is a string is marshalled to that field, whatever the text.
pub marshal-string_field :
    (tag : ℕ) (bytes : List ℕ)
    → length bytes < 2 ^ 64
    → marshal
        (string_size bytes)
        (λ buffer. finish buffer (write_string tag bytes buffer (length buffer)))
      ≡ some (string_field tag bytes)
unfolding marshal
marshal-string_field tag bytes h =
    let hole : List ℕ = replicate (string_size bytes) 0 in
    let room : length hole ≡ string_size bytes = length-replicate (string_size bytes) 0 in
    let start : 0 + length hole ≡ length hole = omega arith in
    let w : write_string tag bytes hole (length hole) ≡ some (string_field tag bytes, 0) =
      (rw (append-nil hole, append-nil (string_field tag bytes), start) at
        (write_string-append tag bytes [] hole [] h room)) in
    let all : take (length hole - 0) (string_field tag bytes) ≡ string_field tag bytes =
      take_all (length hole - 0) (string_field tag bytes)
        (omega (arith, room, length-string_field tag bytes h)) in
    rw (w, all)

-- A message of no bytes is its tag and the length 0.
pub write_empty_message :
    (tag x y : ℕ) (front back : List ℕ)
    → write_message tag (λ buffer. some (buffer, 0)) (front ++ (x ∷ y ∷ back)) (length front + 2)
      ≡ some (front ++ (tag ∷ 0 ∷ back), length front)
unfolding write_message varint_bytes Option.bind
write_empty_message tag x y front back =
    let buffer : List ℕ = front ++ (x ∷ y ∷ back) in
    let (r, e, w) = header tag 0 x front (y ∷ []) back (omega arith) sov-zero in
    let all = take-append-drop (length front + 2) buffer in
    let e' : encode_varint (take (length front + 2) buffer ++ drop (length front + 2) buffer)
          (length front + 2 - 0) 0
        ≡ some r =
      ap₂ (λ b i. encode_varint b i 0) all (omega arith) ∙ e in
    let inside : ltb (length front + 2) 0 ≡ false = ground arith in rw (inside, e') w

-- `Marshal` of a message whose field 1 is a message of no bytes.
pub marshal_empty_message :
    marshal (1 + 0 + sov 0) (λ buffer.
      finish buffer (write_message 0xa (λ inner. some (inner, 0)) buffer (length buffer)))
    ≡ some (0xa ∷ 0 ∷ [])
unfolding marshal sov bit_length Option.bind
marshal_empty_message =
    let two : 0 + 2 ≡ 2 = omega arith in
    let w : write_message 0xa (λ inner. some (inner, 0)) (0 ∷ 0 ∷ []) 2 ≡ some (0xa ∷ 0 ∷ [], 0) =
      (rw (two) at (write_empty_message 0xa 0 0 [] [])) in
    rw (w) refl
