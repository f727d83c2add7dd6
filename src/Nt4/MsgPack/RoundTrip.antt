-- ===== src/Nt4/MsgPack/RoundTrip.antt =====
-- What the encoder of apps/control/src/nt4-auto.ts writes, read back by its decoder.
use native.Mathlib.Nat.{pow-suc}
use mathlib.Core.List.{append_assoc, append-nil}
use code_runner.Prelude.{
  ℕ, zero, suc, ◌+◌, ◌-◌, ◌*◌, ◌/◌, ◌^◌, ◌≤◌, ◌<◌, List, [], ◌∷◌, ◌++◌, Option, none, some, true,
  false, ◌≡◌, refl, arith, inl, inr, Bool-cases, length, length-append, ltb, leb, ap, sym, ◌∙◌,
}
use code_runner.Prelude.Texts.{Text}
use code_runner.Nt4.Number.{Number, whole, other, log2, nearest, whole_of, of_bits}
use code_runner.Nt4.MsgPack.{
  TextCodec, Value, nil, bool, num, str, bytes, arr, map, Values, end, item, count, big_endian,
  string_header, array_header, write_number, encode_msg_pack, encode_all, ok, Reader, read, uint_of,
  read_uint, read_items, read_array, read_text, with_length, read_number, Shape, shape_of,
  shape_of_type, read_shape, parse, decode_msg_pack, max_collection_length,
}

halve : (n k : ℕ) → n < 2 ^ suc k → n / 2 < 2 ^ k
halve n k h = let e : 2 ^ suc k ≡ 2 ^ k * 2 = pow-suc 2 k in omega arith

log2-le : (fuel n k : ℕ) → n < 2 ^ suc k → log2 fuel n ≤ k
unfolding log2
log2-le zero n k h = omega arith
log2-le (suc fuel) n zero h = ground arith
log2-le (suc fuel) n (suc k) h = ground (arith, log2-le fuel (n / 2) k, halve n (suc k) h)

-- Below `2 ^ 53` every whole number is a double.
pub nearest-small : (n : ℕ) → n < 2 ^ 53 → nearest n ≡ n
unfolding nearest
nearest-small n h =
    let e : log2 64 n - 52 ≡ 0 = omega (arith, log2-le 64 n 52 h) in rw e (ground arith)

uint1 : (n : ℕ) → n < 2 ^ 8 → uint_of 0 (big_endian 1 n) ≡ n
unfolding uint_of big_endian
uint1 n h = omega arith

uint2 : (n : ℕ) → n < 2 ^ 16 → uint_of 0 (big_endian 2 n) ≡ n
unfolding uint_of big_endian
uint2 n h = omega arith

uint4 : (n : ℕ) → n < 2 ^ 32 → uint_of 0 (big_endian 4 n) ≡ n
unfolding uint_of big_endian
uint4 n h = omega arith

uint8 : (n : ℕ) → n < 2 ^ 64 → uint_of 0 (big_endian 8 n) ≡ n
unfolding uint_of big_endian
uint8 n h = omega arith

length-big_endian : (k n : ℕ) → length (big_endian k n) ≡ k
unfolding big_endian
length-big_endian zero n = refl
length-big_endian (suc k) n = omega (arith, length-big_endian k n)

read-append : (xs rest : List ℕ) → read (length xs) (xs ++ rest) ≡ ok (xs, rest)
unfolding read
read-append [] rest = refl
read-append (x ∷ xs) rest = rw (read-append xs rest) refl

read_uint-big_endian :
    (k n : ℕ) (rest : List ℕ)
    → read_uint k (big_endian k n ++ rest) ≡ ok (uint_of 0 (big_endian k n), rest)
unfolding read_uint
read_uint-big_endian k n rest =
    let there : read k (big_endian k n ++ rest) ≡ ok (big_endian k n, rest) =
      ap (λ i. read i (big_endian k n ++ rest)) (sym (length-big_endian k n))
      ∙ read-append (big_endian k n) rest in
    rw there refl

-- Whole numbers below `2 ^ 53`, and bits that are not those of a whole number.
abbrev IsEncodableNumber : Number → Type 0
IsEncodableNumber (whole n) = n < 2 ^ 53
IsEncodableNumber (other bits) = (bits < 2 ^ 64) × (whole_of bits ≡ none)

abbrev mutual
  pub IsEncodable : TextCodec → Value → Type 0
  IsEncodable t nil = Unit
  IsEncodable t (bool b) = Unit
  IsEncodable t (num n) = IsEncodableNumber n
  IsEncodable t (str s) = (length (t.encode s) < 2 ^ 16) × (t.decode (t.encode s) ≡ s)
  IsEncodable t (bytes bs) = ⊥
  IsEncodable t (arr vs) = (count vs < 2 ^ 16) × AllEncodable t vs
  IsEncodable t (map ps) = ⊥

  pub AllEncodable : TextCodec → Values → Type 0
  AllEncodable t end = Unit
  AllEncodable t (item v vs) = IsEncodable t v × AllEncodable t vs

shape_of-small : (n : ℕ) → n ≤ 0x7f → shape_of n ≡ Shape.fixed (num (whole n))
unfolding shape_of
shape_of-small n h = ground arith

shape_of-text : (n : ℕ) → n < 32 → shape_of (0xa0 + n) ≡ Shape.fixed_text n
unfolding shape_of
shape_of-text n h = ground arith

shape_of-array : (n : ℕ) → n < 16 → shape_of (0x90 + n) ≡ Shape.fixed_array n
unfolding shape_of
shape_of-array n h = ground arith

read_number-big_endian :
    (k n : ℕ) (number : ℕ → Number) (rest : List ℕ)
    → uint_of 0 (big_endian k n) ≡ n
    → read_number k number (big_endian k n ++ rest) ≡ ok (num (number n), rest)
unfolding read_number
read_number-big_endian k n number rest e =
    rw (read_uint-big_endian k n rest) (ap (λ i. ok (num (number i), rest)) e)

with_length-big_endian :
    (k n : ℕ) (go : ℕ → Reader) (rest : List ℕ)
    → uint_of 0 (big_endian k n) ≡ n
    → with_length k go (big_endian k n ++ rest) ≡ go n rest
unfolding with_length
with_length-big_endian k n go rest e = rw (read_uint-big_endian k n rest) (ap (λ i. go i rest) e)

read_text-append :
    (t : TextCodec) (s : Text) (rest : List ℕ)
    → t.decode (t.encode s) ≡ s
    → read_text t (length (t.encode s)) (t.encode s ++ rest) ≡ ok (str s, rest)
unfolding read_text
read_text-append t s rest e = rw (read-append (t.encode s) rest) (ap (λ i. ok (str i, rest)) e)

of_bits-other : (bits : ℕ) → whole_of bits ≡ none → of_bits bits ≡ other bits
unfolding of_bits
of_bits-other bits e = ap (λ (x : Option ℕ). elim x [ some n ↦ whole n | none ↦ other bits ]) e

module _ (t : TextCodec) (fuel : ℕ) where
  parse-number :
      (n : Number) (rest : List ℕ)
      → IsEncodableNumber n
      → parse t (suc fuel) (write_number n ++ rest) ≡ ok (num n, rest)
  unfolding parse write_number read_shape shape_of shape_of_type big_endian
  parse-number (whole n) rest h = elim (Bool-cases (leb n 0x7f)) [
    | inl e ↦ rw e (rw (shape_of-small n (ground arith)) refl)
    | inr e ↦ elim (Bool-cases (leb n 0xffffffff)) [
      | inl f ↦ rw (e, f) (read_number-big_endian 4 n whole rest (uint4 n (ground arith)))
      | inr f ↦
          rw (e, f)
            (read_number-big_endian 8 n (λ i. whole (nearest i)) rest (uint8 n (omega arith))
              ∙ ap (λ i. ok (num (whole i), rest)) (nearest-small n h))
    ]
  ]
  parse-number (other bits) rest h =
      read_number-big_endian 8 bits of_bits rest (uint8 bits h.0)
      ∙ ap (λ i. ok (num i, rest)) (of_bits-other bits (h.1))

  parse-string_header :
      (n : ℕ) (rest : List ℕ)
      → n < 2 ^ 16
      → parse t (suc fuel) (string_header n ++ rest) ≡ read_text t n rest
  unfolding parse string_header read_shape shape_of shape_of_type big_endian
  parse-string_header n rest h = elim (Bool-cases (ltb n 32)) [
    | inl a ↦ rw a (ap (λ i. read_shape t (parse t fuel) i rest) (shape_of-text n (ground arith)))
    | inr a ↦ elim (Bool-cases (leb n 0xff)) [
      | inl b ↦ rw (a, b) (with_length-big_endian 1 n (read_text t) rest (uint1 n (ground arith)))
      | inr b ↦ rw (a, b) (with_length-big_endian 2 n (read_text t) rest (uint2 n h))
    ]
  ]

  parse-array_header :
      (n : ℕ) (rest : List ℕ)
      → n < 2 ^ 16
      → parse t (suc fuel) (array_header n ++ rest) ≡ read_array (parse t fuel) n rest
  unfolding parse array_header read_shape shape_of shape_of_type
  parse-array_header n rest h = elim (Bool-cases (ltb n 16)) [
    | inl a ↦ rw a (ap (λ i. read_shape t (parse t fuel) i rest) (shape_of-array n (ground arith)))
    | inr a ↦ rw a (with_length-big_endian 2 n (read_array (parse t fuel)) rest (uint2 n h))
  ]

parse-fixed :
    (t : TextCodec) (m fuel : ℕ) (v : Value) (rest : List ℕ)
    → shape_of m ≡ Shape.fixed v
    → parse t (suc fuel) (m ∷ rest) ≡ ok (v, rest)
unfolding parse read_shape
parse-fixed t m fuel v rest e = ap (λ i. read_shape t (parse t fuel) i rest) e

fueled :
    (t : TextCodec) (fuel n : ℕ) (bs : List ℕ)
    → n < fuel
    → parse t fuel bs ≡ parse t (suc (fuel - 1)) bs
fueled t fuel n bs h = ap (λ i. parse t i bs) (omega arith)

-- The header of an array takes a byte at least.
shorter :
    (n fuel : ℕ) (front rest : List ℕ)
    → length ((array_header n ++ front) ++ rest) < fuel
    → length (front ++ rest) < fuel - 1
unfolding array_header
shorter n fuel front rest h = ground (
  arith,
  length-append front rest,
  length-append (array_header n ++ front) rest,
  length-append (array_header n) front,
)

mutual
  unfolding encode_msg_pack read_items count shape_of shape_of_type read_array

  parse-encode :
      (t : TextCodec) (v : Value) (fuel : ℕ) (rest : List ℕ)
      → IsEncodable t v
      → length (encode_msg_pack t v ++ rest) < fuel
      → parse t fuel (encode_msg_pack t v ++ rest) ≡ ok (v, rest)
  parse-encode t nil fuel rest h f =
      fueled t fuel 0 _ (omega arith) ∙ parse-fixed t 0xc0 _ nil rest refl
  parse-encode t (bool true) fuel rest h f =
      fueled t fuel 0 _ (omega arith) ∙ parse-fixed t 0xc3 _ (bool true) rest refl
  parse-encode t (bool false) fuel rest h f =
      fueled t fuel 0 _ (omega arith) ∙ parse-fixed t 0xc2 _ (bool false) rest refl
  parse-encode t (num n) fuel rest h f = fueled t fuel _ _ f ∙ parse-number t (fuel - 1) n rest h
  parse-encode t (str s) fuel rest h f =
      fueled t fuel _ _ f
      ∙ ap (parse t (suc (fuel - 1)))
          (append_assoc (string_header (length (t.encode s))) (t.encode s) rest)
      ∙ parse-string_header t (fuel - 1) (length (t.encode s)) _ h.0
      ∙ read_text-append t s rest h.1
  parse-encode t (bytes b) fuel rest h f = absurd h
  parse-encode t (arr vs) fuel rest h f =
      let items =
        read_items-encode t vs (fuel - 1) rest h.1
          (shorter (count vs) fuel (encode_all t vs) rest f) in
      let fits : ltb max_collection_length (count vs) ≡ false = ground (arith, h.0) in
      fueled t fuel _ _ f
      ∙ ap (parse t (suc (fuel - 1)))
          (append_assoc (array_header (count vs)) (encode_all t vs) rest)
      ∙ parse-array_header t (fuel - 1) (count vs) _ h.0
      ∙ rw (fits, items) refl
  parse-encode t (map ps) fuel rest h f = absurd h

  read_items-encode :
      (t : TextCodec) (vs : Values) (fuel : ℕ) (rest : List ℕ)
      → AllEncodable t vs
      → length (encode_all t vs ++ rest) < fuel
      → read_items (parse t fuel) (count vs) (encode_all t vs ++ rest) ≡ ok (vs, rest)
  read_items-encode t end fuel rest h f = refl
  read_items-encode t (item v vs) fuel rest h f =
      let split = append_assoc (encode_msg_pack t v) (encode_all t vs) rest in
      let there : length (encode_msg_pack t v ++ (encode_all t vs ++ rest)) < fuel =
        omega (arith, ap length split) in
      let first = parse-encode t v fuel (encode_all t vs ++ rest) h.0 there in
      let others =
        read_items-encode t vs fuel rest h.1
          (omega (arith, there, length-append (encode_msg_pack t v) (encode_all t vs ++ rest))) in
      rw (split, first, others) refl

decode-one :
    (t : TextCodec) (v : Value) (frame : List ℕ)
    → parse t (suc (length frame)) frame ≡ ok (v, [])
    → decode_msg_pack t frame ≡ ok (item v end)
unfolding decode_msg_pack
decode-one t v [] e = cc
decode-one t v (b ∷ bs) e = rw e refl

-- What the encoder writes for a value is a frame that the decoder reads as that one value,
-- provided that its numbers are doubles and the whole ones are below `2 ^ 53`, that the platform's
-- codecs keep its texts, and that each text and each array is shorter than 65536.
pub decode_msg_pack-encode_msg_pack :
    (t : TextCodec) (v : Value)
    → IsEncodable t v
    → decode_msg_pack t (encode_msg_pack t v) ≡ ok (item v end)
decode_msg_pack-encode_msg_pack t v h =
    let e = append-nil (encode_msg_pack t v) in
    decode-one t v (encode_msg_pack t v) (
      ap (parse t (suc (length (encode_msg_pack t v)))) (sym e)
      ∙ parse-encode t v (suc (length (encode_msg_pack t v))) [] h (omega (arith, ap length e)))
