-- ===== src/Nt4/MsgPack.antt =====
-- `encodeMsgPack` and `decodeMsgPack` of apps/control/src/nt4-auto.ts. A byte is a number below 256.
-- The text codecs of the platform are parameters.
pub mod Total
pub mod RoundTrip
pub mod Tests
use code_runner.Prelude.{
  ℕ, zero, suc, ◌+◌, ◌-◌, ◌*◌, ◌/◌, ◌%◌, ◌^◌, String, List, [], ◌∷◌, ◌++◌, Option, none, some, Bool,
  true, false, ◌&&◌, ◌||◌, if◌then◌else◌, ltb, leb, ◌==◌, length,
}
use code_runner.Prelude.Texts.{Text}
use code_runner.Nt4.Number.{Number, whole, other, negative, nearest, of_bits, widen}

-- `TextEncoder` and `TextDecoder`
pub record TextCodec : Type 0 where
  pub encode : Text → List ℕ
  pub decode : List ℕ → Text

-- What is decoded; a map keeps its keys as they were read.
mutual
  pub data Value : Type 0 where
    nil : Value
    bool : Bool → Value
    num : Number → Value
    str : Text → Value
    bytes : List ℕ → Value
    arr : Values → Value
    map : Pairs → Value

  pub data Values : Type 0 where
    end : Values
    item : Value → Values → Values

  pub data Pairs : Type 0 where
    no_more : Pairs
    pair : Value → Value → Pairs → Pairs

unfoldable pub count : Values → ℕ
count end = 0
count (item v vs) = suc (count vs)

-- The last `n` bytes of a number, the highest first: `push` keeps the low byte of each number that
-- it is given. The other numbers that are pushed, and the bytes of a text, are below 256.
unfoldable pub big_endian : ℕ → ℕ → List ℕ
big_endian zero value = []
big_endian (suc n) value = value / 256 ^ n % 256 ∷ big_endian n value

unfoldable pub string_header : ℕ → List ℕ
unfolding big_endian
string_header n =
    if ltb n 32
    then (0xa0 + n) ∷ []
    else if leb n 0xff
    then 0xd9 ∷ big_endian 1 n
    else 0xda ∷ big_endian 2 n

unfoldable pub array_header : ℕ → List ℕ
unfolding big_endian
array_header n = if ltb n 16 then (0x90 + n) ∷ [] else 0xdc ∷ big_endian 2 n

unfoldable pub write_number : Number → List ℕ
unfolding big_endian
write_number (whole n) =
    if leb n 0x7f
    then n ∷ []
    else if leb n 0xffffffff
    then 0xce ∷ big_endian 4 n
    else 0xcf ∷ big_endian 8 n
write_number (other bits) = 0xcb ∷ big_endian 8 bits

unfoldable mutual
  unfolding string_header array_header write_number

  pub encode_msg_pack : TextCodec → Value → List ℕ
  encode_msg_pack t (arr vs) = array_header (count vs) ++ encode_all t vs
  encode_msg_pack t (str s) = string_header (length (t.encode s)) ++ t.encode s
  encode_msg_pack t (num n) = write_number n
  encode_msg_pack t (bool true) = 0xc3 ∷ []
  encode_msg_pack t (bool false) = 0xc2 ∷ []
  encode_msg_pack t nil = 0xc0 ∷ []
  encode_msg_pack t (bytes b) = 0xc0 ∷ []
  encode_msg_pack t (map ps) = 0xc0 ∷ []

  pub encode_all : TextCodec → Values → List ℕ
  encode_all t end = []
  encode_all t (item v vs) = encode_msg_pack t v ++ encode_all t vs

-- `stuck` is no outcome of the code: the model's fuel has run out.
pub data Decoded {ℓ} (A : Type ℓ) : Type ℓ where
  ok : A → Decoded A
  malformed array_too_large map_too_large unsupported stuck : Decoded A

infixl 5 ◌>>=◌
abbrev pub ◌>>=◌ {ℓ κ} : {A : Type ℓ} {B : Type κ} → Decoded A → (A → Decoded B) → Decoded B
ok a >>= f = f a
malformed >>= f = malformed
array_too_large >>= f = array_too_large
map_too_large >>= f = map_too_large
unsupported >>= f = unsupported
stuck >>= f = stuck

abbrev pub Reader : Type 0
Reader = List ℕ → Decoded (Value × List ℕ)

-- `read`: the next bytes, and those after them.
unfoldable pub read : ℕ → List ℕ → Decoded (List ℕ × List ℕ)
read zero bs = ok ([], bs)
read (suc n) [] = malformed
read (suc n) (b ∷ bs) = do (front, rest) ← read n bs; ok (b ∷ front, rest)

unfoldable pub uint_of : ℕ → List ℕ → ℕ
uint_of value [] = value
uint_of value (b ∷ bs) = uint_of (value * 256 + b) bs

unfoldable pub read_uint : ℕ → List ℕ → Decoded (ℕ × List ℕ)
unfolding read uint_of
read_uint n bs = do (front, rest) ← read n bs; ok (uint_of 0 front, rest)

abbrev pub max_collection_length : ℕ
max_collection_length = 100000

-- The loop of `readArray`, for a given `parse`.
unfoldable pub read_items : Reader → ℕ → List ℕ → Decoded (Values × List ℕ)
read_items parse zero bs = ok (end, bs)
read_items parse (suc n) bs = do
  (v, rest) ← parse bs
  (vs, last) ← read_items parse n rest
  ok (item v vs, last)

-- The loop of `readMap`
unfoldable pub read_pairs : Reader → ℕ → List ℕ → Decoded (Pairs × List ℕ)
read_pairs parse zero bs = ok (no_more, bs)
read_pairs parse (suc n) bs = do
  (k, after_key) ← parse bs
  (v, rest) ← parse after_key
  (ps, last) ← read_pairs parse n rest
  ok (pair k v ps, last)

unfoldable pub read_array : Reader → ℕ → Reader
unfolding read_items
read_array parse n bs =
    if ltb max_collection_length n
    then array_too_large
    else do (vs, rest) ← read_items parse n bs; ok (arr vs, rest)

unfoldable pub read_map : Reader → ℕ → Reader
unfolding read_pairs
read_map parse n bs =
    if ltb max_collection_length n
    then map_too_large
    else do (ps, rest) ← read_pairs parse n bs; ok (map ps, rest)

unfoldable pub read_text : TextCodec → ℕ → Reader
unfolding read
read_text t n bs = do (front, rest) ← read n bs; ok (str (t.decode front), rest)

unfoldable pub read_bytes : ℕ → Reader
unfolding read
read_bytes n bs = do (front, rest) ← read n bs; ok (bytes front, rest)

-- The byte of the type is read and dropped.
unfoldable pub read_extension : ℕ → Reader
unfolding read read_bytes
read_extension n bs = do (kind, rest) ← read 1 bs; read_bytes n rest

-- What stands behind a length of `k` bytes.
unfoldable pub with_length : ℕ → (ℕ → Reader) → Reader
unfolding read_uint
with_length k go bs = do (n, rest) ← read_uint k bs; go n rest

-- A number that stands in `k` bytes.
unfoldable pub read_number : ℕ → (ℕ → Number) → Reader
unfolding read_uint
read_number k number bs = do (n, rest) ← read_uint k bs; ok (num (number n), rest)

-- A two's complement number below `2 ^ w`.
abbrev pub signed : ℕ → ℕ → Number
signed w n = if ltb n (2 ^ (w - 1)) then whole (nearest n) else negative (2 ^ w - n)

-- What a marker announces.
pub data Shape : Type 0 where
  fixed : Value → Shape
  fixed_map fixed_array fixed_text fixed_extension : ℕ → Shape
  sized_map sized_array sized_text sized_extension sized_bytes : ℕ → Shape
  number_of : ℕ → (ℕ → Number) → Shape
  unknown : Shape

-- The markers from 0xc0 to 0xdf
unfoldable pub shape_of_type : ℕ → Shape
shape_of_type m =
    if m == 0xc0
    then fixed nil
    else if m == 0xc2
    then fixed (bool false)
    else if m == 0xc3
    then fixed (bool true)
    else if m == 0xc4
    then sized_bytes 1
    else if m == 0xc5
    then sized_bytes 2
    else if m == 0xc6
    then sized_bytes 4
    else if m == 0xc7
    then sized_extension 1
    else if m == 0xc8
    then sized_extension 2
    else if m == 0xc9
    then sized_extension 4
    else if m == 0xca
    then number_of 4 (λ n. of_bits (widen n))
    else if m == 0xcb
    then number_of 8 of_bits
    else if m == 0xcc
    then number_of 1 whole
    else if m == 0xcd
    then number_of 2 whole
    else if m == 0xce
    then number_of 4 whole
    else if m == 0xcf
    then number_of 8 (λ n. whole (nearest n))
    else if m == 0xd0
    then number_of 1 (signed 8)
    else if m == 0xd1
    then number_of 2 (signed 16)
    else if m == 0xd2
    then number_of 4 (signed 32)
    else if m == 0xd3
    then number_of 8 (signed 64)
    else if m == 0xd4
    then fixed_extension 1
    else if m == 0xd5
    then fixed_extension 2
    else if m == 0xd6
    then fixed_extension 4
    else if m == 0xd7
    then fixed_extension 8
    else if m == 0xd8
    then fixed_extension 16
    else if m == 0xd9
    then sized_text 1
    else if m == 0xda
    then sized_text 2
    else if m == 0xdb
    then sized_text 4
    else if m == 0xdc
    then sized_array 2
    else if m == 0xdd
    then sized_array 4
    else if m == 0xde
    then sized_map 2
    else if m == 0xdf
    then sized_map 4
    else unknown

unfoldable pub shape_of : ℕ → Shape
unfolding shape_of_type
shape_of m =
    if leb m 0x7f
    then fixed (num (whole m))
    else if leb m 0x8f
    then fixed_map (m - 0x80)
    else if leb m 0x9f
    then fixed_array (m - 0x90)
    else if leb m 0xbf
    then fixed_text (m - 0xa0)
    else if leb 0xe0 m
    then fixed (num (negative (0x100 - m)))
    else shape_of_type m

unfoldable pub read_shape : TextCodec → Reader → Shape → Reader
read_shape t parse (fixed v) bs = ok (v, bs)
read_shape t parse (fixed_map n) bs = read_map parse n bs
read_shape t parse (fixed_array n) bs = read_array parse n bs
read_shape t parse (fixed_text n) bs = read_text t n bs
read_shape t parse (fixed_extension n) bs = read_extension n bs
read_shape t parse (sized_map k) bs = with_length k (read_map parse) bs
read_shape t parse (sized_array k) bs = with_length k (read_array parse) bs
read_shape t parse (sized_text k) bs = with_length k (read_text t) bs
read_shape t parse (sized_extension k) bs = with_length k read_extension bs
read_shape t parse (sized_bytes k) bs = with_length k read_bytes bs
read_shape t parse (number_of k number) bs = read_number k number bs
read_shape t parse unknown bs = unsupported

-- `parse`, which calls itself for what a collection holds.
unfoldable pub parse : TextCodec → ℕ → Reader
unfolding read_shape
parse t zero bs = stuck
parse t (suc fuel) [] = malformed
parse t (suc fuel) (m ∷ bs) = read_shape t (parse t fuel) (shape_of m) bs

-- The loop over the frame; `fuel` is for it and for each `parse`.
unfoldable pub parse_all : TextCodec → ℕ → ℕ → List ℕ → Decoded Values
unfolding parse
parse_all t fuel rounds [] = ok end
parse_all t fuel zero (b ∷ bs) = stuck
parse_all t fuel (suc rounds) (b ∷ bs) = do
  (v, rest) ← parse t fuel (b ∷ bs)
  vs ← parse_all t fuel rounds rest
  ok (item v vs)

-- Every value takes a byte at least.
unfoldable pub decode_msg_pack : TextCodec → List ℕ → Decoded Values
unfolding parse_all
decode_msg_pack t bs = parse_all t (suc (length bs)) (length bs) bs
