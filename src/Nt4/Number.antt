-- ===== src/Nt4/Number.antt =====
-- JavaScript numbers in apps/control/src/nt4-auto.ts: IEEE 754 doubles, where the whole ones that
-- are not negative are given as themselves and all others by their bits.
use code_runner.Prelude.{
  ℕ, zero, suc, ◌+◌, ◌-◌, ◌*◌, ◌/◌, ◌%◌, ◌^◌, Option, none, some, Bool, false, ◌&&◌, ◌||◌,
  if◌then◌else◌, ltb, leb, ◌==◌,
}

pub data Number : Type 0 where
  whole other : ℕ → Number

-- The place of the highest bit, for a number below `2 ^ fuel`.
unfoldable pub log2 : ℕ → ℕ → ℕ
log2 zero n = 0
log2 (suc fuel) n = let rest = log2 fuel (n / 2) in if ltb n 2 then 0 else suc rest

-- The double nearest to a number below `2 ^ 64`, with ties to even.
unfoldable pub nearest : ℕ → ℕ
unfolding log2
nearest n =
    let unit = 2 ^ (log2 64 n - 52) in
    let quotient = n / unit in
    let rest = n % unit in
    if ltb unit (2 * rest) || (2 * rest == unit && quotient % 2 == 1)
    then (quotient + 1) * unit
    else quotient * unit

-- The bits of the double nearest to a number that is not 0.
unfoldable pub bits_of : ℕ → ℕ
unfolding nearest log2
bits_of n =
    let m = nearest n in
    let k = log2 65 m in
    (1023 + k) * 2 ^ 52
    + (if leb k 52 then (m - 2 ^ k) * 2 ^ (52 - k) else (m - 2 ^ k) / 2 ^ (k - 52))

-- A number below 0.
abbrev pub negative : ℕ → Number
negative n = other (2 ^ 63 + bits_of n)

-- The whole number that the bits stand for, if it is one and is not negative; -0 counts as 0.
unfoldable pub whole_of : ℕ → Option ℕ
whole_of bits =
    let exponent = bits / 2 ^ 52 % 2048 in
    let significand = 2 ^ 52 + bits % 2 ^ 52 in
    if bits % 2 ^ 63 == 0
    then some 0
    else if leb (2 ^ 63) bits || exponent == 2047 || ltb exponent 1023
    then none
    else if leb 1075 exponent
    then some (significand * 2 ^ (exponent - 1075))
    else if significand % 2 ^ (1075 - exponent) == 0
    then some (significand / 2 ^ (1075 - exponent))
    else none

-- `getFloat64`
unfoldable pub of_bits : ℕ → Number
unfolding whole_of
of_bits bits = elim (whole_of bits) [ some n ↦ whole n | none ↦ other bits ]

-- The bits of a double that equals a single-precision number.
unfoldable pub widen : ℕ → ℕ
unfolding log2
widen bits =
    let sign = bits / 2 ^ 31 * 2 ^ 63 in
    let exponent = bits / 2 ^ 23 % 256 in
    let fraction = bits % 2 ^ 23 in
    let k = log2 23 fraction in
    if exponent == 255
    then sign + 2047 * 2 ^ 52 + fraction * 2 ^ 29
    else if ltb 0 exponent
    then sign + (exponent + 896) * 2 ^ 52 + fraction * 2 ^ 29
    else if fraction == 0
    then sign
    else sign + (k + 874) * 2 ^ 52 + (fraction - 2 ^ k) * 2 ^ (52 - k)

-- `value < 0`; a NaN is not.
abbrev pub is_negative : Number → Bool
is_negative (whole n) = false
is_negative (other bits) = leb (2 ^ 63) bits && leb (bits % 2 ^ 63) (2047 * 2 ^ 52)

-- The keys of a Map are the same.
abbrev pub same_number : Number → Number → Bool
same_number (whole m) (whole n) = m == n
same_number (other m) (other n) = m == n
same_number _ _ = false

-- `Math.max(0, Math.floor(value))`, and 0 for a NaN, which no count is below; `none` for infinity.
unfoldable pub floor_of : Number → Option ℕ
floor_of (whole n) = some n
floor_of (other bits) =
    let exponent = bits / 2 ^ 52 % 2048 in
    let significand = 2 ^ 52 + bits % 2 ^ 52 in
    if leb (2 ^ 63) bits || ltb exponent 1023
    then some 0
    else if exponent == 2047
    then if bits % 2 ^ 52 == 0 then none else some 0
    else some (significand / 2 ^ (1075 - exponent))
