-- ===== src/PreviewToken/RoundTrip.antt =====
-- What a token of apps/control/src/app/preview-token.ts is good for.
use native.Mathlib.Nat.{pow-suc}
use code_runner.Prelude.{
  ℕ, zero, suc, ◌+◌, ◌-◌, ◌*◌, ◌/◌, ◌%◌, ◌^◌, ◌≤◌, ◌<◌, [], ◌∷◌, ◌++◌, Bool, true, false, ◌&&◌, not,
  if◌then◌else◌, ltb, leb, ◌==◌, length, length-append, ◌≡◌, refl, ap, ◌∙◌, inl, inr, Bool-cases,
  arith,
}
use code_runner.Prelude.Texts.{Text, same, split, grow}
use code_runner.PreviewToken.{
  token_version, preview_token_ttl_seconds, decimal_text, max_digits, sign, token_of,
  mint_preview_token, is_digit, all_digits, is_time, number_of, verify_parts, verify_preview_token,
}

-- No dot in a text.
abbrev pub dotless : Text → Bool
dotless [] = true
dotless (c ∷ s) = not (c == b'.') && dotless s

both_true : (a b : Bool) → (a && b) ≡ true → (a ≡ true) × (b ≡ true)
both_true true b h = (refl, h)
both_true false b h = cc

true_of_not : (a : Bool) → not a ≡ true → a ≡ false
true_of_not true h = cc
true_of_not false h = refl

if-false {ℓ} : {A : Type ℓ} {t : Bool} {y : A} (x : A) → t ≡ false → (if t then x else y) ≡ y
if-false {t} {y} x e = rw e refl

split-dotless : (s : Text) → dotless s ≡ true → split b'.' s ≡ s ∷ []
unfolding split
split-dotless [] h = refl
split-dotless (c ∷ s) h =
    let (first, rest) = both_true (not (c == b'.')) (dotless s) h in
    if-false _ (true_of_not (c == b'.') first) ∙ ap (grow c) (split-dotless s rest)

split-dot :
    (s rest : Text) → dotless s ≡ true → split b'.' (s ++ (b'.' ∷ rest)) ≡ s ∷ split b'.' rest
unfolding split
split-dot [] rest h = refl
split-dot (c ∷ s) rest h =
    let (first, others) = both_true (not (c == b'.')) (dotless s) h in
    if-false _ (true_of_not (c == b'.') first) ∙ ap (grow c) (split-dot s rest others)

number_of-append :
    (value c : ℕ) (s : Text) → number_of value (s ++ (c ∷ [])) ≡ number_of value s * 10 + (c - b'0')
unfolding number_of
number_of-append value c [] = refl
number_of-append value c (d ∷ s) = number_of-append (value * 10 + (d - b'0')) c s

tenth : (fuel n : ℕ) → n < 10 ^ suc fuel → n / 10 < 10 ^ fuel
tenth fuel n h = let e : 10 ^ suc fuel ≡ 10 ^ fuel * 10 = pow-suc 10 fuel in omega arith

number_of-decimal_text : (fuel n : ℕ) → n < 10 ^ fuel → number_of 0 (decimal_text fuel n) ≡ n
unfolding decimal_text number_of
number_of-decimal_text zero n h = omega arith
number_of-decimal_text (suc fuel) n h = elim (Bool-cases (ltb n 10)) [
  | inl e ↦ rw e (omega arith)
  | inr e ↦ rw e (
      number_of-append 0 (b'0' + n % 10) (decimal_text fuel (n / 10))
      ∙ ap (λ i. i * 10 + (b'0' + n % 10 - b'0'))
          (number_of-decimal_text fuel (n / 10) (tenth fuel n h))
      ∙ (omega arith))
]

all_digits-append :
    (s : Text) (c : ℕ) → all_digits s ≡ true → is_digit c ≡ true → all_digits (s ++ (c ∷ [])) ≡ true
all_digits-append [] c h e = rw e refl
all_digits-append (d ∷ s) c h e =
    let (first, rest) = both_true (is_digit d) (all_digits s) h in
    ap (λ b. b && all_digits (s ++ (c ∷ []))) first ∙ all_digits-append s c rest e

decimal_text-digits : (fuel n : ℕ) → all_digits (decimal_text fuel n) ≡ true
unfolding decimal_text
decimal_text-digits zero n = refl
decimal_text-digits (suc fuel) n = elim (Bool-cases (ltb n 10)) [
  | inl e ↦ rw e (ground arith)
  | inr e ↦ rw e (
      all_digits-append (decimal_text fuel (n / 10)) (b'0' + n % 10)
        (decimal_text-digits fuel (n / 10)) (ground arith))
]

decimal_text-short : (fuel n : ℕ) → length (decimal_text fuel n) ≤ fuel
unfolding decimal_text
decimal_text-short zero n = omega arith
decimal_text-short (suc fuel) n = elim (Bool-cases (ltb n 10)) [
  | inl e ↦ rw e (omega arith)
  | inr e ↦ rw e (
      omega (
        arith,
        decimal_text-short fuel (n / 10),
        length-append (decimal_text fuel (n / 10)) ((b'0' + n % 10) ∷ []),
      ))
]

decimal_text-some : (fuel n : ℕ) → 1 ≤ length (decimal_text (suc fuel) n)
unfolding decimal_text
decimal_text-some fuel n = elim (Bool-cases (ltb n 10)) [
  | inl e ↦ rw e (omega arith)
  | inr e ↦ rw e (omega (arith, length-append (decimal_text fuel (n / 10)) ((b'0' + n % 10) ∷ [])))
]

digit_is_no_dot : (c : ℕ) → is_digit c ≡ true → not (c == b'.') ≡ true
digit_is_no_dot c h = ground arith

all_digits-dotless : (s : Text) → all_digits s ≡ true → dotless s ≡ true
all_digits-dotless [] h = refl
all_digits-dotless (c ∷ s) h =
    let (first, rest) = both_true (is_digit c) (all_digits s) h in
    ap (λ b. b && dotless s) (digit_is_no_dot c first) ∙ all_digits-dotless s rest

time_text :
    (s : Text) → all_digits s ≡ true → 1 ≤ length s → length s ≤ max_digits → is_time s ≡ true
time_text s d some_digit short = rw d (ground arith)

decimal_text-is_time : (n : ℕ) → is_time (decimal_text max_digits n) ≡ true
decimal_text-is_time n =
    time_text (decimal_text max_digits n) (decimal_text-digits max_digits n)
      (decimal_text-some 14 n) (decimal_text-short max_digits n)

split-token_of :
    (raw signature : Text)
    → dotless raw ≡ true
    → dotless signature ≡ true
    → split b'.' (token_of raw signature) ≡ token_version ∷ raw ∷ signature ∷ []
split-token_of raw signature h g =
    split-dot token_version (raw ++ (b'.' ∷ signature)) refl
    ∙ ap (λ parts. token_version ∷ parts) (split-dot raw signature h)
    ∙ ap (λ parts. token_version ∷ raw ∷ parts) (split-dotless signature g)

sign-dotless :
    (hmac : Text → Text → Text) (secret workspace_id : Text) (e : ℕ)
    → ((key message : Text) → dotless (hmac key message) ≡ true)
    → dotless (sign hmac secret workspace_id e) ≡ true
unfolding sign
sign-dotless hmac secret workspace_id e clean = clean secret _

checked : (a b c d : Bool) → a ≡ true → b ≡ true → (a && b && c && d) ≡ (c && d)
checked a b c d h g = rw (h, g) refl

verify_parts-live :
    (hmac : Text → Text → Text) (secret workspace_id : Text) (later e : ℕ) (raw signature : Text)
    → is_time raw ≡ true
    → number_of 0 raw ≡ e
    → verify_parts hmac secret workspace_id later (token_version ∷ raw ∷ signature ∷ [])
      ≡ (not (leb e later) && same (sign hmac secret workspace_id e) signature)
unfolding verify_parts
verify_parts-live hmac secret workspace_id later e raw signature time number =
    checked (same token_version token_version) (is_time raw) (not (leb (number_of 0 raw) later))
      (same (sign hmac secret workspace_id (number_of 0 raw)) signature) refl time
    ∙ ap (λ n. not (leb n later) && same (sign hmac secret workspace_id n) signature) number

-- A token that was minted for a workspace is accepted for a workspace exactly until it expires, 900
-- seconds after it was minted, and if both workspaces have the same signature for that time, provided
-- that signatures have no dot, as in base64url, and the time has 15 digits at most.
pub verify_preview_token-mint_preview_token :
    (hmac : Text → Text → Text) (secret minted_for workspace_id : Text) (now later : ℕ)
    → ((key message : Text) → dotless (hmac key message) ≡ true)
    → now + preview_token_ttl_seconds < 10 ^ max_digits
    → verify_preview_token hmac secret workspace_id
        (mint_preview_token hmac secret minted_for now).token
        later
      ≡ (not (leb (now + preview_token_ttl_seconds) later)
          && same
              (sign hmac secret workspace_id (now + preview_token_ttl_seconds))
              (sign hmac secret minted_for (now + preview_token_ttl_seconds)))
unfolding verify_preview_token mint_preview_token
verify_preview_token-mint_preview_token hmac secret minted_for workspace_id now later clean fits =
    let e = now + preview_token_ttl_seconds in
    let raw = decimal_text max_digits e in
    let signature = sign hmac secret minted_for e in
    ap (verify_parts hmac secret workspace_id later) (
      split-token_of raw signature (all_digits-dotless raw (decimal_text-digits max_digits e))
        (sign-dotless hmac secret minted_for e clean))
    ∙ verify_parts-live hmac secret workspace_id later e raw signature (decimal_text-is_time e)
        (number_of-decimal_text max_digits e fits)
