-- ===== src/PreviewToken.antt =====
-- apps/control/src/app/preview-token.ts: the tokens that let a preview read one workspace's project.
-- HMAC-SHA256 in base64url is a parameter. It gives ASCII text, so that comparing it as bytes is
-- comparing it as text.
pub mod RoundTrip
mod Tests
use code_runner.Prelude.{
  ℕ, zero, suc, ◌+◌, ◌-◌, ◌*◌, ◌/◌, ◌%◌, List, [], ◌∷◌, ◌++◌, Bool, true, false, ◌&&◌, not,
  if◌then◌else◌, ltb, leb, length,
}
use code_runner.Prelude.Texts.{Text, codes, same, split}

abbrev pub token_version : Text
token_version = codes "p1"

abbrev pub preview_token_ttl_seconds : ℕ
preview_token_ttl_seconds = 15 * 60

abbrev signing_label : Text
signing_label = codes "coderunner.preview.v1"

-- A number in decimal, of at most `fuel` digits.
unfoldable pub decimal_text : ℕ → ℕ → Text
decimal_text zero n = []
decimal_text (suc fuel) n =
    let front = decimal_text fuel (n / 10) in
    if ltb n 10 then (b'0' + n) ∷ [] else front ++ ((b'0' + n % 10) ∷ [])

-- The times have at most 15 digits, as `verifyPreviewToken` wants them.
abbrev pub max_digits : ℕ
max_digits = 15

unfoldable pub sign : (Text → Text → Text) → Text → Text → ℕ → Text
sign hmac secret workspace_id expires_at =
    hmac secret
      (signing_label ++ (b'.' ∷ (workspace_id ++ (b'.' ∷ decimal_text max_digits expires_at))))

abbrev pub token_of : Text → Text → Text
token_of expires_at_raw signature = token_version ++ (b'.' ∷ (expires_at_raw ++ (b'.' ∷ signature)))

pub record Minted : Type 0 where
  pub token : Text
  pub expires_in : ℕ

unfoldable pub mint_preview_token : (Text → Text → Text) → Text → Text → ℕ → Minted
mint_preview_token hmac secret workspace_id now_seconds =
    let expires_at = now_seconds + preview_token_ttl_seconds in
    record {
      token =
          token_of (decimal_text max_digits expires_at) (sign hmac secret workspace_id expires_at);
      expires_in = preview_token_ttl_seconds;
    }

abbrev pub is_digit : ℕ → Bool
is_digit c = leb b'0' c && leb c b'9'

abbrev pub all_digits : Text → Bool
all_digits [] = true
all_digits (c ∷ s) = is_digit c && all_digits s

-- `/^\d{1,15}$/`
abbrev pub is_time : Text → Bool
is_time s = all_digits s && leb 1 (length s) && leb (length s) max_digits

-- `Number(expiresAtRaw)`, of digits
unfoldable pub number_of : ℕ → Text → ℕ
number_of value [] = value
number_of value (c ∷ s) = number_of (value * 10 + (c - b'0')) s

unfoldable pub verify_parts : (Text → Text → Text) → Text → Text → ℕ → List Text → Bool
verify_parts hmac secret workspace_id now_seconds (version ∷ expires_at_raw ∷ signature ∷ []) =
    same version token_version
    && is_time expires_at_raw
    && not (leb (number_of 0 expires_at_raw) now_seconds)
    && same (sign hmac secret workspace_id (number_of 0 expires_at_raw)) signature
verify_parts hmac secret workspace_id now_seconds parts = false

unfoldable pub verify_preview_token : (Text → Text → Text) → Text → Text → Text → ℕ → Bool
unfolding verify_parts
verify_preview_token hmac secret workspace_id token now_seconds =
    verify_parts hmac secret workspace_id now_seconds (split b'.' token)
