-- ===== src/PreviewToken/Tests.antt =====
-- A preview token of apps/control/src/app/preview-token.ts, with a small signature.
use native.Mathlib.Omega.{arith}
use code_runner.Prelude.{◌+◌, [], ◌∷◌, true, false, ◌&&◌, not, leb, length, ◌≡◌, refl}
use code_runner.Prelude.Texts.{Text, codes, same, split}
use code_runner.PreviewToken.{
  preview_token_ttl_seconds, decimal_text, number_of, sign, mint_preview_token, verify_parts,
  verify_preview_token,
}
use code_runner.PreviewToken.RoundTrip.{dotless, verify_preview_token-mint_preview_token}

-- One code unit, above those of ASCII.
abbrev hmac : Text → Text → Text
hmac key message = (length key + length message + 128) ∷ []

hmac-dotless : (key message : Text) → dotless (hmac key message) ≡ true
hmac-dotless key message = ground arith

abbrev secret : Text
secret = codes "s"

accepted :
    verify_preview_token hmac secret
      (codes "w1")
      (mint_preview_token hmac secret (codes "w1") 1000).token
      1899
    ≡ true
unfolding verify_preview_token mint_preview_token verify_parts split sign decimal_text number_of
accepted = refl

expired :
    verify_preview_token hmac secret
      (codes "w1")
      (mint_preview_token hmac secret (codes "w1") 1000).token
      1900
    ≡ false
unfolding verify_preview_token mint_preview_token verify_parts split sign decimal_text number_of
expired = refl

verify_preview_token-mint_preview_token_example :
    verify_preview_token hmac secret
      (codes "w23")
      (mint_preview_token hmac secret (codes "w1") 1000).token
      1500
    ≡ (not (leb (1000 + preview_token_ttl_seconds) 1500)
        && same
            (sign hmac secret (codes "w23") (1000 + preview_token_ttl_seconds))
            (sign hmac secret (codes "w1") (1000 + preview_token_ttl_seconds)))
verify_preview_token-mint_preview_token_example =
    verify_preview_token-mint_preview_token hmac secret (codes "w1") (codes "w23") 1000 1500
      hmac-dotless (omega arith)
