-- ===== src/Allowlist/Tests.antt =====
-- The allowlist of apps/control/src/auth/allowlist.ts with a domain and an email in it.
use code_runner.Prelude.{List, is_some, [], ◌∷◌, true, false, ◌≡◌, refl}
use code_runner.Prelude.Texts.{split, codes}
use code_runner.Prelude.Keyed.{has_by, add_by}
use code_runner.Allowlist.{
  Platform, email, domain, empty, normalize_entry, is_email_allowed, begin_add, begin_remove,
}
use code_runner.Allowlist.Overlap.{
  SaveEvent, begins_adding, ends, save_run, no_saves, overlapping_calls,
}
use code_runner.Allowlist.Normal.{IsPlatform}
use code_runner.Allowlist.Represents.{IsNormal, Op, add, run}

-- Texts that are lower case and trimmed as they come, and lists in the order of insertion.
abbrev platform : Platform
platform = record { normalize = λ s. s; sort = λ xs. xs }

platform-IsPlatform : IsPlatform platform
platform-IsPlatform = record { sort_keeps = λ x xs. refl; once = λ s. refl; plain = λ s h. refl }

abbrev ops : List Op
ops =
    add true domain (codes "@team.org")
    ∷ add true email (codes "a@b.co")
    ∷ add true email (codes "nobody")
    ∷ add false domain (codes "lost.org")
    ∷ []

allowed :
    (is_email_allowed platform (run platform ops empty) (codes "x@team.org") ≡ true)
    × (is_email_allowed platform (run platform ops empty) (codes "a@b.co") ≡ true)
    × (is_email_allowed platform (run platform ops empty) (codes "x@lost.org") ≡ false)
    × (is_email_allowed platform (run platform ops empty) (codes "x@team.org@evil.com") ≡ true)
unfolding is_email_allowed run split has_by add_by
allowed = (refl, refl, refl, refl)

-- Two additions that both begin on the empty list: the second to end takes the first one away.
abbrev overlapping : List SaveEvent
overlapping =
    begins_adding email (codes "a@b.co")
    ∷ begins_adding email (codes "c@d.co")
    ∷ ends true 0
    ∷ ends true 0
    ∷ []

lost :
    is_email_allowed platform (save_run platform overlapping no_saves).cached (codes "a@b.co")
    ≡ false
unfolding is_email_allowed save_run split has_by add_by
lost = refl

overlapping_calls_example :
    let d = (save_run platform overlapping no_saves).cached in
    (is_some (begin_add platform domain (codes "@team.org") d)
      ≡ is_some (normalize_entry platform domain (codes "@team.org")))
    × (is_some (begin_remove platform domain (codes "@team.org") d)
        ≡ is_some (normalize_entry platform domain (codes "@team.org")))
    × IsNormal platform d
overlapping_calls_example =
    overlapping_calls platform overlapping domain (codes "@team.org") platform-IsPlatform
