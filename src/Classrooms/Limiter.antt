-- ===== src/Classrooms/Limiter.antt =====
-- The limiter of failed joins in apps/control/src/classrooms.ts against the history of failures.
use mathlib.Core.List.{append_assoc, append-nil}
use code_runner.Prelude.{
  ℕ, ◌≤◌, List, [], ◌∷◌, ◌++◌, ◌||◌, ◌≡◌, refl, arith, inl, inr, Bool-cases, ap, sym, ◌∙◌,
  if◌then◌else◌, ltb, ◌+◌, leb, or_else, length, get, get-put, get-delete, ◌==◌,
}
use code_runner.Classrooms.{
  FailedAttemptLimiter, recent, prune_ips, prune, attempts_of, is_blocked, record_failure,
  new_limiter,
}

-- A call of the limiter: a failure of an address, or the question whether it is blocked.
pub data Call : Type 0 where
  fails asks : ℕ → ℕ → Call

unfoldable pub after : List Call → FailedAttemptLimiter → FailedAttemptLimiter
after [] l = l
after (fails ip now ∷ calls) l = after calls (record_failure ip now l)
after (asks ip now ∷ calls) l = after calls (is_blocked ip now l).0

-- The times of the failures of one address, and of all.
unfoldable pub failures_of : ℕ → List Call → List ℕ
failures_of ip [] = []
failures_of ip (fails j now ∷ calls) =
    if j == ip then now ∷ failures_of ip calls else failures_of ip calls
failures_of ip (asks j now ∷ calls) = failures_of ip calls

unfoldable pub failures : List Call → List ℕ
failures [] = []
failures (fails j now ∷ calls) = now ∷ failures calls
failures (asks j now ∷ calls) = failures calls

-- The clock does not go back, and it stands at or before `now` in the end.
abbrev pub InOrder : ℕ → List Call → ℕ → Type 0
InOrder last [] now = last ≤ now
InOrder last (fails ip time ∷ calls) now = (last ≤ time) × InOrder time calls now
InOrder last (asks ip time ∷ calls) now = (last ≤ time) × InOrder time calls now

recent-append :
    (w now : ℕ) (xs ys : List ℕ) → recent w now (xs ++ ys) ≡ recent w now xs ++ recent w now ys
unfolding recent
recent-append w now [] ys = refl
recent-append w now (x ∷ xs) ys = ground (arith, recent-append w now xs ys)

-- Pruning earlier does not show later.
recent-recent :
    (w early now : ℕ) (xs : List ℕ)
    → early ≤ now
    → recent w now (recent w early xs) ≡ recent w now xs
unfolding recent
recent-recent w early now [] h = refl
recent-recent w early now (x ∷ xs) h = ground (arith, recent-recent w early now xs h)

attempts-prune_ips :
    (w now ip : ℕ) (m : List (ℕ × List ℕ))
    → or_else (get ip (prune_ips w now m)) [] ≡ recent w now (or_else (get ip m) [])
unfolding prune_ips get recent
attempts-prune_ips w now ip [] = refl
attempts-prune_ips w now ip ((j, times) ∷ m) =
    ground (arith, attempts-prune_ips w now ip m, get-delete j ip (prune_ips w now m))

InOrder-le : (calls : List Call) (last now : ℕ) → InOrder last calls now → last ≤ now
InOrder-le [] last now h = h
InOrder-le (fails ip time ∷ calls) last now h = ground (arith, InOrder-le calls time now h.1)
InOrder-le (asks ip time ∷ calls) last now h = ground (arith, InOrder-le calls time now h.1)

-- What is recent of a list decides what is recent of its extensions.
recent-extended :
    (w now : ℕ) (xs ys zs : List ℕ)
    → recent w now xs ≡ recent w now ys
    → recent w now (xs ++ zs) ≡ recent w now (ys ++ zs)
recent-extended w now xs ys zs h =
    recent-append w now xs zs ∙ ap (λ l. l ++ recent w now zs) h ∙ sym (recent-append w now ys zs)

abbrev when_same : ℕ → ℕ → ℕ → List ℕ
when_same j ip time = if j == ip then time ∷ [] else []

attempts-record_failure :
    (ip j time : ℕ) (l : FailedAttemptLimiter)
    → attempts_of ip (record_failure j time l)
      ≡ recent l.window_ms time (attempts_of ip l) ++ when_same j ip time
unfolding record_failure prune
attempts-record_failure ip j time l = elim (Bool-cases (j == ip)) [
  | inl same ↦
      let this : j ≡ ip = ground arith in
      let pruned = attempts-prune_ips l.window_ms time j l.per_ip in
      rw (← this, get-put j j) (rw (pruned) (ground arith))
  | inr other ↦
      rw (get-put j ip, other)
        (rw (attempts-prune_ips l.window_ms time ip l.per_ip) (sym (append-nil _)))
]

failures_of-fails :
    (ip j time : ℕ) (calls : List Call)
    → failures_of ip (fails j time ∷ calls) ≡ when_same j ip time ++ failures_of ip calls
unfolding failures_of
failures_of-fails ip j time calls = ground arith

-- What is recent of an address after the calls: what was, and what failed since.
recent-after :
    (ip now : ℕ) (calls : List Call) (last : ℕ) (l : FailedAttemptLimiter)
    → InOrder last calls now
    → recent l.window_ms now (attempts_of ip (after calls l))
      ≡ recent l.window_ms now (attempts_of ip l ++ failures_of ip calls)
unfolding after is_blocked record_failure prune failures_of
recent-after ip now [] last l h = ap (recent l.window_ms now) (sym (append-nil (attempts_of ip l)))
recent-after ip now (asks j time ∷ calls) last l h =
    let w = l.window_ms in
    let pruned = prune time l in
    let old = attempts_of ip l in
    recent-after ip now calls time pruned h.1
    ∙ recent-extended w now (attempts_of ip pruned) old (failures_of ip calls) (
        ap (recent w now) (attempts-prune_ips w time ip l.per_ip)
        ∙ recent-recent w time now old (InOrder-le calls time now h.1))
recent-after ip now (fails j time ∷ calls) last l h =
    let w = l.window_ms in
    let old = attempts_of ip l in
    let more = failures_of ip calls in
    recent-after ip now calls time (record_failure j time l) h.1
    ∙ ap (λ x. recent w now (x ++ more)) (attempts-record_failure ip j time l)
    ∙ ap (recent w now) (append_assoc (recent w time old) (when_same j ip time) more)
    ∙ recent-extended w now (recent w time old) old (when_same j ip time ++ more)
        (recent-recent w time now old (InOrder-le calls time now h.1))
    ∙ ap (λ x. recent w now (old ++ x)) (sym (failures_of-fails ip j time calls))

recent-all-after :
    (now : ℕ) (calls : List Call) (last : ℕ) (l : FailedAttemptLimiter)
    → InOrder last calls now
    → recent l.window_ms now (after calls l).all ≡ recent l.window_ms now (l.all ++ failures calls)
unfolding after is_blocked record_failure prune failures
recent-all-after now [] last l h = ap (recent l.window_ms now) (sym (append-nil l.all))
recent-all-after now (asks j time ∷ calls) last l h =
    let w = l.window_ms in
    recent-all-after now calls time (prune time l) h.1
    ∙ recent-extended w now (recent w time l.all) l.all (failures calls)
        (recent-recent w time now l.all (InOrder-le calls time now h.1))
recent-all-after now (fails j time ∷ calls) last l h =
    let w = l.window_ms in
    let more = failures calls in
    recent-all-after now calls time (record_failure j time l) h.1
    ∙ ap (recent w now) (append_assoc (recent w time l.all) (time ∷ []) more)
    ∙ recent-extended w now (recent w time l.all) l.all (time ∷ more)
        (recent-recent w time now l.all (InOrder-le calls time now h.1))

abbrev Settings : FailedAttemptLimiter → FailedAttemptLimiter → Type 0
Settings k l =
    (k.window_ms ≡ l.window_ms) × (k.per_ip_max ≡ l.per_ip_max) × (k.global_max ≡ l.global_max)

after-Settings : (calls : List Call) (l : FailedAttemptLimiter) → Settings (after calls l) l
unfolding after is_blocked record_failure prune
after-Settings [] l = (refl, refl, refl)
after-Settings (asks j time ∷ calls) l = after-Settings calls (prune time l)
after-Settings (fails j time ∷ calls) l = after-Settings calls (record_failure j time l)

-- How many of the times lie within the last `window` milliseconds.
pub count_within : ℕ → ℕ → List ℕ → ℕ
count_within window now [] = 0
count_within window now (time ∷ times) =
    (if ltb now (time + window) then 1 else 0) + count_within window now times

length-recent :
    (window now : ℕ) (times : List ℕ)
    → length (recent window now times) ≡ count_within window now times
unfolding recent count_within
length-recent window now [] = refl
length-recent window now (time ∷ times) = ground (arith, length-recent window now times)

-- However its calls came, while the clock did not go back, the limiter blocks an address exactly
-- when, within the last `window` milliseconds, the address has failed at least `per_ip` times, or
-- all addresses together at least `total` times: what pruning forgets never counts.
pub is_blocked_iff :
    (window per_ip total : ℕ) (calls : List Call) (ip now : ℕ)
    → InOrder 0 calls now
    → (is_blocked ip now (after calls (new_limiter window per_ip total))).1 ≡ (
        leb per_ip (count_within window now (failures_of ip calls))
        || leb total (count_within window now (failures calls)))
unfolding is_blocked prune get
is_blocked_iff window per_ip total calls ip now h =
    let l = new_limiter window per_ip total in
    let k = after calls l in
    let (w, p, g) = after-Settings calls l in
    let one = attempts-prune_ips window now ip k.per_ip ∙ recent-after ip now calls 0 l h in
    let every = recent-all-after now calls 0 l h in
    rw (w, p, g)
      (rw
        (
          one,
          every,
          length-recent window now (failures_of ip calls),
          length-recent window now (failures calls),
        )
        refl)
