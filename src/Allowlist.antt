-- ===== src/Allowlist.antt =====
-- apps/control/src/auth/allowlist.ts: who may sign in. The list is kept in memory and written to a
-- file; the file system, `trim().toLowerCase()` and the order of `sort` are parameters.
pub mod Members
pub mod Normal
pub mod Represents
pub mod Overlap
mod Tests
use code_runner.Prelude.{
  ℕ, zero, suc, List, [], ◌∷◌, ◌++◌, Option, none, some, Bool, true, false, ◌&&◌, ◌||◌, not,
  if◌then◌else◌, ltb, leb, ◌==◌, length,
}
use code_runner.Prelude.Texts.{Text, same, split}
use code_runner.Prelude.Keyed.{has_by, add_by}

pub record AllowlistData : Type 0 where
  pub emails : List Text
  pub domains : List Text

abbrev pub empty : AllowlistData
empty = record { emails = []; domains = [] }

pub record Platform : Type 0 where
  pub normalize : Text → Text
  pub sort : List Text → List Text

pub data Kind : Type 0 where
  email domain : Kind

-- `\s`
abbrev is_space : ℕ → Bool
is_space c =
    (leb 9 c && leb c 13)
    || (c == 32)
    || (c == 0xa0)
    || (c == 0x1680)
    || (leb 0x2000 c && leb c 0x200a)
    || (c == 0x2028)
    || (c == 0x2029)
    || (c == 0x202f)
    || (c == 0x205f)
    || (c == 0x3000)
    || (c == 0xfeff)

-- `[^\s@]+`
abbrev plain_only : Text → Bool
plain_only [] = true
plain_only (c ∷ s) = not (is_space c) && not (c == b'@') && plain_only s

abbrev is_some_text : Text → Bool
is_some_text [] = false
is_some_text (c ∷ s) = true

-- A dot, with something behind it.
abbrev inner_dot : Text → Bool
inner_dot [] = false
inner_dot (c ∷ s) = ((c == b'.') && is_some_text s) || inner_dot s

-- `[^\s@]+\.[^\s@]+`
abbrev is_host : Text → Bool
is_host [] = false
is_host (c ∷ s) = plain_only (c ∷ s) && inner_dot s

-- What follows the first `@`, where something plain stands before it.
abbrev after_at : Text → Bool
after_at [] = false
after_at (c ∷ s) =
    let rest = after_at s in if c == b'@' then is_host s else not (is_space c) && rest

-- `/^[^\s@]+@[^\s@]+\.[^\s@]+$/u`
unfoldable pub is_email : Text → Bool
is_email [] = false
is_email (c ∷ s) = not (is_space c) && not (c == b'@') && after_at s

abbrev is_alnum : ℕ → Bool
is_alnum c = (leb b'a' c && leb c b'z') || (leb b'0' c && leb c b'9')

abbrev all_label : Text → Bool
all_label [] = true
all_label (c ∷ s) = (is_alnum c || (c == b'-')) && all_label s

abbrev last_alnum : Text → Bool
last_alnum [] = false
last_alnum (c ∷ []) = is_alnum c
last_alnum (c ∷ d ∷ s) = last_alnum (d ∷ s)

-- `[a-z0-9](?:[a-z0-9-]{0,61}[a-z0-9])?`
abbrev is_label : Text → Bool
is_label [] = false
is_label (c ∷ s) = is_alnum c && all_label s && last_alnum (c ∷ s) && leb (length (c ∷ s)) 63

abbrev all_labels : List Text → Bool
all_labels [] = true
all_labels (l ∷ ls) = is_label l && all_labels ls

-- Two labels at least, with dots between them.
unfoldable pub is_domain : Text → Bool
unfolding split
is_domain s = leb 2 (length (split b'.' s)) && all_labels (split b'.' s)

abbrev drop_at : Text → Text
drop_at [] = []
drop_at (c ∷ s) = if c == b'@' then s else c ∷ s

-- `none` where it throws. An empty value is no email and no domain.
unfoldable pub normalize_entry : Platform → Kind → Text → Option Text
unfolding is_email is_domain
normalize_entry p email value =
    let normalized = p.normalize value in if is_email normalized then some normalized else none
normalize_entry p domain value =
    let name = drop_at (p.normalize value) in if is_domain name then some name else none

abbrev cons_both : Option Text → Option (List Text) → Option (List Text)
cons_both (some x) (some xs) = some (x ∷ xs)
cons_both x xs = none

-- `map` with a function that throws.
unfoldable pub normalize_all : Platform → Kind → List Text → Option (List Text)
unfolding normalize_entry
normalize_all p kind [] = some []
normalize_all p kind (x ∷ xs) = cons_both (normalize_entry p kind x) (normalize_all p kind xs)

-- `[...new Set(entries)]`
unfoldable pub distinct : List Text → List Text → List Text
distinct seen [] = seen
distinct seen (x ∷ xs) = distinct (add_by same x seen) xs

abbrev listed : Option (List Text) → Option (List Text) → Option AllowlistData
listed (some emails) (some domains) = some (record { emails = emails; domains = domains })
listed emails domains = none

abbrev tidy : Platform → Option (List Text) → Option (List Text)
tidy p none = none
tidy p (some xs) = some (p.sort (distinct [] xs))

-- What `saveAllowlist` writes; `none` where an entry throws.
unfoldable pub to_save : Platform → AllowlistData → Option AllowlistData
unfolding normalize_all distinct
to_save p data' =
    listed (tidy p (normalize_all p email data'.emails))
      (tidy p (normalize_all p domain data'.domains))

-- What is left of a call once the file is written, or is not: `written` says whether the path is
-- set and the file could be written, `cached` is the list in memory at that time, and the flag is
-- false where the call throws. Other calls may have come and gone since the call began.
unfoldable pub end_save : Bool → Option AllowlistData → AllowlistData → AllowlistData × Bool
end_save written none cached = (cached, false)
end_save written (some saved) cached = if written then (saved, true) else (cached, false)

-- `saveAllowlist` without another call between its start and its end.
abbrev pub save_allowlist : Platform → Bool → AllowlistData → AllowlistData → AllowlistData × Bool
save_allowlist p written data' cached = end_save written (to_save p data') cached

-- `if (!list.includes(normalized)) list.push(normalized);`
abbrev pub push_new : Text → List Text → List Text
push_new x xs = if has_by same x xs then xs else xs ++ (x ∷ [])

abbrev pub drop_text : Text → List Text → List Text
drop_text x [] = []
drop_text x (y ∷ ys) = let rest = drop_text x ys in if same x y then rest else y ∷ rest

abbrev pub change : (List Text → List Text) → Kind → AllowlistData → AllowlistData
change f email d = record d { emails = f d.emails }
change f domain d = record d { domains = f d.domains }

-- `addAllowlistEntry` up to its wait for the file: the list that it is going to write, made of the
-- list in memory when it began; `none` where it throws.
unfoldable pub begin_add : Platform → Kind → Text → AllowlistData → Option AllowlistData
unfolding normalize_entry to_save
begin_add p kind value cached = elim (normalize_entry p kind value) [
  | none ↦ none
  | some x ↦ to_save p (change (push_new x) kind cached)
]

-- `removeAllowlistEntry` up to its wait.
unfoldable pub begin_remove : Platform → Kind → Text → AllowlistData → Option AllowlistData
unfolding normalize_entry to_save
begin_remove p kind value cached = elim (normalize_entry p kind value) [
  | none ↦ none
  | some x ↦ to_save p (change (drop_text x) kind cached)
]

-- The two calls without another call between their start and their end.
unfoldable pub add_allowlist_entry :
    Platform → Bool → Kind → Text → AllowlistData → AllowlistData × Bool
unfolding begin_add end_save
add_allowlist_entry p written kind value cached =
    end_save written (begin_add p kind value cached) cached

unfoldable pub remove_allowlist_entry :
    Platform → Bool → Kind → Text → AllowlistData → AllowlistData × Bool
unfolding begin_remove end_save
remove_allowlist_entry p written kind value cached =
    end_save written (begin_remove p kind value cached) cached

-- What reading and parsing the file gives: no file, an error, or the lists in it.
pub data Contents : Type 0 where
  missing broken : Contents
  lists : List Text → List Text → Contents

abbrev in_memory : Option AllowlistData → AllowlistData → AllowlistData × Bool
in_memory none cached = (cached, false)
in_memory (some loaded) cached = (loaded, true)

-- `loadAllowlist`, where the path is set.
unfoldable pub load_allowlist : Platform → Contents → AllowlistData → AllowlistData × Bool
unfolding normalize_all
load_allowlist p missing cached = (empty, true)
load_allowlist p broken cached = (cached, false)
load_allowlist p (lists emails domains) cached =
    in_memory (listed (normalize_all p email emails) (normalize_all p domain domains)) cached

-- `parts[1]`
abbrev pub second : List Text → Option Text
second (a ∷ b ∷ parts) = some b
second parts = none

-- `domain && cached.domains.includes(domain)`
abbrev pub domain_allowed : (Text → Bool) → Option Text → Bool
domain_allowed includes none = false
domain_allowed includes (some d) = is_some_text d && includes d

unfoldable pub is_email_allowed : Platform → AllowlistData → Text → Bool
unfolding split
is_email_allowed p cached value =
    let normalized = p.normalize value in
    has_by same normalized cached.emails
    || domain_allowed (λ d. has_by same d cached.domains) (second (split b'@' normalized))
