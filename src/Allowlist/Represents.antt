-- ===== src/Allowlist/Represents.antt =====
-- The lists of apps/control/src/auth/allowlist.ts against the plain idea of an allowlist: two sets,
-- of emails and of domains, that the calls change.
use mathlib.Core.Path.{subst}
use code_runner.Prelude.{
  List, [], ◌∷◌, Option, none, some, Bool, true, false, ◌&&◌, ◌||◌, not, ◌≡◌, refl, sym, ap, ◌∙◌,
  inl, inr, Bool-cases, if◌then◌else◌,
}
use code_runner.Prelude.Texts.{split, Text, same, same→eq}
use code_runner.Prelude.Keyed.{has_by}
use code_runner.Allowlist.{
  AllowlistData, empty, Platform, Kind, email, domain, normalize_entry, normalize_all, distinct,
  to_save, tidy, listed, in_memory, push_new, drop_text, change, add_allowlist_entry,
  remove_allowlist_entry, Contents, missing, broken, lists, load_allowlist, second, domain_allowed,
}
use code_runner.Allowlist.Normal.{IsPlatform, normalize_all-normal, normalize_all_result}
use code_runner.Allowlist.Members.{has-push_new, has-drop_text, has-distinct}

-- Whether an entry is in a set.
abbrev pub Entries : Type 0
Entries = Kind → Text → Bool

abbrev same_kind : Kind → Kind → Bool
same_kind email email = true
same_kind domain domain = true
same_kind _ _ = false

abbrev with_entry : Kind → Text → Entries → Entries
with_entry kind x m k y = (same_kind kind k && same x y) || m k y

abbrev without_entry : Kind → Text → Entries → Entries
without_entry kind x m k y = not (same_kind kind k && same x y) && m k y

abbrev pub list_of : AllowlistData → Kind → List Text
list_of d email = d.emails
list_of d domain = d.domains

abbrev pub entries_of : AllowlistData → Entries
entries_of d kind x = has_by same x (list_of d kind)

pub data Op : Type 0 where
  add remove : Bool → Kind → Text → Op
  load : Contents → Op

unfoldable pub step : Platform → Op → AllowlistData → AllowlistData
unfolding add_allowlist_entry remove_allowlist_entry load_allowlist
step p (add written kind value) d = (add_allowlist_entry p written kind value d).0
step p (remove written kind value) d = (remove_allowlist_entry p written kind value d).0
step p (load contents) d = (load_allowlist p contents d).0

unfoldable pub run : Platform → List Op → AllowlistData → AllowlistData
unfolding step
run p [] d = d
run p (op ∷ ops) d = run p ops (step p op d)

abbrev changed : (Text → Entries → Entries) → Bool → Option Text → Entries → Entries
changed f written none m = m
changed f written (some x) m = if written then f x m else m

abbrev loaded : Option AllowlistData → Entries → Entries
loaded none m = m
loaded (some d) m = entries_of d

-- The same on the sets: an entry that is valid and could be written is added or removed.
unfoldable pub abstract_step : Platform → Op → Entries → Entries
abstract_step p (add written kind value) m =
    changed (with_entry kind) written (normalize_entry p kind value) m
abstract_step p (remove written kind value) m =
    changed (without_entry kind) written (normalize_entry p kind value) m
abstract_step p (load missing) m = λ kind x. false
abstract_step p (load broken) m = m
abstract_step p (load (lists emails domains)) m =
    loaded (listed (normalize_all p email emails) (normalize_all p domain domains)) m

unfoldable pub abstract_run : Platform → List Op → Entries → Entries
unfolding abstract_step
abstract_run p [] m = m
abstract_run p (op ∷ ops) m = abstract_run p ops (abstract_step p op m)

unfoldable pub IsNormal : Platform → AllowlistData → Type 0
IsNormal p d =
    (kind : Kind) (x : Text) → entries_of d kind x ≡ true → normalize_entry p kind x ≡ some x

second_true : (a b : Bool) → (a && b) ≡ true → b ≡ true
second_true true b h = h
second_true false b h = cc

module _ (p : Platform) (platform : IsPlatform p) where
  tidy-normal :
      (kind : Kind) (xs : List Text)
      → ((x : Text) → has_by same x xs ≡ true → normalize_entry p kind x ≡ some x)
      → tidy p (normalize_all p kind xs) ≡ some (p.sort (distinct [] xs))
  tidy-normal kind xs normal = ap (tidy p) (normalize_all-normal p platform kind xs normal)

  tidied : (x : Text) (xs : List Text) → has_by same x (p.sort (distinct [] xs)) ≡ has_by same x xs
  unfolding has_by
  tidied x xs = platform.sort_keeps x (distinct [] xs) ∙ has-distinct x [] xs

  abbrev pub tidied_data : AllowlistData → AllowlistData
  tidied_data d = record {
    emails = p.sort (distinct [] d.emails);
    domains = p.sort (distinct [] d.domains);
  }

  pub to_save-normal : (d : AllowlistData) → IsNormal p d → to_save p d ≡ some (tidied_data d)
  unfolding to_save IsNormal
  to_save-normal d normal =
      ap (λ o. listed o (tidy p (normalize_all p domain d.domains)))
        (tidy-normal email d.emails (normal email))
      ∙ ap (listed (some (p.sort (distinct [] d.emails))))
          (tidy-normal domain d.domains (normal domain))

  pub tidied-entries :
      (d : AllowlistData) (kind : Kind) (x : Text)
      → entries_of (tidied_data d) kind x ≡ entries_of d kind x
  tidied-entries d email x = tidied x d.emails
  tidied-entries d domain x = tidied x d.domains

  pushed :
      (kind : Kind) (x : Text) (d : AllowlistData) (k : Kind) (y : Text)
      → entries_of (change (push_new x) kind d) k y
        ≡ ((same_kind kind k && same x y) || entries_of d k y)
  pushed email x d email y = has-push_new y x d.emails
  pushed email x d domain y = refl
  pushed domain x d email y = refl
  pushed domain x d domain y = has-push_new y x d.domains

  dropped :
      (kind : Kind) (x : Text) (d : AllowlistData) (k : Kind) (y : Text)
      → entries_of (change (drop_text x) kind d) k y
        ≡ (not (same_kind kind k && same x y) && entries_of d k y)
  dropped email x d email y = has-drop_text y x d.emails
  dropped email x d domain y = refl
  dropped domain x d email y = refl
  dropped domain x d domain y = has-drop_text y x d.domains

  -- The lists are normal, and hold what the sets hold.
  pub record Represents (d : AllowlistData) (m : Entries) : Type 0 where
    pub normal : IsNormal p d
    pub agree : (kind : Kind) (x : Text) → entries_of d kind x ≡ m kind x

  same_place :
      (kind k : Kind) (x y : Text)
      → (same_kind kind k && same x y) ≡ true
      → normalize_entry p kind x ≡ some x
      → normalize_entry p k y ≡ some y
  same_place email email x y h fits =
      subst (λ z. normalize_entry p email z ≡ some z) (same→eq x y h) fits
  same_place domain domain x y h fits =
      subst (λ z. normalize_entry p domain z ≡ some z) (same→eq x y h) fits
  same_place email domain x y h fits = cc
  same_place domain email x y h fits = cc

  pub with_entry-Represents :
      (kind : Kind) (x : Text) (d : AllowlistData) (m : Entries)
      → normalize_entry p kind x ≡ some x
      → Represents d m
      → Represents (change (push_new x) kind d) (with_entry kind x m)
  unfolding IsNormal
  with_entry-Represents kind x d m fits old = record {
    normal = λ k y h. elim (Bool-cases (same_kind kind k && same x y)) [
      | inl e ↦ same_place kind k x y e fits
      | inr e ↦
          old.normal k y (sym (ap (λ b. b || entries_of d k y) e) ∙ sym (pushed kind x d k y) ∙ h)
    ];
    agree =
        λ k y. pushed kind x d k y ∙ ap (λ b. (same_kind kind k && same x y) || b) (old.agree k y);
  }

  pub without_entry-Represents :
      (kind : Kind) (x : Text) (d : AllowlistData) (m : Entries)
      → Represents d m
      → Represents (change (drop_text x) kind d) (without_entry kind x m)
  unfolding IsNormal
  without_entry-Represents kind x d m old = record {
    normal = λ k y h. old.normal k y (
        second_true (not (same_kind kind k && same x y)) (entries_of d k y)
          (sym (dropped kind x d k y) ∙ h));
    agree = λ k y.
        dropped kind x d k y ∙ ap (λ b. not (same_kind kind k && same x y) && b) (old.agree k y);
  }

  pub Represents-itself :
      (d : AllowlistData)
      → ((kind : Kind) (x : Text) → entries_of d kind x ≡ true → normalize_entry p kind x ≡ some x)
      → Represents d (entries_of d)
  unfolding IsNormal
  Represents-itself d normal = record { normal = normal; agree = λ kind x. refl }

  empty_entries : (kind : Kind) (x : Text) → entries_of empty kind x ≡ false
  unfolding has_by
  empty_entries email x = refl
  empty_entries domain x = refl

  pub empty-Represents : Represents empty (λ kind x. false)
  unfolding IsNormal has_by
  empty-Represents = record {
    normal = λ kind x h. let clash = sym (empty_entries kind x) ∙ h in cc;
    agree = empty_entries;
  }

  -- All entries of a list that was read are normal.
  abbrev AllRead : Kind → Option (List Text) → Type 0
  AllRead kind o =
      (ys : List Text)
      → o ≡ some ys
      → (y : Text) → has_by same y ys ≡ true
      → normalize_entry p kind y ≡ some y

  loaded_normal :
      (es ds : List Text)
      → AllRead email (some es)
      → AllRead domain (some ds)
      → (kind : Kind) (x : Text) → entries_of (record { emails = es; domains = ds }) kind x ≡ true
      → normalize_entry p kind x ≡ some x
  loaded_normal es ds he hd email x h = he es refl x h
  loaded_normal es ds he hd domain x h = hd ds refl x h

  both_loaded :
      (es ds : Option (List Text)) (d : AllowlistData) (m : Entries)
      → AllRead email es
      → AllRead domain ds
      → Represents d m
      → Represents (in_memory (listed es ds) d).0 (loaded (listed es ds) m)
  both_loaded none ds d m he hd old = old
  both_loaded (some es) none d m he hd old = old
  both_loaded (some es) (some ds) d m he hd old =
      Represents-itself (record { emails = es; domains = ds }) (loaded_normal es ds he hd)

  pub loaded-Represents :
      (contents : Contents) (d : AllowlistData) (m : Entries)
      → Represents d m
      → Represents (load_allowlist p contents d).0 (abstract_step p (load contents) m)
  unfolding load_allowlist abstract_step
  loaded-Represents missing d m old = empty-Represents
  loaded-Represents broken d m old = old
  loaded-Represents (lists emails domains) d m old =
      both_loaded (normalize_all p email emails) (normalize_all p domain domains) d m
        (normalize_all_result p platform email emails)
        (normalize_all_result p platform domain domains) old

-- What the set of emails and that of domains say of an email.
abbrev allowed_by : Platform → Entries → Text → Bool
allowed_by p m value =
    m email (p.normalize value)
    || domain_allowed (m domain) (second (split b'@' (p.normalize value)))
