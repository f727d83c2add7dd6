-- ===== src/Allowlist/Overlap.antt =====
-- Calls of apps/control/src/auth/allowlist.ts that overlap: each is cut at its wait for the file.
use code_runner.Prelude.{
  ℕ, zero, suc, List, [], ◌∷◌, ◌++◌, Option, none, some, Bool, true, false, ◌≡◌, refl, sym, ◌∙◌,
  inl, inr, Option-cases, is_some, All, All-append,
}
use code_runner.Prelude.Texts.{Text}
use code_runner.Allowlist.{
  AllowlistData, empty, Platform, Kind, normalize_entry, to_save, push_new, drop_text, change,
  begin_add, begin_remove, end_save, Contents, load_allowlist,
}
use code_runner.Allowlist.Normal.{IsPlatform, normalize_entry_twice}
use code_runner.Allowlist.Represents.{
  IsNormal, entries_of, tidied_data, to_save-normal, tidied-entries, Represents,
  with_entry-Represents, without_entry-Represents, Represents-itself, empty-Represents,
  loaded-Represents,
}

-- The list in memory, and the lists that calls are writing.
pub record Saves : Type 0 where
  pub cached : AllowlistData
  pub writing : List AllowlistData

pub data SaveEvent : Type 0 where
  begins_adding begins_removing : Kind → Text → SaveEvent
  ends : Bool → ℕ → SaveEvent
  loads : Contents → SaveEvent

abbrev nth : ℕ → List AllowlistData → Option AllowlistData
nth n [] = none
nth zero (d ∷ ds) = some d
nth (suc n) (d ∷ ds) = nth n ds

abbrev without_nth : ℕ → List AllowlistData → List AllowlistData
without_nth n [] = []
without_nth zero (d ∷ ds) = ds
without_nth (suc n) (d ∷ ds) = d ∷ without_nth n ds

abbrev also_writing : Option AllowlistData → Saves → Saves
also_writing none s = s
also_writing (some d) s = record s { writing = s.writing ++ d ∷ [] }

-- A call begins, its write ends, which may have failed, or the file is loaded.
unfoldable pub save_step : Platform → SaveEvent → Saves → Saves
unfolding begin_add begin_remove end_save load_allowlist
save_step p (begins_adding kind value) s = also_writing (begin_add p kind value s.cached) s
save_step p (begins_removing kind value) s = also_writing (begin_remove p kind value s.cached) s
save_step p (ends written n) s = record {
  cached = (end_save written (nth n s.writing) s.cached).0;
  writing = without_nth n s.writing;
}
save_step p (loads contents) s = record s { cached = (load_allowlist p contents s.cached).0 }

unfoldable pub save_run : Platform → List SaveEvent → Saves → Saves
unfolding save_step
save_run p [] s = s
save_run p (e ∷ es) s = save_run p es (save_step p e s)

abbrev pub no_saves : Saves
no_saves = record { cached = empty; writing = [] }

module _ (p : Platform) (platform : IsPlatform p) where
  record AllNormal (s : Saves) : Type 0 where
    memory : IsNormal p s.cached
    pending : All (IsNormal p) s.writing

  itself : (d : AllowlistData) → IsNormal p d → Represents p platform d (entries_of d)
  unfolding IsNormal
  itself d normal = Represents-itself p platform d normal

  tidied-IsNormal : (d : AllowlistData) → IsNormal p d → IsNormal p (tidied_data p platform d)
  unfolding IsNormal
  tidied-IsNormal d normal kind x h = normal kind x (sym (tidied-entries p platform d kind x) ∙ h)

  added-IsNormal :
      (kind : Kind) (x : Text) (d : AllowlistData)
      → normalize_entry p kind x ≡ some x
      → IsNormal p d
      → IsNormal p (change (push_new x) kind d)
  added-IsNormal kind x d fits normal =
      (with_entry-Represents p platform kind x d (entries_of d) fits (itself d normal)).normal

  removed-IsNormal :
      (kind : Kind) (x : Text) (d : AllowlistData)
      → IsNormal p d
      → IsNormal p (change (drop_text x) kind d)
  removed-IsNormal kind x d normal =
      (without_entry-Represents p platform kind x d (entries_of d) (itself d normal)).normal

  -- What a call is going to write.
  record Begins (o : Option Text) (b : Option AllowlistData) : Type 0 where
    same_throw : is_some b ≡ is_some o
    next_normal : (d : AllowlistData) → b ≡ some d → IsNormal p d

  saved-Begins : (x : Text) (d : AllowlistData) → IsNormal p d → Begins (some x) (to_save p d)
  saved-Begins x d normal = rw (to_save-normal p platform d normal) record {
    same_throw = refl;
    next_normal = λ e h.
        let same_list : tidied_data p platform d ≡ e = cc in
        rw (← same_list) (tidied-IsNormal d normal);
  }

  begin_add-Begins :
      (kind : Kind) (value : Text) (d : AllowlistData)
      → IsNormal p d
      → Begins (normalize_entry p kind value) (begin_add p kind value d)
  unfolding begin_add
  begin_add-Begins kind value d normal = elim (Option-cases (normalize_entry p kind value)) [
    | inl h ↦ rw (h, begin_add) record { same_throw = refl; next_normal = λ e g. cc }
    | inr (x, h) ↦
        rw (h, begin_add)
          (saved-Begins x (change (push_new x) kind d)
            (added-IsNormal kind x d (normalize_entry_twice p platform kind value x h) normal))
  ]

  begin_remove-Begins :
      (kind : Kind) (value : Text) (d : AllowlistData)
      → IsNormal p d
      → Begins (normalize_entry p kind value) (begin_remove p kind value d)
  unfolding begin_remove
  begin_remove-Begins kind value d normal = elim (Option-cases (normalize_entry p kind value)) [
    | inl h ↦ rw (h, begin_remove) record { same_throw = refl; next_normal = λ e g. cc }
    | inr (x, h) ↦
        rw (h, begin_remove)
          (saved-Begins x (change (drop_text x) kind d) (removed-IsNormal kind x d normal))
  ]

  also_writing-AllNormal :
      (o : Option AllowlistData) (s : Saves)
      → AllNormal s
      → ((d : AllowlistData) → o ≡ some d → IsNormal p d)
      → AllNormal (also_writing o s)
  also_writing-AllNormal none s all f = all
  also_writing-AllNormal (some d) s all f = record {
    memory = all.memory;
    pending = All-append (IsNormal p) s.writing (d ∷ []) all.pending (f d refl, tt);
  }

  nth-IsNormal :
      (n : ℕ) (ds : List AllowlistData) (d : AllowlistData)
      → All (IsNormal p) ds
      → nth n ds ≡ some d
      → IsNormal p d
  nth-IsNormal n [] d all h = cc
  nth-IsNormal zero (e ∷ ds) d all h = let same_list : e ≡ d = cc in rw (← same_list) all.0
  nth-IsNormal (suc n) (e ∷ ds) d all h = nth-IsNormal n ds d all.1 h

  without_nth-IsNormal :
      (n : ℕ) (ds : List AllowlistData) → All (IsNormal p) ds → All (IsNormal p) (without_nth n ds)
  without_nth-IsNormal n [] all = tt
  without_nth-IsNormal zero (e ∷ ds) all = all.1
  without_nth-IsNormal (suc n) (e ∷ ds) all = (all.0, without_nth-IsNormal n ds all.1)

  end_save-IsNormal :
      (written : Bool) (o : Option AllowlistData) (d : AllowlistData)
      → IsNormal p d
      → ((e : AllowlistData) → o ≡ some e → IsNormal p e)
      → IsNormal p (end_save written o d).0
  unfolding end_save
  end_save-IsNormal written none d normal f = normal
  end_save-IsNormal true (some e) d normal f = f e refl
  end_save-IsNormal false (some e) d normal f = normal

  save_step-AllNormal : (e : SaveEvent) (s : Saves) → AllNormal s → AllNormal (save_step p e s)
  unfolding save_step
  save_step-AllNormal (begins_adding kind value) s all =
      also_writing-AllNormal (begin_add p kind value s.cached) s all
        (begin_add-Begins kind value s.cached all.memory).next_normal
  save_step-AllNormal (begins_removing kind value) s all =
      also_writing-AllNormal (begin_remove p kind value s.cached) s all
        (begin_remove-Begins kind value s.cached all.memory).next_normal
  save_step-AllNormal (ends written n) s all = record {
    memory =
        end_save-IsNormal written (nth n s.writing) s.cached all.memory
          λ e h. nth-IsNormal n s.writing e all.pending h;
    pending = without_nth-IsNormal n s.writing all.pending;
  }
  save_step-AllNormal (loads contents) s all = record {
    memory =
        (loaded-Represents p platform contents s.cached (entries_of s.cached)
          (itself s.cached all.memory)).normal;
    pending = all.pending;
  }

  save_run-AllNormal : (es : List SaveEvent) (s : Saves) → AllNormal s → AllNormal (save_run p es s)
  unfolding save_run
  save_run-AllNormal [] s all = all
  save_run-AllNormal (e ∷ es) s all =
      save_run-AllNormal es (save_step p e s) (save_step-AllNormal e s all)

-- However additions, removals and loads overlap, and whether or not their writes succeed: a call
-- that begins then throws before it writes exactly if its own value is no valid entry, since every
-- entry in memory is valid and in its normal form, provided that the platform sorts and normalizes
-- as documented.
pub overlapping_calls :
    (p : Platform) (es : List SaveEvent) (kind : Kind) (value : Text)
    → IsPlatform p
    → let d = (save_run p es no_saves).cached in
      (is_some (begin_add p kind value d) ≡ is_some (normalize_entry p kind value))
      × (is_some (begin_remove p kind value d) ≡ is_some (normalize_entry p kind value))
      × IsNormal p d
overlapping_calls p es kind value platform =
    let s = save_run p es no_saves in
    let all =
      save_run-AllNormal p platform es no_saves
        (record { memory = (empty-Represents p platform).normal; pending = tt }) in
    (
      (begin_add-Begins p platform kind value s.cached all.memory).same_throw,
      (begin_remove-Begins p platform kind value s.cached all.memory).same_throw,
      all.memory,
    )
