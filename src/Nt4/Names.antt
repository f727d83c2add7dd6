-- ===== src/Nt4/Names.antt =====
-- How names are normalized in apps/control/src/nt4-auto.ts.
use code_runner.Prelude.{[], ◌∷◌, ◌++◌, false, ◌≡◌, ◌≢◌, refl, ap, ◌∙◌, inl, inr, Bool-cases, ◌==◌}
use code_runner.Prelude.Texts.{Text}
use code_runner.Nt4.Topics.{normalize_topic_name, publish_topic_name, drop_slashes, drop_nt}

-- A text that does not begin with a slash.
abbrev Bare : Text → Type 0
Bare [] = Unit
Bare (c ∷ s) = (c == b'/') ≡ false

drop_slashes-Bare : (s : Text) → Bare (drop_slashes s)
drop_slashes-Bare [] = tt
drop_slashes-Bare (c ∷ s) = elim (Bool-cases (c == b'/')) [
  | inl e ↦ rw e (drop_slashes-Bare s)
  | inr e ↦ rw e e
]

Bare-drop_slashes : (s : Text) → Bare s → drop_slashes s ≡ s
Bare-drop_slashes [] h = refl
Bare-drop_slashes (c ∷ s) h = rw h refl

drop_nt-slash : (s : Text) → drop_nt (b'/' ∷ s) ≡ b'/' ∷ s
drop_nt-slash [] = refl
drop_nt-slash (c ∷ s) = refl

slashed :
    (s more : Text) → Bare s → s ≢ [] → drop_slashes (drop_nt (b'/' ∷ (s ++ more))) ≡ s ++ more
slashed [] more b full = absurd (full refl)
slashed (c ∷ s) more b full =
    ap drop_slashes (drop_nt-slash ((c ∷ s) ++ more)) ∙ Bare-drop_slashes ((c ∷ s) ++ more) b

-- A name that is published, with more behind it.
pub normalize-published :
    (key more : Text)
    → normalize_topic_name key ≢ []
    → normalize_topic_name (publish_topic_name key ++ more) ≡ normalize_topic_name key ++ more
unfolding normalize_topic_name publish_topic_name
normalize-published key more full =
    slashed (drop_slashes (drop_nt key)) more (drop_slashes-Bare (drop_nt key)) full
