-- ===== src/Nt4/Topics.antt =====
-- Topic names, the values kept by name and the choosers found among them, in
-- apps/control/src/nt4-auto.ts. The order of `localeCompare` is a parameter.
use code_runner.Prelude.{
  ℕ, zero, suc, ◌+◌, ◌/◌, ◌%◌, ltb, length, List, [], ◌∷◌, ◌++◌, Option, none, some, Bool, true,
  false, ◌&&◌, ◌||◌, if◌then◌else◌, ◌==◌, is_some, map,
}
use code_runner.Prelude.Texts.{Text, codes, same, before_suffix}
use code_runner.Prelude.Keyed.{get_by, add_by}
use code_runner.Nt4.Number.{floor_of}
use code_runner.Nt4.MsgPack.{Value, num, str, arr, Values, end, item}

-- `name.replace(/^NT:?\/?/, "")`
abbrev drop_one : ℕ → Text → Text
drop_one d [] = []
drop_one d (c ∷ s) = if c == d then s else c ∷ s

abbrev pub drop_nt : Text → Text
drop_nt (c ∷ d ∷ s) =
    if (c == b'N') && (d == b'T') then drop_one b'/' (drop_one b':' s) else c ∷ d ∷ s
drop_nt s = s

-- `.replace(/^\/+/, "")`
abbrev pub drop_slashes : Text → Text
drop_slashes [] = []
drop_slashes (c ∷ s) = let rest = drop_slashes s in if c == b'/' then rest else c ∷ s

unfoldable pub normalize_topic_name : Text → Text
normalize_topic_name name = drop_slashes (drop_nt name)

unfoldable pub publish_topic_name : Text → Text
unfolding normalize_topic_name
publish_topic_name key = b'/' ∷ normalize_topic_name key

abbrev pub display_key : Text → Text
display_key root = normalize_topic_name root

-- `valuesByName`
abbrev pub ValuesByName : Type 0
ValuesByName = List (Text × Value)

abbrev pub value_of : ValuesByName → Text → Option Value
value_of values name = get_by same name values

abbrev pub string_value : Option Value → Option Text
string_value (some (str s)) = some s
string_value _ = none

abbrev strings : Values → List Text
strings end = []
strings (item (str s) vs) = s ∷ strings vs
strings (item _ vs) = strings vs

unfoldable pub string_array_value : Option Value → List Text
string_array_value (some (arr vs)) = strings vs
string_array_value _ = []

-- `??` between two optional texts
abbrev pub otherwise {ℓ} : {A : Type ℓ} → Option A → Option A → Option A
otherwise (some a) o = some a
otherwise none o = o

-- The name `root/field`
abbrev pub under : Text → Text → Text
under root name = root ++ (b'/' ∷ name)

unfoldable pub read_string : ValuesByName → Text → Text → Option Text
read_string values root name =
    otherwise (string_value (value_of values (under root name)))
      (string_value (value_of values (under root (b'.' ∷ name))))

-- A number in decimal; the number of its digits is below the fuel.
abbrev pub digits : ℕ → ℕ → Text
digits zero n = []
digits (suc fuel) n =
    let front = digits fuel (n / 10) in
    if ltb n 10 then (b'0' + n) ∷ [] else front ++ ((b'0' + n % 10) ∷ [])

-- `typeof length === "number" ? Math.max(0, Math.floor(length)) : 0`
abbrev pub count_of : Option Value → Option ℕ
count_of (some (num n)) = floor_of n
count_of _ = some 0

abbrev cons_some {ℓ} : {A : Type ℓ} → Option A → List A → List A
cons_some none xs = xs
cons_some (some x) xs = x ∷ xs

-- The loop over `${root}/options/${i}`, for `count` rounds from `i` on.
abbrev pub expanded : ValuesByName → Text → ℕ → ℕ → List Text
expanded values root i zero = []
expanded values root i (suc count) =
    cons_some
      (string_value (value_of values (under (under root (codes "options")) (digits (suc i) i))))
      (expanded values root (suc i) count)

-- `none` where the loop never ends: the length is infinite.
unfoldable pub read_options : ValuesByName → Text → Option (List Text)
unfolding string_array_value
read_options values root =
    let direct = string_array_value (value_of values (under root (codes "options"))) in
    let dotted = string_array_value (value_of values (under root (codes ".options"))) in
    if ltb 0 (length direct)
    then some direct
    else if ltb 0 (length dotted)
    then some dotted
    else elim (count_of (value_of values (under root (codes "options/length")))) [
      | none ↦ none
      | some count ↦ some (expanded values root 0 count)
    ]

abbrev suffixes : List Text
suffixes = map codes (
    "/.type" ∷ "/type" ∷ "/.options" ∷ "/options" ∷ "/options/length" ∷ "/.default" ∷ "/default"
    ∷ "/.active" ∷ "/active" ∷ [])

abbrev add_some : Option Text → List Text → List Text
add_some none roots = roots
add_some (some root) roots = add_by same root roots

-- The inner loop
abbrev add_roots : List Text → Text → List Text → List Text
add_roots [] normalized roots = roots
add_roots (suffix ∷ rest) normalized roots =
    add_roots rest normalized (add_some (before_suffix suffix normalized) roots)

-- The outer loop, over the names of the topics.
abbrev pub collect_roots : List Text → List Text → List Text
collect_roots [] roots = roots
collect_roots (name ∷ names) roots =
    collect_roots names (add_roots suffixes (normalize_topic_name name) roots)

unfoldable pub chooser_roots : List Text → List Text
chooser_roots names = collect_roots names []

abbrev is_type : Option Text → Bool
is_type none = false
is_type (some type) = same type (codes "String Chooser") || same type (codes "SendableChooser")

unfoldable pub is_chooser : ValuesByName → Text → Option Bool
unfolding read_string read_options
is_chooser values root =
    if is_type (read_string values root (codes "type"))
    then some true
    else elim (read_options values root) [
      | none ↦ none
      | some options ↦ some (
          ltb 0 (length options)
          && (is_some (read_string values root (codes "default"))
              || is_some (read_string values root (codes "active"))))
    ]

pub record AutoChooser : Type 0 where
  pub key : Text
  pub display_key : Text
  pub options : List Text
  pub default : Option Text
  pub active : Option Text
  pub selected : Option Text

unfoldable pub chooser_at : ValuesByName → Text → List Text → AutoChooser
unfolding read_string
chooser_at values root options = record {
  key = display_key root;
  display_key = display_key root;
  options = options;
  default = read_string values root (codes "default");
  active = read_string values root (codes "active");
  selected = read_string values root (codes "selected");
}

abbrev add_chooser : AutoChooser → Option (List AutoChooser) → Option (List AutoChooser)
add_chooser c none = none
add_chooser c (some cs) = some (c ∷ cs)

-- `.filter` and `.map`
unfoldable pub choosers_at : ValuesByName → List Text → Option (List AutoChooser)
unfolding is_chooser read_options chooser_at
choosers_at values [] = some []
choosers_at values (root ∷ roots) =
    let rest = choosers_at values roots in
    elim (is_chooser values root) [
      | none ↦ none
      | some false ↦ rest
      | some true ↦ elim (read_options values root) [
        | none ↦ none
        | some options ↦ add_chooser (chooser_at values root options) rest
      ]
    ]

unfoldable pub chooser_sort_key : AutoChooser → Text
chooser_sort_key chooser =
    if same chooser.display_key (codes "SmartDashboard/Auto Choices")
    then []
    else chooser.display_key

-- `Array.prototype.sort`, comparing by `localeCompare` what it is given for each chooser.
abbrev pub Sort : Type 0
Sort = (AutoChooser → Text) → List AutoChooser → List AutoChooser

unfoldable pub sorted_option : Sort → Option (List AutoChooser) → Option (List AutoChooser)
unfolding chooser_sort_key
sorted_option sort none = none
sorted_option sort (some choosers) = some (sort chooser_sort_key choosers)

-- `snapshotChoosers`; `none` where it does not end.
unfoldable pub snapshot_choosers : Sort → List Text → ValuesByName → Option (List AutoChooser)
unfolding chooser_roots choosers_at sorted_option
snapshot_choosers sort names values = sorted_option sort (choosers_at values (chooser_roots names))
