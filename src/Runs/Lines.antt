-- ===== src/Runs/Lines.antt =====
-- The lines of a command's output in apps/control/src/runs.ts: `consumeLines`, and the tests on a
-- line. Text is a list of character codes; the decoder of UTF-8 has run before.
pub mod Chunks
pub use code_runner.Prelude.Texts.{Text, codes}
use code_runner.Prelude.{
  ℕ, ◌+◌, ◌-◌, String, List, [], ◌∷◌, ◌++◌, Option, none, some, Bool, true, false, ◌&&◌, ◌||◌, not,
  if◌then◌else◌, ◌==◌, leb, is_some, length,
}

abbrev lf : ℕ
lf = 10

abbrev cr : ℕ
cr = 13

-- `line.replace(/\r$/u, "")`
pub chop_cr : Text → Text
chop_cr [] = []
chop_cr (c ∷ []) = if c == cr then [] else c ∷ []
chop_cr (c ∷ d ∷ s) = c ∷ chop_cr (d ∷ s)

abbrev Split : Type 0
Split = Option (Text × Text)

-- A character before the first line break of what follows it.
grow : ℕ → Split → Split
grow c none = none
grow c (some (l, r)) = some (c ∷ l, r)

-- A line break at the head of `c ∷ s`, or the later one.
break_head : ℕ → Text → Split → Split
break_head c [] later = if c == lf then some ([], []) else later
break_head c (d ∷ s) later =
    if c == lf then some ([], d ∷ s) else if (c == cr) && (d == lf) then some ([], s) else later

-- `buffered.search(/\r?\n/u)` with both slices: the text before the first line break, and that
-- after it.
pub break_line : Text → Option (Text × Text)
unfolding break_head grow
break_line [] = none
break_line (c ∷ s) = break_head c s (grow c (break_line s))

-- The inner loop: the lines that are complete, and what stays in the buffer. Each round shortens
-- the buffer, whose length is the fuel.
pub drain : ℕ → Text → List Text × Text
drain ℕ.zero buffered = ([], buffered)
drain (ℕ.suc fuel) buffered = elim (break_line buffered) [
  | none ↦ ([], buffered)
  | some (line, rest) ↦ let (lines, left) = drain fuel rest in (chop_cr line ∷ lines, left)
]

-- The buffer left at the end is a last line, unless it is empty.
abbrev pub last_line : Text → List Text
last_line [] = []
last_line (c ∷ s) = (c ∷ s) ∷ []

-- `consumeLines`: the outer loop over the chunks of the stream, and the end.
unfoldable pub consume : List Text → Text → List Text
unfolding drain
consume [] buffered = last_line buffered
consume (chunk ∷ chunks) buffered =
    let (lines, left) = drain (ℕ.suc (length (buffered ++ chunk))) (buffered ++ chunk) in
    lines ++ consume chunks left

abbrev lower : ℕ → ℕ
lower c = if leb b'A' c && leb c b'Z' then c + 32 else c

abbrev is_word : ℕ → Bool
is_word c = (leb b'a' (lower c) && leb (lower c) b'z') || (leb b'0' c && leb c b'9') || (c == b'_')

-- What follows the pattern at the head of a text, for patterns in lower case and any case.
strip : Text → Text → Option Text
strip [] s = some s
strip (p ∷ ps) [] = none
strip (p ∷ ps) (c ∷ s) = if lower c == p then strip ps s else none

abbrev starts_with_word : Text → Bool
starts_with_word [] = false
starts_with_word (c ∷ s) = is_word c

ends_here : Option Text → Bool
ends_here none = false
ends_here (some rest) = not (starts_with_word rest)

-- `\b...\b`, case-insensitive; the flag says whether a word character stands before.
has_word : Text → Bool → Text → Bool
unfolding strip ends_here
has_word pattern' after [] = false
has_word pattern' after (c ∷ s) =
    (not after && ends_here (strip pattern' (c ∷ s))) || has_word pattern' (is_word c) s

-- `.` in a pattern
abbrev is_dot : ℕ → Bool
is_dot c = not (c == lf) && not (c == cr) && not (c == 0x2028) && not (c == 0x2029)

-- `.+5810` at the head of a text
later_port : Text → Bool
unfolding strip
later_port [] = false
later_port (c ∷ s) = is_dot c && (is_some (strip (codes "5810") s) || later_port s)

port_follows : Option Text → Bool
unfolding later_port
port_follows none = false
port_follows (some rest) = later_port rest

listens : Text → Bool
unfolding port_follows strip
listens [] = false
listens (c ∷ s) = port_follows (strip (codes "listening") (c ∷ s)) || listens s

unfoldable pub line_looks_ready : Text → Bool
unfolding has_word listens
line_looks_ready line =
    has_word (codes "nt4") false line || has_word (codes "networktables") false line || listens line

starts : Text → Text → Bool
starts [] s = true
starts (p ∷ ps) [] = false
starts (p ∷ ps) (c ∷ s) = c == p && starts ps s

includes : Text → Text → Bool
unfolding starts
includes pattern' [] = starts pattern' []
includes pattern' (c ∷ s) = starts pattern' (c ∷ s) || includes pattern' s

-- `line.includes(DEBUG_WAITING_LINE)`
unfoldable pub waits_for_debugger : Text → Bool
unfolding includes
waits_for_debugger line = includes (codes "for the editor's debugger to attach") line
