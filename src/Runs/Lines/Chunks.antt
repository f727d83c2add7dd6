-- ===== src/Runs/Lines/Chunks.antt =====
-- The lines of a stream do not depend on the chunks in which it arrives.
use code_runner.Prelude.{
  ℕ, zero, suc, ◌+◌, ◌≤◌, ◌<◌, List, [], ◌∷◌, ◌++◌, none, some, ◌≡◌, refl, sym, ap, ◌∙◌, inl, inr,
  arith, length, length-append, Option-cases, Bool-cases, ◌==◌, ◌&&◌,
}
use mathlib.Core.List.{append_assoc, append-nil, flatten}
use code_runner.Runs.Lines.{
  Text, chop_cr, break_line, break_head, grow, Split, drain, last_line, consume, lf, cr,
}

-- More text after the line break.
abbrev extend : Text → Split → Split
extend t none = none
extend t (some (l, r)) = some (l, r ++ t)

break_head-append :
    (c d : ℕ) (s t : Text) (x y : Split) (l r : Text)
    → ((a b : Text) → x ≡ some (a, b) → y ≡ some (a, b ++ t))
    → break_head c (d ∷ s) (grow c x) ≡ some (l, r)
    → break_head c (d ∷ s ++ t) (grow c y) ≡ some (l, r ++ t)
unfolding break_head grow
break_head-append c d s t none y l r h e = ground arith
break_head-append c d s t (some (a, b)) y l r h e = elim (Bool-cases (c == lf)) [
  | inl p ↦ rw p (ap (extend t) (rw p at e))
  | inr p ↦ elim (Bool-cases ((c == cr) && (d == lf))) [
    | inl q ↦ rw (p, q) (ap (extend t) (rw (p, q) at e))
    | inr q ↦ rw (p, q, h a b refl) (ap (extend t) (rw (p, q) at e))
  ]
]

break_line-cons :
    (c d : ℕ) (s : Text)
    → break_line (c ∷ d ∷ s) ≡ break_head c (d ∷ s) (grow c (break_line (d ∷ s)))
unfolding break_line
break_line-cons c d s = refl

break_line_one :
    (c : ℕ) (t l r : Text)
    → break_line (c ∷ []) ≡ some (l, r)
    → break_line (c ∷ t) ≡ some (l, r ++ t)
unfolding break_line
break_line_one c [] l r h = ground (arith, append-nil r)
break_line_one c (d ∷ t) l r h = ground arith

break_line_nil : (l r : Text) → break_line [] ≡ some (l, r) → ⊥
unfolding break_line
break_line_nil l r h = cc

break_line_one-length : (c : ℕ) (l r : Text) → break_line (c ∷ []) ≡ some (l, r) → length r < 1
unfolding break_line
break_line_one-length c l r h = ground arith

break_head-length :
    (c d : ℕ) (s : Text) (x : Split) (l r : Text)
    → ((a b : Text) → x ≡ some (a, b) → length b < length (d ∷ s))
    → break_head c (d ∷ s) (grow c x) ≡ some (l, r)
    → length r < length (c ∷ d ∷ s)
unfolding break_head grow
break_head-length c d s none l r h e = ground arith
break_head-length c d s (some (a, b)) l r h e = ground (arith, h a b refl)

-- A line break that is there stays where it is when more text comes.
break_line-append :
    (s t l r : Text) → break_line s ≡ some (l, r) → break_line (s ++ t) ≡ some (l, r ++ t)
break_line-append [] t l r h = absurd (break_line_nil l r h)
break_line-append (c ∷ []) t l r h = break_line_one c t l r h
break_line-append (c ∷ d ∷ s) t l r h =
    break_line-cons c d (s ++ t)
    ∙ break_head-append c d s t (break_line (d ∷ s)) (break_line (d ∷ s ++ t)) l r
        (λ a b. break_line-append (d ∷ s) t a b) (rw (break_line-cons c d s) at h)

break_line-length : (s l r : Text) → break_line s ≡ some (l, r) → length r < length s
break_line-length [] l r h = absurd (break_line_nil l r h)
break_line-length (c ∷ []) l r h = break_line_one-length c l r h
break_line-length (c ∷ d ∷ s) l r h =
    break_head-length c d s (break_line (d ∷ s)) l r (λ a b. break_line-length (d ∷ s) a b)
      (rw (break_line-cons c d s) at h)

abbrev onto : List Text → List Text × Text → List Text × Text
onto ls (ms, left) = (ls ++ ms, left)

abbrev push : Text → List Text × Text → List Text × Text
push l (ls, left) = (l ∷ ls, left)

drain-none : (f : ℕ) (s : Text) → break_line s ≡ none → drain f s ≡ ([], s)
unfolding drain
drain-none zero s e = refl
drain-none (suc f) s e = rw (e, drain)

drain-some :
    (f : ℕ) (s l r : Text)
    → break_line s ≡ some (l, r)
    → drain (suc f) s ≡ push (chop_cr l) (drain f r)
unfolding drain
drain-some f s l r e = rw (e, drain)

-- Fuel beyond the length of the text makes no difference.
drain_fuel : (f g : ℕ) (s : Text) → length s < f → length s < g → drain f s ≡ drain g s
drain_fuel zero g s h k = absurd (omega arith)
drain_fuel (suc f) zero s h k = absurd (omega arith)
drain_fuel (suc f) (suc g) s h k = elim (Option-cases (break_line s)) [
  | inl e ↦ drain-none (suc f) s e ∙ sym (drain-none (suc g) s e)
  | inr ((l, r), e) ↦
      let shorter = break_line-length s l r e in
      drain-some f s l r e
      ∙ ap (push (chop_cr l)) (drain_fuel f g r (omega arith) (omega arith))
      ∙ sym (drain-some g s l r e)
]

drain-length : (f : ℕ) (s : Text) → length (drain f s).1 ≤ length s
drain-length zero s = unfold drain in omega arith
drain-length (suc f) s = elim (Option-cases (break_line s)) [
  | inl e ↦ rw (drain-none (suc f) s e) (omega arith)
  | inr ((l, r), e) ↦
      rw (drain-some f s l r e) (omega (arith, break_line-length s l r e, drain-length f r))
]

-- Draining a text with more to come, and then what is left with the rest, is draining it all.
drain-append :
    (f g : ℕ) (s t : Text)
    → length s < f
    → length s + length t < g
    → drain g (s ++ t) ≡ onto (drain f s).0 (drain g ((drain f s).1 ++ t))
drain-append zero g s t h k = absurd (omega arith)
drain-append (suc f) zero s t h k = absurd (omega arith)
drain-append (suc f) (suc g) s t h k = elim (Option-cases (break_line s)) [
  | inl e ↦ rw (drain-none (suc f) s e)
  | inr ((l, r), e) ↦
      let shorter = break_line-length s l r e in
      let left = (drain f r).1 in
      let fits : length (left ++ t) < g = omega (arith, drain-length f r, length-append left t) in
      rw (drain-some f s l r e) (
        drain-some g (s ++ t) l (r ++ t) (break_line-append s t l r e)
        ∙ ap (push (chop_cr l)) (drain-append f g r t (omega arith) (omega arith))
        ∙ ap (onto (chop_cr l ∷ (drain f r).0))
            (drain_fuel g (suc g) (left ++ t) fits (omega arith)))
]

finish : List Text × Text → List Text
finish (ls, left) = ls ++ last_line left

-- All lines of a text at hand.
pub lines : Text → List Text
lines s = consume (s ∷ []) []

lines-drain : (g : ℕ) (s : Text) → length s < g → lines s ≡ finish (drain g s)
unfolding lines consume finish
lines-drain g s h = ap finish (drain_fuel (suc (length s)) g s (omega arith) h)

finish-onto : (ls : List Text) (p : List Text × Text) → finish (onto ls p) ≡ ls ++ finish p
unfolding finish
finish-onto ls (ms, left) = append_assoc ls ms (last_line left)

lines-append :
    (s t : Text)
    → let (ls, left) = drain (suc (length s)) s in lines (s ++ t) ≡ ls ++ lines (left ++ t)
lines-append s t =
    let f = suc (length s) in
    let g = suc (length s + length t) in
    let left = (drain f s).1 in
    lines-drain g (s ++ t) (omega (arith, length-append s t))
    ∙ ap finish (drain-append f g s t (omega arith) (omega arith))
    ∙ finish-onto (drain f s).0 (drain g (left ++ t))
    ∙ ap (◌++◌ (drain f s).0)
        (sym (lines-drain g (left ++ t) (omega (arith, length-append left t, drain-length f s))))

lines-last_line : (b : Text) → break_line b ≡ none → lines b ≡ last_line b
unfolding finish
lines-last_line b e =
    lines-drain (suc (length b)) b (omega arith) ∙ ap finish (drain-none (suc (length b)) b e)

drain_no_break : (f : ℕ) (s : Text) → length s < f → break_line (drain f s).1 ≡ none
drain_no_break zero s h = absurd (omega arith)
drain_no_break (suc f) s h = elim (Option-cases (break_line s)) [
  | inl e ↦ rw (drain-none (suc f) s e) e
  | inr ((l, r), e) ↦
      let shorter = break_line-length s l r e in
      rw (drain-some f s l r e) (drain_no_break f r (omega arith))
]

break_line_of_nil : break_line [] ≡ none
unfolding break_line
break_line_of_nil = refl

-- The buffer holds no complete line between two chunks.
consume-flatten :
    (chunks : List Text) (buffered : Text)
    → break_line buffered ≡ none
    → consume chunks buffered ≡ lines (buffered ++ flatten chunks)
unfolding consume flatten
consume-flatten [] b e = rw append-nil (sym (lines-last_line b e))
consume-flatten (c ∷ cs) b e =
    let s = b ++ c in
    let f = suc (length s) in
    ap (◌++◌ (drain f s).0) (consume-flatten cs (drain f s).1 (drain_no_break f s (omega arith)))
    ∙ sym (lines-append s (flatten cs))
    ∙ ap lines (append_assoc b c (flatten cs))

-- The lines that are handed on do not depend on where the stream is cut into chunks: they are
-- those of the text in one piece, also where a cut falls between a carriage return and its line
-- feed.
pub consume_one_piece : (chunks : List Text) → consume chunks [] ≡ consume (flatten chunks ∷ []) []
unfolding consume lines
consume_one_piece chunks = consume-flatten chunks [] break_line_of_nil
