-- ===== src/Nt4/MsgPack/Total.antt =====
-- The decoder of apps/control/src/nt4-auto.ts ends on every frame: each value takes a byte.
use code_runner.Prelude.{ℕ, ◌≤◌, List, length}
use code_runner.Nt4.Number.{Number}
use code_runner.Nt4.MsgPack.{Decoded, ok, stuck, Reader}

-- The fuel has not run out, and what is left has at most `k` bytes.
abbrev pub Within {ℓ} : {A : Type ℓ} → ℕ → Decoded (A × List ℕ) → Type 0
Within k (ok (a, rest)) = length rest ≤ k
Within k stuck = ⊥
Within k _ = Unit

-- A reader that is in its bounds on every input of at most `k` bytes.
abbrev Reads : ℕ → Reader → Type 0
Reads k go = (bs : List ℕ) (n : ℕ) → length bs ≤ n → n ≤ k → Within n (go bs)
