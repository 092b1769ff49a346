-- ===== src/Patching/Decimal.antt =====
-- The digits of `"%d"` stand for the number, so the rounds of the loop are enough.
use mcp_vfp9sp2_toolchain.Base.{
  ℕ, zero, suc, ◌+◌, ◌-◌, ◌*◌, ◌/◌, ◌%◌, ◌<◌, ◌≡◌, ◌∙◌, false, [], ◌∷◌, ◌++◌, ltb, Bool-cases, inl,
  inr, arith, refl,
}
use mcp_vfp9sp2_toolchain.Base.Text.{Text}
use mcp_vfp9sp2_toolchain.Patching.Program.{decimal_loop, decimal}

-- The number that the digits stand for, behind those that are read.
abbrev value_from : ℕ → Text → ℕ
value_from n [] = n
value_from n (c ∷ s) = value_from (n * 10 + (c - 48)) s

value_from-snoc :
    (n : ℕ) (s : Text) (c : ℕ) → value_from n (s ++ c ∷ []) ≡ value_from n s * 10 + (c - 48)
value_from-snoc n [] c = refl
value_from-snoc n (d ∷ s) c = value_from-snoc (n * 10 + (d - 48)) s c

decimal_loop-value_from : (fuel n : ℕ) → n < fuel → value_from 0 (decimal_loop fuel n) ≡ n
unfolding decimal_loop
decimal_loop-value_from zero n h = absurd (omega arith)
decimal_loop-value_from (suc fuel) n h = elim (Bool-cases (ltb n 10)) [
  | inl small ↦ rw (small, decimal_loop) (omega arith)
  | inr large ↦
      rw (large, decimal_loop)
        (value_from-snoc 0 (decimal_loop fuel (n / 10)) (48 + n % 10)
          ∙ rw (decimal_loop-value_from fuel (n / 10) (bound large)) (omega arith))
]
  where
    bound : ltb n 10 ≡ false → n / 10 < fuel
    bound large = ground arith

-- The digits of a number stand for it.
decimal-value_from : (n : ℕ) → value_from 0 (decimal n) ≡ n
unfolding decimal
decimal-value_from n = decimal_loop-value_from (suc n) n (omega arith)
