-- ===== src/Outline/Quoted.antt =====
-- What the quotes around a value do: nothing.
use mcp_vfp9sp2_toolchain.Base.{
  ℕ, ◌≡◌, ◌⊎◌, inl, inr, refl, ap, ◌∙◌, true, false, some, [], ◌∷◌, ◌++◌, ◌==◌, ==_iff, ◌||◌,
}
use mcp_vfp9sp2_toolchain.Base.Text.{Text, is_space, lstrip, rstrip, strip, Casing}
use mcp_vfp9sp2_toolchain.Outline.Norm.{Floats, norm, norm_inner, unquoted, without_last}

rstrip-past : (s : Text) (q : ℕ) → is_space q ≡ false → rstrip is_space (s ++ q ∷ []) ≡ s ++ q ∷ []
rstrip-past [] q h = rw (h, rstrip) refl
rstrip-past (c ∷ []) q h = rw (h, rstrip) refl
rstrip-past (c ∷ d ∷ s) q h = rw (rstrip-past (d ∷ s) q h, rstrip) refl

without_last-past : (q : ℕ) (s : Text) → without_last q (s ++ q ∷ []) ≡ some s
unfolding without_last
without_last-past q [] = rw ((==_iff q q).1 refl) refl
without_last-past q (c ∷ []) = rw ((==_iff q q).1 refl, without_last) refl
without_last-past q (c ∷ d ∷ s) = rw (without_last-past q (d ∷ s)) refl

unquoted-quotes :
    (q : ℕ) (s : Text) → (q == b'"' || q == b'\'') ≡ true → unquoted (q ∷ s ++ q ∷ []) ≡ s
unfolding unquoted
unquoted-quotes q s h = rw (h, without_last-past q s) refl

strip-quotes : (q : ℕ) (s : Text) → is_space q ≡ false → strip (q ∷ s ++ q ∷ []) ≡ q ∷ s ++ q ∷ []
unfolding strip
strip-quotes q s h = rw (h, lstrip) (rstrip-past (q ∷ s) q h)

-- A value in quotes, double or single, is read as what stands between them.
norm-quoted :
    (floats : Floats) (casing : Casing) (q : ℕ) (s : Text)
    → (q ≡ b'"') ⊎ (q ≡ b'\'')
    → norm floats casing (q ∷ s ++ q ∷ []) ≡ norm_inner floats casing s
unfolding norm is_space
norm-quoted floats casing q s h = ap (norm_inner floats casing) (elim h [
  | inl double ↦ rw double (ap unquoted (strip-quotes b'"' s refl) ∙ unquoted-quotes b'"' s refl)
  | inr single ↦ rw single (ap unquoted (strip-quotes b'\'' s refl) ∙ unquoted-quotes b'\'' s refl)
])
