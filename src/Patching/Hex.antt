-- ===== src/Patching/Hex.antt =====
-- The pattern of a hash in `load_plan`.
use mcp_vfp9sp2_toolchain.Base.{
  ℕ, zero, suc, ◌==◌, ==_iff, ◌≡◌, ◌↔◌, ◌⊎◌, inl, inr, refl, sym, ap, ◌∙◌, Bool, true, false, ◌&&◌,
  [], ◌∷◌, ◌++◌, length, All, arith,
}
use mcp_vfp9sp2_toolchain.Base.Text.{Text}
use mcp_vfp9sp2_toolchain.Patching.Load.{is_hex, hex_digits}

-- As many hexadecimal digits, and at most a line break behind them.
pub record IsHex (n : ℕ) (s : Text) : Type 0 where
  pub digits : Text
  pub end : Text
  pub splits : s ≡ digits ++ end
  pub count : length digits ≡ n
  pub hex : All (λ c. is_hex c ≡ true) digits
  pub ends : (end ≡ []) ⊎ (end ≡ 10 ∷ [])

and-true : (a b : Bool) → (a && b) ≡ true → (a ≡ true) × (b ≡ true)
and-true a b h = ground arith

hex_digits-IsHex : (n : ℕ) (s : Text) → hex_digits n s ≡ true → IsHex n s
unfolding hex_digits
hex_digits-IsHex zero [] h = record {
  digits = [];
  end = [];
  splits = refl;
  count = refl;
  hex = tt;
  ends = inl refl;
}
hex_digits-IsHex zero (c ∷ []) h = record {
  digits = [];
  end = c ∷ [];
  splits = refl;
  count = refl;
  hex = tt;
  ends = inr (ap (λ x. x ∷ []) ((==_iff c 10).0 (and-true _ _ h).0));
}
hex_digits-IsHex zero (c ∷ d ∷ s) h = let (_, b) = and-true (c == 10) false h in absurd (cc b)
hex_digits-IsHex (suc n) [] h = absurd (cc h)
hex_digits-IsHex (suc n) (c ∷ s) h =
    let (here, later) = and-true _ _ h in
    let rest = hex_digits-IsHex n s later in
    record {
      digits = c ∷ rest.digits;
      end = rest.end;
      splits = ap (λ x. c ∷ x) rest.splits;
      count = ap suc rest.count;
      hex = (here, rest.hex);
      ends = rest.ends;
    }

hex_digits-append :
    (digits end : Text)
    → All (λ c. is_hex c ≡ true) digits
    → (end ≡ []) ⊎ (end ≡ 10 ∷ [])
    → hex_digits (length digits) (digits ++ end) ≡ true
unfolding hex_digits
hex_digits-append [] end hex (inl h) = rw h refl
hex_digits-append [] end hex (inr h) = rw h refl
hex_digits-append (c ∷ digits) end (here, hex) h = rw here (hex_digits-append digits end hex h)

pub hex_digits_iff : (n : ℕ) (s : Text) → (hex_digits n s ≡ true) ↔ IsHex n s
hex_digits_iff n s = (
  hex_digits-IsHex n s,
  λ good.
      ap (λ x. hex_digits n x) good.splits
      ∙ ap (λ k. hex_digits k (good.digits ++ good.end)) (sym good.count)
      ∙ hex_digits-append good.digits good.end good.hex good.ends,
)
