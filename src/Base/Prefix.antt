-- ===== src/Base/Prefix.antt =====
-- Prefixes of texts, and what is left of a text without the separators at its end.
use Prim.Native.Nat.{ℕ}
use mathlib.Core.Path.{◌≡◌, refl, sym, ap, ◌∙◌}
use mathlib.Core.Logic.{◌↔◌, ◌⊎◌, inl, inr}
use mathlib.Core.Bool.{Bool, true, ◌&&◌}
use mathlib.Core.List.{[], ◌∷◌, ◌++◌, append-nil, append_assoc}
use native.Mathlib.Omega.{arith}
use mcp_vfp9sp2_toolchain.Base.Tests.{◌==◌, ==_iff, Bool-cases, if◌then◌else◌}
use mcp_vfp9sp2_toolchain.Base.Lists.{is_empty}
use mcp_vfp9sp2_toolchain.Base.Text.{Text, starts_with, rstrip}

abbrev pub StartsWith : Text → Text → Type 0
StartsWith s p = (t : Text) × (s ≡ p ++ t)

pub starts_with_iff : (s p : Text) → (starts_with s p ≡ true) ↔ StartsWith s p
unfolding starts_with
starts_with_iff s [] = (λ h. (s, refl), λ h. refl)
starts_with_iff [] (y ∷ p) = (λ h. absurd (cc h), λ h. absurd (cc (h.1)))
starts_with_iff (x ∷ s) (y ∷ p) = (
  λ h. let (t, e) = (starts_with_iff s p).0 (ground arith) in (t, ground arith),
  λ h. ground (arith, (starts_with_iff s p).1 (h.0, cc (h.1))),
)

-- Two prefixes of one text: one is a prefix of the other.
pub prefixes :
    (p q t u : Text) → p ++ t ≡ q ++ u → ((v : Text) × (q ≡ p ++ v)) ⊎ ((v : Text) × (p ≡ q ++ v))
prefixes [] q t u h = inl (q, refl)
prefixes (x ∷ p) [] t u h = inr (x ∷ p, refl)
prefixes (x ∷ p) (y ∷ q) t u h = elim (prefixes p q t u (cc h)) [
  | inl (v, e) ↦ inl (v, cc)
  | inr (v, e) ↦ inr (v, cc)
]

pub append_cancel : (p t u : Text) → p ++ t ≡ p ++ u → t ≡ u
append_cancel [] t u h = h
append_cancel (x ∷ p) t u h = append_cancel p t u (cc h)

-- `p == r or p.startswith(r + sep)`
abbrev pub Below : ℕ → Text → Text → Type 0
Below sep p r = (p ≡ r) ⊎ ((t : Text) × (p ≡ r ++ (sep ∷ t)))

abbrev pub is_sep : ℕ → ℕ → Bool
is_sep sep c = c == sep

Below-cons : (sep c : ℕ) (s r : Text) → Below sep s r → Below sep (c ∷ s) (c ∷ r)
Below-cons sep c s r (inl e) = inl (ap (◌∷◌ c) e)
Below-cons sep c s r (inr (t, e)) = inr (t, ap (◌∷◌ c) e)

rstrip_step :
    (sep c : ℕ) (s r : Text)
    → Below sep s r
    → Below sep (c ∷ s) (if is_empty r && is_sep sep c then [] else c ∷ r)
rstrip_step sep c s [] h = elim (Bool-cases (c == sep)) [
  | inl same ↦ rw same (inr (s, ap (λ x. x ∷ s) ((==_iff c sep).0 same)))
  | inr other ↦ rw other (Below-cons sep c s [] h)
]
rstrip_step sep c s (x ∷ r) h = Below-cons sep c s (x ∷ r) h

-- A text stands at or below itself without its trailing separators.
pub rstrip-Below : (sep : ℕ) (s : Text) → Below sep s (rstrip (is_sep sep) s)
rstrip-Below sep [] = inl refl
rstrip-Below sep (c ∷ s) = rstrip_step sep c s (rstrip (is_sep sep) s) (rstrip-Below sep s)

is_empty-append : (a r : Text) → is_empty (a ++ r) ≡ true → is_empty r ≡ true
is_empty-append [] r h = h
is_empty-append (x ∷ a) r h = absurd (cc h)

pub rstrip-append :
    (p : ℕ → Bool) (a u : Text)
    → rstrip p (a ++ u) ≡ (if is_empty (rstrip p u) then rstrip p a else a ++ rstrip p u)
rstrip-append p [] u = ground arith
rstrip-append p (x ∷ a) u = ground (arith, rstrip-append p a u, is_empty-append a (rstrip p u))

pub rstrip_idem : (p : ℕ → Bool) (s : Text) → rstrip p (rstrip p s) ≡ rstrip p s
rstrip_idem p [] = refl
rstrip_idem p (c ∷ s) = ground (arith, rstrip_idem p s)

sep_tail :
    (sep : ℕ) (t : Text)
    → (rstrip (is_sep sep) (sep ∷ t) ≡ [])
      ⊎ ((v : Text) × (rstrip (is_sep sep) (sep ∷ t) ≡ sep ∷ v))
sep_tail sep t = elim (Bool-cases (is_empty (rstrip (is_sep sep) t) && is_sep sep sep)) [
  | inl gone ↦ inl (rw gone)
  | inr kept ↦ inr (rstrip (is_sep sep) t, rw kept)
]

-- Stripping the separators of a text below a stripped root leaves it there.
pub rstrip_keeps_Below :
    (sep : ℕ) (d r : Text)
    → rstrip (is_sep sep) r ≡ r
    → Below sep d r
    → Below sep (rstrip (is_sep sep) d) r
rstrip_keeps_Below sep d r h (inl e) = inl (rw e h)
rstrip_keeps_Below sep d r h (inr (t, e)) = elim (sep_tail sep t) [
  | inl gone ↦ inl (ap (rstrip (is_sep sep)) e ∙ rstrip-append (is_sep sep) r (sep ∷ t) ∙ rw gone h)
  | inr (v, kept) ↦
      inr (v, ap (rstrip (is_sep sep)) e ∙ rstrip-append (is_sep sep) r (sep ∷ t) ∙ rw kept)
]

pub Below-trans : (sep : ℕ) (q d r : Text) → Below sep q d → Below sep d r → Below sep q r
Below-trans sep q d r (inl e) h = rw e h
Below-trans sep q d r (inr (t, e)) (inl f) = inr (t, cc)
Below-trans sep q d r (inr (t, e)) (inr (u, f)) = inr (u ++ (sep ∷ t), rw (e, f, append_assoc))

-- A longer root that shares a separator behind the shorter one is below it.
longer-Below :
    (sep : ℕ) (r r' v t u : Text) → r' ≡ r ++ v → r ++ (sep ∷ t) ≡ r' ++ (sep ∷ u) → Below sep r' r
longer-Below sep r r' [] t u longer same = inl (longer ∙ append-nil r)
longer-Below sep r r' (x ∷ v) t u longer same =
    let met = append_cancel r (sep ∷ t) (x ∷ (v ++ (sep ∷ u))) (same ∙ rw (longer, append_assoc)) in
    inr (v, longer ∙ ap (λ y. r ++ (y ∷ v)) (cc met))

-- One text below two roots: one of the roots, before its separators are stripped, is below the other.
pub Below-both :
    (sep : ℕ) (p s w : Text)
    → Below sep p (rstrip (is_sep sep) s)
    → Below sep p (rstrip (is_sep sep) w)
    → Below sep w (rstrip (is_sep sep) s) ⊎ Below sep s (rstrip (is_sep sep) w)
Below-both sep p s w (inl e) h = inr (Below-trans sep s _ _ (rstrip-Below sep s) (rw e at h))
Below-both sep p s w (inr h) (inl f) =
    inl (Below-trans sep w _ _ (rstrip-Below sep w) (inr (rw f at h)))
Below-both sep p s w (inr (t, e)) (inr (u, f)) =
    elim (prefixes (rstrip (is_sep sep) s) (rstrip (is_sep sep) w) (sep ∷ t) (sep ∷ u)
      (sym e ∙ f)) [
        | inl (v, longer) ↦ inl (
            Below-trans sep w _ _ (rstrip-Below sep w)
              (longer-Below sep _ _ v t u longer (sym e ∙ f)))
        | inr (v, longer) ↦ inr (
            Below-trans sep s _ _ (rstrip-Below sep s)
              (longer-Below sep _ _ v u t longer (sym f ∙ e)))
      ]
