-- ===== src/Static/Severities.antt =====
-- Which findings of vfp_static_validate.py are errors, and which only warn.
use mcp_vfp9sp2_toolchain.Base.{
  ℕ, ◌≡◌, ◌↔◌, refl, ap, Bool, true, false, not, ◌&&◌, Option, none, some, List, [], ◌∷◌, ◌++◌, any,
  All, All-append, is_empty, keep, Bool-cases, inl, inr, ltb, length, ◌==◌, if◌then◌else◌, ◌*◌, ◌+◌,
}
use mcp_vfp9sp2_toolchain.Base.Only.{keep-eq-nil, nil-eq-keep}
use mcp_vfp9sp2_toolchain.Base.Text.{Text, Casing}
use mcp_vfp9sp2_toolchain.Base.Dict.{Dict, lookup}
use mcp_vfp9sp2_toolchain.MethodParser.{Kind, Method, procedure, function}
use mcp_vfp9sp2_toolchain.Finding.{Finding, Check, growth, duplicated_code_block}
use mcp_vfp9sp2_toolchain.Balance.{
  Letters, pairs, is_block, count_of, line_loop, no_counts, unequal_loop, code_lines,
  check_end_balance,
}
use mcp_vfp9sp2_toolchain.Checks.{
  larger, growth_factor, is_control, found_if, an_error, a_warning, check_controls, check_growth,
}
use mcp_vfp9sp2_toolchain.Static.{
  is_error, is_small, body_key, now_seen, given, repeated, bodies_loop, names_loop,
  check_duplicates,
}

-- No finding of severity "error" among them.
abbrev pub Warnings : List Finding → Type 0
Warnings = All (λ f. is_error f ≡ false)

abbrev pub Errors : List Finding → Type 0
Errors = All (λ f. is_error f ≡ true)

abbrev pub Passes : Option Finding → Type 0
Passes none = Unit
Passes (some f) = is_error f ≡ false

pub Warnings-given : (os : List (Option Finding)) → Warnings (given os) ↔ All Passes os
Warnings-given [] = (λ _. tt, λ _. tt)
Warnings-given (none ∷ os) =
    let later = Warnings-given os in (λ h. (tt, later.0 h), λ (_, h). later.1 h)
Warnings-given (some f ∷ os) =
    let later = Warnings-given os in (λ (w, h). (w, later.0 h), λ (w, h). (w, later.1 h))

pub Warnings-append : (fs gs : List Finding) → Warnings (fs ++ gs) ↔ (Warnings fs × Warnings gs)
Warnings-append [] gs = (λ h. (tt, h), λ (_, h). h)
Warnings-append (f ∷ fs) gs =
    let later = Warnings-append fs gs in
    (λ (h, hs). let (a, b) = later.0 hs in ((h, a), b), λ ((h, a), b). (h, later.1 (a, b)))

pub nil_if_empty : (fs : List Finding) → is_empty fs ≡ true → fs ≡ []
nil_if_empty [] h = refl
nil_if_empty (f ∷ fs) h = cc h

pub Errors-Warnings : (fs : List Finding) → Errors fs → Warnings fs ↔ (fs ≡ [])
Errors-Warnings [] h = (λ _. refl, λ _. tt)
Errors-Warnings (f ∷ fs) (e, h) = (λ (w, _). absurd (cc), λ n. absurd (cc n))

pub is_empty-Warnings : (fs : List Finding) → (is_empty (keep is_error fs) ≡ true) ↔ Warnings fs
is_empty-Warnings fs =
    (λ h. keep-eq-nil is_error fs (nil_if_empty _ h), λ w. ap is_empty (nil-eq-keep is_error fs w))

pub check_controls-Passes :
    (s : Text) (method : Option Text)
    → Passes (check_controls s method) ↔ (any is_control s ≡ false)
unfolding check_controls
check_controls-Passes [] method = (λ _. refl, λ _. tt)
check_controls-Passes (c ∷ s) method =
    let later = check_controls-Passes s method in
    elim (Bool-cases (is_control c)) [
      | inl hit ↦ rw hit (λ h. absurd (cc h), λ h. absurd (cc h))
      | inr miss ↦ rw miss later
    ]

pub found_if-Passes :
    (b : Bool) (check : Check) (method : Option Text) → Passes (found_if b (a_warning check method))
found_if-Passes true check method = refl
found_if-Passes false check method = tt

pub found_if-not :
    (b : Bool) (check : Check) (method : Option Text)
    → Passes (found_if b (an_error check method)) ↔ (b ≡ false)
found_if-not true check method = (λ h. absurd (cc h), λ h. absurd (cc h))
found_if-not false check method = (λ _. refl, λ _. tt)

pub if-Passes :
    (b : Bool) (f : Finding) (o : Option Finding)
    → is_error f ≡ false
    → Passes o
    → Passes (if b then some f else o)
if-Passes true f o h k = h
if-Passes false f o h k = k

pub if-Errors :
    (b : Bool) (fs gs : List Finding) → Errors fs → Errors gs → Errors (if b then fs else gs)
if-Errors true fs gs h k = h
if-Errors false fs gs h k = k

pub check_growth-Passes : (m : Method) (baseline : Option Method) → Passes (check_growth m baseline)
unfolding check_growth
check_growth-Passes m none = tt
check_growth-Passes m (some b) =
    let a = b.line_count in
    let n = m.line_count in
    let check = growth a n in
    if-Passes (not (a == 0) && ltb (larger (a * growth_factor) (a + 50)) n)
      (a_warning check (some m.name)) _ refl
      (found_if-Passes (not (n == 0) && a == 0) check (some m.name))

pub unequal_loop-Errors :
    (name : Option Text) (e c : Dict ℕ) (ps : List (Text × Text))
    → Errors (unequal_loop name e c ps)
unfolding unequal_loop
unequal_loop-Errors name e c [] = tt
unequal_loop-Errors name e c ((o, k) ∷ ps) =
    elim (Bool-cases (is_block o && not (count_of k e == count_of k c))) [
      | inl differ ↦ rw differ (refl, unequal_loop-Errors name e c ps)
      | inr other ↦ rw other (unequal_loop-Errors name e c ps)
    ]

pub check_end_balance-Errors :
    (letters : Letters) (name : Option Text) (code : Text) (n : ℕ)
    → Errors (check_end_balance letters name code n)
unfolding check_end_balance
check_end_balance-Errors letters name code n =
    let counted = line_loop letters (code_lines code) [] (no_counts pairs) in
    if-Errors (ltb (length (code_lines code)) n) [] _ tt
      (unequal_loop-Errors name counted.0 counted.1 pairs)

pub repeated-Errors : (kind : Kind) (names : Dict (List Text)) → Errors (repeated kind names)
unfolding repeated
repeated-Errors kind [] = tt
repeated-Errors kind ((key, []) ∷ rest) = repeated-Errors kind rest
repeated-Errors kind ((key, n ∷ []) ∷ rest) = repeated-Errors kind rest
repeated-Errors kind ((key, n ∷ o ∷ more) ∷ rest) = (refl, repeated-Errors kind rest)

pub seen_before-Errors :
    (o : Option Text) (m : Method) (rest : List Finding)
    → Errors rest
    → Errors (elim o [
      | none ↦ rest
      | some first ↦ an_error (duplicated_code_block first) (some m.name) ∷ rest
    ])
seen_before-Errors none m rest h = h
seen_before-Errors (some first) m rest h = (refl, h)

pub bodies_loop-Errors :
    (casing : Casing) (methods : List Method) (seen : Dict Text)
    → Errors (bodies_loop casing methods seen)
unfolding bodies_loop
bodies_loop-Errors casing [] seen = tt
bodies_loop-Errors casing (m ∷ methods) seen =
    let rest = bodies_loop-Errors casing methods (now_seen m seen) in
    if-Errors (is_small m) _ _ rest (seen_before-Errors (lookup (body_key m) seen) m _ rest)

pub check_duplicates-Errors :
    (casing : Casing) (methods : List Method) → Errors (check_duplicates casing methods)
unfolding check_duplicates
check_duplicates-Errors casing methods =
    All-append _ (repeated procedure (names_loop casing procedure methods [])) _
      (repeated-Errors procedure (names_loop casing procedure methods []))
      (All-append _ (repeated function (names_loop casing function methods [])) _
        (repeated-Errors function (names_loop casing function methods []))
        (bodies_loop-Errors casing methods []))
