-- ===== src/Plan/Met.antt =====
-- Which patches `check_preconditions` lets through.
use mcp_vfp9sp2_toolchain.Base.{
  ℕ, ◌+◌, ◌≡◌, ◌↔◌, refl, sym, ap, ◌∙◌, true, false, not, List, [], ◌∷◌, arith, all, All, is_empty,
  keep, Bool-cases, inl, inr,
}
use mcp_vfp9sp2_toolchain.Base.Only.{IsOnly, keep-IsOnly, IsOnly-keep}
use mcp_vfp9sp2_toolchain.Base.Text.{Text, text_eq, text_eq_iff, Casing}
use mcp_vfp9sp2_toolchain.MethodParser.{Method, parse_methods}
use mcp_vfp9sp2_toolchain.Plan.{
  Patch, Report, is_named, expected_sha256, compared, is_none, check_candidates, check_loop,
  check_preconditions,
}

module _ (casing : Casing) where
  -- One method alone has the name, and its hash is the one expected, which is not empty.
  pub record IsMet (methods : List Method) (p : Patch) : Type 0 where
    pub target : Method
    pub only : IsOnly (is_named casing p) methods target
    pub given : is_empty (expected_sha256 casing p) ≡ false
    pub unchanged : target.source_sha256 ≡ expected_sha256 casing p

  compared_iff :
      (actual expected : Text)
      → (is_none (compared actual expected) ≡ true)
        ↔ ((is_empty expected ≡ false) × (actual ≡ expected))
  compared_iff actual expected =
      let same = text_eq_iff actual expected in
      elim (Bool-cases (is_empty expected)) [
        | inl missing ↦
            rw (missing, compared, is_none) (λ h. absurd (cc h), λ (h, _). absurd (cc h))
        | inr given ↦ elim (Bool-cases (text_eq actual expected)) [
          | inl hit ↦ rw (given, hit, compared, is_none) (λ _. (refl, same.0 hit), λ _. refl)
          | inr miss ↦
              rw (given, miss, compared, is_none)
                (λ h. absurd (cc h), λ (_, e). absurd (cc (sym miss ∙ same.1 e)))
        ]
      ]

  candidates-IsMet :
      (methods : List Method) (i : ℕ) (p : Patch) (candidates : List Method)
      → keep (is_named casing p) methods ≡ candidates
      → ((check_candidates casing i p candidates).0 ≡ true) ↔ IsMet methods p
  unfolding check_candidates
  candidates-IsMet methods i p [] e =
      (λ h. absurd (cc h), λ met. absurd (cc (sym e ∙ IsOnly-keep _ methods met.target met.only)))
  candidates-IsMet methods i p (m ∷ n ∷ others) e =
      (λ h. absurd (cc h), λ met. absurd (cc (sym e ∙ IsOnly-keep _ methods met.target met.only)))
  candidates-IsMet methods i p (m ∷ []) e =
      let verdict = compared_iff m.source_sha256 (expected_sha256 casing p) in
      (
        λ h.
            let (given, unchanged) = verdict.0 h in
            record {
              target = m;
              only = keep-IsOnly _ methods m e;
              given = given;
              unchanged = unchanged;
            },
        λ met.
            let one : m ≡ met.target = cc (sym e ∙ IsOnly-keep _ methods met.target met.only) in
            verdict.1 (met.given, ap (λ n. n.source_sha256) one ∙ met.unchanged),
      )

  check_candidates-IsMet :
      (methods : List Method) (i : ℕ) (p : Patch)
      → ((check_candidates casing i p (keep (is_named casing p) methods)).0 ≡ true)
        ↔ IsMet methods p
  check_candidates-IsMet methods i p = candidates-IsMet methods i p _ refl

  check_candidates_ok :
      (i : ℕ) (p : Patch) (candidates : List Method)
      → (check_candidates casing i p candidates).1.ok ≡ (check_candidates casing i p candidates).0
  unfolding check_candidates
  check_candidates_ok i p [] = refl
  check_candidates_ok i p (m ∷ []) = refl
  check_candidates_ok i p (m ∷ n ∷ others) = refl

  check_loop-IsMet :
      (methods : List Method) (i : ℕ) (patches : List Patch)
      → ((check_loop casing methods i patches).0 ≡ true) ↔ All (IsMet methods) patches
  unfolding check_loop
  check_loop-IsMet methods i [] = (λ _. tt, λ _. refl)
  check_loop-IsMet methods i (p ∷ patches) =
      let here = check_candidates-IsMet methods i p in
      let later = check_loop-IsMet methods (i + 1) patches in
      (
        λ h. (here.0 (ground arith), later.0 (ground arith)),
        λ (h, hs). rw (here.1 h, later.1 hs) refl,
      )

  -- What is reported of the patch with this index: its place and its names, whether a method has the
  -- name, and that it is ok, and has no error code, exactly when the patch is met.
  pub record IsReportOf (methods : List Method) (i : ℕ) (p : Patch) (r : Report) : Type 0 where
    pub index_is : r.index ≡ i
    pub object_is : r.object_path ≡ p.object_path
    pub method_is : r.method ≡ p.method
    pub found_is : r.found ≡ not (is_empty (keep (is_named casing p) methods))
    pub met : (r.ok ≡ true) ↔ IsMet methods p
    pub no_code : is_none r.error_code ≡ r.ok

  -- One report for each patch, in order, the first of them with this index.
  pub data AreReports (methods : List Method) : ℕ → List Patch → List Report → Type 0 where
    no_reports : {i : ℕ} → AreReports methods i [] []
    next_report :
        {i : ℕ} {p : Patch} {r : Report} {patches : List Patch} {reports : List Report}
        → IsReportOf methods i p r
        → AreReports methods (i + 1) patches reports
        → AreReports methods i (p ∷ patches) (r ∷ reports)

  candidates-IsReportOf :
      (methods : List Method) (i : ℕ) (p : Patch) (candidates : List Method)
      → keep (is_named casing p) methods ≡ candidates
      → IsReportOf methods i p (check_candidates casing i p candidates).1
  unfolding check_candidates
  candidates-IsReportOf methods i p [] e = record {
    index_is = refl;
    object_is = refl;
    method_is = refl;
    found_is = rw e refl;
    met = candidates-IsMet methods i p [] e;
    no_code = refl;
  }
  candidates-IsReportOf methods i p (m ∷ n ∷ others) e = record {
    index_is = refl;
    object_is = refl;
    method_is = refl;
    found_is = rw e refl;
    met = candidates-IsMet methods i p (m ∷ n ∷ others) e;
    no_code = refl;
  }
  candidates-IsReportOf methods i p (m ∷ []) e = record {
    index_is = refl;
    object_is = refl;
    method_is = refl;
    found_is = rw e refl;
    met = candidates-IsMet methods i p (m ∷ []) e;
    no_code = refl;
  }

  check_loop_reports :
      (methods : List Method) (i : ℕ) (patches : List Patch)
      → ((check_loop casing methods i patches).0
          ≡ all (λ e. e.ok) (check_loop casing methods i patches).1)
        × AreReports methods i patches (check_loop casing methods i patches).1
  unfolding check_loop
  check_loop_reports methods i [] = (refl, no_reports)
  check_loop_reports methods i (p ∷ patches) =
      let (same, reports) = check_loop_reports methods (i + 1) patches in
      (
        rw (same, check_candidates_ok i p (keep (is_named casing p) methods)) refl,
        next_report (candidates-IsReportOf methods i p _ refl) reports,
      )

  -- The check passes exactly when each patch names, case ignored, one method alone of the text, and
  -- gives a hash, which is that of this method's code. It reports each patch, in order, with its index
  -- from 0 and its names, and whether a method has its name; the report is ok, and without an error
  -- code, exactly when the patch is as just said, and the check passes exactly when every report is ok.
  pub check_preconditions_ok :
      (sha256 : Text → Text) (sc2_text : Text) (patches : List Patch)
      → (((check_preconditions casing sha256 sc2_text patches).0 ≡ true)
          ↔ All (IsMet (parse_methods casing sha256 sc2_text)) patches)
        × ((check_preconditions casing sha256 sc2_text patches).0
            ≡ all (λ e. e.ok) (check_preconditions casing sha256 sc2_text patches).1)
        × AreReports
            (parse_methods casing sha256 sc2_text)
            0
            patches
            (check_preconditions casing sha256 sc2_text patches).1
  unfolding check_preconditions
  check_preconditions_ok sha256 sc2_text patches =
      let methods = parse_methods casing sha256 sc2_text in
      let (same, reports) = check_loop_reports methods 0 patches in
      (check_loop-IsMet methods 0 patches, same, reports)
