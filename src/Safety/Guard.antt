-- ===== src/Safety/Guard.antt =====
-- What a constructed `PathSafetyGuard` guarantees of every write that it lets pass.
use mathlib.Core.Path.{subst}
use mcp_vfp9sp2_toolchain.Base.{
  ◌≡◌, ◌≢◌, refl, ap, sym, ◌∙◌, ◌↔◌, inl, inr, Bool, true, false, not, ◌||◌, [], ◌∷◌, ◌++◌,
  Bool-cases, not-eq-false, is_empty,
}
use mcp_vfp9sp2_toolchain.Base.Text.{Text, text_eq, starts_with, rstrip}
use mcp_vfp9sp2_toolchain.Base.Prefix.{is_sep, Below-both}
use mcp_vfp9sp2_toolchain.Safety.{
  Host, Outcome, ok, forbidden, empty_path, Violation, raise_if, canonicalize_path, sep, is_under,
  are_same, PathSafetyGuard, make_guard, check_target, is_writable,
}
use mcp_vfp9sp2_toolchain.Safety.Under.{
  >>=-eq-ok, ok-injective, is_under-Under, Under-is_under, is_under_trans,
}

-- A guard that returned has failed its test.
raise_if-eq-ok {ℓ} :
    {A : Type ℓ} (b : Bool) (v : Violation) (rest : Outcome A) {a : A}
    → raise_if b v rest ≡ ok a
    → (b ≡ false) × (rest ≡ ok a)
raise_if-eq-ok true v rest h = absurd (cc h)
raise_if-eq-ok false v rest h = (refl, h)

-- What `is_writable` makes of an outcome.
caught :
    (r : Outcome (Unit {0}))
    → (elim r [ ok _ ↦ ok true | forbidden _ ↦ ok false | empty_path ↦ empty_path ]) ≡ ok true
    → r ≡ ok tt
caught (ok tt) h = refl
caught (forbidden v) h = absurd (cc h)
caught empty_path h = absurd (cc h)

module _ (host : Host) where
  -- A canonical path is its own canonical form.
  abbrev pub Settles : Type 0
  Settles = (p q : Text) → canonicalize_path host p ≡ ok q → canonicalize_path host q ≡ ok q

  -- What the constructor has checked.
  pub record IsGuard (guard : PathSafetyGuard) : Type 0 where
    pub source_canonical : canonicalize_path host guard.source ≡ ok guard.source
    pub workspace_canonical : canonicalize_path host guard.workspace ≡ ok guard.workspace
    pub different : are_same host guard.source guard.workspace ≡ ok false
    pub not_inside : is_under host guard.workspace guard.source ≡ ok false
    pub not_outside : is_under host guard.source guard.workspace ≡ ok false

  pub make_guard-IsGuard :
      Settles
      → (is_dir : Text → Bool) (source_dir workspace_dir : Text) (guard : PathSafetyGuard)
      → make_guard host is_dir source_dir workspace_dir ≡ ok guard
      → IsGuard guard
  unfolding make_guard
  make_guard-IsGuard settles is_dir source_dir workspace_dir guard h =
      let (_, h1) = raise_if-eq-ok (is_empty source_dir || is_empty workspace_dir) _ _ h in
      let (_, h2) = raise_if-eq-ok (not (is_dir source_dir)) _ _ h1 in
      let (_, h3) = raise_if-eq-ok (not (is_dir workspace_dir)) _ _ h2 in
      let (source, source_is, h4) = >>=-eq-ok (canonicalize_path host source_dir) _ h3 in
      let (workspace, workspace_is, h5) = >>=-eq-ok (canonicalize_path host workspace_dir) _ h4 in
      let (same, same_is, h6) = >>=-eq-ok (are_same host source workspace) _ h5 in
      let (inside, inside_is, h7) =
        >>=-eq-ok (raise_if same _ (is_under host workspace source)) _ h6 in
      let (outside, outside_is, h8) =
        >>=-eq-ok (raise_if inside _ (is_under host source workspace)) _ h7 in
      let (last, h9) = raise_if-eq-ok outside _ _ h8 in
      let (distinct, under_is) = raise_if-eq-ok same _ _ inside_is in
      let (apart, over_is) = raise_if-eq-ok inside _ _ outside_is in
      subst IsGuard (ok-injective _ _ h9) (record {
        source_canonical = settles source_dir source source_is;
        workspace_canonical = settles workspace_dir workspace workspace_is;
        different = same_is ∙ ap ok distinct;
        not_inside = under_is ∙ ap ok apart;
        not_outside = over_is ∙ ap ok last;
      })

  -- No path is under both roots of a guard.
  pub IsGuard-disjoint :
      {guard : PathSafetyGuard} (path : Text)
      → IsGuard guard
      → is_under host path guard.source ≡ ok true
      → is_under host path guard.workspace ≢ ok true
  IsGuard-disjoint {guard} path g in_source in_workspace =
      let u = is_under-Under host path guard.source in_source in
      let v = is_under-Under host path guard.workspace in_workspace in
      let at_same = ok-injective _ _ (sym v.path_is ∙ u.path_is) in
      let source_is = ok-injective _ _ (sym u.root_is ∙ g.source_canonical) in
      let workspace_is = ok-injective _ _ (sym v.root_is ∙ g.workspace_canonical) in
      let both =
        Below-both (sep host) u.at guard.source guard.workspace (rw source_is at u.below)
          (rw (at_same, workspace_is) at v.below) in
      elim both [
        | inl inside ↦
            let found = Under-is_under host guard.workspace guard.source (record {
              at = guard.workspace;
              top = guard.source;
              path_is = g.workspace_canonical;
              root_is = g.source_canonical;
              below = inside;
            }) in
            cc (sym found ∙ g.not_inside)
        | inr outside ↦
            let found = Under-is_under host guard.source guard.workspace (record {
              at = guard.source;
              top = guard.workspace;
              path_is = g.source_canonical;
              root_is = g.workspace_canonical;
              below = outside;
            }) in
            cc (sym found ∙ g.not_outside)
      ]

  -- On a platform whose canonical paths are their own canonical form: once a guard is constructed,
  -- no path is both under its source and under its workspace, whatever the path looks like.
  pub make_guard-disjoint :
      Settles
      → (is_dir : Text → Bool) (source_dir workspace_dir : Text) (guard : PathSafetyGuard)
      → make_guard host is_dir source_dir workspace_dir ≡ ok guard
      → (path : Text) → is_under host path guard.source ≡ ok true
      → is_under host path guard.workspace ≢ ok true
  make_guard-disjoint settles is_dir source_dir workspace_dir guard h path =
      IsGuard-disjoint path (make_guard-IsGuard settles is_dir source_dir workspace_dir guard h)

  is_under-eq-ok :
      (path root p r : Text)
      → canonicalize_path host path ≡ ok p
      → canonicalize_path host root ≡ ok r
      → (b : Bool) × (is_under host path root ≡ ok b)
  unfolding is_under
  is_under-eq-ok path root p r path_is root_is =
      let r' = rstrip (is_sep (sep host)) r in
      (text_eq p r' || starts_with p (r' ++ sep host ∷ []), rw (path_is, root_is, is_under))

  -- A target that passes is under the workspace, and not under the source.
  pub is_writable-under :
      (guard : PathSafetyGuard) (target : Text)
      → is_writable host guard target ≡ ok true
      → (is_empty target ≡ false)
        × (is_under host target guard.source ≡ ok false)
        × (is_under host target guard.workspace ≡ ok true)
  unfolding is_writable check_target
  is_writable-under guard target h =
      let (full, h1) = raise_if-eq-ok (is_empty target) _ _ (caught _ h) in
      let (inside, inside_is, h2) = >>=-eq-ok (is_under host target guard.source) _ h1 in
      let (there, there_is, h3) =
        >>=-eq-ok (raise_if inside _ (is_under host target guard.workspace)) _ h2 in
      let (clear, under_is) = raise_if-eq-ok inside _ _ there_is in
      let (kept, _) = raise_if-eq-ok (not there) _ _ h3 in
      (full, inside_is ∙ ap ok clear, under_is ∙ ap ok (not-eq-false there kept))

  -- On a platform whose canonical paths are their own canonical form: the targets that a constructed
  -- guard takes for writable are exactly the non-empty ones under its workspace.
  pub is_writable_iff :
      Settles
      → (is_dir : Text → Bool) (source_dir workspace_dir : Text) (guard : PathSafetyGuard)
      → make_guard host is_dir source_dir workspace_dir ≡ ok guard
      → (target : Text)
      → (is_writable host guard target ≡ ok true)
        ↔ ((is_empty target ≡ false) × (is_under host target guard.workspace ≡ ok true))
  unfolding check_target is_writable
  is_writable_iff settles is_dir source_dir workspace_dir guard h target =
      let g = make_guard-IsGuard settles is_dir source_dir workspace_dir guard h in
      (
        λ w. let (full, _, there) = is_writable-under guard target w in (full, there),
        λ (full, there).
            let u = is_under-Under host target guard.workspace there in
            let (inside, inside_is) =
              is_under-eq-ok target guard.source u.at guard.source u.path_is g.source_canonical in
            elim (Bool-cases inside) [
              | inl hit ↦ absurd (IsGuard-disjoint target g (inside_is ∙ ap ok hit) there)
              | inr miss ↦ rw (full, inside_is ∙ ap ok miss, there, check_target, is_writable)
            ],
      )

  -- On a host where a canonical path is its own canonical form, and for a guard that was made,
  -- whatever is under a writable directory is writable too, the empty path excepted.
  is_writable_closed :
      Settles
      → (is_dir : Text → Bool) (source_dir workspace_dir : Text) (guard : PathSafetyGuard)
      → make_guard host is_dir source_dir workspace_dir ≡ ok guard
      → (dir target : Text) → is_empty target ≡ false
      → is_writable host guard dir ≡ ok true
      → is_under host target dir ≡ ok true
      → is_writable host guard target ≡ ok true
  is_writable_closed settles is_dir source_dir workspace_dir guard h dir target full w below =
      let (_, _, in_workspace) = is_writable-under guard dir w in
      (is_writable_iff settles is_dir source_dir workspace_dir guard h target).1
        (full, is_under_trans host target dir guard.workspace below in_workspace)
