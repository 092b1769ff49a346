-- ===== src/Safety/Tests.antt =====
-- The guard on POSIX paths, and its theorems there.
use mcp_vfp9sp2_toolchain.Base.{
  ◌≡◌, ◌≢◌, ◌↔◌, refl, Bool, true, false, [], ◌∷◌, is_empty, arith, ◌==◌, Bool-cases, inl, inr,
}
use mcp_vfp9sp2_toolchain.Base.Text.{Text, codes, ascii, text_eq, starts_with, strip}
use mcp_vfp9sp2_toolchain.Base.OsPath.{posix, posix_join}
use mcp_vfp9sp2_toolchain.Safety.{
  Host, ok, forbidden, empty_path, target_in_source, target_outside, workspace_in_source,
  canonicalize_path, is_under, are_same, PathSafetyGuard, make_guard, check_target, is_writable,
}
use mcp_vfp9sp2_toolchain.Safety.Guard.{Settles, make_guard-disjoint, is_writable_iff}

abbrev host : Host
host = record { platform = posix; casing = ascii; force_lower = false }

abbrev any_dir : Text → Bool
any_dir p = true

abbrev guard : PathSafetyGuard
guard = record { source = codes "/app/src"; workspace = codes "/work" }

make_guard_runs : make_guard host any_dir (codes "/app/src") (codes "/work") ≡ ok guard
unfolding make_guard are_same is_under canonicalize_path posix_join text_eq starts_with strip
make_guard_runs = refl

-- A workspace inside the source project is refused.
make_guard_nested :
    make_guard host any_dir (codes "/app") (codes "/app/work") ≡ forbidden workspace_in_source
unfolding make_guard are_same is_under canonicalize_path posix_join text_eq starts_with strip
make_guard_nested = refl

check_target_values :
    (check_target host guard (codes "/work/working/f.scx") ≡ ok tt)
    × (check_target host guard (codes "/app/src/f.scx") ≡ forbidden target_in_source)
    × (check_target host guard (codes "/workshop/f.scx") ≡ forbidden target_outside)
    × (is_writable host guard (codes "  ") ≡ empty_path)
unfolding check_target is_writable is_under canonicalize_path posix_join text_eq starts_with strip
check_target_values = (refl, refl, refl, refl)

slash_led_settles : (rest : Text) → canonicalize_path host (b'/' ∷ rest) ≡ ok (b'/' ∷ rest)
unfolding canonicalize_path posix_join starts_with strip
slash_led_settles rest = ground arith

canonical_slash_led :
    (p q : Text) → canonicalize_path host p ≡ ok q → (rest : Text) × (q ≡ b'/' ∷ rest)
unfolding canonicalize_path posix_join starts_with strip
canonical_slash_led [] q h = absurd (cc h)
canonical_slash_led (c ∷ p) q h = elim (Bool-cases (c == b'/')) [
  | inl slash ↦ (p, ground arith)
  | inr other ↦ (c ∷ p, ground arith)
]

-- On this host a canonical path begins with a slash, and is its own canonical form.
pub settles : Settles host
settles p q h = let (rest, e) = canonical_slash_led p q h in rw e (slash_led_settles rest)

make_guard-disjoint_example : is_under host (codes "/app/src/a") guard.workspace ≢ ok true
unfolding is_under canonicalize_path posix_join text_eq starts_with strip
make_guard-disjoint_example =
    make_guard-disjoint host settles any_dir (codes "/app/src") (codes "/work") guard
      make_guard_runs (codes "/app/src/a") refl

is_writable_iff_example : (is_writable host guard (codes "/work/f.scx") ≡ ok true) ↔ (
    (is_empty (codes "/work/f.scx") ≡ false)
    × (is_under host (codes "/work/f.scx") guard.workspace ≡ ok true))
is_writable_iff_example =
    is_writable_iff host settles any_dir (codes "/app/src") (codes "/work") guard make_guard_runs
      (codes "/work/f.scx")
