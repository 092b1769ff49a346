-- ===== src/Pipeline/Machine.antt =====
-- A run over the files of the machine: what it reads, what it keeps, and how it ends.
use mcp_vfp9sp2_toolchain.Base.{Bool, true, false, Option, none, some, List, [], ◌∷◌, ◌++◌}
use mcp_vfp9sp2_toolchain.Base.Text.{Text}
use mcp_vfp9sp2_toolchain.Disk.{Disk, File, put}
use mcp_vfp9sp2_toolchain.Safety.{Outcome, ok, forbidden, empty_path}

-- The steps of `cmd_validate`, by the names that its report gives them.
pub data Label : Type 0 where
  ws_safety src_sha_pre copies_ok compile_ok roundtrip_ok static_ok : Label
  source_sc2_ok inv_objects_ok inv_methods_ok src_sha_post promote_final : Label

unfoldable pub is_label : Label → Label → Bool
is_label ws_safety ws_safety = true
is_label src_sha_pre src_sha_pre = true
is_label copies_ok copies_ok = true
is_label compile_ok compile_ok = true
is_label roundtrip_ok roundtrip_ok = true
is_label static_ok static_ok = true
is_label source_sc2_ok source_sc2_ok = true
is_label inv_objects_ok inv_objects_ok = true
is_label inv_methods_ok inv_methods_ok = true
is_label src_sha_post src_sha_post = true
is_label promote_final promote_final = true
is_label _ _ = false

pub data Code : Type 0 where
  source_path_write_forbidden workspace_not_found compile_error roundtrip_failed : Code
  static_validation_failed encoding_corruption form_structure_changed : Code
  critical_source_mutation missing_file vfp9_timeout : Code
  missing_companion hash_failed copy_hash_mismatch schema_invalid unknown_method : Code
  precondition_failed vfp9_missing : Code

-- An entry of `report["steps"]`, without its detail.
pub record Step : Type 0 where
  pub label : Label
  pub ok : Bool
  pub error_code : Option Code

-- The files, and the steps that the report holds so far.
pub record World : Type 0 where
  pub disk : Disk
  pub steps : List Step

-- `emit` gives a result and leaves; an exception that nothing catches leaves too.
pub data Exit : Type 0 where
  emitted : Bool → Option Code → Exit
  raised : Exit

pub data Ends {ℓ} (A : Type ℓ) : Type ℓ where
  go : A → World → Ends A
  stop : Exit → World → Ends A

abbrev pub M {ℓ} : Type ℓ → Type ℓ
M A = World → Ends A

infixl 5 ◌>>=◌ ◌>>◌
unfoldable pub ◌>>=◌ {ℓ κ} : {A : Type ℓ} {B : Type κ} → M A → (A → M B) → M B
◌>>=◌ m f w = elim (m w) [ go a w' ↦ f a w' | stop e w' ↦ stop e w' ]

unfoldable pub ◌>>◌ {ℓ} : {B : Type ℓ} → M (Unit {0}) → M B → M B
◌>>◌ m k w = elim (m w) [ go _ w' ↦ k w' | stop e w' ↦ stop e w' ]

unfoldable pub pure {ℓ} : {A : Type ℓ} → A → M A
pure a w = go a w

-- The command gives its result and leaves.
unfoldable pub leave {ℓ} : {A : Type ℓ} → Exit → M A
leave e w = stop e w

-- Something of the files, and the steps so far.
unfoldable pub reads {ℓ} : {A : Type ℓ} → (Disk → A) → M A
reads f w = go (f w.disk) w

unfoldable pub told : M (List Step)
told w = go w.steps w

-- A process runs, and leaves the files as it likes.
unfoldable pub runs {ℓ} : {A : Type ℓ} → (Disk → A × Disk) → M A
runs f w = let (a, disk) = f w.disk in go a (record w { disk = disk })

-- A file is written, or removed.
unfoldable pub writes : Text → Option File → M (Unit {0})
writes p f w = go tt (record w { disk = put p f w.disk })

-- `step(name, ok, detail, errorCode)`
unfoldable pub step : Label → Bool → Option Code → M (Unit {0})
step label passed code w =
    go tt (record w {
      steps = w.steps ++ record { label = label; ok = passed; error_code = code } ∷ [];
    })

-- An exception that nothing catches.
unfoldable pub or_raise {ℓ} : {A : Type ℓ} → Outcome A → M A
or_raise (ok a) = pure a
or_raise (forbidden v) = leave raised
or_raise empty_path = leave raised

unfoldable pub found_file : Option File → M File
found_file none = leave raised
found_file (some f) = pure f

-- A file is opened, with an `OSError` where there is none.
unfoldable pub opened : Text → M File
opened path = reads (λ disk. disk path) >>= found_file
