-- ===== src/Disk.antt =====
-- The files of the machine at one moment, and the calls that change them. Directories are not kept:
-- `os.makedirs` changes no file.
use mcp_vfp9sp2_toolchain.Base.{
  ℕ, ◌≡◌, refl, Bool, true, false, Option, none, some, List, length, if◌then◌else◌,
}
use mcp_vfp9sp2_toolchain.Base.Text.{Text, text_eq, text_eq_refl}
use mcp_vfp9sp2_toolchain.Manifest.{FileSystem}

pub record File : Type 0 where
  pub content : List ℕ
  pub mtime : ℕ

abbrev pub Disk : Type 0
Disk = Text → Option File

-- `os.path.isfile`
abbrev pub is_file : Disk → Text → Bool
is_file disk p = elim (disk p) [ none ↦ false | some _ ↦ true ]

-- A file is written, or removed where the value is none.
unfoldable pub put : Text → Option File → Disk → Disk
put p f disk q = if text_eq p q then f else disk q

-- What `os.path.isfile`, `sha256_file` and `os.stat` find.
abbrev pub files_of : (List ℕ → Text) → Disk → FileSystem
files_of sha256 disk = record {
  is_file = is_file disk;
  sha256_file = λ p. elim (disk p) [ none ↦ none | some f ↦ some (sha256 f.content) ];
  stat = λ p. elim (disk p) [
    | none ↦ none
    | some f ↦ some (record { size = length f.content; mtime = f.mtime })
  ];
}

pub put-other :
    (p q : Text) (f : Option File) (disk : Disk) → text_eq p q ≡ false → put p f disk q ≡ disk q
unfolding put
put-other p q f disk h = rw h refl

pub put_self : (p : Text) (f : Option File) (disk : Disk) → put p f disk p ≡ f
unfolding put
put_self p f disk = rw (text_eq_refl p) refl
