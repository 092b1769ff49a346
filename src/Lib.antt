-- ===== src/Lib.antt =====
-- The VFP9 SP2 toolchain: what may be written, what has changed, and what a text or an index holds.
--
-- The program is a set of Python modules at the root of the repository that work on Visual FoxPro
-- projects. Its core rule is that the source project is read only: vfp_safety.py makes the paths
-- canonical, decides which targets may be written, and compares SHA256 manifests taken before and
-- after an operation. The readers are pure: vfp_cdx.py finds the tags of an index file in its
-- 512-byte blocks, and vfp_method_parser.py finds the methods of a form in the text that FoxBin2Prg
-- writes. vfp_refactor.py joins them: `cmd_validate` compiles a changed form in a workspace, converts
-- it, checks its text and its inventory, and promotes it to final/ when the source is as it was.
--
-- * Safety (vfp_safety.py): `canonicalize_path`, `is_under`, `are_same`, `make_guard` (the
--   constructor of `PathSafetyGuard`), `check_target` (`_check_target`) and `is_writable`. An
--   exception is a value of `Outcome`. The functions of os.path and the case mappings are records
--   of parameters (`Platform`, `Casing`); `posix` and `ascii` are instances for the tests.
--   `Settles` in Safety/Guard says of a host that a canonical path is its own canonical form.
-- * Manifest (vfp_safety.py): `compare_manifests`, `SourceHashGuard` (`capture`, `verify`,
--   `compare_files`) and `verify_source_hashes`. A file system at one moment is a record of
--   functions; an operation between two moments is a pair of them. Manifests are association lists
--   (Base/Dict) in the order of insertion, with one entry for a key.
-- * Cdx (vfp_cdx.py): `parse_tag_descriptor`, `parse_cdx`. A file is its bytes. Cdx/Descriptor says
--   what a descriptor is, Cdx/Scan what a report is, and Cdx/RoundTrip
--   how a block with a descriptor is written.
-- * Lexer, MethodParser (vfp_method_parser.py): the two character loops `words` and
--   `line_continues` as steps on their variables, logical lines (`strip_continuations`), and the
--   methods of a text (`parse_methods`, `methods_by_name`, `find_method`). A string is the list of
--   its code points. The hash is a parameter.
-- * Checks, Static (vfp_static_validate.py): the checks of one text, `check_duplicates`, and
--   `validate_sc2`, which passes when no finding is an error.
-- * Blanking, Balance, Finding (vfp_static_validate.py): `strip_strings_and_comments` as steps on the
--   open quote, and `check_end_balance` with the table `pairs`. A pattern of `re` that ignores case
--   is a comparison of letters that is a parameter (`Letters`).
-- * Plan (vfp_refactor.py): `check_preconditions`, which finds the methods of the patches with
--   `parse_methods`, and `vfp_string_literal`.
-- * Encoding (vfp_encoding.py): `detect_cpid` searches the header, `codec_for_cpid` is the table,
--   `decode_sc2` decodes strictly or marks the result, and `is_suspicious` reads the marks. Python's
--   codecs are a parameter.
-- * Disk holds the files of the machine, with their content and time; Common (vfp_common.py): the
--   excluded directories, the companions of a binary and the place of FoxBin2Prg.
-- * Driver (vfp_driver.py): `parse_rc` and `convert_one` (`_convert_one`), which hashes the source
--   before and after a process. The process is a function on the files.
-- * Inventory (vfp_form_inventory.py): `compare_inventories`, with tables by upper-case names.
-- * Walk (`os.walk` in vfp_driver.py): a directory is a tree of what its listings give; `visited` are
--   the files that the loops meet. Sync (vfp_driver.py): `run_convert_dir` and `run_sync`, the files of
--   the machine passed through every conversion.
-- * Outline (vfp_form_inventory.py): the patterns and `split_class_bodies`, `norm`, and
--   `build_inventory` on a decoded text, with the floating-point numbers a parameter (`Floats`).
-- * Pipeline (vfp_refactor.py, `cmd_validate`): a run is a function on the files and the steps of the
--   report that goes on or stops with an exit (Pipeline/Machine). Pipeline and Pipeline/Validate have
--   one definition for each numbered step; Pipeline/Protocol is the machine of stages that a run
--   follows. The detail of a step is left out; the times of the report and JSON are
--   parameters (`Setting`).
-- * Commands (vfp_refactor.py): `cmd_compile` and `cmd_roundtrip` over the machine of Pipeline.
-- * Workspace (vfp_refactor.py): `cmd_workspace`, over the machine of Pipeline. Snapshot
--   (vfp_safety.py, vfp_refactor.py): `snapshot_tree` over a walk, and `cmd_snapshot`.
-- * Patching (vfp_refactor.py): `cmd_patch`, over the same machine, and the program for VFP9 that it
--   writes (Patching/Program: `build_patch_prg`, `_find_form_class`); Patching/Load
--   is `load_plan`.
-- * Environment (vfp_refactor.py): `cmd_env`, over the same machine.
-- * Patched (vfp_refactor.py): `verify_patched_methods`, over the methods of the text.
-- * Protocol (vfp_protocol.py): `result_payload`, `emit`, `parse_driver_output` and `run_process`; a
--   payload is a record, and JSON is a pair of functions.
--
-- Every loop is structural recursion on the list that it reads or on its number of rounds, and a
-- jump of an index is a number of elements to skip. One loop has fuel: the digits of a number in
-- Patching/Program, where Patching/Decimal shows that the rounds given are enough.
--
-- Not modelled: the text of messages, logging and the command lines; vfp_convert.vbs and the
-- other scripts that drive VFP9; what remains of vfp_driver.py (the DBF commands and the benchmarks) and of
-- vfp_refactor.py (`cmd_inventory`,
-- `cmd_compare` and `cmd_static`); the DBF libraries under tools/,
-- which are copies of other projects; vfp_audit.py, vfp_indexer.py and the other
-- modules that are not named above.
pub mod Base
pub mod Safety
pub mod Manifest
pub mod Cdx
pub mod Lexer
pub mod MethodParser
pub mod Finding
pub mod Blanking
pub mod Balance
pub mod Plan
pub mod Encoding
pub mod Checks
pub mod Static
pub mod Disk
pub mod Common
pub mod Driver
pub mod Inventory
pub mod Pipeline
pub mod Walk
pub mod Protocol
pub mod Patched
pub mod Commands
pub mod Sync
pub mod Outline
pub mod Workspace
pub mod Snapshot
pub mod Patching
pub mod Environment
