-- ===== src/Environment/Cleared.antt =====
-- What `cmd_env` leaves behind.
use mcp_vfp9sp2_toolchain.Base.{
  ◌≡◌, arith, refl, ap, ◌∙◌, Bool, true, false, ◌&&◌, none, some, Option-cases, inl, inr,
  if◌then◌else◌,
}
use mcp_vfp9sp2_toolchain.Base.Text.{Text, text_eq}
use mcp_vfp9sp2_toolchain.Disk.{Disk, File, is_file, put, put_self, put-other}
use mcp_vfp9sp2_toolchain.Driver.{Finished, is_code}
use mcp_vfp9sp2_toolchain.Pipeline.Machine.{
  Code, World, M, Ends, go, stop, vfp9_timeout, vfp9_missing, ◌>>=◌, ◌>>◌, pure, leave, reads, runs,
  writes, opened, found_file,
}
use mcp_vfp9sp2_toolchain.Pipeline.Keeps.{end_of}
use mcp_vfp9sp2_toolchain.Pipeline.{Setting, written}
use mcp_vfp9sp2_toolchain.Environment.{
  Settings, info_of, tmp_prg, result_file, env_file, is_stopped, clean_up, save_info, give_up,
  find_result, check_env, cmd_env,
}

bind-go {ℓ κ} :
    {A : Type ℓ} {B : Type κ} (m : M A) (f : A → M B) (w : World) {a : A} {u : World}
    → m w ≡ go a u
    → (m >>= f) w ≡ f a u
unfolding ◌>>=◌
bind-go m f w h = ap (λ r. elim r [ go a w' ↦ f a w' | stop e w' ↦ stop e w' ]) h

then-go {ℓ} :
    {B : Type ℓ} (m : M (Unit {0})) (k : M B) (w : World) {u : World}
    → m w ≡ go tt u
    → (m >> k) w ≡ k u
unfolding ◌>>◌
then-go m k w h = ap (λ r. elim r [ go a w' ↦ k w' | stop e w' ↦ stop e w' ]) h

opened-there : (p : Text) (w : World) (f : File) → w.disk p ≡ some f → opened p w ≡ go f w
unfolding opened found_file reads pure ◌>>=◌
opened-there p w f h = ap (λ x. found_file x w) h

there-is_file : (disk : Disk) (p : Text) (f : File) → disk p ≡ some f → is_file disk p ≡ true
there-is_file disk p f h = rw (h, is_file) refl

is_file-there : (disk : Disk) (p : Text) → is_file disk p ≡ true → (f : File) × (disk p ≡ some f)
is_file-there disk p h = elim (Option-cases (disk p)) [
  | inl lost ↦ absurd (cc (rw (lost, is_file) at h))
  | inr found ↦ found
]

-- A test between two parts of the run.
either-none :
    (p : Text) (b : Bool) (m k : M (Unit {0})) (w : World)
    → (b ≡ true → (end_of (m w)).disk p ≡ none)
    → (end_of (k w)).disk p ≡ none
    → (end_of ((if b then m else k) w)).disk p ≡ none
either-none p true m k w h here = h refl
either-none p false m k w h here = here

and-right : (a b : Bool) → (a && b) ≡ true → b ≡ true
and-right a b h = ground arith

-- The end of a part of the run, whose result is equal to that of another.
ends_so :
    (p : Text) {a b : Ends (Unit {0})} → a ≡ b → (end_of b).disk p ≡ none → (end_of a).disk p ≡ none
ends_so p e h = ap (λ r. (end_of r).disk p) e ∙ h

module _ (s : Setting) (out : Text) (json : Settings → Text) where
  give_up-clears :
      (c : Code) (w : World) → (end_of (give_up s out json c w)).disk (tmp_prg s out json) ≡ none
  unfolding give_up ◌>>◌ writes leave end_of
  give_up-clears c w = put_self (tmp_prg s out json) none w.disk

  clean_up-go :
      (w : World)
      → is_file w.disk (result_file s out json) ≡ true
      → clean_up s out json w
        ≡ go tt (record w {
          disk = put (tmp_prg s out json) none (put (result_file s out json) none w.disk);
        })
  unfolding clean_up ◌>>=◌ ◌>>◌ reads writes
  clean_up-go w there = rw there refl

  save_info-clears :
      (w : World) (f : File)
      → w.disk (result_file s out json) ≡ some f
      → text_eq (env_file s out json) (result_file s out json) ≡ false
      → (end_of (save_info s out json w)).disk (tmp_prg s out json) ≡ none
  unfolding save_info leave writes end_of
  save_info-clears w f there other =
      let info = some (written s (json (info_of s out json f))) in
      let kept : is_file (put (env_file s out json) info w.disk) (result_file s out json) ≡ true =
        there-is_file (put (env_file s out json) info w.disk) (result_file s out json) f
          (put-other (env_file s out json) (result_file s out json) info w.disk other ∙ there) in
      ends_so (tmp_prg s out json)
        (bind-go _ _ w (opened-there (result_file s out json) w f there)
          ∙ then-go (writes (env_file s out json) info) _ w refl
          ∙ then-go _ _ _ (clean_up-go _ kept))
        (put_self (tmp_prg s out json) none _)

  check_env-clears :
      text_eq (env_file s out json) (result_file s out json) ≡ false
      → (res : Finished) (w : World)
      → (end_of (check_env s out json res w)).disk (tmp_prg s out json) ≡ none
  unfolding check_env find_result ◌>>=◌ reads
  check_env-clears other res w =
      either-none (tmp_prg s out json) (is_stopped s out json res) _ (find_result s out json res) w
        (λ _. give_up-clears vfp9_timeout w)
        (either-none (tmp_prg s out json) _ (save_info s out json) _ w
          (λ h.
            let (f, there) =
              is_file-there w.disk (result_file s out json)
                (and-right (is_code false 0 res.code) _ h) in
            save_info-clears w f there other)
          (give_up-clears vfp9_missing w))

  -- However the command ends, the program that it wrote for VFP9 is gone after it, whatever the
  -- process does, where vfp_environment.json and the file of the process are not one.
  pub cmd_env-cleared :
      text_eq (env_file s out json) (result_file s out json) ≡ false
      → (w : World) → (end_of (cmd_env s out json w)).disk (tmp_prg s out json) ≡ none
  unfolding cmd_env writes runs ◌>>=◌ ◌>>◌
  cmd_env-cleared other w = check_env-clears other _ _
