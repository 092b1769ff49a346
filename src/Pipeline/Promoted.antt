-- ===== src/Pipeline/Promoted.antt =====
-- What `cmd_validate` leaves in final/ when it verifies a form, and of the source.
use mcp_vfp9sp2_toolchain.Base.{
  ◌≡◌, refl, ap, sym, ◌∙◌, Bool, true, false, Option, none, some, List, [], ◌∷◌, ◌++◌,
}
use mcp_vfp9sp2_toolchain.Base.Text.{Text, codes, text_eq}
use mcp_vfp9sp2_toolchain.Disk.{Disk, File, put-other, put_self}
use mcp_vfp9sp2_toolchain.Safety.{PathSafetyGuard, check_target}
use mcp_vfp9sp2_toolchain.Pipeline.Machine.{
  promote_final, Code, World, emitted, go, M, ◌>>=◌, ◌>>◌, pure, leave, reads, writes, step,
  or_raise, found_file, opened,
}
use mcp_vfp9sp2_toolchain.Pipeline.{
  Setting, write_reports, hash_of, source_form, source_sct, working_scx, working_sct, final_scx,
  final_sct, report_json_path, report_md_path,
}
use mcp_vfp9sp2_toolchain.Pipeline.Validate.{promote_file, promote, validate, promoted_files}
use mcp_vfp9sp2_toolchain.Pipeline.Keeps.{Keeps, kept, end_of, Keeps->>}
use mcp_vfp9sp2_toolchain.Pipeline.Kept.{Differs}
use mcp_vfp9sp2_toolchain.Pipeline.Ending.{validate-go}
use mcp_vfp9sp2_toolchain.Pipeline.Verified.{>>-go, go-value, checks-go}

pub Keeps-go {ℓ} :
    {A : Type ℓ} (p : Text) (m : M A)
    → Keeps p m
    → {w : World} {a : A} {v : World} → m w ≡ go a v
    → v.disk p ≡ w.disk p
unfolding Keeps end_of
Keeps-go p m k {w} h = ap (λ r. (end_of r).disk p) (sym h) ∙ k w

module _ (s : Setting) where
  same_file : (p : Text) (d e : Disk) → d p ≡ e p → hash_of s d p ≡ hash_of s e p
  same_file p d e h = rw h refl

  -- the files that the promotion writes
  abbrev pub promotion_files : List Text
  promotion_files = report_json_path s ∷ report_md_path s ∷ promoted_files s

  promote-Keeps :
      (p : Text) → Differs p promotion_files → (guard : PathSafetyGuard) → Keeps p (promote s guard)
  unfolding promote promote_file write_reports
  promote-Keeps p (a, (b, (c, (d, (e, (f, _)))))) guard = search (kept) depth 16

  -- A file that is copied stands where it was copied to.
  promote_file-go :
      (a b : Text) (w : World) {x : Unit {0}} {v : World}
      → text_eq (b ++ codes ".promote.tmp") b ≡ false
      → promote_file s a b w ≡ go x v
      → v.disk b ≡ w.disk a
  unfolding promote_file opened found_file reads writes ◌>>=◌ ◌>>◌ pure leave
  promote_file-go a b w {x} {v} apart h = from (w.disk a) h
    where
      from :
          (o : Option File)
          → ((found_file o >>= λ f.
                (writes (b ++ codes ".promote.tmp") (some f)
                  >> (writes b (some f) >> writes (b ++ codes ".promote.tmp") none)))
              w)
            ≡ go x v
          → v.disk b ≡ o
      from none k = absurd (cc k)
      from (some f) k =
          ap (λ y. y.disk b) (sym (go-value k).1)
          ∙ put-other (b ++ codes ".promote.tmp") b none _ apart
          ∙ put_self b (some f) _

  -- A command that verifies the form leaves the source files with the digests that they had before
  -- it, whatever the tools do, where neither is a file that the promotion writes.
  pub validate-source_same :
      Differs (source_form s) promotion_files
      → Differs (source_sct s) promotion_files
      → (disk : Disk) (code : Option Code) → (validate s disk).0 ≡ emitted true code
      → (hash_of s (validate s disk).1.disk (source_form s) ≡ hash_of s disk (source_form s))
        × (hash_of s (validate s disk).1.disk (source_sct s) ≡ hash_of s disk (source_sct s))
  validate-source_same scx sct disk code h =
      let (guard, u, a, b) = validate-go s disk code h in
      let (same_scx, same_sct) = checks-go s _ a in
      (
        same_file (source_form s) (validate s disk).1.disk u.disk
              (Keeps-go (source_form s) _ (promote-Keeps _ scx guard) b)
            ∙ same_scx,
        same_file (source_sct s) (validate s disk).1.disk u.disk
              (Keeps-go (source_sct s) _ (promote-Keeps _ sct guard) b)
            ∙ same_sct,
      )

  promote_file-Keeps :
      (p a b : Text)
      → text_eq b p ≡ false
      → text_eq (b ++ codes ".promote.tmp") p ≡ false
      → Keeps p (promote_file s a b)
  unfolding promote_file
  promote_file-Keeps p a b h k = search (kept) depth 9

  write_reports-Keeps :
      (p : Text)
      → text_eq (report_json_path s) p ≡ false
      → text_eq (report_md_path s) p ≡ false
      → (b : Bool) (c : Option Code) → Keeps p (write_reports s b c)
  unfolding write_reports
  write_reports-Keeps p h k b c = search (kept)

  -- the end of the promotion
  end_kept :
      (p : Text)
      → text_eq (report_json_path s) p ≡ false
      → text_eq (report_md_path s) p ≡ false
      → (guard : PathSafetyGuard)
      → Keeps p (
          or_raise (check_target s.host guard (final_scx s))
          >> (step promote_final true none >> write_reports s true none))
  end_kept p h k guard = search (kept, write_reports-Keeps p h k)

  -- A command that verifies the form leaves in final/ the two files that are in working/, where the
  -- files of the promotion have different names, and the working files have others.
  pub validate-promoted :
      Differs (working_scx s) promotion_files
      → Differs (working_sct s) promotion_files
      → Differs (final_scx s) (
          report_json_path s
          ∷ report_md_path s
          ∷ (final_scx s ++ codes ".promote.tmp")
          ∷ final_sct s
          ∷ (final_sct s ++ codes ".promote.tmp")
          ∷ [])
      → Differs
          (final_sct s)
          (report_json_path s ∷ report_md_path s ∷ (final_sct s ++ codes ".promote.tmp") ∷ [])
      → (disk : Disk) (code : Option Code) → (validate s disk).0 ≡ emitted true code
      → ((validate s disk).1.disk (final_scx s) ≡ (validate s disk).1.disk (working_scx s))
        × ((validate s disk).1.disk (final_sct s) ≡ (validate s disk).1.disk (working_sct s))
  unfolding promote
  validate-promoted scx sct (a, (b, (c, (d, (e, _))))) (f, (g, (k, _))) disk code h =
      let (guard, u, _, whole) = validate-go s disk code h in
      let scx_kept = Keeps-go (working_scx s) _ (promote-Keeps _ scx guard) whole in
      let sct_kept = Keeps-go (working_sct s) _ (promote-Keeps _ sct guard) whole in
      let (w1, p1, r1) = >>-go (promote_file s (working_scx s) (final_scx s)) _ whole in
      let (w2, p2, r2) = >>-go (promote_file s (working_sct s) (final_sct s)) _ r1 in
      let sct_before =
        Keeps-go (working_sct s) _ (promote_file-Keeps (working_sct s) _ _ sct.1.1.0 sct.1.1.1.0)
          p1 in
      let scx_after =
        Keeps-go (final_scx s) _
          (Keeps->> _ _ _ (promote_file-Keeps _ _ _ d e) (end_kept _ a b guard)) r1 in
      let sct_after = Keeps-go (final_sct s) _ (end_kept _ f g guard) r2 in
      (
        scx_after ∙ promote_file-go _ _ u c p1 ∙ sym scx_kept,
        sct_after ∙ promote_file-go _ _ w1 k p2 ∙ sct_before ∙ sym sct_kept,
      )
