-- ===== src/Pipeline/Refusal.antt =====
-- Two inputs that `cmd_validate` does not treat as its documentation says: a workspace that the
-- guard refuses, and a baseline that is the form itself.
use mcp_vfp9sp2_toolchain.Base.{
  ◌≡◌, refl, sym, ◌∙◌, ap, inl, inr, Bool, true, false, Option, none, some, List, ◌++◌,
  if◌then◌else◌, Bool-cases, Option-cases, ==_iff,
}
use mcp_vfp9sp2_toolchain.Base.Text.{Text, codes, Casing, text_eq_refl}
use mcp_vfp9sp2_toolchain.Base.Table.{text_key, pair_key, find}
use mcp_vfp9sp2_toolchain.Disk.{File, is_file}
use mcp_vfp9sp2_toolchain.Encoding.{decode_sc2, default_cpid}
use mcp_vfp9sp2_toolchain.Plan.{Patch}
use mcp_vfp9sp2_toolchain.Inventory.{Inventory, same_value, properties_of}
use mcp_vfp9sp2_toolchain.Inventory.Same.{IsSame, compare_inventories_ok}
use mcp_vfp9sp2_toolchain.Outline.Norm.{Floats, Value, bool, int, float, text, same_value_of}
use mcp_vfp9sp2_toolchain.Pipeline.Machine.{
  source_sc2_ok, inv_objects_ok, inv_methods_ok, form_structure_changed, roundtrip_failed, World,
  go, M, ◌>>=◌, ◌>>◌, pure, leave, reads, runs, told, writes, step, found_file, opened,
}
use mcp_vfp9sp2_toolchain.Pipeline.{
  Setting, write_reports, fail, require, source_form, form_sc2, within_workspace,
}
use mcp_vfp9sp2_toolchain.Pipeline.Validate.{
  find_source_sc2, check_inventories, source_sc2, converted_sc2, read_sc2_text, plan_patches,
  inventory,
}
use mcp_vfp9sp2_toolchain.Pipeline.Verified.{>>=-eq-go, go-value}

-- An inventory is the same as itself.
module _ {ℓ} {V : Type ℓ} (same : V → V → Bool) (casing : Casing)
    (reflexive : (v : V) → same v v ≡ true) where
  same_value_self : (a b : Option V) → a ≡ b → same_value same casing a b ≡ true
  same_value_self a b h = rw (sym h) (self a)
    where
      self : (a : Option V) → same_value same casing a a ≡ true
      self none = refl
      self (some v) = reflexive v

  IsSame-self : (i : Inventory V) (patches : List Patch) → IsSame same casing i i patches
  IsSame-self i patches = record {
    no_object_added = λ name f h k. cc (sym h ∙ k);
    no_object_removed = λ name f h k. cc (sym h ∙ k);
    same_base =
        λ name x y h k. let one : x ≡ y = cc (sym h ∙ k) in ap (λ z. casing.upper z.base_class) one;
    same_properties = λ name x y h k q.
        let one : x ≡ y = cc (sym h ∙ k) in
        same_value_self _ _ (ap (λ z. find q (properties_of same casing z)) one);
    no_method_added = λ key f h k. cc (sym h ∙ k);
    no_method_removed = λ key f h k. cc (sym h ∙ k);
    same_methods =
        λ key x y h k. let one : x ≡ y = cc (sym h ∙ k) in inl (ap (λ z. z.source_sha256) one);
  }

value_self :
    (floats : Floats)
    → ((x : floats.Float) → floats.same_float x x ≡ true)
    → (v : Value floats.Float) → same_value_of floats v v ≡ true
value_self floats h (bool true) = refl
value_self floats h (bool false) = refl
value_self floats h (int (true, n)) = (==_iff n n).1 refl
value_self floats h (int (false, n)) = (==_iff n n).1 refl
value_self floats h (float x) = h x
value_self floats h (text t) = text_eq_refl t

module _ (s : Setting) where
  -- the end of `find_source_sc2`, on the path that it looks for
  looked_for : Text → M Text
  looked_for q = do
    found ← reads (λ disk. is_file disk q)
    step source_sc2_ok found none
    require s found roundtrip_failed
    pure q

  looked_for-go :
      (q : Text) (w : World) {path : Text} {u : World}
      → looked_for q w ≡ go path u
      → (path ≡ q) × (is_file u.disk q ≡ true)
  unfolding looked_for ◌>>=◌ ◌>>◌ reads step pure require fail write_reports leave told writes
  looked_for-go q w {path} {u} h = elim (Bool-cases (is_file w.disk q)) [
    | inl there ↦
        let k = rw (there, is_file) at h in
        (sym (go-value k).0, ap (λ y. is_file y.disk q) (sym (go-value k).1) ∙ there)
    | inr lost ↦ absurd (cc (rw (lost, is_file) at h))
  ]

  found_baseline :
      (w : World) {path : Text} {u : World}
      → is_file w.disk (source_sc2 s) ≡ false
      → find_source_sc2 s w ≡ go path u
      → (path ≡ converted_sc2 s) × (is_file u.disk (converted_sc2 s) ≡ true)
  unfolding find_source_sc2 looked_for ◌>>=◌ reads runs pure
  found_baseline w lost h = looked_for-go (converted_sc2 s) _ (rw (lost, is_file) at h)

  read_sc2_text-some :
      (q : Text) (w : World) (f : File)
      → w.disk q ≡ some f
      → read_sc2_text s q w ≡ go (decode_sc2 s.letters s.codecs f.content none default_cpid) w
  unfolding read_sc2_text opened found_file reads pure ◌>>=◌
  read_sc2_text-some q w f h =
      ap
        (λ o.
          (found_file o >>= λ g. pure (decode_sc2 s.letters s.codecs g.content none default_cpid))
            w)
        h

  same_inventories :
      (w : World) (f : File)
      → w.disk (form_sc2 s) ≡ some f
      → ((x : s.floats.Float) → s.floats.same_float x x ≡ true)
      → (v : World) × (check_inventories s (form_sc2 s) w ≡ go tt v)
  unfolding check_inventories reads step pure require ◌>>=◌ ◌>>◌
  same_inventories w f h reflexive =
      let i =
        inventory s (form_sc2 s) (decode_sc2 s.letters s.codecs f.content none default_cpid) in
      let equal =
        (compare_inventories_ok (same_value_of s.floats) s.host.casing i i
            (plan_patches s w.disk)).1
          (IsSame-self (same_value_of s.floats) s.host.casing (value_self s.floats reflexive) i
            (plan_patches s w.disk)) in
      let read = read_sc2_text-some (form_sc2 s) w f h in
      (
        _,
        >>=-eq-go (read_sc2_text s (form_sc2 s)) _ w read
            ∙ >>=-eq-go (read_sc2_text s (form_sc2 s)) _ w read
            ∙ ap
                (λ b.
                  (step inv_objects_ok b (if b then none else some form_structure_changed)
                      >> (step inv_methods_ok b none >> require s b form_structure_changed))
                    w)
                equal,
      )

  -- Where there is no text of the source yet, and the source form has the name of the form, the text
  -- that is found for the source is that of the form itself: so the comparison of the inventories
  -- passes, whatever the form holds, where each floating-point number is
  -- equal to itself.
  pub check_inventories_self :
      ((x : s.floats.Float) → s.floats.same_float x x ≡ true)
      → (s.converter.os.splitext (s.converter.os.basename (source_form s))).0 ≡ s.form
      → (w : World) (path : Text) (u : World) → is_file w.disk (source_sc2 s) ≡ false
      → find_source_sc2 s w ≡ go path u
      → (v : World) × (check_inventories s path u ≡ go tt v)
  check_inventories_self reflexive stem w path u lost found =
      let (here, there) = found_baseline w lost found in
      let same : converted_sc2 s ≡ form_sc2 s =
        ap (λ x. within_workspace s (codes "validation") (x ++ codes ".sc2")) stem in
      elim (Option-cases (u.disk (form_sc2 s))) [
        | inl gone ↦ absurd (cc (rw (gone, is_file) at (rw same at there)))
        | inr (f, h) ↦
            let (v, e) = same_inventories u f h reflexive in
            (v, ap (λ q. check_inventories s q u) (here ∙ same) ∙ e)
      ]
