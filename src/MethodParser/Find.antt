-- ===== src/MethodParser/Find.antt =====
-- Look-ups by name: `find_method` finds a method that is alone, `methods_by_name` keeps them all.
use mathlib.Core.List.{append-nil, append_assoc}
use mcp_vfp9sp2_toolchain.Base.{
  ◌≡◌, ◌↔◌, refl, Bool, Option, none, some, List, [], ◌∷◌, ◌++◌, keep, is_empty, Bool-cases, inl,
  inr, if◌then◌else◌, sym, ◌∙◌,
}
use mcp_vfp9sp2_toolchain.Base.Text.{Text, Casing, text_eq, text_eq_iff}
use mcp_vfp9sp2_toolchain.Base.Dict.{Dict, lookup, insert, lookup-insert}
use mcp_vfp9sp2_toolchain.Base.Only.{IsOnly, keep-IsOnly, IsOnly-keep}
use mcp_vfp9sp2_toolchain.MethodParser.{
  Kind, Method, is_candidate, find_method, by_name_loop, methods_by_name,
}

-- The test of `find_method` on the list of candidates.
single :
    (cands : List Method) (m : Method)
    → (elim cands [ [] ↦ none | c ∷ others ↦ if is_empty others then some c else none ]) ≡ some m
    → cands ≡ m ∷ []
single [] m h = absurd (cc h)
single (c ∷ []) m h = cc h
single (c ∷ d ∷ others) m h = absurd (cc h)

-- A list of methods, or `None` for an empty one.
abbrev pub some_methods : List Method → Option (List Method)
some_methods [] = none
some_methods (m ∷ ms) = some (m ∷ ms)

module _ (casing : Casing) where
  -- `find_method` returns a method exactly when it is the only one in the list with that name (case
  -- ignored) and kind: none before it and none behind it is another.
  find_method-IsOnly :
      (methods : List Method) (name : Option Text) (kind : Option Kind) (m : Method)
      → (find_method casing methods name kind ≡ some m)
        ↔ IsOnly (is_candidate casing name kind) methods m
  unfolding find_method
  find_method-IsOnly methods name kind m = (
    λ h. keep-IsOnly (is_candidate casing name kind) methods m (single _ m h),
    λ only. rw (IsOnly-keep (is_candidate casing name kind) methods m only, find_method),
  )

  -- Whether a method has that lowercased name.
  abbrev pub with_key : Text → Method → Bool
  with_key key m = text_eq (casing.lower m.name) key

  -- What the entry of a key becomes when more methods with that key come.
  extended : Option (List Method) → List Method → Option (List Method)
  extended none ms = some_methods ms
  extended (some had) ms = some (had ++ ms)

  extended-nil : (had : Option (List Method)) → extended had [] ≡ had
  unfolding extended
  extended-nil none = refl
  extended-nil (some had) = rw append-nil

  abbrev had_list : Option (List Method) → List Method
  had_list had = elim had [ none ↦ [] | some ms ↦ ms ]

  extended-cons :
      (had : Option (List Method)) (m : Method) (ms : List Method)
      → extended (some (had_list had ++ m ∷ [])) ms ≡ extended had (m ∷ ms)
  unfolding extended
  extended-cons none m ms = refl
  extended-cons (some had) m ms = rw append_assoc

  by_name_loop-lookup :
      (methods : List Method) (key : Text) (out : Dict (List Method))
      → lookup key (by_name_loop casing methods out)
        ≡ extended (lookup key out) (keep (with_key key) methods)
  unfolding by_name_loop
  by_name_loop-lookup [] key out = sym (extended-nil (lookup key out))
  by_name_loop-lookup (m ∷ rest) key out =
      let name = casing.lower m.name in
      let more = had_list (lookup name out) ++ m ∷ [] in
      let ih = by_name_loop-lookup rest key (insert name more out) in
      elim (Bool-cases (text_eq name key)) [
        | inl hit ↦
            rw (hit, keep)
              (ih
                ∙ rw (lookup-insert name key more out, hit)
                    (rw ((text_eq_iff name key).0 hit)
                      (extended-cons (lookup key out) m (keep (with_key key) rest))))
        | inr miss ↦ rw (miss, keep) (ih ∙ rw (lookup-insert name key more out, miss))
      ]

  -- The entry of a key is the list of all methods whose lowercased name is the key, duplicates kept
  -- and in their order.
  methods_by_name-lookup :
      (methods : List Method) (key : Text)
      → lookup key (methods_by_name casing methods) ≡ some_methods (keep (with_key key) methods)
  unfolding methods_by_name extended lookup
  methods_by_name-lookup methods key = by_name_loop-lookup methods key []
