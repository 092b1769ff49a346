-- ===== src/Outline/Build.antt =====
-- vfp_form_inventory.py: `build_inventory` on the text of a form, with the properties that a class
-- assigns before its first method and the objects that ADD OBJECT names.
use mcp_vfp9sp2_toolchain.Base.{
  ℕ, zero, suc, ◌+◌, ◌-◌, Bool, true, false, not, ◌||◌, Option, none, some, List, [], ◌∷◌, ◌++◌,
  map, if◌then◌else◌, any, is_empty, length, ◌==◌,
}
use mcp_vfp9sp2_toolchain.Base.Text.{
  Text, codes, text_eq, starts_with, strip, join, split_lines, Casing,
}
use mcp_vfp9sp2_toolchain.Base.Table.{Table, text_key, store}
use mcp_vfp9sp2_toolchain.Base.OsPath.{split_last}
use mcp_vfp9sp2_toolchain.Balance.{Letters}
use mcp_vfp9sp2_toolchain.Encoding.{Number, Info, is_suspicious}
use mcp_vfp9sp2_toolchain.Inventory.{Object, Inventory, MethodEntry, collect}
use mcp_vfp9sp2_toolchain.MethodParser.{Method, parse_methods}
use mcp_vfp9sp2_toolchain.Outline.{
  Declared, Body, span_of, add_object, prop_block, is_method_start, split_class_bodies,
}
use mcp_vfp9sp2_toolchain.Outline.Norm.{Floats, Value, norm}

-- STABLE_PROPS
abbrev pub stable_props : List Text
stable_props =
    codes "Top"
    ∷ codes "Left"
    ∷ codes "Width"
    ∷ codes "Height"
    ∷ codes "Caption"
    ∷ codes "ControlSource"
    ∷ codes "RowSource"
    ∷ codes "RecordSource"
    ∷ codes "Enabled"
    ∷ codes "Visible"
    ∷ codes "ReadOnly"
    ∷ codes "TabIndex"
    ∷ codes "Style"
    ∷ codes "FontName"
    ∷ codes "FontSize"
    ∷ codes "Name"
    ∷ codes "RecordSourceType"
    ∷ codes "RowSourceType"
    ∷ codes "ControlSourceType"
    ∷ []

-- `key.split(".")[0]`
abbrev pub top_of : Text → Text
top_of key = (span_of (λ c. not (c == b'.')) key).0

-- An entry of `objects`; `parent` is none for a class, and `lines` for an added object.
pub record Listed (F : Type 0) : Type 0 where
  pub object : Object (Value F)
  pub name : Text
  pub class_lib : Text
  pub parent : Option Text
  pub lines : Option (ℕ × ℕ)

-- An entry of `methods`; its lines are counted in the body of the class.
pub record ListedMethod : Type 0 where
  pub entry : MethodEntry
  pub method : Method

pub record FormInventory (F : Type 0) : Type 0 where
  pub file : Text
  pub cpid : Number
  pub codec : Option Text
  pub suspicious_encoding : Bool
  pub objects : List (Listed F)
  pub object_count : ℕ
  pub methods : List ListedMethod
  pub method_count : ℕ
  pub raw_line_count : ℕ

-- What `compare_inventories` reads of it.
abbrev pub inventory_of : {F : Type 0} → FormInventory F → Inventory (Value F)
inventory_of i = record {
  objects = map (λ o. o.object) i.objects;
  methods = map (λ m. m.entry) i.methods;
}

module _ (floats : Floats) (casing : Casing) (letters : Letters) where
  abbrev pub is_stable : Text → Bool
  is_stable top = any (text_eq top) stable_props || any (text_eq (casing.lower top)) stable_props

  -- The name and the value that a line assigns, where the name is one of the stable properties.
  unfoldable pub assigned : Text → Option (Text × Value floats.Float)
  unfolding prop_block norm text_eq
  assigned line = elim (prop_block letters line) [
    | none ↦ none
    | some (key, value) ↦
        if is_stable (top_of key) then some (top_of key, norm floats casing value) else none
  ]

  abbrev pub with_assigned :
      Option (Text × Value floats.Float)
      → Table Text (Value floats.Float)
      → Table Text (Value floats.Float)
  with_assigned none t = t
  with_assigned (some (k, v)) t = store k v t

  -- `not stripped or stripped.startswith("*")`
  abbrev pub is_passed_over : Text → Bool
  is_passed_over line = is_empty (strip line) || starts_with (strip line) (codes "*")

  -- The loop over the lines of a body, up to the first method.
  unfoldable pub assign_loop :
      List (ℕ × Text) → Table Text (Value floats.Float) → Table Text (Value floats.Float)
  unfolding is_method_start assigned
  assign_loop [] t = t
  assign_loop ((idx, line) ∷ rest) t = elim (is_passed_over line) [
    | true ↦ assign_loop rest t
    | false ↦ elim (is_method_start letters (strip line)) [
      | true ↦ t
      | false ↦ assign_loop rest (with_assigned (assigned line) t)
    ]
  ]

  -- The entry of a class; `n` is the number of lines.
  unfoldable pub class_object : ℕ → Body → Listed floats.Float
  unfolding assign_loop
  class_object n b = record {
    object = record {
      object_path = b.declared.name;
      base_class = b.declared.base_class;
      properties = assign_loop b.body [];
    };
    name = b.declared.name;
    class_lib = b.declared.class_lib;
    parent = none;
    lines = some (b.line + 1, elim b.end_line [ none ↦ n + 1 | some e ↦ e + 1 ]);
  }

  abbrev pub class_methods : (Text → Text) → Body → List ListedMethod
  class_methods sha256 b =
      map
        (λ m. record {
          entry = record {
            object_path = b.declared.name;
            method_name = m.name;
            source_sha256 = m.source_sha256;
          };
          method = m;
        })
        (parse_methods casing sha256 (join (codes "\n") (map (λ l. l.1) b.body)))

  -- `RE_ADD_OBJECT.finditer(text)`: whether a line starts here, and how many characters belong to
  -- the match found last.
  unfoldable pub added_loop : Bool → ℕ → Text → List Declared
  unfolding add_object
  added_loop at_start skip [] = []
  added_loop at_start (suc k) (c ∷ s) = added_loop (c == b'\n') k s
  added_loop at_start zero (c ∷ s) = elim (if at_start then add_object letters (c ∷ s) else none) [
    | none ↦ added_loop (c == b'\n') 0 s
    | some (d, rest) ↦ d ∷ added_loop (c == b'\n') (length s - length rest) s
  ]

  abbrev pub added_object : Declared → Listed floats.Float
  added_object d = record {
    object = record { object_path = d.name; base_class = d.base_class; properties = [] };
    name = elim (split_last b'.' d.name) [ none ↦ d.name | some (_, name) ↦ name ];
    class_lib = d.class_lib;
    parent = elim (split_last b'.' d.name) [ none ↦ none | some (parent, _) ↦ some parent ];
    lines = none;
  }

  -- `build_inventory`, on the text and the encoding that `read_sc2_text` gives.
  unfoldable pub build_inventory : (Text → Text) → Text → Text × Info → FormInventory floats.Float
  unfolding split_class_bodies class_object added_loop split_lines
  build_inventory sha256 file (text, enc) =
      let lines = split_lines text in
      let bodies = split_class_bodies letters lines in
      let objects =
        map (class_object (length lines)) bodies ++ map added_object (added_loop true 0 text) in
      let methods = collect (class_methods sha256) bodies in
      record {
        file = file;
        cpid = enc.cpid;
        codec = enc.codec;
        suspicious_encoding = is_suspicious (some enc);
        objects = objects;
        object_count = length objects;
        methods = methods;
        method_count = length methods;
        raw_line_count = length lines;
      }
