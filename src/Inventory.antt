-- ===== src/Inventory.antt =====
-- vfp_form_inventory.py: `compare_inventories`, which compares the inventory of a form before and
-- after a refactoring. The values of properties, and when two of them are equal, are parameters.
pub mod Quiet
pub mod Deltas
pub mod Same
mod Tests
use mcp_vfp9sp2_toolchain.Base.{
  ℕ, Bool, true, false, not, ◌&&◌, ◌||◌, Option, none, some, List, [], ◌∷◌, ◌++◌, map, any, keep,
  is_empty, if◌then◌else◌, ltb, ◌==◌,
}
use mcp_vfp9sp2_toolchain.Base.Text.{Text, codes, text_eq, Casing}
use mcp_vfp9sp2_toolchain.Base.Table.{
  Table, Key, text_key, pair_key, find, store, keys, has, sorted,
}
use mcp_vfp9sp2_toolchain.Plan.{Patch, or_empty}

-- A text is not behind another in the order of the code points.
unfoldable pub text_le : Text → Text → Bool
text_le [] t = true
text_le (c ∷ s) [] = false
text_le (c ∷ s) (d ∷ t) = let rest = text_le s t in ltb c d || (c == d && rest)

abbrev pub pair_le : Text × Text → Text × Text → Bool
pair_le (a, b) (c, d) = if text_eq a c then text_le b d else text_le a c

-- What an inventory says of a method.
pub record MethodEntry : Type 0 where
  pub object_path : Text
  pub method_name : Text
  pub source_sha256 : Text

-- `expected.get(...)` holds the method names that a plan may change, for each object.
abbrev pub is_expected : Casing → List Patch → Text × Text → Bool
is_expected casing patches (object, method) =
    any
      (λ p.
        text_eq (casing.upper (or_empty p.object_path)) object
        && text_eq (casing.lower (or_empty p.method)) method)
      patches

module _ {ℓ} (V : Type ℓ) where
  pub record Object : Type ℓ where
    pub object_path : Text
    pub base_class : Text
    pub properties : Table Text V

  pub record Inventory : Type ℓ where
    pub objects : List Object
    pub methods : List MethodEntry

  -- The entries of `findings`, each with the data of its message.
  pub data Delta : Type ℓ where
    object_added object_removed : Text → Delta
    base_class_changed : Text → Text → Text → Delta
    property_changed : Text → Text → Option V → Option V → Delta
    method_changed : Text × Text → Text → Text → Bool → Delta
    method_removed method_added : Text × Text → Delta

-- `f["verdict"] == "UNEXPECTED"`
abbrev pub is_unexpected {ℓ} : {V : Type ℓ} → Delta V → Bool
is_unexpected (method_changed k s f expected) = not expected
is_unexpected _ = true

-- a loop that appends the findings of each element
abbrev pub collect {ℓ κ} : {A : Type ℓ} {B : Type κ} → (A → List B) → List A → List B
collect f [] = []
collect f (x ∷ xs) = f x ++ collect f xs

module _ {ℓ} {V : Type ℓ} (same : V → V → Bool) (casing : Casing) where
  -- `a == b` where a missing value is `None`
  abbrev pub same_value : Option V → Option V → Bool
  same_value none none = true
  same_value (some v) (some w) = same v w
  same_value _ _ = false

  -- `{o["objectPath"].upper(): o for o in objects}`, filled up
  unfoldable pub objects_loop : List (Object V) → Table Text (Object V) → Table Text (Object V)
  objects_loop [] t = t
  objects_loop (o ∷ objects) t = objects_loop objects (store (casing.upper o.object_path) o t)

  -- `{k.upper(): v for k, v in properties.items()}`, filled up
  unfoldable pub properties_loop : Table Text V → Table Text V → Table Text V
  properties_loop [] t = t
  properties_loop ((k, v) ∷ rest) t = properties_loop rest (store (casing.upper k) v t)

  abbrev pub method_key : MethodEntry → Text × Text
  method_key m = (casing.upper m.object_path, casing.lower m.method_name)

  unfoldable pub methods_loop :
      List MethodEntry → Table (Text × Text) MethodEntry → Table (Text × Text) MethodEntry
  methods_loop [] t = t
  methods_loop (m ∷ methods) t = methods_loop methods (store (method_key m) m t)

  abbrev pub objects_of : Inventory V → Table Text (Object V)
  objects_of inv = objects_loop inv.objects []

  abbrev pub properties_of : Object V → Table Text V
  properties_of o = properties_loop o.properties []

  abbrev pub methods_of : Inventory V → Table (Text × Text) MethodEntry
  methods_of inv = methods_loop inv.methods []

  -- `sorted(set(a) - set(b))` and `sorted(set(a) & set(b))`, of tables with text keys
  abbrev pub only_in {κ} : {W : Type κ} → Table Text W → Table Text W → List Text
  only_in a b = sorted text_le (keep (λ k. not (has k b)) (keys a))

  abbrev pub in_both {κ} : {W : Type κ} → Table Text W → Table Text W → List Text
  in_both a b = sorted text_le (keep (λ k. has k b) (keys a))

  -- one element of the loop over the objects that both inventories have
  unfoldable pub base_delta : Table Text (Object V) → Table Text (Object V) → Text → List (Delta V)
  base_delta src fin name = elim (find name src) [
    | none ↦ []
    | some s ↦ elim (find name fin) [
      | none ↦ []
      | some f ↦
          if text_eq (casing.upper s.base_class) (casing.upper f.base_class)
          then []
          else base_class_changed name s.base_class f.base_class ∷ []
    ]
  ]

  abbrev pub property_delta : Text → Table Text V → Table Text V → Text → List (Delta V)
  property_delta name props_s props_f k =
      if same_value (find k props_s) (find k props_f)
      then []
      else property_changed name k (find k props_s) (find k props_f) ∷ []

  -- `sorted(set(props_s) | set(props_f))`
  abbrev pub either {κ} : {W : Type κ} → Table Text W → Table Text W → List Text
  either a b = sorted text_le (keys a ++ keep (λ k. not (has k a)) (keys b))

  unfoldable pub properties_delta :
      Table Text (Object V) → Table Text (Object V) → Text → List (Delta V)
  properties_delta src fin name = elim (find name src) [
    | none ↦ []
    | some s ↦ elim (find name fin) [
      | none ↦ []
      | some f ↦
          collect (property_delta name (properties_of s) (properties_of f))
            (either (properties_of s) (properties_of f))
    ]
  ]

  unfoldable pub method_delta :
      List Patch
      → Table (Text × Text) MethodEntry
      → Table (Text × Text) MethodEntry
      → Text × Text
      → List (Delta V)
  method_delta patches src fin key = elim (find key src) [
    | none ↦ []
    | some s ↦ elim (find key fin) [
      | none ↦ []
      | some f ↦
          if text_eq s.source_sha256 f.source_sha256
          then []
          else method_changed key s.source_sha256 f.source_sha256 (is_expected casing patches key)
            ∷ []
    ]
  ]

  -- `findings`; no plan is no patch
  unfoldable pub deltas : Inventory V → Inventory V → List Patch → List (Delta V)
  unfolding objects_loop methods_loop base_delta properties_delta method_delta properties_loop
  deltas source final patches =
      let src = objects_of source in
      let fin = objects_of final in
      let src_m = methods_of source in
      let fin_m = methods_of final in
      map object_added (only_in fin src)
      ++ (map object_removed (only_in src fin)
          ++ (collect (base_delta src fin) (in_both src fin)
              ++ (collect (properties_delta src fin) (in_both src fin)
                  ++ (collect (method_delta patches src_m fin_m)
                        (sorted pair_le (keep (λ k. has k fin_m) (keys src_m)))
                      ++ (map method_removed
                            (sorted pair_le (keep (λ k. not (has k fin_m)) (keys src_m)))
                          ++ map method_added
                              (sorted pair_le (keep (λ k. not (has k src_m)) (keys fin_m))))))))

  -- its `ok`; the status and the error code follow it
  unfoldable pub compare_inventories :
      Inventory V → Inventory V → List Patch → Bool × List (Delta V)
  compare_inventories source final patches =
      let findings = deltas source final patches in
      (is_empty (keep is_unexpected findings), findings)
