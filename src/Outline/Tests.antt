-- ===== src/Outline/Tests.antt =====
-- A form of one class with an added object: its classes, its properties, and its inventory.
use mcp_vfp9sp2_toolchain.Base.{
  ℕ, ◌+◌, ◌≡◌, ◌⊎◌, inl, inr, refl, Bool, true, false, ◌&&◌, ◌||◌, Option, none, some, List, [],
  ◌∷◌, ◌++◌, within, ◌==◌,
}
use mcp_vfp9sp2_toolchain.Base.Text.{Text, codes, split_lines, ascii}
use mcp_vfp9sp2_toolchain.Base.Table.{find, text_key}
use mcp_vfp9sp2_toolchain.Balance.{Letters}
use mcp_vfp9sp2_toolchain.Encoding.{Number, Info}
use mcp_vfp9sp2_toolchain.Outline.{Body, split_class_bodies}
use mcp_vfp9sp2_toolchain.Outline.Norm.{Floats, int, text, norm, same_value_of}
use mcp_vfp9sp2_toolchain.Outline.Build.{class_object, added_loop, is_stable}
use mcp_vfp9sp2_toolchain.Outline.Classes.{classes_from, split_class_bodies-classes_from}
use mcp_vfp9sp2_toolchain.Outline.Assigned.{own_lines, last_value, class_object-last_value}

-- Letters of ASCII.
abbrev letters : Letters
letters = record {
  same_letter = λ a b. a == b || (within 97 122 b && a + 32 == b);
  is_word = λ c. within 97 122 c || within 65 90 c || within 48 57 c || c == b'_';
}

-- No text is a floating-point number.
abbrev floats : Floats
floats = record { Float = ℕ; read = λ s. none; same_float = λ x y. x == y; same_int = λ x n. false }

abbrev form : Text
form =
    codes
      "Define Class f AS form OF \"lib.vcx\"\n Top = 1\n Top = \"2\"\n ADD OBJECT 'a.b' AS label\n PROCEDURE Init\n Left = 3\nENDDEFINE\n"

abbrev first_body : Body
first_body = record {
  line = 0;
  declared = record { name = codes "f"; base_class = codes "form"; class_lib = codes "lib.vcx" };
  end_line = some 6;
  body =
      (1, codes " Top = 1")
      ∷ (2, codes " Top = \"2\"")
      ∷ (3, codes " ADD OBJECT 'a.b' AS label")
      ∷ (4, codes " PROCEDURE Init")
      ∷ (5, codes " Left = 3")
      ∷ [];
}

bodies_value : split_class_bodies letters (split_lines form) ≡ first_body ∷ []
unfolding class_object mcp_vfp9sp2_toolchain.Base.Text.starts_with
    mcp_vfp9sp2_toolchain.Base.Table.store split_class_bodies split_lines
    mcp_vfp9sp2_toolchain.Encoding.some_spaces mcp_vfp9sp2_toolchain.Encoding.until_quote
bodies_value = refl

properties_value :
    (class_object floats ascii letters 7 first_body).object.properties
    ≡ (codes "Top", int (false, 2)) ∷ []
unfolding class_object mcp_vfp9sp2_toolchain.Base.Text.starts_with
    mcp_vfp9sp2_toolchain.Base.Table.store
properties_value = refl

added_value :
    added_loop floats ascii letters true 0 form
    ≡ record { name = codes "a.b"; base_class = codes "label"; class_lib = [] } ∷ []
unfolding added_loop mcp_vfp9sp2_toolchain.Base.Text.is_space
    mcp_vfp9sp2_toolchain.Encoding.some_spaces
added_value = refl

-- The value .T. is the number 1 in quotes; a name in lower case is no stable property.
norm_values :
    (same_value_of floats (norm floats ascii (codes ".T.")) (norm floats ascii (codes "\"1\""))
      ≡ true)
    × (norm floats ascii (codes " 'ab' ") ≡ text (codes "ab"))
    × (is_stable floats ascii letters (codes "top") ≡ false)
unfolding norm
norm_values = (refl, refl, refl)

split_class_bodies-classes_from_example :
    split_class_bodies letters (split_lines form) ≡ classes_from letters 0 (split_lines form)
split_class_bodies-classes_from_example = split_class_bodies-classes_from letters (split_lines form)

class_object-last_value_example :
    find (codes "Top") (class_object floats ascii letters 7 first_body).object.properties
    ≡ last_value floats ascii letters (codes "Top") (own_lines floats ascii letters first_body.body)
class_object-last_value_example =
    class_object-last_value floats ascii letters 7 first_body (codes "Top")
