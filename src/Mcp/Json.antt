-- ===== src/Mcp/Json.antt =====
-- The JSON values that the server sends and reads. `F` stands for the floats.
use arush_adabala_tax_liabil.Prelude.{
  String, Bool, Option, none, some, if◌then◌else◌, ◌==◌, string_eq, nat_eq, list_eq,
}
use arush_adabala_tax_liabil.Prelude.Int.{ℤ}
use arush_adabala_tax_liabil.Prelude.Text.{Text}

mutual
  pub data Json (F : Type 0) : Type 0 where
    null : Json F
    flag : Bool → Json F
    whole : ℤ → Json F
    real : F → Json F
    str : Text → Json F
    arr : Items F → Json F
    obj : Fields F → Json F

  pub data Items (F : Type 0) : Type 0 where
    nil : Items F
    cons : Json F → Items F → Items F

  pub data Fields (F : Type 0) : Type 0 where
    end : Fields F
    field : String → Json F → Fields F → Fields F

module _ {F : Type 0} where
  -- `d.get(k)`; in a decoded object the last entry of a key counts
  unfoldable pub get : String → Fields F → Option (Json F)
  get k end = none
  get k (field j v d) = elim (get k d) [ some w ↦ some w | none ↦ if j == k then some v else none ]

  -- `isinstance(v, dict)`, with an empty mapping in the place of anything else
  abbrev pub fields_of : Json F → Fields F
  fields_of (obj d) = d
  fields_of v = end

  abbrev pub as_dict : Json F → Option (Fields F)
  as_dict (obj d) = some d
  as_dict v = none

  abbrev pub as_list : Json F → Option (Items F)
  as_list (arr l) = some l
  as_list v = none
