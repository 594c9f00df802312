-- ===== src/Config/Expansion/Selection.antt =====
-- What a parameters document of rust/src/config/expansion.rs describes, with no order and no
-- accumulator: when one value is a selection of another.
pub mod Parts
use scientific_workflow.Prelude.{
  ℕ, suc, ◌+◌, ◌<◌, ◌≤◌, ◌≡◌, ◌⊎◌, Option, none, some, Result, ok, List, [], ◌∷◌, ◌++◌,
}
use scientific_workflow.Prelude.Texts.{Text, text}
use scientific_workflow.Config.Json.{
  Value, null, bool, number, string, array, object, Items, nil, cons, Fields, end, field, get,
  insert,
}
use scientific_workflow.Config.Errors.{Pointer, key, index, child_pointer}
use scientific_workflow.Config.Spacing.{Floats, Marker, Spacing, linspace, logspace, sample}
use scientific_workflow.Config.Cases.{fixed_fields, merge_objects}

module _ {N : Type 0} where
  -- One of the cases, merged over the fixed fields.
  abbrev pub IsCaseOf : Pointer → Fields N → Items N → Value N → Type 0
  IsCaseOf pointer fixed nil r = ⊥
  IsCaseOf pointer fixed (cons (object case) cases) r =
      ((m : Fields N) × (merge_objects pointer fixed case ≡ ok m) × (r ≡ object m))
      ⊎ IsCaseOf pointer fixed cases r
  IsCaseOf pointer fixed (cons _ cases) r = IsCaseOf pointer fixed cases r

  abbrev pub IsCase : Pointer → Fields N → Value N → Value N → Type 0
  IsCase pointer fields (array cases) r =
      (fixed : Fields N) × (fixed_fields pointer end fields ≡ ok fixed)
      × IsCaseOf pointer fixed cases r
  IsCase pointer fields _ r = ⊥

module _ (fl : Floats) where
  open fl use {Number, F, from_value, from_f64}

  -- A number that one index below `num` gives.
  abbrev pub IsPointFrom : Marker → Spacing F → ℕ → ℕ → Value Number → Type 0
  IsPointFrom marker spec first left r =
      (i : ℕ) × (n : Number) × (first ≤ i)
      × (i < first + left)
      × (from_f64 (sample fl marker spec i) ≡ some n)
      × (r ≡ number n)

  abbrev pub IsPoint : Marker → Value Number → Value Number → Type 0
  IsPoint marker value r =
      (spec : Spacing F) × (from_value value ≡ some spec) × IsPointFrom marker spec 0 spec.num r

  unfoldable mutual
    pub Selects : Value Number → Pointer → Value Number → Type 0
    Selects null p r = r ≡ null
    Selects (bool b) p r = r ≡ bool b
    Selects (number n) p r = r ≡ number n
    Selects (string s) p r = r ≡ string s
    Selects (array vs) p r = r ≡ array vs
    Selects (object fields) p r = elim (get (text "linspace") fields) [
      | some spec ↦ IsPoint linspace spec r
      | none ↦ elim (get (text "logspace") fields) [
        | some spec ↦ IsPoint logspace spec r
        | none ↦ elim (get (text "$sweep") fields) [
          | some choices ↦ SelectsSweep fields p r
          | none ↦ elim (get (text "$cases") fields) [
            | some cases ↦ IsCase p fields cases r
            | none ↦ (g : Fields Number) × (r ≡ object g) × SelectsFields fields p end g
          ]
        ]
      ]
    ]

    pub SelectsSweep : Fields Number → Pointer → Value Number → Type 0
    SelectsSweep end p r = ⊥
    SelectsSweep (field k choices fields) p r = SelectsChoice choices p r

    pub SelectsChoice : Value Number → Pointer → Value Number → Type 0
    SelectsChoice null p r = ⊥
    SelectsChoice (bool b) p r = ⊥
    SelectsChoice (number n) p r = ⊥
    SelectsChoice (string s) p r = ⊥
    SelectsChoice (object fs) p r = ⊥
    SelectsChoice (array choices) p r = SelectsItem choices p 0 r

    -- A selection of one of the choices.
    pub SelectsItem : Items Number → Pointer → ℕ → Value Number → Type 0
    SelectsItem nil p i r = ⊥
    SelectsItem (cons choice choices) p i r =
        Selects choice (p ++ key (text "$sweep") ∷ index i ∷ []) r ⊎ SelectsItem choices p (i + 1) r

    -- A selection of every field, written over a base.
    pub SelectsFields : Fields Number → Pointer → Fields Number → Fields Number → Type 0
    SelectsFields end p base g = g ≡ base
    SelectsFields (field k v fields) p base g =
        (w : Value Number) × Selects v (child_pointer p k) w
        × SelectsFields fields p (insert k w base) g
