-- ===== src/Config/Expansion.antt =====
-- `expand` of rust/src/config/expansion.rs: every selection that a parameters document describes,
-- in a fixed order. Recursion is on the document; a `$sweep` marker that passes the test for
-- siblings is the only field of its object, so its choices are a part of the object.
pub mod Size
pub mod Selection
pub mod Exact
pub mod Tests
use scientific_workflow.Prelude.{
  ℕ, zero, suc, ◌+◌, ◌*◌, ◌^◌, ◌<◌, Bool, true, false, Option, none, some, ◌==◌, ltb, if◌then◌else◌,
  Result, ok, err, ◌>>=◌, ◌>>◌, List, [], ◌∷◌, ◌++◌, map, length,
}
use scientific_workflow.Prelude.Texts.{Text, text}
use scientific_workflow.Config.Json.{
  Value, null, bool, number, string, array, object, Items, nil, cons, Fields, end, field, get, len,
  items_len, insert,
}
use scientific_workflow.Config.Errors.{
  Pointer, key, index, child_pointer, ConfigError, invalid, expansion_overflow, spacing_siblings,
  sweep_siblings, sweep_not_array, sweep_empty, unknown_marker,
}
use scientific_workflow.Config.Spacing.{
  Floats, Allocator, try_reserve, Marker, linspace, logspace, expand_spacing,
}
use scientific_workflow.Config.Cases.{is_dollar, reject_reserved_markers, expand_cases}

abbrev pub usize_bound : ℕ
usize_bound = 18446744073709551616

-- `checked_add` and `checked_mul` of `usize`.
abbrev pub checked : ℕ → Result ConfigError (Unit {0})
checked n = if ltb n usize_bound then ok tt else err expansion_overflow

module _ {N : Type 0} where
  abbrev pub insert_each : Text → Fields N → List (Value N) → List (Fields N)
  insert_each k base [] = []
  insert_each k base (choice ∷ choices) = insert k choice base ∷ insert_each k base choices

  unfoldable pub product : Text → List (Fields N) → List (Value N) → List (Fields N)
  product k [] choices = []
  product k (base ∷ current) choices = insert_each k base choices ++ product k current choices

module _ (fl : Floats) (fits : Allocator) where
  open fl use {Number}

  unfoldable pub product_insert :
      List (Fields Number) → Text → List (Value Number) → Result ConfigError (List (Fields Number))
  unfolding product
  product_insert current k choices = do
    checked (length current * length choices)
    try_reserve fits (length current * length choices)
    ok (product k current choices)

  -- One of the two numeric markers, which must stand alone.
  unfoldable pub axis :
      Pointer → Marker → Fields Number → Value Number → Result ConfigError (List (Value Number))
  unfolding expand_spacing
  axis pointer marker fields spec =
      if len fields == 1
      then expand_spacing fl fits pointer marker spec
      else err (invalid pointer spacing_siblings)

  unfoldable pub literal : Pointer → Bool → Value Number → Result ConfigError (List (Value Number))
  unfolding reject_reserved_markers
  literal pointer in_sweep value =
      if in_sweep
      then (reject_reserved_markers pointer value >> ok (value ∷ []))
      else ok (value ∷ [])

  unfoldable mutual
    unfolding axis literal product_insert expand_cases

    pub expand_at : Pointer → Bool → Value Number → Result ConfigError (List (Value Number))
    expand_at pointer in_sweep null = literal pointer in_sweep null
    expand_at pointer in_sweep (bool b) = literal pointer in_sweep (bool b)
    expand_at pointer in_sweep (number n) = literal pointer in_sweep (number n)
    expand_at pointer in_sweep (string s) = literal pointer in_sweep (string s)
    expand_at pointer in_sweep (array vs) = literal pointer in_sweep (array vs)
    expand_at pointer in_sweep (object fields) =
        let sweep = expand_sweep pointer fields in
        let plain = expand_product pointer in_sweep (end ∷ []) fields in
        elim (get (text "linspace") fields) [
          | some spec ↦ axis pointer linspace fields spec
          | none ↦ elim (get (text "logspace") fields) [
            | some spec ↦ axis pointer logspace fields spec
            | none ↦ elim (get (text "$sweep") fields) [
              | some choices ↦
                  if len fields == 1 then sweep else err (invalid pointer sweep_siblings)
              | none ↦ elim (get (text "$cases") fields) [
                | some cases ↦ expand_cases pointer fields cases
                | none ↦ plain >>= λ combinations. ok (map object combinations)
              ]
            ]
          ]
        ]

    -- The choices of the object's one field.
    pub expand_sweep : Pointer → Fields Number → Result ConfigError (List (Value Number))
    expand_sweep pointer end = err (invalid pointer sweep_not_array)
    expand_sweep pointer (field k choices fields) = sweep_choices pointer choices

    pub sweep_choices : Pointer → Value Number → Result ConfigError (List (Value Number))
    sweep_choices pointer null = err (invalid pointer sweep_not_array)
    sweep_choices pointer (bool b) = err (invalid pointer sweep_not_array)
    sweep_choices pointer (number n) = err (invalid pointer sweep_not_array)
    sweep_choices pointer (string s) = err (invalid pointer sweep_not_array)
    sweep_choices pointer (object fs) = err (invalid pointer sweep_not_array)
    sweep_choices pointer (array choices) =
        let each = expand_choices pointer 0 [] choices in
        if items_len choices == 0 then err (invalid pointer sweep_empty) else each

    pub expand_choices :
        Pointer → ℕ → List (Value Number) → Items Number → Result ConfigError (List (Value Number))
    expand_choices pointer i expanded nil = ok expanded
    expand_choices pointer i expanded (cons choice choices) = do
      nested ← expand_at (pointer ++ key (text "$sweep") ∷ index i ∷ []) true choice
      checked (length expanded + length nested)
      try_reserve fits (length nested)
      expand_choices pointer (i + 1) (expanded ++ nested) choices

    pub expand_product :
        Pointer
        → Bool
        → List (Fields Number)
        → Fields Number
        → Result ConfigError (List (Fields Number))
    expand_product pointer in_sweep combinations end = ok combinations
    expand_product pointer in_sweep combinations (field k v fields) =
        let each = expand_at (child_pointer pointer k) in_sweep v in
        if is_dollar k then err (invalid (child_pointer pointer k) (unknown_marker k)) else do
          expanded ← each
          next ← product_insert combinations k expanded
          expand_product pointer in_sweep next fields

  unfoldable pub expand : Value Number → Result ConfigError (List (Value Number))
  unfolding expand_at
  expand value = expand_at [] false value
