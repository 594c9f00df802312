-- ===== src/Config/Expansion/Tests.antt =====
-- Runs of rust/src/config/expansion.rs, with natural numbers in the place of the floats.
use scientific_workflow.Prelude.{
  ℕ, ◌+◌, ◌-◌, ◌*◌, ◌/◌, ◌<◌, ◌≡◌, ◌↔◌, refl, true, false, Option, none, some, ok, err, List, [],
  ◌∷◌,
}
use scientific_workflow.Prelude.Texts.{text}
use scientific_workflow.Prelude.Members.{In}
use scientific_workflow.Config.Json.{
  Value, null, number, array, object, Items, nil, cons, end, field,
}
use scientific_workflow.Config.Errors.{
  key, index, invalid, sweep_empty, literal_marker, cases_differ,
}
use scientific_workflow.Config.Spacing.{Floats, Spacing}
use scientific_workflow.Config.Cases.{
  reject_reserved_markers, fixed_fields, same_paths, flattened_paths, merge_objects, expand_case,
  case_loop, expand_cases, visit,
}
use scientific_workflow.Config.Expansion.{expand}
use scientific_workflow.Config.Expansion.Size.{weight, length-expand}
use scientific_workflow.Config.Expansion.Selection.{Selects}
use scientific_workflow.Config.Expansion.Exact.{In-expand}

-- `{"num": n}` reads as an axis from 0 to n with both ends.
abbrev read_num : Value ℕ → Option (Spacing ℕ)
read_num (object (field k (number n) fs)) =
    some (record { start = 0; stop = n; num = n; endpoint = true; base = none })
read_num _ = none

abbrev naturals : Floats
naturals = record {
  F = ℕ;
  Number = ℕ;
  is_finite = λ x. true;
  not_positive = λ x. false;
  of_ℕ = λ n. n;
  plus = λ a b. a + b;
  minus = λ a b. a - b;
  times = λ a b. a * b;
  over = λ a b. a / b;
  powf = λ a b. a * b;
  from_f64 = λ x. some x;
  from_value = read_num;
  from_f64_finite = λ x. refl;
}

opened : Unit {0}
unfolding expand expand_cases case_loop expand_case fixed_fields same_paths flattened_paths
    merge_objects reject_reserved_markers visit
opened = tt

abbrev num : ℕ → Value ℕ
num n = number n

abbrev sweep : Items ℕ → Value ℕ
sweep choices = object (field (text "$sweep") (array choices) end)

abbrev pair : Value ℕ → Value ℕ → Value ℕ
pair v w = object (field (text "a") v (field (text "b") w end))

-- A sweep inside one choice of a sweep, beside an independent one.
abbrev nested : Value ℕ
nested =
    pair
      (sweep (
        cons null
          (cons (object (field (text "w") (sweep (cons (num 2) (cons (num 3) nil))) end)) nil)))
      (sweep (cons (num 10) (cons (num 20) nil)))

abbrev width : ℕ → Value ℕ
width n = object (field (text "w") (num n) end)

abbrev nested_expanded : List (Value ℕ)
nested_expanded =
    pair null (num 10)
    ∷ pair null (num 20)
    ∷ pair (width 2) (num 10)
    ∷ pair (width 2) (num 20)
    ∷ pair (width 3) (num 10)
    ∷ pair (width 3) (num 20)
    ∷ []

expand-nested : expand naturals (λ n. true) nested ≡ ok nested_expanded
unfolding opened
expand-nested = refl

expand_empty_sweep :
    expand naturals (λ n. true) (pair (sweep nil) null)
    ≡ err (invalid (key (text "a") ∷ []) sweep_empty)
unfolding opened
expand_empty_sweep = refl

expand_hidden :
    expand naturals (λ n. true) (sweep (cons (array (cons (sweep nil) nil)) nil))
    ≡ err (invalid (key (text "$sweep") ∷ index 0 ∷ key (text "$sweep") ∷ []) literal_marker)
unfolding opened
expand_hidden = refl

-- Correlated cases over one fixed field.
abbrev cases : Value ℕ → Value ℕ
cases second = object (
    field (text "f") (num 1) (
      field (text "$cases") (array (cons (object (field (text "x") (num 2) end)) (cons second nil)))
        end))

expand-cases :
    expand naturals (λ n. true) (cases (object (field (text "x") (num 3) end)))
    ≡ ok (
        object (field (text "f") (num 1) (field (text "x") (num 2) end))
        ∷ object (field (text "f") (num 1) (field (text "x") (num 3) end))
        ∷ [])
unfolding opened
expand-cases = refl

expand-cases_differ :
    expand naturals (λ n. true) (cases (object (field (text "y") (num 3) end)))
    ≡ err (invalid (key (text "$cases") ∷ []) cases_differ)
unfolding opened
expand-cases_differ = refl

length-expand_example : (6 ≡ weight naturals nested) × (0 < 6)
length-expand_example = length-expand naturals (λ n. true) nested nested_expanded expand-nested

In-expand_example :
    In (pair (width 3) (num 10)) nested_expanded
    ↔ Selects naturals nested [] (pair (width 3) (num 10))
In-expand_example =
    In-expand naturals (λ n. true) nested nested_expanded (pair (width 3) (num 10)) expand-nested
