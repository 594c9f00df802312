-- ===== src/Config/Expansion/Size.antt =====
-- How many selections rust/src/config/expansion.rs makes of a document.
use scientific_workflow.Prelude.{
  ℕ, zero, suc, ◌+◌, ◌*◌, ◌<◌, ◌≤◌, ◌≡◌, refl, ap, ◌∙◌, Bool, true, false, Option, none, some, ok,
  List, [], ◌∷◌, ◌++◌, length, length-append, length-map, arith, inl, inr, Option-cases,
  Result-cases,
}
use native.Mathlib.Nat.{mul_assoc}
use scientific_workflow.Prelude.Texts.{Text, text}
use scientific_workflow.Config.Json.{
  Value, null, bool, number, string, array, object, Items, nil, cons, Fields, end, field, get,
  items_len,
}
use scientific_workflow.Config.Errors.{Pointer, key, index, child_pointer}
use scientific_workflow.Config.Spacing.{
  Floats, Allocator, Marker, Spacing, linspace, logspace, samples, expand_spacing,
}
use scientific_workflow.Config.Cases.{case_loop, expand_case, expand_cases, fixed_fields}
use scientific_workflow.Config.Expansion.{
  insert_each, product, product_insert, axis, literal, expand_at, expand_sweep, sweep_choices,
  expand_choices, expand_product, expand,
}

mul_step :
    (c w f e n o : ℕ)
    → 0 < c
    → e ≡ w
    → 0 < e
    → n ≡ c * e
    → (0 < n → (o ≡ n * f) × (0 < o))
    → (o ≡ c * (w * f)) × (0 < o)
mul_step c w f e n o h p q r k =
    let (eq, pos) = k (rw r (grind arith)) in (eq ∙ rw (r, p) (mul_assoc c w f), pos)

module _ {N : Type 0} where
  length-insert_each :
      (k : Text) (base : Fields N) (choices : List (Value N))
      → length (insert_each k base choices) ≡ length choices
  length-insert_each k base [] = refl
  length-insert_each k base (c ∷ choices) = ap suc (length-insert_each k base choices)

  length-product :
      (k : Text) (current : List (Fields N)) (choices : List (Value N))
      → length (product k current choices) ≡ length current * length choices
  unfolding product
  length-product k [] choices = omega arith
  length-product k (base ∷ current) choices = omega (
    arith,
    length-append (insert_each k base choices) (product k current choices),
    length-insert_each k base choices,
    length-product k current choices,
  )

  length-case_loop :
      (p : Pointer) (i : ℕ) (fixed : Fields N) (expected : Option (List (List Text)))
      (cases : Items N) (vs : List (Value N))
      → case_loop p i fixed expected cases ≡ ok vs
      → length vs ≡ items_len cases
  unfolding case_loop
  length-case_loop p i fixed expected nil vs e = ground arith
  length-case_loop p i fixed expected (cons c cases) vs e =
      elim (Result-cases (expand_case p i fixed expected c)) [
        | inr (x, failed) ↦ ground arith
        | inl ((v, paths), done) ↦
            elim (Result-cases (case_loop p (i + 1) fixed (some paths) cases)) [
              | inr (x, failed) ↦ ground arith
              | inl (rest, looped) ↦
                  ground (arith, length-case_loop p (i + 1) fixed (some paths) cases rest looped)
            ]
      ]

  -- The number of cases.
  abbrev pub case_count : Value N → ℕ
  case_count (array cases) = items_len cases
  case_count _ = 0

  length-expand_cases :
      (p : Pointer) (fields : Fields N) (cases : Value N) (vs : List (Value N))
      → expand_cases p fields cases ≡ ok vs
      → (length vs ≡ case_count cases) × (0 < length vs)
  unfolding expand_cases
  length-expand_cases p fields (array nil) vs e = cc
  length-expand_cases p fields (array (cons c cases)) vs e =
      elim (Result-cases (fixed_fields p end fields)) [
        | inr (x, failed) ↦ ground arith
        | inl (fixed, done) ↦ ground (arith, length-case_loop p 0 fixed none (cons c cases) vs)
      ]
  length-expand_cases p fields _ vs e = cc

module _ (fl : Floats) where
  open fl use {Number, from_value}

  -- The `num` of a spacing.
  abbrev pub point_count : Value Number → ℕ
  point_count value = elim (from_value value) [ none ↦ 0 | some spec ↦ spec.num ]

  -- The number of selections: a sum over the choices of a sweep, a product over plain fields.
  unfoldable mutual
    pub weight : Value Number → ℕ
    weight null = 1
    weight (bool b) = 1
    weight (number n) = 1
    weight (string s) = 1
    weight (array vs) = 1
    weight (object fields) = elim (get (text "linspace") fields) [
      | some spec ↦ point_count spec
      | none ↦ elim (get (text "logspace") fields) [
        | some spec ↦ point_count spec
        | none ↦ elim (get (text "$sweep") fields) [
          | some choices ↦ weight_sweep fields
          | none ↦ elim (get (text "$cases") fields) [
            | some cases ↦ case_count cases
            | none ↦ weight_fields fields
          ]
        ]
      ]
    ]

    pub weight_sweep : Fields Number → ℕ
    weight_sweep end = 0
    weight_sweep (field k choices fields) = weight_choices choices

    pub weight_choices : Value Number → ℕ
    weight_choices null = 0
    weight_choices (bool b) = 0
    weight_choices (number n) = 0
    weight_choices (string s) = 0
    weight_choices (object fs) = 0
    weight_choices (array choices) = weight_items choices

    pub weight_items : Items Number → ℕ
    weight_items nil = 0
    weight_items (cons choice choices) = weight choice + weight_items choices

    pub weight_fields : Fields Number → ℕ
    weight_fields end = 1
    weight_fields (field k v fields) = weight v * weight_fields fields

module _ (fl : Floats) (fits : Allocator) where
  open fl use {Number, from_value, F}

  length-samples :
      (p : Pointer) (m : Marker) (spec : Spacing F) (i left : ℕ) (vs : List (Value Number))
      → samples fl p m spec i left ≡ ok vs
      → length vs ≡ left
  unfolding samples
  length-samples p m spec i zero vs e = ground arith
  length-samples p m spec i (suc left) vs e =
      elim (Result-cases (samples fl p m spec (i + 1) left)) [
        | inr (x, failed) ↦ ground arith
        | inl (rest, done) ↦ ground (arith, length-samples p m spec (i + 1) left rest done)
      ]

  length-axis :
      (p : Pointer) (m : Marker) (fields : Fields Number) (value : Value Number)
      (vs : List (Value Number))
      → axis fl fits p m fields value ≡ ok vs
      → (length vs ≡ point_count fl value) × (0 < length vs)
  unfolding axis expand_spacing
  length-axis p m fields value vs e = elim (Option-cases (from_value value)) [
    | inl absent ↦ ground arith
    | inr (spec, read) ↦ ground (arith, length-samples p m spec 0 spec.num vs)
  ]

  length-literal :
      (p : Pointer) (s : Bool) (v : Value Number) (vs : List (Value Number))
      → literal fl fits p s v ≡ ok vs
      → (length vs ≡ 1) × (0 < length vs)
  unfolding literal
  length-literal p s v vs e = ground arith

  length-product_insert :
      (current : List (Fields Number)) (k : Text) (choices : List (Value Number))
      (next : List (Fields Number))
      → product_insert fl fits current k choices ≡ ok next
      → length next ≡ length current * length choices
  unfolding product_insert
  length-product_insert current k choices next e = ground (arith, length-product k current choices)

  mutual
    unfolding expand_at weight

    length-expand_at :
        (v : Value Number) (p : Pointer) (s : Bool) (vs : List (Value Number))
        → expand_at fl fits p s v ≡ ok vs
        → (length vs ≡ weight fl v) × (0 < length vs)
    length-expand_at null p s vs e = length-literal p s null vs e
    length-expand_at (bool b) p s vs e = length-literal p s (bool b) vs e
    length-expand_at (number n) p s vs e = length-literal p s (number n) vs e
    length-expand_at (string t) p s vs e = length-literal p s (string t) vs e
    length-expand_at (array xs) p s vs e = length-literal p s (array xs) vs e
    length-expand_at (object fields) p s vs e = elim (Option-cases (get (text "linspace") fields)) [
      | inr (spec, found) ↦ ground (arith, length-axis p linspace fields spec vs)
      | inl no_linspace ↦ elim (Option-cases (get (text "logspace") fields)) [
        | inr (spec, found) ↦ ground (arith, length-axis p logspace fields spec vs)
        | inl no_logspace ↦ elim (Option-cases (get (text "$sweep") fields)) [
          | inr (choices, found) ↦ ground (arith, length-expand_sweep fields p vs)
          | inl no_sweep ↦ elim (Option-cases (get (text "$cases") fields)) [
            | inr (cases, found) ↦ ground (arith, length-expand_cases p fields cases vs)
            | inl no_cases ↦ elim (Result-cases (expand_product fl fits p s (end ∷ []) fields)) [
              | inr (x, failed) ↦ ground arith
              | inl (out, done) ↦ ground (
                arith,
                length-expand_product fields p s (end ∷ []) out (omega arith) done,
                length-map {A = Fields Number} {B = Value Number} object out,
              )
            ]
          ]
        ]
      ]
    ]

    length-expand_sweep :
        (fields : Fields Number) (p : Pointer) (vs : List (Value Number))
        → expand_sweep fl fits p fields ≡ ok vs
        → (length vs ≡ weight_sweep fl fields) × (0 < length vs)
    length-expand_sweep end p vs e = cc
    length-expand_sweep (field k choices fields) p vs e = length-sweep_choices choices p vs e

    length-sweep_choices :
        (v : Value Number) (p : Pointer) (vs : List (Value Number))
        → sweep_choices fl fits p v ≡ ok vs
        → (length vs ≡ weight_choices fl v) × (0 < length vs)
    length-sweep_choices null p vs e = cc
    length-sweep_choices (bool b) p vs e = cc
    length-sweep_choices (number n) p vs e = cc
    length-sweep_choices (string t) p vs e = cc
    length-sweep_choices (object fs) p vs e = cc
    length-sweep_choices (array choices) p vs e =
        ground (arith, length-expand_choices choices p 0 [] vs)

    length-expand_choices :
        (choices : Items Number) (p : Pointer) (i : ℕ) (expanded vs : List (Value Number))
        → expand_choices fl fits p i expanded choices ≡ ok vs
        → (length vs ≡ length expanded + weight_items fl choices)
          × (length expanded + items_len choices ≤ length vs)
    length-expand_choices nil p i expanded vs e = ground arith
    length-expand_choices (cons choice choices) p i expanded vs e =
        let q : Pointer = p ++ key (text "$sweep") ∷ index i ∷ [] in
        elim (Result-cases (expand_at fl fits q true choice)) [
          | inr (x, failed) ↦ ground arith
          | inl (nested, done) ↦ ground (
            arith,
            length-expand_at choice q true nested done,
            length-append expanded nested,
            length-expand_choices choices p (i + 1) (expanded ++ nested) vs,
          )
        ]

    length-expand_product :
        (fields : Fields Number) (p : Pointer) (s : Bool) (combinations out : List (Fields Number))
        → 0 < length combinations
        → expand_product fl fits p s combinations fields ≡ ok out
        → (length out ≡ length combinations * weight_fields fl fields) × (0 < length out)
    length-expand_product end p s combinations out h e = ground arith
    length-expand_product (field k v fields) p s combinations out h e =
        elim (Result-cases (expand_at fl fits (child_pointer p k) s v)) [
          | inr (x, failed) ↦ ground arith
          | inl (each, done) ↦ elim (Result-cases (product_insert fl fits combinations k each)) [
            | inr (x, failed) ↦ ground arith
            | inl (next, inserted) ↦
                let (sized, some_each) = length-expand_at v (child_pointer p k) s each done in
                let grown = length-product_insert combinations k each next inserted in
                let rest : expand_product fl fits p s next fields ≡ ok out =
                  ground (arith, done, inserted) in
                mul_step (length combinations) (weight fl v) (weight_fields fl fields) (length each)
                  (length next) (length out) h sized some_each grown
                  (λ g. length-expand_product fields p s next out g rest)
          ]
        ]

  -- A success makes exactly as many selections as the document describes: the product over plain
  -- fields, the sum over the choices of a sweep, the cases of `$cases`, the points of a spacing;
  -- and never none.
  pub length-expand :
      (v : Value Number) (vs : List (Value Number))
      → expand fl fits v ≡ ok vs
      → (length vs ≡ weight fl v) × (0 < length vs)
  unfolding expand
  length-expand v vs e = length-expand_at v [] false vs e
