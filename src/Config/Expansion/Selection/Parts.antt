-- ===== src/Config/Expansion/Selection/Parts.antt =====
-- The loops of rust/src/config/expansion.rs list exactly the selections of their part.
use scientific_workflow.Prelude.{
  ℕ, zero, suc, ◌+◌, ◌≤◌, ◌≡◌, ◌↔◌, ◌≢◌, refl, ap, ◌∙◌, subst, Option, none, some, ok, List, [],
  ◌∷◌, arith, inl, inr, Option-cases, Result-cases,
}
use native.Mathlib.Decide.{ℕ_discrete}
use scientific_workflow.Prelude.Texts.{Text}
use scientific_workflow.Prelude.Members.{In, iff_sum, In-append}
use scientific_workflow.Config.Json.{
  Value, number, array, object, Items, nil, cons, Fields, end, field, insert,
}
use scientific_workflow.Config.Errors.{Pointer}
use scientific_workflow.Config.Spacing.{
  Floats, Allocator, Marker, Spacing, sample, samples, expand_spacing,
}
use scientific_workflow.Config.Cases.{
  case_loop, expand_case, expand_cases, fixed_fields, merge_objects,
}
use scientific_workflow.Config.Expansion.{insert_each, product, axis}
use scientific_workflow.Config.Expansion.Selection.{IsCaseOf, IsCase, IsPointFrom, IsPoint}

le_of_ne : (i j : ℕ) → i ≤ j → i ≢ j → i + 1 ≤ j
le_of_ne i j h k = omega arith

module _ {N : Type 0} where
  In-insert_each :
      (g : Fields N) (k : Text) (base : Fields N) (choices : List (Value N))
      → In g (insert_each k base choices) ↔ ((w : Value N) × In w choices × (g ≡ insert k w base))
  In-insert_each g k base [] = (λ h. absurd h, λ (w, h, e). absurd h)
  In-insert_each g k base (c ∷ choices) =
      let ih = In-insert_each g k base choices in
      (
        λ s. elim s [ inl e ↦ (c, inl refl, e) | inr m ↦ let (w, h, e) = ih.0 m in (w, inr h, e) ],
        λ (w, s, e). elim s [
          | inl h ↦ inl (e ∙ ap (λ v. insert k v base) h)
          | inr h ↦ inr (ih.1 (w, h, e))
        ],
      )

  pub In-product :
      (g : Fields N) (k : Text) (current : List (Fields N)) (choices : List (Value N))
      → In g (product k current choices)
        ↔ ((b : Fields N) × (w : Value N) × In b current × In w choices × (g ≡ insert k w b))
  unfolding product
  In-product g k [] choices = (λ h. absurd h, λ (b, w, h, i, e). absurd h)
  In-product g k (base ∷ current) choices =
      let ih = In-product g k current choices in
      let split = In-append g (insert_each k base choices) (product k current choices) in
      let each = In-insert_each g k base choices in
      (
        λ m. elim (split.0 m) [
          | inl h ↦ let (w, i, e) = each.0 h in (base, w, inl refl, i, e)
          | inr h ↦ let (b, w, i, j, e) = ih.0 h in (b, w, inr i, j, e)
        ],
        λ (b, w, s, j, e). elim s [
          | inl h ↦ split.1 (inl (each.1 (w, j, e ∙ ap (insert k w) h)))
          | inr h ↦ split.1 (inr (ih.1 (b, w, h, j, e)))
        ],
      )

  -- What a round of the loop over the cases has found, if it goes on.
  expand_case-ok :
      (p : Pointer) (i : ℕ) (fixed : Fields N) (expected : Option (List (List Text))) (c : Value N)
      (v : Value N) (paths : List (List Text))
      → expand_case p i fixed expected c ≡ ok (v, paths)
      → (case : Fields N) × (m : Fields N) × (c ≡ object case)
        × (merge_objects p fixed case ≡ ok m)
        × (v ≡ object m)
  unfolding expand_case
  expand_case-ok p i fixed expected (object end) v paths e = cc
  expand_case-ok p i fixed expected (object (field k x fs)) v paths e =
      elim (Result-cases (merge_objects p fixed (field k x fs))) [
        | inl (m, merged) ↦ (field k x fs, m, refl, merged, ground arith)
        | inr (z, failed) ↦ ground arith
      ]
  expand_case-ok p i fixed expected _ v paths e = cc

  In-case_loop :
      (p : Pointer) (i : ℕ) (fixed : Fields N) (expected : Option (List (List Text)))
      (cases : Items N) (vs : List (Value N)) (r : Value N)
      → case_loop p i fixed expected cases ≡ ok vs
      → In r vs ↔ IsCaseOf p fixed cases r
  unfolding case_loop
  In-case_loop p i fixed expected nil vs r e =
      let empty : vs ≡ [] = ground arith in rw empty (λ h. h, λ h. h)
  In-case_loop p i fixed expected (cons c cases) vs r e =
      elim (Result-cases (expand_case p i fixed expected c)) [
        | inr (x, failed) ↦ ground arith
        | inl ((v, paths), done) ↦
            elim (Result-cases (case_loop p (i + 1) fixed (some paths) cases)) [
              | inr (x, failed) ↦ ground arith
              | inl (rest, looped) ↦
                  let (case, m, is_object, merged, value) =
                    expand_case-ok p i fixed expected c v paths done in
                  let listed : vs ≡ v ∷ rest = ground arith in
                  let ih = In-case_loop p (i + 1) fixed (some paths) cases rest r looped in
                  rw (listed, is_object)
                    (iff_sum (λ q. (m, merged, q ∙ value), λ (m', merged', q). cc) ih)
            ]
      ]

  pub In-expand_cases :
      (p : Pointer) (fields : Fields N) (cases : Value N) (vs : List (Value N)) (r : Value N)
      → expand_cases p fields cases ≡ ok vs
      → In r vs ↔ IsCase p fields cases r
  unfolding expand_cases
  In-expand_cases p fields (array nil) vs r e = absurd (cc)
  In-expand_cases p fields (array (cons c cases)) vs r e =
      elim (Result-cases (fixed_fields p end fields)) [
        | inr (x, failed) ↦ absurd (ground arith)
        | inl (fixed, done) ↦
            let ih = In-case_loop p 0 fixed none (cons c cases) vs r (ground arith) in
            (
              λ h. (fixed, done, ih.0 h),
              λ (f, d, h). ih.1 (subst (λ g. IsCaseOf p g (cons c cases) r) (cc) h),
            )
      ]
  In-expand_cases p fields _ vs r e = absurd (cc)

module _ (fl : Floats) (fits : Allocator) where
  open fl use {Number, from_value, F, from_f64}

  In-samples :
      (p : Pointer) (m : Marker) (spec : Spacing F) (i left : ℕ) (vs : List (Value Number))
      (r : Value Number)
      → samples fl p m spec i left ≡ ok vs
      → In r vs ↔ IsPointFrom fl m spec i left r
  unfolding samples
  In-samples p m spec i zero vs r e =
      let empty : vs ≡ [] = ground arith in
      rw empty (λ h. absurd h, λ (j, n, low, high, s, q). omega arith)
  In-samples p m spec i (suc left) vs r e = elim (Option-cases (from_f64 (sample fl m spec i))) [
    | inl bad ↦ absurd (ground arith)
    | inr (n, good) ↦ elim (Result-cases (samples fl p m spec (i + 1) left)) [
      | inr (x, failed) ↦ absurd (ground arith)
      | inl (rest, done) ↦
          let listed : vs ≡ number n ∷ rest = ground arith in
          let ih = In-samples p m spec (i + 1) left rest r done in
          rw listed (
            λ s. elim s [
              | inl q ↦ (i, n, omega arith, omega arith, good, q)
              | inr h ↦
                  let (j, k, low, high, point, q) = ih.0 h in
                  (j, k, omega arith, omega arith, point, q)
            ],
            λ (j, k, low, high, point, q). elim (ℕ_discrete i j) [
              | yes same ↦ inl (ground arith)
              | no other ↦ inr (ih.1 (j, k, le_of_ne i j low other, omega arith, point, q))
            ],
          )
    ]
  ]

  pub In-axis :
      (p : Pointer) (m : Marker) (fields : Fields Number) (value : Value Number)
      (vs : List (Value Number)) (r : Value Number)
      → axis fl fits p m fields value ≡ ok vs
      → In r vs ↔ IsPoint fl m value r
  unfolding axis expand_spacing
  In-axis p m fields value vs r e = elim (Option-cases (from_value value)) [
    | inl absent ↦ absurd (ground arith)
    | inr (spec, read) ↦
        let ih = In-samples p m spec 0 spec.num vs r (ground arith) in
        (
          λ h. (spec, read, ih.0 h),
          λ (s, again, h). ih.1 (subst (λ t. IsPointFrom fl m t 0 t.num r) (cc) h),
        )
  ]
