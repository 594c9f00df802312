-- ===== src/Config/Expansion/Exact.antt =====
-- `expand` of rust/src/config/expansion.rs against the selections that a document describes.
use scientific_workflow.Prelude.{
  ℕ, ◌+◌, ◌≡◌, ◌↔◌, ◌⊎◌, refl, sym, subst, Bool, true, false, ok, List, [], ◌∷◌, ◌++◌, map, arith,
  inl, inr, Option-cases, Result-cases,
}
use scientific_workflow.Prelude.Texts.{Text, text}
use scientific_workflow.Prelude.Members.{In, iff_trans, iff_sum, sum_assoc, In-append, In-map}
use scientific_workflow.Config.Json.{
  Value, null, bool, number, string, array, object, Items, nil, cons, Fields, end, field, get,
  insert,
}
use scientific_workflow.Config.Errors.{Pointer, key, index, child_pointer}
use scientific_workflow.Config.Spacing.{Floats, Allocator, linspace, logspace}
use scientific_workflow.Config.Expansion.{
  literal, product, product_insert, expand_at, expand_sweep, sweep_choices, expand_choices,
  expand_product, expand,
}
use scientific_workflow.Config.Expansion.Selection.{
  Selects, SelectsSweep, SelectsChoice, SelectsItem, SelectsFields,
}
use scientific_workflow.Config.Expansion.Selection.Parts.{In-product, In-expand_cases, In-axis}

module _ (fl : Floats) (fits : Allocator) where
  open fl use {Number}

  In-literal :
      (p : Pointer) (s : Bool) (v : Value Number) (vs : List (Value Number)) (r : Value Number)
      → literal fl fits p s v ≡ ok vs
      → In r vs ↔ (r ≡ v)
  unfolding literal
  In-literal p s v vs r e =
      let listed : vs ≡ v ∷ [] = ground arith in
      rw listed (λ h. elim h [ inl q ↦ q | inr x ↦ absurd x ], λ q. inl q)

  In-product_insert :
      (g : Fields Number) (current : List (Fields Number)) (k : Text)
      (choices : List (Value Number)) (next : List (Fields Number))
      → product_insert fl fits current k choices ≡ ok next
      → In g next ↔ (
          (b : Fields Number) × (w : Value Number) × In b current
          × In w choices
          × (g ≡ insert k w b))
  unfolding product_insert
  In-product_insert g current k choices next e =
      let made : next ≡ product k current choices = ground arith in
      rw made (In-product g k current choices)

  only : (b : Fields Number) → In b (end ∷ []) → b ≡ end
  only b h = elim h [ inl q ↦ q | inr x ↦ absurd x ]

  mutual
    unfolding expand_at Selects

    In-expand_at :
        (v : Value Number) (p : Pointer) (s : Bool) (vs : List (Value Number)) (r : Value Number)
        → expand_at fl fits p s v ≡ ok vs
        → In r vs ↔ Selects fl v p r
    In-expand_at null p s vs r e = In-literal p s null vs r e
    In-expand_at (bool b) p s vs r e = In-literal p s (bool b) vs r e
    In-expand_at (number n) p s vs r e = In-literal p s (number n) vs r e
    In-expand_at (string t) p s vs r e = In-literal p s (string t) vs r e
    In-expand_at (array xs) p s vs r e = In-literal p s (array xs) vs r e
    In-expand_at (object fields) p s vs r e = elim (Option-cases (get (text "linspace") fields)) [
      | inr (spec, found) ↦
          rw (found, Selects) (In-axis fl fits p linspace fields spec vs r (ground arith))
      | inl no_linspace ↦ elim (Option-cases (get (text "logspace") fields)) [
        | inr (spec, found) ↦
            rw (no_linspace, found, Selects)
              (In-axis fl fits p logspace fields spec vs r (ground arith))
        | inl no_logspace ↦ elim (Option-cases (get (text "$sweep") fields)) [
          | inr (choices, found) ↦
              rw (no_linspace, no_logspace, found, Selects)
                (In-expand_sweep fields p vs r (ground arith))
          | inl no_sweep ↦ elim (Option-cases (get (text "$cases") fields)) [
            | inr (cases, found) ↦
                rw (no_linspace, no_logspace, no_sweep, found, Selects)
                  (In-expand_cases p fields cases vs r (ground arith))
            | inl no_cases ↦ elim (Result-cases (expand_product fl fits p s (end ∷ []) fields)) [
              | inr (x, failed) ↦ absurd (ground arith)
              | inl (out, done) ↦
                  let listed : vs ≡ map object out = ground arith in
                  let mapped = In-map {A = Fields Number} {B = Value Number} object r out in
                  let chosen =
                    λ (g : Fields Number). In-expand_product fields p s (end ∷ []) out g done in
                  rw (listed, no_linspace, no_logspace, no_sweep, no_cases, Selects)
                    (
                      λ h.
                          let (g, q, m) = mapped.0 h in
                          let (b, base, picks) = (chosen g).0 m in
                          (g, q, subst (λ x. SelectsFields fl fields p x g) (only b base) picks),
                      λ (g, q, picks). mapped.1 (g, q, (chosen g).1 (end, inl refl, picks)),
                    )
            ]
          ]
        ]
      ]
    ]

    In-expand_sweep :
        (fields : Fields Number) (p : Pointer) (vs : List (Value Number)) (r : Value Number)
        → expand_sweep fl fits p fields ≡ ok vs
        → In r vs ↔ SelectsSweep fl fields p r
    In-expand_sweep end p vs r e = absurd (cc)
    In-expand_sweep (field k choices fields) p vs r e = In-sweep_choices choices p vs r e

    In-sweep_choices :
        (v : Value Number) (p : Pointer) (vs : List (Value Number)) (r : Value Number)
        → sweep_choices fl fits p v ≡ ok vs
        → In r vs ↔ SelectsChoice fl v p r
    In-sweep_choices null p vs r e = absurd (cc)
    In-sweep_choices (bool b) p vs r e = absurd (cc)
    In-sweep_choices (number n) p vs r e = absurd (cc)
    In-sweep_choices (string t) p vs r e = absurd (cc)
    In-sweep_choices (object fs) p vs r e = absurd (cc)
    In-sweep_choices (array choices) p vs r e =
        iff_trans (In-expand_choices choices p 0 [] vs r (ground arith))
          (λ s. elim s [ inl x ↦ absurd x | inr h ↦ h ], λ h. inr h)

    In-expand_choices :
        (choices : Items Number) (p : Pointer) (i : ℕ) (expanded vs : List (Value Number))
        (r : Value Number)
        → expand_choices fl fits p i expanded choices ≡ ok vs
        → In r vs ↔ (In r expanded ⊎ SelectsItem fl choices p i r)
    In-expand_choices nil p i expanded vs r e =
        let listed : vs ≡ expanded = ground arith in
        rw listed (λ h. inl h, λ t. elim t [ inl h ↦ h | inr x ↦ absurd x ])
    In-expand_choices (cons choice choices) p i expanded vs r e =
        let q : Pointer = p ++ key (text "$sweep") ∷ index i ∷ [] in
        elim (Result-cases (expand_at fl fits q true choice)) [
          | inr (x, failed) ↦ absurd (ground arith)
          | inl (nested, done) ↦
              iff_trans
                (In-expand_choices choices p (i + 1) (expanded ++ nested) vs r (ground arith))
                (iff_trans
                  (iff_sum
                    (iff_trans (In-append r expanded nested)
                      (iff_sum (λ h. h, λ h. h) (In-expand_at choice q true nested r done)))
                    (λ h. h, λ h. h))
                  sum_assoc)
        ]

    In-expand_product :
        (fields : Fields Number) (p : Pointer) (s : Bool) (combinations out : List (Fields Number))
        (g : Fields Number)
        → expand_product fl fits p s combinations fields ≡ ok out
        → In g out ↔ ((b : Fields Number) × In b combinations × SelectsFields fl fields p b g)
    In-expand_product end p s combinations out g e =
        let same : out ≡ combinations = ground arith in
        rw same (λ h. (g, h, refl), λ (b, h, q). subst (λ x. In x combinations) (sym q) h)
    In-expand_product (field k v fields) p s combinations out g e =
        elim (Result-cases (expand_at fl fits (child_pointer p k) s v)) [
          | inr (x, failed) ↦ absurd (ground arith)
          | inl (each, done) ↦ elim (Result-cases (product_insert fl fits combinations k each)) [
            | inr (x, failed) ↦ absurd (ground arith)
            | inl (next, inserted) ↦
                let rest = In-expand_product fields p s next out g (ground arith) in
                (
                  λ h.
                      let (b, m, picks) = rest.0 h in
                      let (c, w, held, chosen, q) =
                        (In-product_insert b combinations k each next inserted).0 m in
                      (
                        c,
                        held,
                        (
                          w,
                          (In-expand_at v (child_pointer p k) s each w done).0 chosen,
                          subst (λ x. SelectsFields fl fields p x g) q picks,
                        ),
                      ),
                  λ (c, held, (w, selected, picks)). rest.1 (
                    insert k w c,
                    (In-product_insert (insert k w c) combinations k each next inserted).1 (
                      c,
                      w,
                      held,
                      (In-expand_at v (child_pointer p k) s each w done).1 selected,
                      refl,
                    ),
                    picks,
                  ),
                )
          ]
        ]

  -- A success lists the selections that the document describes, and nothing else: one choice of
  -- every sweep, one point of every axis, one case of every correlated set, for each plain field.
  pub In-expand :
      (v : Value Number) (vs : List (Value Number)) (r : Value Number)
      → expand fl fits v ≡ ok vs
      → In r vs ↔ Selects fl v [] r
  unfolding expand
  In-expand v vs r e = In-expand_at v [] false vs r e
