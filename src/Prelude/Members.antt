-- ===== src/Prelude/Members.antt =====
-- Membership in a list by recursion, with its laws as equivalences.
use mathlib.Core.Path.{◌≡◌, refl, ap, ◌∙◌}
use mathlib.Core.Logic.{◌↔◌, ◌⊎◌, inl, inr}
use mathlib.Core.List.{List, [], ◌∷◌, ◌++◌, map}

abbrev pub In : {A : Type 0} → A → List A → Type 0
In a [] = ⊥
In a (x ∷ xs) = (a ≡ x) ⊎ In a xs

pub iff_trans {ℓ κ μ} : {A : Type ℓ} {B : Type κ} {C : Type μ} → A ↔ B → B ↔ C → A ↔ C
iff_trans p q = (λ a. q.0 (p.0 a), λ c. p.1 (q.1 c))

pub iff_sum {ℓ κ μ ν} :
    {A : Type ℓ} {B : Type κ} {C : Type μ} {D : Type ν} → A ↔ C → B ↔ D → (A ⊎ B) ↔ (C ⊎ D)
iff_sum p q = (
  λ s. elim s [ inl a ↦ inl (p.0 a) | inr b ↦ inr (q.0 b) ],
  λ s. elim s [ inl c ↦ inl (p.1 c) | inr d ↦ inr (q.1 d) ],
)

pub sum_assoc {ℓ κ μ} : {A : Type ℓ} {B : Type κ} {C : Type μ} → ((A ⊎ B) ⊎ C) ↔ (A ⊎ (B ⊎ C))
sum_assoc = (
  λ s. elim s [ inl (inl a) ↦ inl a | inl (inr b) ↦ inr (inl b) | inr c ↦ inr (inr c) ],
  λ s. elim s [ inl a ↦ inl (inl a) | inr (inl b) ↦ inl (inr b) | inr (inr c) ↦ inr c ],
)

module _ {A : Type 0} where
  pub In-append : (a : A) (xs ys : List A) → In a (xs ++ ys) ↔ (In a xs ⊎ In a ys)
  In-append a [] ys = (λ h. inr h, λ s. elim s [ inl h ↦ absurd h | inr h ↦ h ])
  In-append a (x ∷ xs) ys =
      let ih = In-append a xs ys in
      (
        λ s. elim s [
          | inl e ↦ inl (inl e)
          | inr m ↦ elim (ih.0 m) [ inl h ↦ inl (inr h) | inr h ↦ inr h ]
        ],
        λ s. elim s [
          | inl (inl e) ↦ inl e
          | inl (inr h) ↦ inr (ih.1 (inl h))
          | inr h ↦ inr (ih.1 (inr h))
        ],
      )

  pub In-map :
      {B : Type 0} (f : A → B) (b : B) (xs : List A)
      → In b (map f xs) ↔ ((a : A) × (b ≡ f a) × In a xs)
  In-map f b [] = (λ h. absurd h, λ (a, e, h). absurd h)
  In-map f b (x ∷ xs) =
      let ih = In-map f b xs in
      (
        λ s. elim s [ inl e ↦ (x, e, inl refl) | inr m ↦ let (a, e, h) = ih.0 m in (a, e, inr h) ],
        λ (a, e, s). elim s [ inl h ↦ inl (e ∙ ap f h) | inr h ↦ inr (ih.1 (a, e, h)) ],
      )
