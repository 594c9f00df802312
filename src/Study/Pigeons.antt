-- ===== src/Study/Pigeons.antt =====
-- A list of distinct indices below a bound is no longer than the bound; for the depth of the
-- searches over the phases of a study.
use scientific_workflow.Prelude.{
  ℕ, zero, suc, ◌<◌, ◌≤◌, ◌≡◌, refl, subst, ap, inl, inr, false, Bool-cases, ◌==◌, if◌then◌else◌,
  List, [], ◌∷◌, length, arith,
}
use scientific_workflow.Prelude.Members.{In}
use scientific_workflow.Study.Order.{HasNoRepeat}

abbrev pub without : ℕ → List ℕ → List ℕ
without k [] = []
without k (x ∷ xs) = if x == k then without k xs else x ∷ without k xs

without-In :
    (k : ℕ) (xs : List ℕ) (other : ℕ)
    → In other (without k xs)
    → In other xs × ((other == k) ≡ false)
without-In k [] other m = absurd m
without-In k (x ∷ xs) other m = elim (Bool-cases (x == k)) [
  | inl e ↦ let (old, differ) = without-In k xs other (ground arith) in (inr old, differ)
  | inr e ↦
      let kept : In other (x ∷ without k xs) = ground arith in
      elim kept [
        | inl same ↦ (inl same, ground arith)
        | inr later ↦ let (old, differ) = without-In k xs other later in (inr old, differ)
      ]
]

without-HasNoRepeat : (k : ℕ) (xs : List ℕ) → HasNoRepeat xs → HasNoRepeat (without k xs)
without-HasNoRepeat k [] h = tt
without-HasNoRepeat k (x ∷ xs) h =
    let rest = without-HasNoRepeat k xs h.1 in
    let new : In x (without k xs) → ⊥ = λ m. h.0 (without-In k xs x m).0 in
    elim (Bool-cases (x == k)) [ inl e ↦ ground arith | inr e ↦ ground arith ]

without-new : (k : ℕ) (xs : List ℕ) → (In k xs → ⊥) → without k xs ≡ xs
without-new k [] h = refl
without-new k (x ∷ xs) h =
    let rest = without-new k xs (λ m. h (inr m)) in
    elim (Bool-cases (x == k)) [
      | inl e ↦ let same : k ≡ x = ground arith in absurd (h (inl same))
      | inr e ↦ ground arith
    ]

length-without : (k : ℕ) (xs : List ℕ) → HasNoRepeat xs → length xs ≤ suc (length (without k xs))
length-without k [] h = omega arith
length-without k (x ∷ xs) h =
    let rest = length-without k xs h.1 in
    elim (Bool-cases (x == k)) [
      | inl e ↦
          let same : x ≡ k = ground arith in
          let new = without-new k xs (subst (λ i. In i xs → ⊥) same h.0) in
          ground (arith, ap length new)
      | inr e ↦ ground arith
    ]

pub HasNoRepeat-length :
    (n : ℕ) (xs : List ℕ) → HasNoRepeat xs → ((x : ℕ) → In x xs → x < n) → length xs ≤ n
HasNoRepeat-length zero [] h bound = omega arith
HasNoRepeat-length zero (x ∷ xs) h bound = absurd (omega (arith, bound x (inl refl)))
HasNoRepeat-length (suc n) xs h bound =
    let rest =
      HasNoRepeat-length n (without n xs) (without-HasNoRepeat n xs h) (λ x m.
        let (old, differ) = without-In n xs x m in let below = bound x old in ground arith) in
    omega (arith, length-without n xs h)
