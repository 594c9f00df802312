-- ===== src/Study/Order.antt =====
-- Orders of the phases of a study in which dependencies come first, for rust/src/config/manifest.rs
-- and rust/src/study/plan.rs.
use scientific_workflow.Prelude.{
  ℕ, zero, suc, ◌+◌, ◌<◌, ◌≤◌, ◌≡◌, ◌↔◌, refl, sym, ◌⊎◌, inl, inr, Bool-cases, some, Option-cases,
  ◌==◌, List, [], ◌∷◌, ◌++◌, length, get_elem?, arith,
}
use scientific_workflow.Prelude.Members.{In, In-append}
use scientific_workflow.Prelude.Texts.{Text, text_eq}
use scientific_workflow.Study.{PhaseKeys, index_from, by_name, range}

-- The phase at `index` names the phase at `other` as a dependency.
abbrev pub DependsOn : List PhaseKeys → ℕ → ℕ → Type 0
DependsOn phases index other =
    (p : PhaseKeys) × (d : Text) × (get_elem? phases index ≡ some p)
    × In d p.dependencies
    × (by_name phases d ≡ some other)

-- Every phase of the list has its dependencies further on in it.
abbrev pub IsOrdered : List PhaseKeys → List ℕ → Type 0
IsOrdered phases [] = Unit
IsOrdered phases (index ∷ order) =
    ((other : ℕ) → DependsOn phases index other → In other order) × IsOrdered phases order

-- Every phase of the list has its dependencies before it, or among `earlier`.
abbrev pub IsSettled : List PhaseKeys → List ℕ → List ℕ → Type 0
IsSettled phases earlier [] = Unit
IsSettled phases earlier (index ∷ positions) =
    ((other : ℕ) → DependsOn phases index other → In other earlier)
    × IsSettled phases (index ∷ earlier) positions

abbrev pub HasNoRepeat : List ℕ → Type 0
HasNoRepeat [] = Unit
HasNoRepeat (x ∷ xs) = (In x xs → ⊥) × HasNoRepeat xs

-- All phases can be arranged, each once, so that dependencies come after what depends on them.
abbrev pub IsAcyclic : List PhaseKeys → Type 0
IsAcyclic phases =
    (order : List ℕ) × IsOrdered phases order
    × HasNoRepeat order
    × ((index : ℕ) → In index order ↔ (index < length phases))

-- Every dependency names a phase.
abbrev pub IsResolved : List PhaseKeys → Type 0
IsResolved phases =
    (index : ℕ) (p : PhaseKeys) (d : Text)
    → get_elem? phases index ≡ some p
    → In d p.dependencies
    → (other : ℕ) × (by_name phases d ≡ some other)

pub In-cases : (x : ℕ) (xs : List ℕ) → In x xs ⊎ (In x xs → ⊥)
In-cases x [] = inr (λ h. h)
In-cases x (y ∷ xs) = elim (Bool-cases (x == y)) [
  | inl e ↦ inl (inl (ground arith))
  | inr e ↦
      let ne : x ≡ y → ⊥ = λ same. ground arith in
      elim (In-cases x xs) [
        | inl h ↦ inl (inr h)
        | inr h ↦ inr (λ m. elim m [ inl same ↦ ne same | inr k ↦ h k ])
      ]
]

pub IsSettled-snoc :
    (phases : List PhaseKeys) (earlier positions : List ℕ) (index : ℕ)
    → IsSettled phases earlier positions
    → ((other : ℕ) → DependsOn phases index other → In other earlier ⊎ In other positions)
    → IsSettled phases earlier (positions ++ index ∷ [])
IsSettled-snoc phases earlier [] index settled h =
    (λ other d. elim (h other d) [ inl m ↦ m | inr m ↦ absurd m ], tt)
IsSettled-snoc phases earlier (x ∷ positions) index settled h = (
  settled.0,
  IsSettled-snoc phases (x ∷ earlier) positions index settled.1 (λ other d. elim (h other d) [
    | inl m ↦ inl (inr m)
    | inr (inl e) ↦ inl (inl e)
    | inr (inr m) ↦ inr m
  ]),
)

pub HasNoRepeat-snoc :
    (xs : List ℕ) (x : ℕ) → HasNoRepeat xs → (In x xs → ⊥) → HasNoRepeat (xs ++ x ∷ [])
HasNoRepeat-snoc [] x h new = (λ m. m, tt)
HasNoRepeat-snoc (y ∷ xs) x h new = (
  λ m. elim ((In-append y xs (x ∷ [])).0 m) [
    | inl k ↦ h.0 k
    | inr (inl e) ↦ new (inl (sym e))
    | inr (inr k) ↦ absurd k
  ],
  HasNoRepeat-snoc xs x h.1 (λ m. new (inr m)),
)

pub In-range :
    (start count index : ℕ) → start ≤ index → index < start + count → In index (range start count)
In-range start zero index low high = absurd (omega arith)
In-range start (suc count) index low high = elim (Bool-cases (index == start)) [
  | inl e ↦ inl (ground arith)
  | inr e ↦ inr (In-range (start + 1) count index (ground arith) (omega arith))
]

pub range-In : (start count index : ℕ) → In index (range start count) → index < start + count
range-In start zero index h = absurd h
range-In start (suc count) index (inl e) = omega (arith, e)
range-In start (suc count) index (inr m) = omega (arith, range-In (start + 1) count index m)

pub get_elem?-lt :
    {A : Type 0} (xs : List A) (index : ℕ)
    → index < length xs
    → (a : A) × (get_elem? xs index ≡ some a)
get_elem?-lt [] index h = absurd (omega arith)
get_elem?-lt (x ∷ xs) zero h = (x, refl)
get_elem?-lt (x ∷ xs) (suc index) h = get_elem?-lt xs index (omega arith)

index_from-lt :
    (start : ℕ) (phases : List PhaseKeys) (name : Text) (index : ℕ)
    → index_from start phases name ≡ some index
    → index < start + length phases
unfolding index_from
index_from-lt start [] name index h = absurd (ground arith)
index_from-lt start (p ∷ phases) name index h =
    elim (Option-cases (index_from (start + 1) phases name)) [
      | inl e ↦ elim (Bool-cases (text_eq p.name name)) [
        | inl same ↦ ground arith
        | inr other ↦ absurd (ground arith)
      ]
      | inr (later, e) ↦
          let bound = index_from-lt (start + 1) phases name later e in
          let same : later ≡ index = ground arith in omega arith
    ]

pub by_name-lt :
    (phases : List PhaseKeys) (name : Text) (index : ℕ)
    → by_name phases name ≡ some index
    → index < length phases
unfolding by_name
by_name-lt phases name index h = omega (arith, index_from-lt 0 phases name index h)
