-- ===== src/Study/Accepted.antt =====
-- `validate_acyclic` of rust/src/config/manifest.rs accepts all phases that can be ordered.
use scientific_workflow.Prelude.{
  ℕ, zero, suc, ◌+◌, ◌<◌, ◌≤◌, ◌≡◌, ◌↔◌, refl, subst, ◌⊎◌, inl, inr, Bool-cases, some, ◌==◌, List,
  [], ◌∷◌, length, get_elem?, arith,
}
use scientific_workflow.Prelude.Members.{In}
use scientific_workflow.Prelude.Texts.{Text}
use scientific_workflow.Study.{
  PhaseKeys, by_name, range, put, States, Search, clear, find_each, find_cycle, find_all,
  validate_acyclic,
}
use scientific_workflow.Study.Order.{
  IsOrdered, IsAcyclic, IsResolved, In-cases, range-In, by_name-lt, get_elem?-lt,
}
use scientific_workflow.Study.Cycles.{validate_acyclic-IsAcyclic}
use scientific_workflow.Study.Pigeons.{HasNoRepeat-length}

-- A search that ends without a cycle and leaves no phase entered that was not.
abbrev pub Clears : (States → Search) → States → Type 0
Clears find states =
    (after : States) × (find states ≡ clear after)
    × ((other : ℕ) → after other ≡ 1 → states other ≡ 1)

abbrev pub IsClearing : List PhaseKeys → List ℕ → (ℕ → States → Search) → Type 0
IsClearing phases order find =
    (index : ℕ) (states : States)
    → In index order
    → index < length phases
    → ((other : ℕ) → In other order → states other ≡ 1 → ⊥)
    → Clears (find index) states

put-one :
    (index other : ℕ) (states : States)
    → put index 1 states other ≡ 1
    → (other ≡ index) ⊎ (states other ≡ 1)
put-one index other states h = elim (Bool-cases (other == index)) [
  | inl e ↦ inl (ground arith)
  | inr e ↦ inr (ground arith)
]

put-two :
    (index other : ℕ) (states : States)
    → put index 2 states other ≡ 1
    → ((other ≡ index) → ⊥) × (states other ≡ 1)
put-two index other states h = elim (Bool-cases (other == index)) [
  | inl e ↦ absurd (ground arith)
  | inr e ↦ (λ same. absurd (ground arith), ground arith)
]

module _ (phases : List PhaseKeys) (resolved : IsResolved phases) where
  find_each-Clears :
      (order : List ℕ) (find : ℕ → States → Search) (clearing : IsClearing phases order find)
      (dependencies : List Text) (states : States)
      → ((other : ℕ) → In other order → states other ≡ 1 → ⊥)
      → ((d : Text)
          → In d dependencies
          → (other : ℕ) × (by_name phases d ≡ some other) × In other order)
      → Clears (find_each phases find dependencies) states
  unfolding find_each
  find_each-Clears order find clearing [] states free targets = (states, refl, λ other e. e)
  find_each-Clears order find clearing (d ∷ dependencies) states free targets =
      let (index, e, here) = targets d (inl refl) in
      let (mid, ran, old_mid) = clearing index states here (by_name-lt phases d index e) free in
      let (after, ran_rest, old) =
        find_each-Clears order find clearing dependencies mid
          (λ other m one. free other m (old_mid other one)) (λ c m. targets c (inr m)) in
      (after, ground arith, λ other one. old_mid other (old other one))

  find_cycle-IsClearing :
      (fuel : ℕ) (order : List ℕ)
      → IsOrdered phases order
      → length order ≤ fuel
      → IsClearing phases order (find_cycle phases fuel)
  unfolding find_cycle
  find_cycle-IsClearing fuel [] ordered enough index states m bound free = absurd m
  find_cycle-IsClearing zero (x ∷ order) ordered enough index states m bound free =
      absurd (ground arith)
  find_cycle-IsClearing (suc fuel) (x ∷ order) ordered enough index states m bound free =
      elim (In-cases index order) [
        | inl later ↦
            find_cycle-IsClearing (suc fuel) order ordered.1 (omega arith) index states later bound
              (λ other k. free other (inr k))
        | inr not_later ↦
            let (p, at) = get_elem?-lt phases index bound in
            let is_x : index ≡ x = elim m [ inl e ↦ e | inr k ↦ absurd (not_later k) ] in
            let not_one = free index m in
            elim (Bool-cases (states index == 2)) [
              | inl left_ ↦ (states, ground arith, λ other e. e)
              | inr not_left ↦
                  let (before, ran, old) =
                    find_each-Clears order (find_cycle phases fuel)
                      (find_cycle-IsClearing fuel order ordered.1 (omega arith)) p.dependencies
                      (put index 1 states)
                      (λ other k one. elim (put-one index other states one) [
                        | inl same ↦ not_later (subst (λ i. In i order) same k)
                        | inr was ↦ free other (inr k) was
                      ])
                      (λ d k.
                        let (other, e) = resolved index p d at k in
                        (
                          other,
                          e,
                          ordered.0 other
                              (p, d, subst (λ i. get_elem? phases i ≡ some p) is_x at, k, e),
                        )) in
                  (
                    put index 2 before,
                    elim (Bool-cases (states index == 1)) [
                      | inl one ↦ absurd (not_one (ground arith))
                      | inr fresh ↦ ground arith
                    ],
                    λ other e.
                        let (differ, one) = put-two index other before e in
                        elim (put-one index other states (old other one)) [
                          | inl same ↦ absurd (differ same)
                          | inr was ↦ was
                        ],
                  )
            ]
      ]

  find_all-Clears :
      (fuel : ℕ) (order : List ℕ)
      → IsOrdered phases order
      → length order ≤ fuel
      → (indices : List ℕ)
      → ((index : ℕ) → In index indices → In index order × (index < length phases))
      → (states : States) → ((other : ℕ) → In other order → states other ≡ 1 → ⊥)
      → Clears (find_all phases fuel indices) states
  unfolding find_all
  find_all-Clears fuel order ordered enough [] listed states free = (states, refl, λ other e. e)
  find_all-Clears fuel order ordered enough (index ∷ indices) listed states free =
      let (here, bound) = listed index (inl refl) in
      let (mid, ran, old_mid) =
        find_cycle-IsClearing fuel order ordered enough index states here bound free in
      let (after, ran_rest, old) =
        find_all-Clears fuel order ordered enough indices (λ other m. listed other (inr m)) mid
          (λ other m one. free other m (old_mid other one)) in
      (after, ground arith, λ other one. old_mid other (old other one))

  -- When every dependency is the name of a phase, the test for cycles passes exactly the phases
  -- that can be arranged, each once, so that none depends on one before it.
  pub validate_acyclic_iff :
      ((after : States) × (validate_acyclic phases ≡ clear after)) ↔ IsAcyclic phases
  unfolding validate_acyclic
  validate_acyclic_iff = (
    λ (after, h). validate_acyclic-IsAcyclic phases after h,
    λ (order, ordered, once, members).
        let n = length phases in
        let short = HasNoRepeat-length n order once (λ index m. (members index).0 m) in
        let (after, ran, old) =
          find_all-Clears (n + 1) order ordered (omega arith) (range 0 n)
            (λ index m.
              let bound : index < n = omega (arith, range-In 0 n index m) in
              ((members index).1 bound, bound))
            (λ index. 0) (λ other m one. absurd (ground arith)) in
        (after, ran),
  )
