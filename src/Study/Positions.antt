-- ===== src/Study/Positions.antt =====
-- `topological_positions` of rust/src/study/plan.rs on phases that can be ordered.
use scientific_workflow.Prelude.{
  ℕ, zero, suc, ◌+◌, ◌<◌, ◌≤◌, ◌≡◌, ◌↔◌, refl, sym, ◌∙◌, subst, ◌⊎◌, inl, inr, true, false,
  Bool-cases, Option, some, ◌==◌, List, [], ◌∷◌, ◌++◌, length, get_elem?, arith,
}
use scientific_workflow.Prelude.Members.{In, In-append}
use scientific_workflow.Prelude.Texts.{Text}
use scientific_workflow.Study.{
  PhaseKeys, by_name, range, put, States, clear, validate_acyclic, Visits, visit_each, visit_phase,
  visit_all, topological_positions,
}
use scientific_workflow.Study.Order.{
  DependsOn, IsOrdered, IsSettled, HasNoRepeat, IsAcyclic, IsResolved, In-cases, IsSettled-snoc,
  HasNoRepeat-snoc, In-range, range-In, by_name-lt, get_elem?-lt,
}
use scientific_workflow.Study.Cycles.{some-injective, validate_acyclic-IsAcyclic}
use scientific_workflow.Study.Pigeons.{HasNoRepeat-length}

-- The positions so far are those of the phases that were visited.
pub record IsVisited (phases : List PhaseKeys) (visits : Visits) : Type 0 where
  pub same : (other : ℕ) → (visits.visited other ≡ true) ↔ In other visits.positions
  pub settled : IsSettled phases [] visits.positions
  pub once : HasNoRepeat visits.positions
  pub bound : (other : ℕ) → In other visits.positions → other < length phases

-- What a visit adds: only phases of `order`.
abbrev pub Adds : List PhaseKeys → List ℕ → Visits → Visits → Type 0
Adds phases order visits after =
    IsVisited phases after
    × ((other : ℕ) → In other visits.positions → In other after.positions)
    × ((other : ℕ) → In other after.positions → In other visits.positions ⊎ In other order)

abbrev pub IsTotal : List PhaseKeys → List ℕ → (ℕ → Visits → Option Visits) → Type 0
IsTotal phases order visit =
    (index : ℕ) (visits : Visits)
    → In index order
    → index < length phases
    → IsVisited phases visits
    → (after : Visits) × (visit index visits ≡ some after)
      × Adds phases order visits after
      × In index after.positions

push-IsVisited :
    (phases : List PhaseKeys) (index : ℕ) (visits : Visits)
    → IsVisited phases visits
    → index < length phases
    → (In index visits.positions → ⊥)
    → ((other : ℕ) → DependsOn phases index other → In other visits.positions)
    → IsVisited phases (record {
      visited = put index true visits.visited;
      positions = visits.positions ++ index ∷ [];
    })
push-IsVisited phases index visits known in_range new dependencies = record {
  same = λ other.
      let split = In-append other visits.positions (index ∷ []) in
      elim (Bool-cases (other == index)) [
        | inl is ↦
            let is_index : other ≡ index = ground arith in
            (λ e. split.1 (inr (inl is_index)), λ m. ground arith)
        | inr differ ↦ (
          λ e. split.1 (inl ((known.same other).0 (ground arith))),
          λ m. elim (split.0 m) [
            | inl k ↦ let old = (known.same other).1 k in ground arith
            | inr (inl is_index) ↦ absurd (ground arith)
            | inr (inr k) ↦ absurd k
          ],
        )
      ];
  settled =
      IsSettled-snoc phases [] visits.positions index known.settled
        (λ other d. inr (dependencies other d));
  once = HasNoRepeat-snoc visits.positions index known.once new;
  bound = λ other m. elim ((In-append other visits.positions (index ∷ [])).0 m) [
    | inl k ↦ known.bound other k
    | inr (inl e) ↦ omega (arith, e)
    | inr (inr k) ↦ absurd k
  ];
}

module _ (phases : List PhaseKeys) (resolved : IsResolved phases) where
  visit_each-IsTotal :
      (order : List ℕ) (visit : ℕ → Visits → Option Visits) (total : IsTotal phases order visit)
      (dependencies : List Text) (visits : Visits)
      → IsVisited phases visits
      → ((d : Text)
          → In d dependencies
          → (other : ℕ) × (by_name phases d ≡ some other) × In other order)
      → (after : Visits) × (visit_each phases visit dependencies visits ≡ some after)
        × Adds phases order visits after
        × ((d : Text) (other : ℕ)
            → In d dependencies
            → by_name phases d ≡ some other
            → In other after.positions)
  unfolding visit_each
  visit_each-IsTotal order visit total [] visits known targets =
      (visits, refl, (known, λ other m. m, λ other m. inl m), λ d other m e. absurd m)
  visit_each-IsTotal order visit total (d ∷ dependencies) visits known targets =
      let (index, e, here) = targets d (inl refl) in
      let (mid, ran, (known_mid, kept_mid, new_mid), has) =
        total index visits here (by_name-lt phases d index e) known in
      let (after, ran_rest, (known_after, kept, new), all_in) =
        visit_each-IsTotal order visit total dependencies mid known_mid
          (λ c m. targets c (inr m)) in
      (
        after,
        ground arith,
        (
          known_after,
          λ other m. kept other (kept_mid other m),
          λ other m. elim (new other m) [ inl k ↦ new_mid other k | inr k ↦ inr k ],
        ),
        λ c other m e2. elim m [
          | inl same ↦
              let target : index ≡ other = cc in
              kept other (subst (λ k. In k mid.positions) target has)
          | inr later ↦ all_in c other later e2
        ],
      )

  visit_phase-IsTotal :
      (fuel : ℕ) (order : List ℕ)
      → IsOrdered phases order
      → length order ≤ fuel
      → IsTotal phases order (visit_phase phases fuel)
  unfolding visit_phase
  visit_phase-IsTotal fuel [] ordered enough index visits m bound known = absurd m
  visit_phase-IsTotal zero (x ∷ order) ordered enough index visits m bound known =
      absurd (ground arith)
  visit_phase-IsTotal (suc fuel) (x ∷ order) ordered enough index visits m bound known =
      elim (In-cases index order) [
        | inl later ↦
            let (after, ran, (known_after, kept, new), has) =
              visit_phase-IsTotal (suc fuel) order ordered.1 (omega arith) index visits later bound
                known in
            (
              after,
              ran,
              (
                known_after,
                kept,
                λ other k. elim (new other k) [ inl j ↦ inl j | inr j ↦ inr (inr j) ],
              ),
              has,
            )
        | inr not_later ↦
            let (p, at) = get_elem?-lt phases index bound in
            let is_x : index ≡ x = elim m [ inl e ↦ e | inr k ↦ absurd (not_later k) ] in
            elim (Bool-cases (visits.visited index)) [
              | inl visited ↦ (
                visits,
                ground arith,
                (known, λ other k. k, λ other k. inl k),
                (known.same index).0 visited,
              )
              | inr fresh ↦
                  let (before, ran, (known_before, kept, new), all_in) =
                    visit_each-IsTotal order (visit_phase phases fuel)
                      (visit_phase-IsTotal fuel order ordered.1 (omega arith)) p.dependencies visits
                      known
                      (λ d k.
                        let (other, e) = resolved index p d at k in
                        (
                          other,
                          e,
                          ordered.0 other
                              (p, d, subst (λ i. get_elem? phases i ≡ some p) is_x at, k, e),
                        )) in
                  let new_index : In index before.positions → ⊥ = λ k. elim (new index k) [
                    | inl old ↦ let was_visited = (known.same index).1 old in absurd (ground arith)
                    | inr later ↦ not_later later
                  ] in
                  let pushed =
                    push-IsVisited phases index before known_before bound new_index
                      (λ other (q, d, at_q, k, e).
                        all_in d other
                          (subst (λ (r : PhaseKeys). In d r.dependencies)
                            (some-injective q p (sym at_q ∙ at)) k)
                          e) in
                  (
                    record {
                      visited = put index true before.visited;
                      positions = before.positions ++ index ∷ [];
                    },
                    ground arith,
                    (
                      pushed,
                      λ other k.
                          (In-append other before.positions (index ∷ [])).1 (inl (kept other k)),
                      λ other k. elim ((In-append other before.positions (index ∷ [])).0 k) [
                        | inl old ↦ elim (new other old) [ inl j ↦ inl j | inr j ↦ inr (inr j) ]
                        | inr (inl e) ↦ inr (inl (e ∙ is_x))
                        | inr (inr j) ↦ absurd j
                      ],
                    ),
                    (In-append index before.positions (index ∷ [])).1 (inr (inl refl)),
                  )
            ]
      ]

  visit_all-IsVisited :
      (fuel : ℕ) (order : List ℕ)
      → IsOrdered phases order
      → length order ≤ fuel
      → (indices : List ℕ)
      → ((index : ℕ) → In index indices → In index order × (index < length phases))
      → (visits : Visits) → IsVisited phases visits
      → (after : Visits) × (visit_all phases fuel indices visits ≡ some after)
        × IsVisited phases after
        × ((other : ℕ) → In other visits.positions ⊎ In other indices → In other after.positions)
  unfolding visit_all
  visit_all-IsVisited fuel order ordered enough [] listed visits known =
      (visits, refl, known, λ other m. elim m [ inl k ↦ k | inr k ↦ absurd k ])
  visit_all-IsVisited fuel order ordered enough (index ∷ indices) listed visits known =
      let (here, bound) = listed index (inl refl) in
      let (mid, ran, (known_mid, kept, new), has) =
        visit_phase-IsTotal fuel order ordered enough index visits here bound known in
      let (after, ran_rest, known_after, all_in) =
        visit_all-IsVisited fuel order ordered enough indices (λ other m. listed other (inr m)) mid
          known_mid in
      (
        after,
        ground arith,
        known_after,
        λ other m. elim m [
          | inl k ↦ all_in other (inl (kept other k))
          | inr (inl same) ↦ all_in other (inl (subst (λ k. In k mid.positions) (sym same) has))
          | inr (inr k) ↦ all_in other (inr k)
        ],
      )

  pub IsAcyclic-positions :
      IsAcyclic phases
      → (positions : List ℕ) × (topological_positions phases ≡ some positions)
        × IsSettled phases [] positions
        × HasNoRepeat positions
        × ((index : ℕ) → In index positions ↔ (index < length phases))
  unfolding topological_positions
  IsAcyclic-positions (order, ordered, once, members) =
      let n = length phases in
      let short = HasNoRepeat-length n order once (λ index m. (members index).0 m) in
      let nothing : IsVisited phases (record { visited = λ index. false; positions = [] }) =
        record {
          same = λ other. (λ e. absurd (ground arith), λ m. absurd m);
          settled = tt;
          once = tt;
          bound = λ other m. absurd m;
        } in
      let (after, ran, known, all_in) =
        visit_all-IsVisited (n + 1) order ordered (omega arith) (range 0 n)
          (λ index m.
            let bound : index < n = omega (arith, range-In 0 n index m) in
            ((members index).1 bound, bound))
          (record { visited = λ index. false; positions = [] }) nothing in
      (
        after.positions,
        ground arith,
        known.settled,
        known.once,
        λ index. (
          known.bound index,
          λ bound. all_in index (inr (In-range 0 n index (omega arith) (omega arith))),
        ),
      )

  -- The phases of a manifest that passes the test for cycles, all of whose dependencies are names
  -- of phases, are put in an order: it holds every phase exactly once, and no phase before one
  -- that it depends on. The search neither fails nor runs out of fuel.
  pub validated-positions :
      (after : States)
      → validate_acyclic phases ≡ clear after
      → (positions : List ℕ) × (topological_positions phases ≡ some positions)
        × IsSettled phases [] positions
        × HasNoRepeat positions
        × ((index : ℕ) → In index positions ↔ (index < length phases))
  validated-positions after h = IsAcyclic-positions (validate_acyclic-IsAcyclic phases after h)
