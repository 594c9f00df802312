-- ===== src/Study/Cycles.antt =====
-- `validate_acyclic` of rust/src/config/manifest.rs accepts only phases that can be ordered.
use scientific_workflow.Prelude.{
  ℕ, zero, suc, ◌+◌, ◌<◌, ◌≡◌, refl, sym, ap, ◌∙◌, subst, ◌⊎◌, inl, inr, true, false, Bool-cases,
  some, Option-cases, ◌==◌, List, [], ◌∷◌, length, arith,
}
use scientific_workflow.Prelude.Members.{In}
use scientific_workflow.Prelude.Texts.{Text}
use scientific_workflow.Study.{
  PhaseKeys, by_name, range, put, States, Search, cycle, clear, crashed, out_of_fuel, find_each,
  leave, find_cycle, find_all, validate_acyclic,
}
use scientific_workflow.Study.Order.{
  DependsOn, IsOrdered, HasNoRepeat, IsAcyclic, In-range, range-In, by_name-lt, get_elem?-lt,
}

-- The phases that the search has left, the last one first.
pub record IsLeft (phases : List PhaseKeys) (states : States) (left_ : List ℕ) : Type 0 where
  pub covered : (other : ℕ) → states other ≡ 2 → In other left_
  pub marked : (other : ℕ) → In other left_ → (states other ≡ 2) × (other < length phases)
  pub ordered : IsOrdered phases left_
  pub once : HasNoRepeat left_

-- What a search that found no cycle leaves behind.
abbrev pub Leaves : List PhaseKeys → States → List ℕ → States → List ℕ → Type 0
Leaves phases states left_ after left_after =
    IsLeft phases after left_after
    × ((other : ℕ) → In other left_ → In other left_after)
    × ((other : ℕ) → states other ≡ 1 → after other ≡ 1)

-- A search from one phase that leaves that phase, whenever it finds no cycle.
abbrev pub IsSound : List PhaseKeys → (ℕ → States → Search) → Type 0
IsSound phases find =
    (index : ℕ) (states after : States) (left_ : List ℕ)
    → index < length phases
    → IsLeft phases states left_
    → find index states ≡ clear after
    → (left_after : List ℕ) × Leaves phases states left_ after left_after × In index left_after

pub Search-cases :
    (s : Search)
    → ((after : States) × (s ≡ clear after))
      ⊎ (((phase : Text) × (s ≡ cycle phase)) ⊎ ((s ≡ crashed) ⊎ (s ≡ out_of_fuel)))
Search-cases (cycle phase) = inr (inl (phase, refl))
Search-cases (clear after) = inl (after, refl)
Search-cases crashed = inr (inr (inl refl))
Search-cases out_of_fuel = inr (inr (inr refl))

pub leave-cases :
    (index : ℕ) (s : Search) (after : States)
    → leave index s ≡ clear after
    → (before : States) × (s ≡ clear before) × (after ≡ put index 2 before)
leave-cases index (cycle phase) after h = absurd (ground arith)
leave-cases index (clear before) after h =
    let same : put index 2 before ≡ after = ground arith in (before, refl, sym same)
leave-cases index crashed after h = absurd (ground arith)
leave-cases index out_of_fuel after h = absurd (ground arith)

pub some-injective : {A : Type 0} (a b : A) → some a ≡ some b → a ≡ b
some-injective a b h = ground arith

put-same : (index value : ℕ) (states : States) → put index value states index ≡ value
put-same index value states = elim (Bool-cases (index == index)) [
  | inl e ↦ ground arith
  | inr e ↦ absurd (ground arith)
]

-- A phase that is entered when the search enters another stays entered.
put-put-one :
    (index other : ℕ) (states before : States)
    → (states index == 1) ≡ false
    → states other ≡ 1
    → (put index 1 states other ≡ 1 → before other ≡ 1)
    → put index 2 before other ≡ 1
put-put-one index other states before not_entered e kept = elim (Bool-cases (other == index)) [
  | inl same ↦
      let is_index : other ≡ index = ground arith in absurd (ground (arith, ap states is_index))
  | inr differ ↦
      let one : put index 1 states other ≡ 1 = ground arith in let still = kept one in ground arith
]

clear-injective : (a b : States) → clear a ≡ clear b → a ≡ b
clear-injective a b h = ground arith

enter-IsLeft :
    (phases : List PhaseKeys) (states : States) (left_ : List ℕ) (index : ℕ)
    → (states index == 2) ≡ false
    → IsLeft phases states left_
    → IsLeft phases (put index 1 states) left_
enter-IsLeft phases states left_ index fresh known = record {
  covered = λ other e. elim (Bool-cases (other == index)) [
    | inl same ↦ absurd (ground arith)
    | inr differ ↦ known.covered other (ground arith)
  ];
  marked = λ other m.
      let (two, bound) = known.marked other m in
      (
        elim (Bool-cases (other == index)) [
          | inl same ↦
              let is_index : other ≡ index = ground arith in
              absurd (ground (arith, ap states is_index))
          | inr differ ↦ ground arith
        ],
        bound,
      );
  ordered = known.ordered;
  once = known.once;
}

leave-IsLeft :
    (phases : List PhaseKeys) (states : States) (left_ : List ℕ) (index : ℕ)
    → states index ≡ 1
    → index < length phases
    → ((other : ℕ) → DependsOn phases index other → In other left_)
    → IsLeft phases states left_
    → IsLeft phases (put index 2 states) (index ∷ left_)
leave-IsLeft phases states left_ index entered bound dependencies known = record {
  covered = λ other e. elim (Bool-cases (other == index)) [
    | inl same ↦ inl (ground arith)
    | inr differ ↦ inr (known.covered other (ground arith))
  ];
  marked = λ other m. elim m [
    | inl same ↦
        let is_index : (other == index) ≡ true = ground arith in (ground arith, omega (arith, same))
    | inr before ↦
        let (two, in_range) = known.marked other before in
        (
          elim (Bool-cases (other == index)) [
            | inl same ↦ ground arith
            | inr differ ↦ ground arith
          ],
          in_range,
        )
  ];
  ordered = (dependencies, known.ordered);
  once = (λ m. let (two, in_range) = known.marked index m in absurd (ground arith), known.once);
}

module _ (phases : List PhaseKeys) where
  -- The loop leaves every dependency that it went over.
  find_each-IsSound :
      (find : ℕ → States → Search) (sound : IsSound phases find) (dependencies : List Text)
      (states after : States) (left_ : List ℕ)
      → IsLeft phases states left_
      → find_each phases find dependencies states ≡ clear after
      → (left_after : List ℕ) × Leaves phases states left_ after left_after
        × ((d : Text) (other : ℕ)
            → In d dependencies
            → by_name phases d ≡ some other
            → In other left_after)
  unfolding find_each
  find_each-IsSound find sound [] states after left_ known h =
      let same : states ≡ after = ground arith in
      (
        left_,
        (
          subst (λ w. IsLeft phases w left_) same known,
          λ other m. m,
          λ other e. subst (λ (w : States). w other ≡ 1) same e,
        ),
        λ d other m e. absurd m,
      )
  find_each-IsSound find sound (d ∷ dependencies) states after left_ known h =
      elim (Option-cases (by_name phases d)) [
        | inl e ↦ absurd (ground arith)
        | inr (index, e) ↦ elim (Search-cases (find index states)) [
          | inr failed ↦ absurd (ground arith)
          | inl (mid, found) ↦
              let rest : find_each phases find dependencies mid ≡ clear after = ground arith in
              let (left_mid, (known_mid, kept_mid, entered_mid), has) =
                sound index states mid left_ (by_name-lt phases d index e) known found in
              let (left_after, (known_after, kept, entered), all_left) =
                find_each-IsSound find sound dependencies mid after left_mid known_mid rest in
              (
                left_after,
                (
                  known_after,
                  λ other m. kept other (kept_mid other m),
                  λ other m. entered other (entered_mid other m),
                ),
                λ c other m e2. elim m [
                  | inl same ↦
                      let target : index ≡ other = cc in
                      kept other (subst (λ k. In k left_mid) target has)
                  | inr later ↦ all_left c other later e2
                ],
              )
        ]
      ]

  pub find_cycle-IsSound : (fuel : ℕ) → IsSound phases (find_cycle phases fuel)
  unfolding find_cycle
  find_cycle-IsSound zero index states after left_ bound known h = absurd (ground arith)
  find_cycle-IsSound (suc fuel) index states after left_ bound known h =
      let (p, at) = get_elem?-lt phases index bound in
      elim (Bool-cases (states index == 1)) [
        | inl entered ↦ absurd (ground arith)
        | inr not_entered ↦ elim (Bool-cases (states index == 2)) [
          | inl left_before ↦
              let same : clear states ≡ clear after = ground arith in
              let unchanged = clear-injective states after same in
              (
                left_,
                (
                  subst (λ w. IsLeft phases w left_) unchanged known,
                  λ other m. m,
                  λ other e. subst (λ (w : States). w other ≡ 1) unchanged e,
                ),
                known.covered index (ground arith),
              )
          | inr fresh ↦
              let inner : leave index
                    (find_each phases (find_cycle phases fuel) p.dependencies (put index 1 states))
                  ≡ clear after =
                ground arith in
              let (before, found, is_after) = leave-cases index _ after inner in
              let (left_before, (known_before, kept, entered), all_left) =
                find_each-IsSound (find_cycle phases fuel) (find_cycle-IsSound fuel) p.dependencies
                  (put index 1 states) before left_
                  (enter-IsLeft phases states left_ index fresh known) found in
              let is_entered : put index 1 states index ≡ 1 = put-same index 1 states in
              let done =
                leave-IsLeft phases before left_before index (entered index is_entered) bound
                  (λ other (q, d, at_q, m, e).
                    all_left d other
                      (subst (λ (r : PhaseKeys). In d r.dependencies)
                        (some-injective q p (sym at_q ∙ at)) m)
                      e)
                  known_before in
              (
                index ∷ left_before,
                (
                  subst (λ w. IsLeft phases w (index ∷ left_before)) (sym is_after) done,
                  λ other m. inr (kept other m),
                  λ other e.
                      subst (λ (w : States). w other ≡ 1) (sym is_after)
                        (put-put-one index other states before not_entered e (entered other)),
                ),
                inl refl,
              )
        ]
      ]

  find_all-IsLeft :
      (fuel : ℕ) (indices : List ℕ) (states after : States) (left_ : List ℕ)
      → ((index : ℕ) → In index indices → index < length phases)
      → IsLeft phases states left_
      → find_all phases fuel indices states ≡ clear after
      → (left_after : List ℕ) × IsLeft phases after left_after
        × ((other : ℕ) → In other left_ ⊎ In other indices → In other left_after)
  unfolding find_all
  find_all-IsLeft fuel [] states after left_ bound known h =
      let same = clear-injective states after h in
      (
        left_,
        subst (λ w. IsLeft phases w left_) same known,
        λ other m. elim m [ inl k ↦ k | inr k ↦ absurd k ],
      )
  find_all-IsLeft fuel (index ∷ indices) states after left_ bound known h =
      elim (Search-cases (find_cycle phases fuel index states)) [
        | inr failed ↦ absurd (ground arith)
        | inl (mid, found) ↦
            let rest : find_all phases fuel indices mid ≡ clear after = ground arith in
            let (left_mid, (known_mid, kept, entered), has) =
              find_cycle-IsSound fuel index states mid left_ (bound index (inl refl)) known found in
            let (left_after, known_after, all_left) =
              find_all-IsLeft fuel indices mid after left_mid (λ other m. bound other (inr m))
                known_mid rest in
            (
              left_after,
              known_after,
              λ other m. elim m [
                | inl k ↦ all_left other (inl (kept other k))
                | inr (inl same) ↦ all_left other (inl (subst (λ k. In k left_mid) (sym same) has))
                | inr (inr k) ↦ all_left other (inr k)
              ],
            )
      ]

  pub validate_acyclic-IsAcyclic :
      (after : States) → validate_acyclic phases ≡ clear after → IsAcyclic phases
  unfolding validate_acyclic
  validate_acyclic-IsAcyclic after h =
      let none_left : IsLeft phases (λ index. 0) [] = record {
        covered = λ other e. absurd (ground arith);
        marked = λ other m. absurd m;
        ordered = tt;
        once = tt;
      } in
      let (order, known, all_left) =
        find_all-IsLeft (length phases + 1) (range 0 (length phases)) (λ index. 0) after []
          (λ index m. omega (arith, range-In 0 (length phases) index m)) none_left h in
      (
        order,
        known.ordered,
        known.once,
        λ index. (
          λ m. (known.marked index m).1,
          λ bound.
              all_left index (inr (In-range 0 (length phases) index (omega arith) (omega arith))),
        ),
      )
