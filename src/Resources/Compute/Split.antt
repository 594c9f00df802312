-- ===== src/Resources/Compute/Split.antt =====
-- How rust/src/runtime/resources/compute.rs shares the threads: after pools were replaced, the
-- slots hold near-equal pools, in key order, that use up the budget.
use scientific_workflow.Prelude.{
  ℕ, ◌+◌, ◌-◌, ◌*◌, ◌/◌, ◌%◌, ◌<◌, ◌≤◌, ◌≡◌, refl, sym, ap, subst, ◌∙◌, ◌++◌, true, none, some,
  List, [], ◌∷◌, ltb, if◌then◌else◌, length, All, sum_by, ok, arith, Bool-cases, inl, inr,
}
use scientific_workflow.Prelude.TreeMap.{modify, Above, IsSorted}
use scientific_workflow.Prelude.TreeMap.Laws.{
  pair_key, lt_pair, eq_pair, eq_pair_iff, IsSorted-modify, length-modify,
}
use scientific_workflow.Resources.Compute.{
  Rayon, SlotKey, Allocation, ComputeSlot, last_threads, is_at, assign, install, commit, build_all,
}

module _ (rayon : Rayon) where
  open rayon use {Pool, Reason, build, current_num_threads}

  -- The slots from position `index` on hold pools that were built for their share, which is the
  -- last of their record.
  abbrev pub IsSplit : ℕ → ℕ → ℕ → List (SlotKey × ComputeSlot Pool) → Type 0
  IsSplit quotient remainder index [] = Unit
  IsSplit quotient remainder index ((key, slot) ∷ slots) =
      ((p : Pool) × (slot.pool ≡ some p)
        × (build key (quotient + (if ltb index remainder then 1 else 0)) ≡ ok p)
        × (last_threads slot.history ≡ some (quotient + (if ltb index remainder then 1 else 0)))
        × (current_num_threads p ≤ quotient + (if ltb index remainder then 1 else 0)))
      × IsSplit quotient remainder (index + 1) slots

  -- The threads of a task's pool, and the threads that its record says it was given.
  abbrev pub slot_threads : ComputeSlot Pool → ℕ
  slot_threads slot = elim slot.pool [ none ↦ 0 | some p ↦ current_num_threads p ]

  abbrev pub share : ComputeSlot Pool → ℕ
  share slot = elim (last_threads slot.history) [ none ↦ 0 | some n ↦ n ]

  -- The pools answer the plan, entry by entry.
  abbrev pub IsBuilt : List (SlotKey × ℕ) → List (SlotKey × ℕ × Pool) → Type 0
  IsBuilt [] [] = Unit
  IsBuilt [] (b ∷ pools) = ⊥
  IsBuilt (a ∷ plan) [] = ⊥
  IsBuilt ((key, threads) ∷ plan) ((k, n, p) ∷ pools) =
      (k ≡ key) × (n ≡ threads) × (build key threads ≡ ok p) × IsBuilt plan pools

  pub build_all-IsBuilt :
      (total : ℕ) (plan : List (SlotKey × ℕ)) (pools : List (SlotKey × ℕ × Pool))
      → build_all rayon total plan ≡ ok pools
      → IsBuilt plan pools
  unfolding build_all
  build_all-IsBuilt total [] [] h = tt
  build_all-IsBuilt total [] (b ∷ pools) h = cc
  build_all-IsBuilt total ((key, threads) ∷ plan) [] h = ground arith
  build_all-IsBuilt total ((key, threads) ∷ plan) ((k, n, p) ∷ pools) h =
      ground (arith, build_all-IsBuilt total plan pools)

  last_threads-append :
      (xs : List Allocation) (a : Allocation) → last_threads (xs ++ a ∷ []) ≡ some a.threads
  last_threads-append [] a = refl
  last_threads-append (x ∷ []) a = refl
  last_threads-append (x ∷ y ∷ rest) a = last_threads-append (y ∷ rest) a

  -- After an installation the last of the record is what was installed.
  last_threads-install :
      (epoch threads : ℕ) (p : Pool) (slot : ComputeSlot Pool)
      → last_threads (install epoch threads p slot).history ≡ some threads
  unfolding install
  last_threads-install epoch threads p slot =
      elim (Bool-cases (is_at (last_threads slot.history) threads)) [
        | inl hit ↦ ground arith
        | inr miss ↦ rw miss (last_threads-append slot.history _)
      ]

  commit-cons :
      (epoch : ℕ) (pools : List (SlotKey × ℕ × Pool)) (key : SlotKey) (slot : ComputeSlot Pool)
      (slots : List (SlotKey × ComputeSlot Pool))
      → All (λ (b : SlotKey × ℕ × Pool). lt_pair key b.0 ≡ true) pools
      → commit epoch pools ((key, slot) ∷ slots) ≡ (key, slot) ∷ commit epoch pools slots
  unfolding commit
  commit-cons epoch [] key slot slots h = refl
  commit-cons epoch (((a, b), n, p) ∷ pools) (c, d) slot slots h =
      ground (arith, commit-cons epoch pools (c, d) slot (modify (a, b) (install epoch n p) slots))

  built-Above :
      (key : SlotKey) (quotient remainder index : ℕ) (slots : List (SlotKey × ComputeSlot Pool))
      (pools : List (SlotKey × ℕ × Pool))
      → Above key slots
      → IsBuilt (assign quotient remainder index slots) pools
      → All (λ (b : SlotKey × ℕ × Pool). lt_pair key b.0 ≡ true) pools
  unfolding assign
  built-Above key q r i [] [] a h = tt
  built-Above key q r i [] (b ∷ pools) a h = absurd h
  built-Above key q r i ((k, s) ∷ slots) [] a h = absurd h
  built-Above key q r i ((k, s) ∷ slots) ((j, n, p) ∷ pools) a h =
      (rw h.0 a.0, built-Above key q r (i + 1) slots pools a.1 h.3)

  pub commit-IsSplit :
      (epoch quotient remainder index : ℕ) (slots : List (SlotKey × ComputeSlot Pool))
      (pools : List (SlotKey × ℕ × Pool))
      → 0 < quotient
      → IsSorted slots
      → IsBuilt (assign quotient remainder index slots) pools
      → IsSplit quotient remainder index (commit epoch pools slots)
  unfolding commit install assign
  commit-IsSplit e q r i [] [] h s b = tt
  commit-IsSplit e q r i [] (x ∷ pools) h s b = absurd b
  commit-IsSplit e q r i ((k, slot) ∷ slots) [] h s b = absurd b
  commit-IsSplit e q r i ((k, slot) ∷ slots) ((j, n, p) ∷ pools) h s b =
      rw
        (
          b.0,
          (eq_pair_iff k k).1 refl,
          commit-cons e pools k (install e n p slot) slots
              (built-Above k q r (i + 1) slots pools s.0 b.3),
        )
        (
          (
            p,
            refl,
            b.2,
            last_threads-install e n p slot ∙ ap some b.1,
            rayon.build_threads k _ p b.2 (omega arith),
          ),
          commit-IsSplit e q r (i + 1) slots pools h s.1 b.3,
        )

  share-some :
      (slot : ComputeSlot Pool) (n : ℕ) → last_threads slot.history ≡ some n → share slot ≡ n
  share-some slot n h = ground arith

  sum-IsSplit :
      (quotient remainder index : ℕ) (slots : List (SlotKey × ComputeSlot Pool))
      → IsSplit quotient remainder index slots
      → remainder ≤ index + length slots
      → sum_by (λ e. share e.1) slots ≡ quotient * length slots + (remainder - index)
  sum-IsSplit q r i [] h le = ground arith
  sum-IsSplit q r i ((k, slot) ∷ slots) ((p, pooled, built, last, small), rest) le =
      ground (arith, sum-IsSplit q r (i + 1) slots rest, share-some slot _ last)

  -- The shares of one split use up the whole budget.
  pub IsSplit-sum :
      (total : ℕ) (slots : List (SlotKey × ComputeSlot Pool))
      → 0 < length slots
      → IsSplit (total / length slots) (total % length slots) 0 slots
      → sum_by (λ e. share e.1) slots ≡ total
  IsSplit-sum total slots h split =
      ground (arith, sum-IsSplit (total / length slots) (total % length slots) 0 slots split)

  -- The pools of a split have no more threads than the shares.
  pub IsSplit-le :
      (quotient remainder index : ℕ) (slots : List (SlotKey × ComputeSlot Pool))
      → IsSplit quotient remainder index slots
      → sum_by (λ e. slot_threads e.1) slots ≤ sum_by (λ e. share e.1) slots
  IsSplit-le q r i [] h = omega arith
  IsSplit-le q r i ((k, slot) ∷ slots) ((p, pooled, built, last, small), rest) =
      ground (arith, IsSplit-le q r (i + 1) slots rest, share-some slot _ last)

  -- The task has the pool that was built for the share on its record, which is `quotient` threads
  -- or one more.
  abbrev pub HasShare : ℕ → SlotKey × ComputeSlot Pool → Type 0
  HasShare quotient (key, slot) =
      ((p : Pool) × (slot.pool ≡ some p) × (build key (share slot) ≡ ok p))
      × (quotient ≤ share slot)
      × (share slot ≤ quotient + 1)

  pub IsSplit-HasShare :
      (quotient remainder index : ℕ) (slots : List (SlotKey × ComputeSlot Pool))
      → IsSplit quotient remainder index slots
      → All (HasShare quotient) slots
  IsSplit-HasShare q r i [] h = tt
  IsSplit-HasShare q r i ((k, slot) ∷ slots) ((p, pooled, built, last, small), rest) =
      let same = share-some slot _ last in
      (
        (
          (p, pooled, subst (λ n. build k n ≡ ok p) (sym same) built),
          ground (arith, same),
          ground (arith, same),
        ),
        IsSplit-HasShare q r (i + 1) slots rest,
      )

  -- Updates that leave the pool and the record alone keep a split.
  pub IsSplit-modify :
      (quotient remainder index : ℕ) (key : SlotKey) (f : ComputeSlot Pool → ComputeSlot Pool)
      (slots : List (SlotKey × ComputeSlot Pool))
      → ((slot : ComputeSlot Pool) → (f slot).pool ≡ slot.pool)
      → ((slot : ComputeSlot Pool) → (f slot).history ≡ slot.history)
      → IsSplit quotient remainder index slots
      → IsSplit quotient remainder index (modify key f slots)
  unfolding modify
  IsSplit-modify q r i key f [] keep record_ h = tt
  IsSplit-modify q r i key f ((k, slot) ∷ slots) keep record_
        ((p, pooled, built, last, small), rest) =
      elim (Bool-cases (eq_pair k key)) [
        | inl hit ↦
            rw hit
              ((p, keep slot ∙ pooled, built, ap last_threads (record_ slot) ∙ last, small), rest)
        | inr miss ↦ rw miss (
          (p, pooled, built, last, small),
          IsSplit-modify q r (i + 1) key f slots keep record_ rest,
        )
      ]

  pub length-commit :
      (epoch : ℕ) (pools : List (SlotKey × ℕ × Pool)) (slots : List (SlotKey × ComputeSlot Pool))
      → length (commit epoch pools slots) ≡ length slots
  unfolding commit
  length-commit epoch [] slots = refl
  length-commit epoch ((k, n, p) ∷ pools) slots =
      length-commit epoch pools (modify k (install epoch n p) slots)
      ∙ length-modify k (install epoch n p) slots

  pub IsSorted-commit :
      (epoch : ℕ) (pools : List (SlotKey × ℕ × Pool)) (slots : List (SlotKey × ComputeSlot Pool))
      → IsSorted slots
      → IsSorted (commit epoch pools slots)
  unfolding commit
  IsSorted-commit epoch [] slots s = s
  IsSorted-commit epoch ((k, n, p) ∷ pools) slots s =
      IsSorted-commit epoch pools _ (IsSorted-modify k (install epoch n p) slots s)

  pub IsSplit-empty :
      (quotient remainder index : ℕ) (slots : List (SlotKey × ComputeSlot Pool))
      → length slots ≡ 0
      → IsSplit quotient remainder index slots
  IsSplit-empty q r i [] h = tt
  IsSplit-empty q r i (e ∷ slots) h = absurd (omega arith)
