-- ===== src/Resources/Admission/History.antt =====
-- Histories of the budget in rust/src/runtime/resources/admission.rs: every scheduler thread may
-- ask for a lease or drop one that is held, in any order.
use scientific_workflow.Prelude.{
  ℕ, ◌+◌, ◌≤◌, ◌≡◌, ◌⊎◌, List, [], ◌∷◌, ◌++◌, none, some, arith, sum_by, sum_by-drop,
}
use scientific_workflow.Resources.Admission.{
  ResourceBudget, ResourceRequirement, auto_in_process, isolated_in_process, external,
  ResourceLease, new_budget, try_acquire, drop_lease,
}

-- What one requirement adds to each counter.
abbrev pub auto_share : ResourceRequirement → ℕ
auto_share auto_in_process = 1
auto_share _ = 0

abbrev pub isolated_share : ResourceRequirement → ℕ
isolated_share (isolated_in_process threads) = threads
isolated_share _ = 0

abbrev pub external_share : ResourceRequirement → ℕ
external_share (external threads) = threads
external_share _ = 0

abbrev pub autos : List ResourceLease → ℕ
autos = sum_by (λ l. auto_share l.requirement)

abbrev pub isolated : List ResourceLease → ℕ
isolated = sum_by (λ l. isolated_share l.requirement)

abbrev pub externals : List ResourceLease → ℕ
externals = sum_by (λ l. external_share l.requirement)

-- The budget with the leases that are alive.
pub record Schedulers : Type 0 where
  pub budget : ResourceBudget
  pub held : List ResourceLease

pub data Step (s t : Schedulers) : Type 0 where
  acquired :
      (r : ResourceRequirement) (l : ResourceLease)
      → try_acquire s.budget r ≡ (t.budget, some l)
      → t.held ≡ l ∷ s.held
      → Step s t
  refused :
      (r : ResourceRequirement)
      → try_acquire s.budget r ≡ (t.budget, none)
      → t.held ≡ s.held
      → Step s t
  dropped :
      (xs : List ResourceLease) (l : ResourceLease) (ys : List ResourceLease)
      → s.held ≡ xs ++ l ∷ ys
      → drop_lease s.budget l ≡ some t.budget
      → t.held ≡ xs ++ ys
      → Step s t

pub data Trace (s : Schedulers) : Schedulers → Type 0 where
  initial : Trace s s
  extend : {t u : Schedulers} → Trace s t → Step t u → Trace s u

-- The counters are the shares of the live leases, the kinds of work exclude one another, and no
-- kind passes the total.
pub record IsAccounted (total : ℕ) (s : Schedulers) : Type 0 where
  pub same_total : s.budget.total ≡ total
  pub auto_counted : s.budget.state.auto_tasks ≡ autos s.held
  pub isolated_counted : s.budget.state.isolated_threads ≡ isolated s.held
  pub external_counted : s.budget.state.external_threads ≡ externals s.held
  pub external_alone : (externals s.held ≡ 0) ⊎ ((autos s.held ≡ 0) × (isolated s.held ≡ 0))
  pub in_process_apart : (autos s.held ≡ 0) ⊎ (isolated s.held ≡ 0)
  pub within : autos s.held + isolated s.held + externals s.held ≤ total

acquired-IsAccounted :
    {total : ℕ} {s t : Schedulers} (r : ResourceRequirement) (l : ResourceLease)
    → try_acquire s.budget r ≡ (t.budget, some l)
    → t.held ≡ l ∷ s.held
    → IsAccounted total s
    → IsAccounted total t
unfolding try_acquire
acquired-IsAccounted auto_in_process l e h v = ground arith
acquired-IsAccounted (isolated_in_process threads) l e h v = ground arith
acquired-IsAccounted (external threads) l e h v = ground arith

pub dropped_shares :
    (s t : Schedulers) (xs : List ResourceLease) (l : ResourceLease) (ys : List ResourceLease)
    → s.held ≡ xs ++ l ∷ ys
    → t.held ≡ xs ++ ys
    → (autos s.held ≡ auto_share l.requirement + autos t.held)
      × (isolated s.held ≡ isolated_share l.requirement + isolated t.held)
      × (externals s.held ≡ external_share l.requirement + externals t.held)
dropped_shares s t xs l ys h k =
    rw (h, k)
      (
        sum_by-drop (λ m. auto_share m.requirement) xs l ys,
        sum_by-drop (λ m. isolated_share m.requirement) xs l ys,
        sum_by-drop (λ m. external_share m.requirement) xs l ys,
      )

refused-IsAccounted :
    {total : ℕ} (s t : Schedulers) (r : ResourceRequirement)
    → try_acquire s.budget r ≡ (t.budget, none)
    → t.held ≡ s.held
    → IsAccounted total s
    → IsAccounted total t
unfolding try_acquire
refused-IsAccounted s t auto_in_process e h v = ground arith
refused-IsAccounted s t (isolated_in_process threads) e h v = ground arith
refused-IsAccounted s t (external threads) e h v = ground arith

module _ {total : ℕ} (s t : Schedulers) (v : IsAccounted total s) where
  dropped-IsAccounted :
      (r : ResourceRequirement)
      → drop_lease s.budget (record { requirement = r }) ≡ some t.budget
      → (autos s.held ≡ auto_share r + autos t.held)
        × (isolated s.held ≡ isolated_share r + isolated t.held)
        × (externals s.held ≡ external_share r + externals t.held)
      → IsAccounted total t
  unfolding drop_lease
  dropped-IsAccounted auto_in_process e h = ground arith
  dropped-IsAccounted (isolated_in_process threads) e h = ground arith
  dropped-IsAccounted (external threads) e h = ground arith

  Step-IsAccounted : Step s t → IsAccounted total t
  Step-IsAccounted (acquired r l e h) = acquired-IsAccounted r l e h v
  Step-IsAccounted (refused r e h) = refused-IsAccounted s t r e h v
  Step-IsAccounted (dropped xs l ys h e k) =
      dropped-IsAccounted l.requirement e (dropped_shares s t xs l ys h k)

abbrev pub start : ℕ → Schedulers
start total = record { budget = new_budget total; held = [] }

start-IsAccounted : (total : ℕ) → IsAccounted total (start total)
unfolding new_budget
start-IsAccounted total = ground arith

-- After any history of grants, refusals and drops from a fresh budget, each counter is what the
-- leases that are alive ask for, work outside the process runs alone, automatic and isolated work
-- never run together, and what is lent fits the total.
pub Trace-IsAccounted : (total : ℕ) {s : Schedulers} → Trace (start total) s → IsAccounted total s
Trace-IsAccounted total initial = start-IsAccounted total
Trace-IsAccounted total (extend {t = t} {u = u} r st) =
    Step-IsAccounted t u (Trace-IsAccounted total r) st
