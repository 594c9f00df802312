-- ===== src/Resources/Admission/Grants.antt =====
-- What the budget of rust/src/runtime/resources/admission.rs grants and takes back.
use scientific_workflow.Prelude.{
  ℕ, ◌+◌, ◌-◌, ◌↔◌, ◌≤◌, ◌<◌, ◌≡◌, refl, ◌⊎◌, inl, inr, List, [], ◌∷◌, ◌++◌, Option, none, some,
  arith, ap, ◌∙◌, true, is_some,
}
use scientific_workflow.Resources.Admission.{
  ResourceBudget, ResourceRequirement, auto_in_process, isolated_in_process, external,
  ResourceLease, new_budget, try_acquire, drop_lease,
}
use scientific_workflow.Resources.Admission.History.{
  auto_share, isolated_share, external_share, autos, isolated, externals, Schedulers, Trace, start,
  IsAccounted, Trace-IsAccounted, dropped_shares,
}

withdraw-held :
    (b : ResourceBudget) (r : ResourceRequirement) (a i x : ℕ)
    → b.state.auto_tasks ≡ auto_share r + a
    → b.state.isolated_threads ≡ isolated_share r + i
    → b.state.external_threads ≡ external_share r + x
    → (c : ResourceBudget) × (drop_lease b (record { requirement = r }) ≡ some c)
unfolding drop_lease
withdraw-held b auto_in_process a i x p q h =
    (record b { state = record b.state { auto_tasks = b.state.auto_tasks - 1 } }, ground arith)
withdraw-held b (isolated_in_process threads) a i x p q h = (
  record b { state = record b.state { isolated_threads = b.state.isolated_threads - threads } },
  ground arith,
)
withdraw-held b (external threads) a i x p q h = (
  record b { state = record b.state { external_threads = b.state.external_threads - threads } },
  ground arith,
)

-- At any point of a history every live lease can be dropped: no decrement's assertion fails.
pub drop_lease-held :
    (total : ℕ) {s : Schedulers} (xs : List ResourceLease) (l : ResourceLease)
    (ys : List ResourceLease)
    → Trace (start total) s
    → s.held ≡ xs ++ l ∷ ys
    → (b : ResourceBudget) × (drop_lease s.budget l ≡ some b)
drop_lease-held total {s} xs l ys r h =
    let v = Trace-IsAccounted total r in
    let t : Schedulers = record { budget = s.budget; held = xs ++ ys } in
    let shares = dropped_shares s t xs l ys h refl in
    withdraw-held s.budget l.requirement (autos t.held) (isolated t.held) (externals t.held)
      (v.auto_counted ∙ shares.0) (v.isolated_counted ∙ shares.1) (v.external_counted ∙ shares.2)

-- Once no lease of a history is alive, the budget is the one that was created: no permit leaks.
pub Trace-idle :
    (total : ℕ) {s : Schedulers} → Trace (start total) s → s.held ≡ [] → s.budget ≡ new_budget total
unfolding new_budget
Trace-idle total {s} r h =
    let v = Trace-IsAccounted total r in
    ground (arith, v, ap autos h, ap isolated h, ap externals h)

-- What admission promises, in terms of the live leases alone.
abbrev pub CanRun : ℕ → List ResourceLease → ResourceRequirement → Type 0
CanRun total held auto_in_process =
    (externals held ≡ 0) × (isolated held ≡ 0) × (autos held < total)
CanRun total held (isolated_in_process threads) =
    (externals held ≡ 0) × (autos held ≡ 0) × (isolated held + threads ≤ total)
CanRun total held (external threads) =
    (autos held ≡ 0) × (isolated held ≡ 0) × (externals held + threads ≤ total)

admits :
    {total : ℕ} {s : Schedulers} (r : ResourceRequirement)
    → IsAccounted total s
    → CanRun total s.held r
    → is_some (try_acquire s.budget r).1 ≡ true
unfolding try_acquire
admits auto_in_process v c = ground arith
admits (isolated_in_process threads) v c = ground arith
admits (external threads) v c = ground arith

admitted :
    {total : ℕ} {s : Schedulers} (r : ResourceRequirement)
    → IsAccounted total s
    → is_some (try_acquire s.budget r).1 ≡ true
    → CanRun total s.held r
unfolding try_acquire
admitted auto_in_process v c = ground arith
admitted (isolated_in_process threads) v c = ground arith
admitted (external threads) v c = ground arith

-- At any point of a history `try_acquire` grants a lease exactly when the live leases allow it:
-- automatic work beside fewer automatic tasks than threads and nothing else, isolated work beside
-- isolated work only, external work beside external work only, both within the total.
pub try_acquire_iff :
    (total : ℕ) {s : Schedulers} (r : ResourceRequirement)
    → Trace (start total) s
    → ((is_some (try_acquire s.budget r).1 ≡ true) ↔ CanRun total s.held r)
try_acquire_iff total {s} r h =
    let v = Trace-IsAccounted total h in (admitted {s = s} r v, admits {s = s} r v)

-- Dropping a lease that was just granted gives back the budget, whatever else is lent, and a
-- refusal leaves the budget as it was.
pub drop_lease-try_acquire :
    (b c : ResourceBudget) (r : ResourceRequirement) (o : Option ResourceLease)
    → try_acquire b r ≡ (c, o)
    → ((l : ResourceLease) × (o ≡ some l) × (drop_lease c l ≡ some b)) ⊎ ((o ≡ none) × (c ≡ b))
unfolding try_acquire drop_lease
drop_lease-try_acquire b c auto_in_process none e = inr (ground arith)
drop_lease-try_acquire b c auto_in_process (some l) e = inl (l, ground arith, ground arith)
drop_lease-try_acquire b c (isolated_in_process threads) none e = inr (ground arith)
drop_lease-try_acquire b c (isolated_in_process threads) (some l) e =
    inl (l, ground arith, ground arith)
drop_lease-try_acquire b c (external threads) none e = inr (ground arith)
drop_lease-try_acquire b c (external threads) (some l) e = inl (l, ground arith, ground arith)
