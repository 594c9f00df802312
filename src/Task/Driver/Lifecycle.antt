-- ===== src/Task/Driver/Lifecycle.antt =====
-- The life of one member as the host hears it from rust/src/task/execution.rs.
use scientific_workflow.Prelude.{
  ℕ, ◌≤◌, ◌≡◌, ◌≢◌, Bool, true, false, is_some, ltb, ◌==◌, if◌then◌else◌, ok, err, [], ◌∷◌, arith,
}
use scientific_workflow.Task.Execution.{
  MemberView, ExecutionUnit, checkpoint, asked, computing, began, stepped, finished, Trace, Host,
  panicked, MemberSnapshot,
}
use scientific_workflow.Task.Driver.{begin_member, observe_member}

-- A member is unknown, reported up to an iteration, or finished at one; `broken` is any other
-- order of calls: one before the beginning, one after the end, a second beginning, an iteration
-- that does not grow, a final report of another iteration than the last.
pub data Status : Type 0 where
  absent broken : Status
  at done : (iteration : ℕ) → Status

abbrev pub on_began : ℕ → Status → Status
on_began n absent = at n
on_began n _ = broken

abbrev pub on_stepped : ℕ → Status → Status
on_stepped n (at m) = if ltb m n then at n else broken
on_stepped n _ = broken

abbrev pub on_finished : ℕ → Status → Status
on_finished n (at m) = if m == n then done n else broken
on_finished n _ = broken

-- What the calls of a trace make of member `j`.
abbrev pub status : {Reason : Type 0} → ℕ → Trace Reason → Status
status j [] = absent
status j (checkpoint ∷ t) = status j t
status j (asked ∷ t) = status j t
status j (computing ∷ t) = status j t
status j (began i n name target ∷ t) = if i == j then on_began n (status j t) else status j t
status j (stepped i n target ∷ t) = if i == j then on_stepped n (status j t) else status j t
status j (finished i n target reason ∷ t) =
    if i == j then on_finished n (status j t) else status j t

abbrev pub is_broken : Status → Bool
is_broken broken = true
is_broken _ = false

abbrev pub IsSound : {Reason : Type 0} → Trace Reason → Type 0
IsSound t = (j : ℕ) → is_broken (status j t) ≡ false

-- The status that belongs to a snapshot.
unfoldable pub phase : MemberSnapshot → Status
phase m = if m.complete then done m.iteration else at m.iteration

pub phase-open : (m : MemberSnapshot) → m.complete ≡ false → phase m ≡ at m.iteration
unfolding phase
phase-open m e = ground arith

pub phase-same :
    (p n : MemberSnapshot)
    → p.complete ≡ true
    → n.complete ≡ true
    → (n.iteration == p.iteration) ≡ true
    → phase p ≡ phase n
unfolding phase
phase-same p n was now still = ground arith

-- Nothing changed for the other members.
abbrev pub SameBut : {Reason : Type 0} → ℕ → Trace Reason → Trace Reason → Type 0
SameBut i t u = (j : ℕ) → (i == j) ≡ false → status j u ≡ status j t

module _ (unit : ExecutionUnit) (host : Host unit.Fault unit.Reason) where
  open unit use {Fault, Reason}

  module _ (i : ℕ) (view : MemberView Reason) (m : MemberSnapshot) (t : Trace Reason)
      (here : status i t ≡ absent) (seen : view.iteration ≡ m.iteration)
      (completed : is_some view.completion ≡ m.complete) where
    pub begin_member-same : SameBut i t (begin_member unit host i view m t).1
    unfolding begin_member
    begin_member-same j other = ground arith

    pub begin_member-status : is_broken (status i (begin_member unit host i view m t).1) ≡ false
    unfolding begin_member
    begin_member-status = ground arith

    pub begin_member-phase :
        (x : Unit {0})
        → (begin_member unit host i view m t).0 ≡ ok x
        → status i (begin_member unit host i view m t).1 ≡ phase m
    unfolding begin_member phase
    begin_member-phase x e = ground arith

    pub begin_member-ne-panicked : (begin_member unit host i view m t).0 ≢ err panicked
    unfolding begin_member
    begin_member-ne-panicked e = ground arith

  module _ (i : ℕ) (view : MemberView Reason) (p n : MemberSnapshot) (t : Trace Reason)
      (here : status i t ≡ at p.iteration) (grows : p.iteration ≤ n.iteration)
      (seen : view.iteration ≡ n.iteration) (completed : is_some view.completion ≡ n.complete) where
    pub observe_member-same : SameBut i t (observe_member unit host i view p n t).1
    unfolding observe_member
    observe_member-same j other = ground arith

    pub observe_member-status :
        is_broken (status i (observe_member unit host i view p n t).1) ≡ false
    unfolding observe_member
    observe_member-status = ground arith

    pub observe_member-phase :
        (x : Unit {0})
        → (observe_member unit host i view p n t).0 ≡ ok x
        → status i (observe_member unit host i view p n t).1 ≡ phase n
    unfolding observe_member phase
    observe_member-phase x e = ground arith

    pub observe_member-ne-panicked : (observe_member unit host i view p n t).0 ≢ err panicked
    unfolding observe_member
    observe_member-ne-panicked e = ground arith
