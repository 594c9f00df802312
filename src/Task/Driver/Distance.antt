-- ===== src/Task/Driver/Distance.antt =====
-- How far the members are from the last 64-bit iteration, after a loop of rust/src/task/execution.rs.
use scientific_workflow.Prelude.{
  ℕ, ◌+◌, ◌-◌, ◌*◌, ◌<◌, ◌≤◌, ◌≡◌, ◌≢◌, Bool, true, false, ◌||◌, ltb, ok, err, List, [], ◌∷◌,
  length, arith, Result-cases, inl, inr,
}
use scientific_workflow.Task.Execution.{
  MemberView, ExecutionUnit, Trace, Host, out_of_fuel, out_of_fuel, MemberSnapshot, required_member,
}
use scientific_workflow.Task.Driver.{begin_member, observe_member, begin_members, walk}
use scientific_workflow.Task.Driver.Walk.{IsPaired}

abbrev pub u64_bound : ℕ
u64_bound = 18446744073709551616

-- How far the members can still go.
abbrev pub distance : List MemberSnapshot → ℕ
distance [] = 0
distance (m ∷ members) = (u64_bound - m.iteration) + distance members

abbrev pub IsBounded : List MemberSnapshot → Type 0
IsBounded [] = Unit
IsBounded (m ∷ members) = (m.iteration < u64_bound) × IsBounded members

pub distance-le : (members : List MemberSnapshot) → distance members ≤ length members * u64_bound
distance-le [] = omega arith
distance-le (m ∷ members) = let rest = distance-le members in grind arith

module _ (unit : ExecutionUnit) (host : Host unit.Fault unit.Reason) where
  open unit use {U, Fault, Reason, member, member_count, initialize}

  pub walk-distance :
      (u : U) (i : ℕ) (advanced : Bool) (previous next : List MemberSnapshot) (t : Trace Reason)
      (moved : Bool)
      → IsPaired previous next
      → IsBounded next
      → (walk unit host u i advanced previous next t).0 ≡ ok moved
      → (distance next ≤ distance previous)
        × (advanced ≡ false → moved ≡ true → distance next < distance previous)
  unfolding walk
  walk-distance u i advanced [] [] t moved paired bounded e =
      (omega arith, λ a b. absurd (ground arith))
  walk-distance u i advanced [] (n ∷ next) t moved paired bounded e = absurd paired
  walk-distance u i advanced (p ∷ previous) [] t moved paired bounded e = absurd paired
  walk-distance u i advanced (p ∷ previous) (n ∷ next) t moved paired bounded e =
      elim (Result-cases (required_member unit u i)) [
        | inr (f, failed) ↦ absurd (ground arith)
        | inl (view, exposed) ↦ ground (
          arith,
          walk-distance u (i + 1) advanced previous next t moved paired bounded.1,
          walk-distance u (i + 1) (advanced || ltb p.iteration n.iteration) previous next
              (observe_member unit host i view p n t).1 moved paired bounded.1,
        )
      ]

  observe_member-ne-out_of_fuel :
      (i : ℕ) (view : MemberView Reason) (p n : MemberSnapshot) (t : Trace Reason)
      → (observe_member unit host i view p n t).0 ≢ err out_of_fuel
  unfolding observe_member
  observe_member-ne-out_of_fuel i view p n t e = ground arith

  pub walk-ne-out_of_fuel :
      (u : U) (i : ℕ) (advanced : Bool) (previous next : List MemberSnapshot) (t : Trace Reason)
      → (walk unit host u i advanced previous next t).0 ≢ err out_of_fuel
  unfolding walk
  walk-ne-out_of_fuel u i advanced [] next t e = cc
  walk-ne-out_of_fuel u i advanced (p ∷ previous) [] t e = cc
  walk-ne-out_of_fuel u i advanced (p ∷ previous) (n ∷ next) t e =
      elim (Result-cases (required_member unit u i)) [
        | inr (f, failed) ↦ ground arith
        | inl (view, exposed) ↦ ground (
          arith,
          observe_member-ne-out_of_fuel i view p n t,
          walk-ne-out_of_fuel u (i + 1) advanced previous next t,
          walk-ne-out_of_fuel u (i + 1) (advanced || ltb p.iteration n.iteration) previous next
              (observe_member unit host i view p n t).1,
        )
      ]

  begin_member-ne-out_of_fuel :
      (i : ℕ) (view : MemberView Reason) (m : MemberSnapshot) (t : Trace Reason)
      → (begin_member unit host i view m t).0 ≢ err out_of_fuel
  unfolding begin_member
  begin_member-ne-out_of_fuel i view m t e = ground arith

  pub begin_members-ne-out_of_fuel :
      (u : U) (i : ℕ) (members : List MemberSnapshot) (t : Trace Reason)
      → (begin_members unit host u i members t).0 ≢ err out_of_fuel
  unfolding begin_members
  begin_members-ne-out_of_fuel u i [] t e = cc
  begin_members-ne-out_of_fuel u i (m ∷ members) t e =
      elim (Result-cases (required_member unit u i)) [
        | inr (f, failed) ↦ ground arith
        | inl (view, exposed) ↦ ground (
          arith,
          begin_member-ne-out_of_fuel i view m t,
          begin_members-ne-out_of_fuel u (i + 1) members (begin_member unit host i view m t).1,
        )
      ]
