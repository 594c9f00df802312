-- ===== src/Task/Driver/Inspection.antt =====
-- What a success of the checks in rust/src/task/execution.rs gives, and that checks report nothing.
use scientific_workflow.Prelude.{
  >>=-eq-ok, >>-eq-ok, ok-injective, ℕ, zero, suc, ◌+◌, ◌<◌, ◌≤◌, ◌≡◌, ◌≢◌, refl, subst, ap, ◌∙◌,
  Bool, true, false, not, ◌==◌, Result, ok, err, List, [], ◌∷◌, any, length, arith, Bool-cases, inl,
  inr,
}
use scientific_workflow.Prelude.Texts.{Text, text_eq}
use scientific_workflow.Task.Execution.{
  ExecutionUnit, Trace, Host, TaskError, panicked, MemberSnapshot, guard, identity_changed,
  duplicate_identity, shared_state_owner, validate_state, validate_target, validate_target_progress,
  validate_identity, contains_text, required_member, inspect_members, inspect_initial_members,
}
use scientific_workflow.Task.Driver.{compute_step, checked_members, admit_members, start}
use scientific_workflow.Task.Driver.Lifecycle.{Status, done, status, phase}
use scientific_workflow.Task.Driver.Walk.{IsTracked, IsPaired, IsSeen}

abbrev pub is_done : Status → Bool
is_done (done n) = true
is_done _ = false

phase-is_done : (m : MemberSnapshot) → m.complete ≡ true → is_done (phase m) ≡ true
unfolding phase
phase-is_done m e = ground arith

-- Members that are all complete are all done.
pub tracked-is_done :
    {Reason : Type 0} (i : ℕ) (members : List MemberSnapshot) (t : Trace Reason)
    → IsTracked i members t
    → any (λ m. not m.complete) members ≡ false
    → (j : ℕ) → i ≤ j
    → j < i + length members
    → is_done (status j t) ≡ true
tracked-is_done i [] t tracked all_ j le lt = absurd (omega arith)
tracked-is_done i (m ∷ members) t (here, later) all_ j le lt = elim (Bool-cases (i == j)) [
  | inl same ↦
      let complete : m.complete ≡ true = ground arith in
      subst (λ k. is_done (status k t) ≡ true) (grind arith)
        (ap is_done here ∙ phase-is_done m complete)
  | inr other ↦ tracked-is_done (i + 1) members t later (ground arith) j (grind arith) (grind arith)
]

module _ (unit : ExecutionUnit) (host : Host unit.Fault unit.Reason) where
  open unit use {U, Fault, Reason}

  pub inspect_members-IsSeen :
      (u : U) (schema i : ℕ) (previous next : List MemberSnapshot)
      → inspect_members unit u schema i previous ≡ ok next
      → IsPaired previous next × IsSeen unit host u i next
  unfolding inspect_members
  inspect_members-IsSeen u schema i [] next e =
      let none_ : [] ≡ next = cc in
      subst (λ n. IsPaired [] n × IsSeen unit host u i n) none_ (tt, tt)
  inspect_members-IsSeen u schema i (p ∷ previous) next e =
      let (view, exposed, e1) = >>=-eq-ok (required_member unit u i) _ e in
      let (same, e2) =
        >>-eq-ok
          (guard (text_eq view.identity p.identity) (identity_changed i p.identity view.identity)) _
          e1 in
      let (valid, e3) = >>-eq-ok (validate_state view schema p.state_address) _ e2 in
      let (target, aimed, e4) = >>=-eq-ok (validate_target view) _ e3 in
      let (progress, e5) = >>-eq-ok (validate_target_progress p.target target) _ e4 in
      let (rest, inspected, e6) = >>=-eq-ok (inspect_members unit u schema (i + 1) previous) _ e5 in
      let (paired, seen) = inspect_members-IsSeen u schema (i + 1) previous rest inspected in
      subst (λ n. IsPaired (p ∷ previous) n × IsSeen unit host u i n) (ok-injective e6)
        (paired, ((view, exposed, refl, refl), seen))

  pub inspect_initial_members-IsSeen :
      (u : U) (schema i left : ℕ) (identities : List Text) (states : List ℕ)
      (members : List MemberSnapshot)
      → inspect_initial_members unit u schema i left identities states ≡ ok members
      → IsSeen unit host u i members × (length members ≡ left)
  unfolding inspect_initial_members
  inspect_initial_members-IsSeen u schema i zero identities states members e =
      let none_ : [] ≡ members = cc in
      subst (λ n. IsSeen unit host u i n × (length n ≡ 0)) none_ (tt, refl)
  inspect_initial_members-IsSeen u schema i (suc left) identities states members e =
      let (view, exposed, e1) = >>=-eq-ok (required_member unit u i) _ e in
      let (named, e2) = >>-eq-ok (validate_identity view.identity i) _ e1 in
      let (new, e3) =
        >>-eq-ok
          (guard (not (contains_text view.identity identities)) (duplicate_identity view.identity))
          _ e2 in
      let (valid, e4) = >>-eq-ok (validate_state view schema view.owner) _ e3 in
      let (alone, e5) =
        >>-eq-ok (guard (not (any (λ a. a == view.owner) states)) (shared_state_owner i)) _ e4 in
      let (target, aimed, e6) = >>=-eq-ok (validate_target view) _ e5 in
      let (rest, inspected, e7) =
        >>=-eq-ok
          (inspect_initial_members unit u schema (i + 1) left (view.identity ∷ identities)
            (view.owner ∷ states))
          _ e6 in
      let (seen, many) =
        inspect_initial_members-IsSeen u schema (i + 1) left (view.identity ∷ identities)
          (view.owner ∷ states) rest inspected in
      subst (λ n. IsSeen unit host u i n × (length n ≡ suc left)) (ok-injective e7)
        (((view, exposed, refl, refl), seen), grind arith)

  -- A part of the run that reports nothing about a member.
  abbrev pub IsSilent :
      {A : Type 0} → Trace Reason → Result (TaskError Fault) A × Trace Reason → Type 0
  IsSilent t (r, u) = ((j : ℕ) → status j u ≡ status j t) × (r ≢ err panicked)

  pub compute_step-IsSilent : (u : U) (t : Trace Reason) → IsSilent t (compute_step unit host u t)
  unfolding compute_step
  compute_step-IsSilent u t = (λ j. ground arith, λ e. ground arith)

  pub start-IsSilent : (t : Trace Reason) → IsSilent t (start unit host t)
  unfolding start
  start-IsSilent t = (λ j. ground arith, λ e. ground arith)

  pub checked_members-IsSilent :
      (schema count : ℕ) (v : U) (members : List MemberSnapshot) (t : Trace Reason)
      → IsSilent t (checked_members unit host schema count v members t)
  unfolding checked_members
  checked_members-IsSilent schema count v members t = (λ j. ground arith, λ e. ground arith)

  pub checked_members-inspected :
      (schema count : ℕ) (v : U) (members next : List MemberSnapshot) (t : Trace Reason)
      → (checked_members unit host schema count v members t).0 ≡ ok next
      → inspect_members unit v schema 0 members ≡ ok next
  unfolding checked_members
  checked_members-inspected schema count v members next t e = ground arith

  pub admit_members-IsSilent :
      (schema : ℕ) (u : U) (requests : List Text) (t : Trace Reason)
      → IsSilent t (admit_members unit host schema u requests t)
  unfolding admit_members
  admit_members-IsSilent schema u requests t = (λ j. ground arith, λ e. ground arith)

  pub admit_members-inspected :
      (schema : ℕ) (u : U) (requests : List Text) (members : List MemberSnapshot) (t : Trace Reason)
      → (admit_members unit host schema u requests t).0 ≡ ok members
      → inspect_initial_members unit u schema 0 (unit.member_count u) [] [] ≡ ok members
  unfolding admit_members
  admit_members-inspected schema u requests members t e = ground arith
