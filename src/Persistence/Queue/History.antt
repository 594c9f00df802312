-- ===== src/Persistence/Queue/History.antt =====
-- The queue of rust/src/persistence/local/queued_state_writer.rs over any sequence of steps.
use scientific_workflow.Prelude.{
  ℕ, ◌≤◌, ◌≡◌, ◌≢◌, sym, subst, ap, ◌∙◌, true, Option, none, some, ltb, Result, ok, List, [], ◌∷◌,
  ◌++◌, length, arith, Option-cases, inl, inr,
}
use scientific_workflow.Prelude.Texts.{Text}
use scientific_workflow.Persistence.Records.{EncodedStateRecord, PersistenceError, u64_bound, len}
use scientific_workflow.Persistence.Queue.{
  max_outstanding_records, Work, StreamQueueState, QueueState, admitted, blocked, crashed, taken,
  ended, fits, new_queue, ensure_accepting, attempt, check_record, next_work, release_capacity,
  close_admission, worker_result,
}
use scientific_workflow.Persistence.Queue.Capacity.{
  pending, load, IsAccounted, attempt-admitted, admit_record-IsAccounted, next_work-IsAccounted,
  release_capacity-IsAccounted, worker_result-IsAccounted, new_queue-IsAccounted,
}

module _ {Fault : Type 0} where
  -- A recording's queue after any steps of its callers and its worker. `accepted` is all that was
  -- admitted, `delivered` all that the worker has taken, both in order; `held` is what it works on.
  pub data Trace : QueueState Fault → Option Work → List Work → List Work → Type 0 where
    opened : (configs : List (Text × ℕ)) → Trace (new_queue configs) none [] []
    submitted :
        (stream : Text) (r : EncodedStateRecord) (state t : QueueState Fault) (held : Option Work)
        (accepted delivered : List Work)
        → attempt stream r state ≡ admitted t
        → Trace state held accepted delivered
        → Trace t held
            (accepted ++ record { stream = stream; record_ = r; bytes = len r } ∷ [])
            delivered
    took :
        (state t : QueueState Fault) (w : Work) (accepted delivered : List Work)
        → next_work state ≡ taken w t
        → Trace state none accepted delivered
        → Trace t (some w) accepted (delivered ++ w ∷ [])
    released :
        (state t : QueueState Fault) (w : Work) (accepted delivered : List Work)
        → release_capacity w.stream w.bytes state ≡ some t
        → Trace state (some w) accepted delivered
        → Trace t none accepted delivered
    closed :
        (state : QueueState Fault) (held : Option Work) (accepted delivered : List Work)
        → Trace state held accepted delivered
        → Trace (close_admission state) held accepted delivered
    stopped :
        (r : Result (PersistenceError Fault) (Unit {0})) (state : QueueState Fault)
        (held : Option Work) (accepted delivered : List Work)
        → (r ≡ ok tt → (held ≡ none) × (next_work state ≡ ended))
        → Trace state held accepted delivered
        → Trace (worker_result r state) none accepted delivered

  Trace-IsAccounted :
      (state : QueueState Fault) (held : Option Work) (accepted delivered : List Work)
      → Trace state held accepted delivered
      → IsAccounted state held
  unfolding close_admission
  Trace-IsAccounted _ _ _ _ (opened configs) = new_queue-IsAccounted configs
  Trace-IsAccounted t held _ delivered (submitted stream r state _ _ accepted _ e trace) =
      let (s, there, room, fit, late, after) = attempt-admitted stream r state t e in
      subst (λ (u : QueueState Fault). IsAccounted u held) (sym after)
        (admit_record-IsAccounted stream r s state held
          (Trace-IsAccounted state held accepted delivered trace) there room fit)
  Trace-IsAccounted t _ accepted _ (took state _ w _ delivered e trace) =
      next_work-IsAccounted state t w (Trace-IsAccounted state none accepted delivered trace) e
  Trace-IsAccounted t _ accepted delivered (released state _ w _ _ e trace) =
      let (u, gone, h, kept) =
        release_capacity-IsAccounted state w
          (Trace-IsAccounted state (some w) accepted delivered trace) in
      let same : u ≡ t = ground arith in subst (λ (v : QueueState Fault). IsAccounted v none) same h
  Trace-IsAccounted _ held accepted delivered (closed state _ _ _ trace) =
      let h = Trace-IsAccounted state held accepted delivered trace in
      record { count = h.count; capped = h.capped; sizes = h.sizes; known = h.known }
  Trace-IsAccounted _ _ accepted delivered (stopped r state held _ _ ending trace) =
      worker_result-IsAccounted r state held (λ e. (ending e).0)
        (Trace-IsAccounted state held accepted delivered trace)

  -- At any time at most 1024 records are outstanding, the counter is the number of those admitted
  -- and not released, and each stream's bytes are those of its outstanding records, within its
  -- limit.
  pub Trace-bounds :
      (state : QueueState Fault) (held : Option Work) (accepted delivered : List Work) (name : Text)
      (s : StreamQueueState)
      → Trace state held accepted delivered
      → state.streams name ≡ some s
      → (state.outstanding_records ≤ max_outstanding_records)
        × (state.outstanding_records ≡ length (pending held state.queue))
        × (s.outstanding_bytes ≤ s.queue_bytes)
        × (s.outstanding_bytes ≡ load name (pending held state.queue))
  Trace-bounds state held accepted delivered name s trace there =
      let h = Trace-IsAccounted state held accepted delivered trace in
      let (exact, under) = h.sizes name s there in (h.capped, h.count, under, exact)

  -- The worker gives back exactly what its record took: the release neither underflows nor misses
  -- its stream.
  pub Trace-release :
      (state : QueueState Fault) (w : Work) (accepted delivered : List Work)
      → Trace state (some w) accepted delivered
      → (t : QueueState Fault) × (release_capacity w.stream w.bytes state ≡ some t)
  Trace-release state w accepted delivered trace =
      let (t, gone, h, kept) =
        release_capacity-IsAccounted state w
          (Trace-IsAccounted state (some w) accepted delivered trace) in
      (t, gone)

  -- A caller waits only while the worker has something to do: with nothing queued and nothing in
  -- the worker's hands, a record that passed the checks is decided at once.
  pub attempt-ne-blocked :
      (state : QueueState Fault) (accepted delivered : List Work) (stream : Text)
      (r : EncodedStateRecord)
      → Trace state none accepted delivered
      → state.queue ≡ []
      → check_record stream r state ≡ ok tt
      → (attempt stream r state ≢ blocked) × (attempt stream r state ≢ crashed)
  unfolding attempt check_record ensure_accepting
  attempt-ne-blocked state accepted delivered stream r trace idle checked =
      let h = Trace-IsAccounted state none accepted delivered trace in
      elim (Option-cases (state.streams stream)) [
        | inl missing ↦ absurd (ground arith)
        | inr (s, there) ↦
            let (exact, under) = h.sizes stream s there in
            let empty : load stream state.queue ≡ 0 = ap (load stream) idle in
            let small : len r ≤ s.queue_bytes = ground arith in
            let short : ltb (len r) u64_bound ≡ true = ground arith in
            let free : s.outstanding_bytes ≡ 0 = exact ∙ empty in
            let room : state.outstanding_records ≡ 0 = h.count ∙ ap length idle in
            let fit : fits (len r) s ≡ true = ground arith in (λ e. ground arith, λ e. ground arith)
      ]
