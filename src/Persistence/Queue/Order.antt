-- ===== src/Persistence/Queue/Order.antt =====
-- The order of records through the queue of rust/src/persistence/local/queued_state_writer.rs.
use scientific_workflow.Prelude.{
  ℕ, ◌≡◌, refl, sym, ap, ◌∙◌, Option, none, some, if◌then◌else◌, ok, err, List, [], ◌∷◌, ◌++◌,
  arith, Bool-cases, Option-cases, inl, inr,
}
use mathlib.Core.List.{append_assoc}
use scientific_workflow.Prelude.Texts.{Text, text_eq, text_eq_iff}
use scientific_workflow.Prelude.Ascending.{IsAscending, final, final-append, IsAscending-append}
use scientific_workflow.Persistence.Records.{len}
use scientific_workflow.Persistence.Queue.{
  Work, StreamQueueState, QueueState, new_queue, admit_record, release_capacity, close_admission,
  worker_result,
}
use scientific_workflow.Persistence.Queue.Capacity.{
  queue_streams-IsNew, next_work-taken, attempt-admitted,
}
use scientific_workflow.Persistence.Queue.History.{
  Trace, opened, submitted, took, released, closed, stopped,
}

-- The iterations of one stream's records.
abbrev pub iterations : Text → List Work → List ℕ
iterations name [] = []
iterations name (w ∷ works) =
    if text_eq w.stream name
    then w.record_.iteration ∷ iterations name works
    else iterations name works

iterations-append :
    (name : Text) (xs : List Work) (w : Work)
    → iterations name (xs ++ w ∷ []) ≡ (
        if text_eq w.stream name
        then iterations name xs ++ w.record_.iteration ∷ []
        else iterations name xs)
iterations-append name [] w = ground arith
iterations-append name (x ∷ xs) w = let ih = iterations-append name xs w in ground (arith, ih)

module _ {Fault : Type 0} where
  release_capacity-queue :
      (stream : Text) (bytes : ℕ) (state t : QueueState Fault)
      → release_capacity stream bytes state ≡ some t
      → (t.queue ≡ state.queue) × (t.terminal ≡ state.terminal)
  unfolding release_capacity
  release_capacity-queue stream bytes state t e = elim (Option-cases (state.streams stream)) [
    | inl missing ↦ absurd (ground arith)
    | inr (s, there) ↦ (ground arith, ground arith)
  ]

  release_capacity-last :
      (stream : Text) (bytes : ℕ) (state t : QueueState Fault) (name : Text) (s : StreamQueueState)
      → release_capacity stream bytes state ≡ some t
      → t.streams name ≡ some s
      → (u : StreamQueueState) × (state.streams name ≡ some u)
        × (u.last_accepted_iteration ≡ s.last_accepted_iteration)
  unfolding release_capacity
  release_capacity-last stream bytes state t name s e there =
      elim (Option-cases (state.streams stream)) [
        | inl missing ↦ absurd (ground arith)
        | inr (u, known) ↦ elim (Bool-cases (text_eq stream name)) [
          | inl same ↦
              let e1 = (text_eq_iff stream name).0 same in
              (u, ap state.streams (sym e1) ∙ known, ground arith)
          | inr other ↦ (s, ground arith, refl)
        ]
      ]

  -- Records reach the worker in the order in which they were admitted, none twice and none left
  -- out: as long as the worker has not failed, what was admitted is what it has taken and what is
  -- still queued.
  pub Trace-fifo :
      (state : QueueState Fault) (held : Option Work) (accepted delivered : List Work)
      → Trace state held accepted delivered
      → state.terminal ≡ none
      → accepted ≡ delivered ++ state.queue
  unfolding new_queue close_admission worker_result admit_record
  Trace-fifo _ _ _ _ (opened configs) alive = refl
  Trace-fifo t held _ delivered (submitted stream r state _ _ accepted _ e trace) alive =
      let (s, there, room, fit, late, after) = attempt-admitted stream r state t e in
      let w : Work = record { stream = stream; record_ = r; bytes = len r } in
      let ih = Trace-fifo state held accepted delivered trace (ground arith) in
      rw ih (
        append_assoc delivered state.queue (w ∷ [])
        ∙ ap (λ q. delivered ++ q) (sym (ap (λ (u : QueueState Fault). u.queue) after)))
  Trace-fifo t _ accepted _ (took state _ w _ delivered e trace) alive =
      let (rest, there, after) = next_work-taken state t w e in
      let ih = Trace-fifo state none accepted delivered trace (ground arith) in
      let moved : state.queue ≡ w ∷ t.queue = ground arith in
      ih ∙ ap (λ q. delivered ++ q) moved ∙ sym (append_assoc delivered (w ∷ []) t.queue)
  Trace-fifo t _ accepted delivered (released state _ w _ _ e trace) alive =
      let (kept, same) = release_capacity-queue w.stream w.bytes state t e in
      let ih = Trace-fifo state (some w) accepted delivered trace (sym same ∙ alive) in
      ih ∙ ap (λ q. delivered ++ q) (sym kept)
  Trace-fifo _ held accepted delivered (closed state _ _ _ trace) alive =
      Trace-fifo state held accepted delivered trace alive
  Trace-fifo _ _ accepted delivered (stopped (ok _) state held _ _ ending trace) alive =
      Trace-fifo state held accepted delivered trace alive
  Trace-fifo _ _ accepted delivered (stopped (err e) state held _ _ ending trace) alive = cc

  -- A stream's records are admitted in strictly growing iterations, and the queue remembers the
  -- last.
  pub Trace-IsAscending :
      (state : QueueState Fault) (held : Option Work) (accepted delivered : List Work) (name : Text)
      (s : StreamQueueState)
      → Trace state held accepted delivered
      → state.streams name ≡ some s
      → IsAscending (iterations name accepted)
        × (final (iterations name accepted) ≡ s.last_accepted_iteration)
  unfolding close_admission worker_result admit_record new_queue
  Trace-IsAscending _ _ _ _ name s (opened configs) there =
      (tt, sym (queue_streams-IsNew configs (λ n. none) name s (λ u q. cc) there).1)
  Trace-IsAscending t held _ delivered name s (submitted stream r state _ _ accepted _ e trace)
        there =
      let (u, known, room, fit, late, after) = attempt-admitted stream r state t e in
      let w : Work = record { stream = stream; record_ = r; bytes = len r } in
      let grown = iterations-append name accepted w in
      elim (Bool-cases (text_eq stream name)) [
        | inl same ↦
            let e1 : stream ≡ name = (text_eq_iff stream name).0 same in
            let (up, newest) =
              Trace-IsAscending state held accepted delivered name u trace
                (ap state.streams (sym e1) ∙ known) in
            let longer : iterations name (accepted ++ w ∷ [])
                ≡ iterations name accepted ++ r.iteration ∷ [] =
              ground arith in
            (
              rw longer
                  (IsAscending-append (iterations name accepted) r.iteration up (rw newest late)),
              rw longer (final-append (iterations name accepted) r.iteration ∙ ground arith),
            )
        | inr other ↦
            let same : iterations name (accepted ++ w ∷ []) ≡ iterations name accepted =
              ground arith in
            rw same (Trace-IsAscending state held accepted delivered name s trace (ground arith))
      ]
  Trace-IsAscending t _ accepted _ name s (took state _ w _ delivered e trace) there =
      let (rest, queue, after) = next_work-taken state t w e in
      Trace-IsAscending state none accepted delivered name s trace (ground arith)
  Trace-IsAscending t _ accepted delivered name s (released state _ w _ _ e trace) there =
      let (u, known, same) = release_capacity-last w.stream w.bytes state t name s e there in
      let (up, newest) = Trace-IsAscending state (some w) accepted delivered name u trace known in
      (up, newest ∙ same)
  Trace-IsAscending _ held accepted delivered name s (closed state _ _ _ trace) there =
      Trace-IsAscending state held accepted delivered name s trace there
  Trace-IsAscending _ _ accepted delivered name s (stopped (ok _) state held _ _ ending trace)
        there =
      Trace-IsAscending state held accepted delivered name s trace there
  Trace-IsAscending _ _ accepted delivered name s (stopped (err e) state held _ _ ending trace)
        there =
      elim (Option-cases (state.streams name)) [
        | inl missing ↦ absurd (ground arith)
        | inr (u, known) ↦
            let (up, newest) = Trace-IsAscending state held accepted delivered name u trace known in
            (up, newest ∙ ground arith)
      ]
