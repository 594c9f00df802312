-- ===== src/Persistence/Queue/Capacity.antt =====
-- What the queue of rust/src/persistence/local/queued_state_writer.rs holds at any time.
use scientific_workflow.Prelude.{
  ℕ, ◌+◌, ◌-◌, ◌≤◌, ◌<◌, ◌≡◌, refl, sym, subst, ap, ◌∙◌, true, false, Option, none, some, is_some,
  if◌then◌else◌, Result, ok, err, List, [], ◌∷◌, ◌++◌, length, length-append, All, All-append,
  All-map_of, sum_by, sum_by-append, arith, Bool-cases, Option-cases, List-cases, inl, inr,
}
use scientific_workflow.Prelude.Texts.{Text, text_eq, text_eq_iff, text_eq_refl}
use scientific_workflow.Prelude.Ascending.{is_late}
use scientific_workflow.Persistence.Records.{EncodedStateRecord, PersistenceError, len}
use scientific_workflow.Persistence.Queue.{
  max_outstanding_records, Work, StreamQueueState, Streams, QueueState, admitted, taken, insert,
  queue_streams, new_queue, ensure_accepting, admit_record, attempt, next_work, release_capacity,
  worker_result,
}

-- Everything that was admitted and not yet released, the worker's record first.
abbrev pub pending : Option Work → List Work → List Work
pending none queue = queue
pending (some w) queue = w ∷ queue

abbrev pub size_in : Text → Work → ℕ
size_in name w = if text_eq w.stream name then w.bytes else 0

abbrev pub load : Text → List Work → ℕ
load name = sum_by (size_in name)

abbrev pub IsKnown : Streams → Work → Type 0
IsKnown streams w = is_some (streams w.stream) ≡ true

insert-IsKnown :
    (stream : Text) (s : StreamQueueState) (streams : Streams) (works : List Work)
    → All (IsKnown streams) works
    → All (IsKnown (insert stream s streams)) works
insert-IsKnown stream s streams works h =
    All-map_of (IsKnown streams) (IsKnown (insert stream s streams)) (λ w k. ground arith) works h

pending-append :
    (held : Option Work) (queue : List Work) (w : Work)
    → pending held (queue ++ w ∷ []) ≡ pending held queue ++ w ∷ []
pending-append none queue w = refl
pending-append (some v) queue w = refl

-- A stream of which nothing was admitted yet.
abbrev pub IsNew : StreamQueueState → Type 0
IsNew s = (s.outstanding_bytes ≡ 0) × (s.last_accepted_iteration ≡ none)

pub queue_streams-IsNew :
    (configs : List (Text × ℕ)) (streams : Streams) (name : Text) (s : StreamQueueState)
    → ((s : StreamQueueState) → streams name ≡ some s → IsNew s)
    → queue_streams configs streams name ≡ some s
    → IsNew s
unfolding queue_streams
queue_streams-IsNew [] streams name s h e = h s e
queue_streams-IsNew ((key, queue_bytes) ∷ configs) streams name s h e =
    queue_streams-IsNew configs _ name s
      (λ u q. elim (Bool-cases (text_eq key name)) [
        | inl same ↦ (ground arith, ground arith)
        | inr other ↦ h u (ground arith)
      ])
      e

module _ {Fault : Type 0} where
  pub record IsAccounted (state : QueueState Fault) (held : Option Work) : Type 0 where
    pub count : state.outstanding_records ≡ length (pending held state.queue)
    pub capped : state.outstanding_records ≤ max_outstanding_records
    pub sizes :
        (name : Text) (s : StreamQueueState)
        → state.streams name ≡ some s
        → (s.outstanding_bytes ≡ load name (pending held state.queue))
          × (s.outstanding_bytes ≤ s.queue_bytes)
    pub known : All (IsKnown state.streams) (pending held state.queue)

  pub attempt-admitted :
      (stream : Text) (r : EncodedStateRecord) (state t : QueueState Fault)
      → attempt stream r state ≡ admitted t
      → (s : StreamQueueState) × (state.streams stream ≡ some s)
        × (state.outstanding_records < max_outstanding_records)
        × (s.outstanding_bytes + len r ≤ s.queue_bytes)
        × (is_late r.iteration s.last_accepted_iteration ≡ false)
        × (t ≡ admit_record stream r s state)
  unfolding attempt ensure_accepting
  attempt-admitted stream r state t e = elim (Option-cases (state.streams stream)) [
    | inl missing ↦ absurd (ground arith)
    | inr (s, there) ↦ (s, there, ground arith, ground arith, ground arith, ground arith)
  ]

  pub admit_record-IsAccounted :
      (stream : Text) (r : EncodedStateRecord) (s : StreamQueueState) (state : QueueState Fault)
      (held : Option Work)
      → IsAccounted state held
      → state.streams stream ≡ some s
      → state.outstanding_records < max_outstanding_records
      → s.outstanding_bytes + len r ≤ s.queue_bytes
      → IsAccounted (admit_record stream r s state) held
  unfolding admit_record
  admit_record-IsAccounted stream r s state held h there room fit =
      let w : Work = record { stream = stream; record_ = r; bytes = len r } in
      let grown = pending-append held state.queue w in
      record {
        count =
            rw grown (omega (arith, h.count, length-append (pending held state.queue) (w ∷ [])));
        capped = omega arith;
        sizes = λ name u e.
            let (exact, under) = h.sizes stream s there in
            let split = sum_by-append (size_in name) (pending held state.queue) (w ∷ []) in
            elim (Bool-cases (text_eq stream name)) [
              | inl same ↦
                  let e1 : stream ≡ name = (text_eq_iff stream name).0 same in
                  let e2 : load stream (pending held state.queue)
                      ≡ load name (pending held state.queue) =
                    ap (λ n. load n (pending held state.queue)) e1 in
                  rw grown (ground (arith, split), ground arith)
              | inr other ↦
                  let (a, b) = h.sizes name u (ground arith) in rw grown (ground (arith, split), b)
            ];
        known = rw grown (
            All-append _ (pending held state.queue) (w ∷ [])
              (insert-IsKnown stream _ state.streams _ h.known)
              (ground (arith, text_eq_refl stream), tt));
      }

  pub next_work-taken :
      (state t : QueueState Fault) (w : Work)
      → next_work state ≡ taken w t
      → (rest : List Work) × (state.queue ≡ w ∷ rest) × (t ≡ record state { queue = rest })
  unfolding next_work
  next_work-taken state t w e = elim (List-cases state.queue) [
    | inl none_left ↦ absurd (ground arith)
    | inr (v, rest, there) ↦ (rest, ground arith, ground arith)
  ]

  release_capacity-some :
      (stream : Text) (bytes : ℕ) (state : QueueState Fault) (s : StreamQueueState)
      → state.streams stream ≡ some s
      → 0 < state.outstanding_records
      → bytes ≤ s.outstanding_bytes
      → release_capacity stream bytes state
        ≡ some (record state {
          outstanding_records = state.outstanding_records - 1;
          streams =
              insert stream
                (record s { outstanding_bytes = s.outstanding_bytes - bytes })
                state.streams;
        })
  unfolding release_capacity
  release_capacity-some stream bytes state s there some_left enough = ground arith

  pub next_work-IsAccounted :
      (state t : QueueState Fault) (w : Work)
      → IsAccounted state none
      → next_work state ≡ taken w t
      → IsAccounted t (some w)
  next_work-IsAccounted state t w h e =
      let (rest, there, after) = next_work-taken state t w e in
      subst (λ (u : QueueState Fault). IsAccounted u (some w)) (sym after)
        (record {
          count = h.count ∙ ap length there;
          capped = h.capped;
          sizes = λ name s q.
              subst
                (λ l. (s.outstanding_bytes ≡ load name l) × (s.outstanding_bytes ≤ s.queue_bytes))
                there (h.sizes name s q);
          known = subst (All (IsKnown state.streams)) there h.known;
        })

  -- The release of the record that the worker holds neither fails nor underflows.
  pub release_capacity-IsAccounted :
      (state : QueueState Fault) (w : Work)
      → IsAccounted state (some w)
      → (t : QueueState Fault) × (release_capacity w.stream w.bytes state ≡ some t)
        × IsAccounted t none
        × (t.queue ≡ state.queue)
  release_capacity-IsAccounted state w h = elim (Option-cases (state.streams w.stream)) [
    | inl missing ↦ let found = h.known.0 in absurd (ground arith)
    | inr (s, there) ↦
        let (exact, under) = h.sizes w.stream s there in
        let counted : 0 < state.outstanding_records = omega (arith, h.count) in
        let own = text_eq_refl w.stream in
        let enough : w.bytes ≤ s.outstanding_bytes = ground (arith, exact, own) in
        (
          _,
          release_capacity-some w.stream w.bytes state s there counted enough,
          record {
            count = omega (arith, h.count);
            capped = omega (arith, h.capped);
            sizes = λ name u e. elim (Bool-cases (text_eq w.stream name)) [
              | inl same ↦
                  let e1 : w.stream ≡ name = (text_eq_iff w.stream name).0 same in
                  let e2 : load w.stream state.queue ≡ load name state.queue =
                    ap (λ n. load n state.queue) e1 in
                  (ground arith, ground arith)
              | inr other ↦ let (a, b) = h.sizes name u (ground arith) in (ground arith, b)
            ];
            known = insert-IsKnown w.stream _ state.streams state.queue h.known.1;
          },
          refl,
        )
  ]

  pub worker_result-IsAccounted :
      (r : Result (PersistenceError Fault) (Unit {0})) (state : QueueState Fault)
      (held : Option Work)
      → (r ≡ ok tt → held ≡ none)
      → IsAccounted state held
      → IsAccounted (worker_result r state) none
  unfolding worker_result
  worker_result-IsAccounted (ok _) state held done h =
      subst (IsAccounted (record state { finished = true })) (done refl)
        (record { count = h.count; capped = h.capped; sizes = h.sizes; known = h.known })
  worker_result-IsAccounted (err e) state held done h = record {
    count = refl;
    capped = omega arith;
    sizes = λ name s q. elim (Option-cases (state.streams name)) [
      | inl missing ↦ absurd (ground arith)
      | inr (u, there) ↦ (ground arith, ground arith)
    ];
    known = tt;
  }

  pub new_queue-IsAccounted : (configs : List (Text × ℕ)) → IsAccounted (new_queue configs) none
  unfolding new_queue
  new_queue-IsAccounted configs = record {
    count = refl;
    capped = omega arith;
    sizes = λ name s e.
        let empty = (queue_streams-IsNew configs (λ n. none) name s (λ u q. cc) e).0 in
        (empty, omega (arith, empty));
    known = tt;
  }
