-- ===== src/Persistence/Sink/Stream.antt =====
-- The whole run of the sink of rust/src/persistence/local/queued_state_writer.rs over the records
-- of one stream.
use scientific_workflow.Prelude.{
  ℕ, ◌+◌, ◌≡◌, refl, sym, ap, ◌∙◌, subst, List, [], ◌∷◌, ◌++◌, All, length, ltb, Result, ok, arith,
}
use scientific_workflow.Prelude.Texts.{Text}
use scientific_workflow.Prelude.Runs.{◌>>=◌, Yields, >>=-Yields, pure-Yields}
use mathlib.Core.List.{append_assoc, append-nil}
use scientific_workflow.Persistence.Records.{
  EncodedStateRecord, PersistenceError, u64_bound, byte_count_overflow, len,
}
use scientific_workflow.Persistence.Sink.{
  check, StateStreamLayout, Call, Storage, StateStreamSink, Writing, new_sink, open_chunk, extend,
  flush, roll_over, seal_full, append, append_all, write_stream,
}
use scientific_workflow.Persistence.Sink.Chunks.{
  flatten, IsChunk, numbered, described, published, prepared,
}
use scientific_workflow.Persistence.Sink.Publish.{then_guard}
use scientific_workflow.Persistence.Sink.Content.{sink_of, IsResting, filled-IsChunk, fill-lem}
use scientific_workflow.Persistence.Sink.Lossless.{
  Written, Keeps, empty-IsResting, roll_over-Keeps, seal_full-Keeps, flush-Stands,
  resting-IsFlushable,
}

check-Yields :
    {Fault A : Type 0} (r : Result (PersistenceError Fault) A) (t : List Call) (a : A)
    (u : List Call)
    → Yields (check r) t a u
    → (r ≡ ok a) × (u ≡ t)
check-Yields {Fault} {A} r t a u h = (
  ap (λ (p : Result (PersistenceError Fault) A × List Call). p.0) h,
  ap (λ (p : Result (PersistenceError Fault) A × List Call). p.1) (sym h),
)

module _ {Fault : Type 0} (storage : Storage Fault) (stream : Text) (layout : StateStreamLayout)
    (start : ℕ) where
  -- `append` after its guard.
  append-cases :
      (r : EncodedStateRecord) (sink : StateStreamSink) (t : List Call) (s : StateStreamSink)
      (u : List Call)
      → Yields (append storage r sink) t s u
      → (rolled opened extended : StateStreamSink) × (v : List Call) × Yields
          (roll_over storage r sink)
          t
          rolled
          v
        × (open_chunk {Fault = Fault} r rolled ≡ ok opened)
        × (extend {Fault = Fault} r opened ≡ ok extended)
        × Yields (seal_full storage extended) v s u
  unfolding append
  append-cases r sink t s u h =
      let k3 : StateStreamSink → Writing Fault StateStreamSink =
        λ extended. seal_full storage extended in
      let k2 : StateStreamSink → Writing Fault StateStreamSink =
        λ opened. check (extend r opened) >>= k3 in
      let k1 : StateStreamSink → Writing Fault StateStreamSink =
        λ rolled. check (open_chunk r rolled) >>= k2 in
      let whole : Writing Fault StateStreamSink = roll_over storage r sink >>= k1 in
      let guarded =
        then_guard storage (ltb (len r) u64_bound) (byte_count_overflow sink.stream) whole t s u
          h in
      let (rolled, v, h1, g1) = >>=-Yields (roll_over storage r sink) k1 t s u guarded in
      let (opened, v2, h2, g2) = >>=-Yields (check (open_chunk r rolled)) k2 v s u g1 in
      let (extended, v3, h3, g3) = >>=-Yields (check (extend r opened)) k3 v2 s u g2 in
      let (e2, same2) = check-Yields (open_chunk r rolled) v opened v2 h2 in
      let (e3, same3) = check-Yields (extend r opened) v2 extended v3 h3 in
      (
        rolled,
        opened,
        extended,
        v,
        h1,
        e2,
        e3,
        subst (λ w. Yields (seal_full storage extended) w s u) (same3 ∙ same2) g3,
      )

  append-Keeps :
      (r : EncodedStateRecord) (groups : List (List EncodedStateRecord))
      (held : List EncodedStateRecord) (t : List Call) (s : StateStreamSink) (u : List Call)
      → Written storage layout start groups t
      → IsResting layout held
      → Yields (append storage r (sink_of stream layout (start + length groups) held)) t s u
      → Keeps storage stream layout start ((flatten groups ++ held) ++ r ∷ []) s u
  append-Keeps r groups held t s u written resting h =
      let n = start + length groups in
      let (rolled, opened, extended, v, h1, h2, h3, h4) =
        append-cases r (sink_of stream layout n held) t s u h in
      let (after, kept, (is_rolled, written2, resting2), same, room) =
        roll_over-Keeps storage stream layout start r groups held t rolled v written resting h1 in
      let m = start + length after in
      let is_extended =
        fill-lem stream layout m kept r opened extended
          (subst (λ p. open_chunk {Fault = Fault} r p ≡ ok opened) is_rolled h2) h3 in
      let (last_groups, last_held, stands, given) =
        seal_full-Keeps storage stream layout start after (kept ++ r ∷ []) v s u written2
          (filled-IsChunk layout kept r room)
          (subst (λ p. Yields (seal_full storage p) v s u) is_extended h4) in
      (
        last_groups,
        last_held,
        stands,
        given
            ∙ sym (append_assoc (flatten after) kept (r ∷ []))
            ∙ ap (λ (xs : List EncodedStateRecord). xs ++ r ∷ []) same,
      )

  append_all-Keeps :
      (records : List EncodedStateRecord) (given : List EncodedStateRecord) (sink : StateStreamSink)
      (t : List Call) (s : StateStreamSink) (u : List Call)
      → Keeps storage stream layout start given sink t
      → Yields (append_all storage records sink) t s u
      → Keeps storage stream layout start (given ++ records) s u
  unfolding append_all
  append_all-Keeps [] given sink t s u keeps h =
      let (same, ended) = pure-Yields sink t s u h in
      let (groups, held, (is_sink, written, resting), all_given) = keeps in
      (
        groups,
        held,
        (same ∙ is_sink, subst (Written storage layout start groups) (sym ended) written, resting),
        all_given ∙ sym (append-nil given),
      )
  append_all-Keeps (r ∷ records) given sink t s u keeps h =
      let (groups, held, (is_sink, written, resting), all_given) = keeps in
      let (appended, v, h1, h2) =
        >>=-Yields (append storage r sink) (append_all storage records) t s u h in
      let step =
        append-Keeps r groups held t appended v written resting
          (subst (λ p. Yields (append storage r p) t appended v) is_sink h1) in
      let so_far =
        subst (λ xs. Keeps storage stream layout start (xs ++ r ∷ []) appended v) all_given step in
      let rest = append_all-Keeps records (given ++ r ∷ []) appended v s u so_far h2 in
      subst (λ xs. Keeps storage stream layout start xs s u) (append_assoc given (r ∷ []) records)
        rest

  -- A run that ends without an error has published every record it was given, in the order it was
  -- given them: the payloads of the files are those of consecutive groups of the records, one
  -- group or file for each number from the first on, every group is of one record or within the
  -- target, and the descriptor prepared for each file is that of its group.
  pub write_stream-lossless :
      (records : List EncodedStateRecord) (s : StateStreamSink) (u : List Call)
      → Yields (write_stream storage records (new_sink stream layout start)) [] s u
      → (groups : List (List EncodedStateRecord)) × (flatten groups ≡ records)
        × (published u ≡ numbered start groups)
        × (prepared u ≡ described storage start groups)
        × All (IsChunk layout) groups
  unfolding write_stream new_sink
  write_stream-lossless records s u h =
      let sink = new_sink stream layout start in
      let (written_sink, v, h1, h2) =
        >>=-Yields (append_all storage records sink) (flush storage) [] s u h in
      let first_ordinal : start ≡ start + 0 = omega arith in
      let fresh = ap (λ n. sink_of stream layout n []) first_ordinal in
      let (groups, held, (is_sink, written, resting), all_given) =
        append_all-Keeps records [] sink [] written_sink v
          ([], [], (fresh, (refl, refl, tt), empty-IsResting layout), refl) h1 in
      let (after, (last_sink, (files, facts, chunks), last_resting), same) =
        flush-Stands storage stream layout start groups held v s u written
          (resting-IsFlushable layout held resting)
          (subst (λ p. Yields (flush storage p) v s u) is_sink h2) in
      (after, same ∙ all_given, files, facts, chunks)
