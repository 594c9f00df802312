-- ===== src/Persistence/Sink/Lossless.antt =====
-- What the sink of rust/src/persistence/local/queued_state_writer.rs publishes is what it was
-- given.
use scientific_workflow.Prelude.{
  ℕ, ◌+◌, ◌≡◌, refl, sym, ap, ◌∙◌, subst, ◌⊎◌, inl, inr, false, Bool-cases, none, List, [], ◌∷◌,
  ◌++◌, All, All-append, length, length-append, arith,
}
use scientific_workflow.Prelude.Texts.{Text}
use scientific_workflow.Prelude.Runs.{pure, Yields, >>=-Yields, pure-Yields}
use mathlib.Core.List.{append-nil}
use scientific_workflow.Persistence.Records.{Bytes, EncodedStateRecord, PersistenceError, len}
use scientific_workflow.Persistence.Sink.{
  FileName, ChunkMetadata, StateStreamLayout, chunked, individual_files, chunk_filename, Call,
  Storage, StateStreamSink, is_full, should_seal, descriptor, seal, flush, roll_over, seal_full,
}
use scientific_workflow.Persistence.Sink.Chunks.{
  payload, flatten, IsChunk, chunk_of, numbered, described, published, prepared, flatten-append,
  numbered-append, described-append,
}
use scientific_workflow.Persistence.Sink.Publish.{
  publication, seal-Yields, published-publication, prepared-publication,
}
use scientific_workflow.Persistence.Sink.Content.{sink_of, IsResting, HasRoom}

-- The published files and the prepared descriptors are those of the groups.
abbrev pub Written :
    {Fault : Type 0}
    → Storage Fault
    → StateStreamLayout
    → ℕ
    → List (List EncodedStateRecord)
    → List Call
    → Type 0
Written storage layout start groups t =
    (published t ≡ numbered start groups)
    × (prepared t ≡ described storage start groups)
    × All (IsChunk layout) groups

-- The sink stands where the groups are published and the records `held` are not.
abbrev pub Stands :
    {Fault : Type 0}
    → Storage Fault
    → Text
    → StateStreamLayout
    → ℕ
    → List (List EncodedStateRecord)
    → List EncodedStateRecord
    → StateStreamSink
    → List Call
    → Type 0
Stands storage stream layout start groups held sink t =
    (sink ≡ sink_of stream layout (start + length groups) held)
    × Written storage layout start groups t
    × IsResting layout held

-- The records that a flush may publish.
abbrev pub IsFlushable : StateStreamLayout → List EncodedStateRecord → Type 0
IsFlushable layout held = (held ≡ []) ⊎ IsChunk layout held

pub resting-IsFlushable :
    (layout : StateStreamLayout) (held : List EncodedStateRecord)
    → IsResting layout held
    → IsFlushable layout held
resting-IsFlushable individual_files held h = inl h
resting-IsFlushable (chunked target) held h = h

cons-IsChunk :
    (layout : StateStreamLayout) (x : EncodedStateRecord) (xs : List EncodedStateRecord)
    → IsFlushable layout (x ∷ xs)
    → IsChunk layout (x ∷ xs)
cons-IsChunk layout x xs (inl h) = absurd (ground arith)
cons-IsChunk layout x xs (inr h) = h

pub empty-IsResting : (layout : StateStreamLayout) → IsResting layout []
empty-IsResting individual_files = refl
empty-IsResting (chunked target) = inl refl

empty-HasRoom : (layout : StateStreamLayout) (r : EncodedStateRecord) → HasRoom layout [] r
empty-HasRoom individual_files r = refl
empty-HasRoom (chunked target) r = inl refl

not_full-HasRoom :
    (stream : Text) (layout : StateStreamLayout) (n : ℕ) (held : List EncodedStateRecord)
    (r : EncodedStateRecord)
    → let sink = sink_of stream layout n held in
      IsResting layout held
      → is_full sink.layout (len r) sink.active ≡ false
      → HasRoom layout held r
unfolding is_full
not_full-HasRoom stream individual_files n held r resting h = resting
not_full-HasRoom stream (chunked target) n [] r resting h = inl refl
not_full-HasRoom stream (chunked target) n (x ∷ xs) r resting h = inr (ground arith)

not_sealed-IsResting :
    (stream : Text) (layout : StateStreamLayout) (n : ℕ) (held : List EncodedStateRecord)
    → let sink = sink_of stream layout n held in
      IsChunk layout held → should_seal sink.layout sink.active ≡ false → IsResting layout held
unfolding should_seal
not_sealed-IsResting stream individual_files n [] is_chunk h = refl
not_sealed-IsResting stream individual_files n (x ∷ xs) is_chunk h = absurd (ground arith)
not_sealed-IsResting stream (chunked target) n held is_chunk h = inr is_chunk

module _ {Fault : Type 0} (storage : Storage Fault) (stream : Text) (layout : StateStreamLayout)
    (start : ℕ) where
  Written-publication :
      (groups : List (List EncodedStateRecord)) (g : List EncodedStateRecord) (t : List Call)
      → Written storage layout start groups t
      → IsChunk layout g
      → Written storage layout start
          (groups ++ g ∷ [])
          (publication storage (chunk_of (start + length groups) g) (payload g) t)
  Written-publication groups g t (files, facts, chunks) is_chunk =
      let n = start + length groups in
      (
        published-publication storage (chunk_of n g) (payload g) t
            ∙ ap (λ (p : List (FileName × Bytes)). p ++ (chunk_filename n, payload g) ∷ []) files
            ∙ sym (numbered-append start groups g),
        prepared-publication storage (chunk_of n g) (payload g) t
            ∙ ap (λ (p : List ChunkMetadata). p ++ descriptor storage (chunk_of n g) ∷ []) facts
            ∙ sym (described-append storage start groups g),
        All-append (IsChunk layout) groups (g ∷ []) chunks (is_chunk, tt),
      )

  flush-held :
      (n : ℕ) (x : EncodedStateRecord) (xs : List EncodedStateRecord) (t : List Call)
      (s : StateStreamSink) (u : List Call)
      → Yields (flush storage (sink_of stream layout n (x ∷ xs))) t s u
      → (s ≡ sink_of stream layout (n + 1) [])
        × (u ≡ publication storage (chunk_of n (x ∷ xs)) (payload (x ∷ xs)) t)
  unfolding flush
  flush-held n x xs t s u h =
      let sink = sink_of stream layout n (x ∷ xs) in
      let emptied = record sink { active = none; buffer = [] } in
      let (a, v, sealed, rest) =
        >>=-Yields (seal storage (chunk_of n (x ∷ xs)) sink.buffer) (λ _. pure emptied) t s u h in
      let traced = seal-Yields storage (chunk_of n (x ∷ xs)) sink.buffer t v sealed in
      let (same, ended) = pure-Yields emptied v s u rest in (same, ended ∙ traced)

  -- A flush publishes what was held back, and nothing stays back.
  pub flush-Stands :
      (groups : List (List EncodedStateRecord)) (held : List EncodedStateRecord) (t : List Call)
      (s : StateStreamSink) (u : List Call)
      → Written storage layout start groups t
      → IsFlushable layout held
      → Yields (flush storage (sink_of stream layout (start + length groups) held)) t s u
      → (after : List (List EncodedStateRecord)) × Stands storage stream layout start after [] s u
        × (flatten after ≡ flatten groups ++ held)
  unfolding flush
  flush-Stands groups [] t s u written flushable h =
      let (same, ended) = pure-Yields (sink_of stream layout (start + length groups) []) t s u h in
      (
        groups,
        (
          same,
          subst (Written storage layout start groups) (sym ended) written,
          empty-IsResting layout,
        ),
        sym (append-nil (flatten groups)),
      )
  flush-Stands groups (x ∷ xs) t s u written flushable h =
      let n = start + length groups in
      let (same, ended) = flush-held n x xs t s u h in
      let counted : n + 1 ≡ start + length (groups ++ (x ∷ xs) ∷ []) =
        omega (arith, length-append groups ((x ∷ xs) ∷ [])) in
      let more =
        Written-publication groups (x ∷ xs) t written (cons-IsChunk layout x xs flushable) in
      (
        groups ++ (x ∷ xs) ∷ [],
        (
          same ∙ ap (λ m. sink_of stream layout m []) counted,
          subst (Written storage layout start (groups ++ (x ∷ xs) ∷ [])) (sym ended) more,
          empty-IsResting layout,
        ),
        flatten-append groups (x ∷ xs),
      )

  -- What a step of the sink leaves, `given` being all records it had up to then.
  abbrev pub Keeps : List EncodedStateRecord → StateStreamSink → List Call → Type 0
  Keeps given s u =
      (groups : List (List EncodedStateRecord)) × (held : List EncodedStateRecord) × Stands storage
        stream layout start groups held s u
      × (flatten groups ++ held ≡ given)

  roll_over-cases :
      (r : EncodedStateRecord) (sink : StateStreamSink) (t : List Call) (s : StateStreamSink)
      (u : List Call)
      → Yields (roll_over storage r sink) t s u
      → Yields (flush storage sink) t s u
        ⊎ (is_full sink.layout (len r) sink.active ≡ false) × (s ≡ sink) × (u ≡ t)
  unfolding roll_over
  roll_over-cases r sink t s u h = elim (Bool-cases (is_full sink.layout (len r) sink.active)) [
    | inl full ↦ inl (ground arith)
    | inr room ↦
        let unchanged : Yields {E = PersistenceError Fault} (pure sink) t s u = ground arith in
        let (same, ended) = pure-Yields sink t s u unchanged in inr (room, same, ended)
  ]

  seal_full-cases :
      (sink : StateStreamSink) (t : List Call) (s : StateStreamSink) (u : List Call)
      → Yields (seal_full storage sink) t s u
      → Yields (flush storage sink) t s u
        ⊎ (should_seal sink.layout sink.active ≡ false) × (s ≡ sink) × (u ≡ t)
  unfolding seal_full
  seal_full-cases sink t s u h = elim (Bool-cases (should_seal sink.layout sink.active)) [
    | inl full ↦ inl (ground arith)
    | inr open_still ↦
        let unchanged : Yields {E = PersistenceError Fault} (pure sink) t s u = ground arith in
        let (same, ended) = pure-Yields sink t s u unchanged in inr (open_still, same, ended)
  ]

  pub roll_over-Keeps :
      (r : EncodedStateRecord) (groups : List (List EncodedStateRecord))
      (held : List EncodedStateRecord) (t : List Call) (s : StateStreamSink) (u : List Call)
      → Written storage layout start groups t
      → IsResting layout held
      → Yields (roll_over storage r (sink_of stream layout (start + length groups) held)) t s u
      → (after : List (List EncodedStateRecord)) × (kept : List EncodedStateRecord) × Stands storage
          stream layout start after kept s u
        × (flatten after ++ kept ≡ flatten groups ++ held)
        × HasRoom layout kept r
  roll_over-Keeps r groups held t s u written resting h =
      let sink = sink_of stream layout (start + length groups) held in
      elim (roll_over-cases r sink t s u h) [
        | inl flushed ↦
            let (after, stands, same) =
              flush-Stands groups held t s u written (resting-IsFlushable layout held resting)
                flushed in
            (after, [], stands, append-nil (flatten after) ∙ same, empty-HasRoom layout r)
        | inr (room, same, unchanged) ↦ (
          groups,
          held,
          (same, subst (Written storage layout start groups) (sym unchanged) written, resting),
          refl,
          not_full-HasRoom stream layout (start + length groups) held r resting room,
        )
      ]

  pub seal_full-Keeps :
      (groups : List (List EncodedStateRecord)) (held : List EncodedStateRecord) (t : List Call)
      (s : StateStreamSink) (u : List Call)
      → Written storage layout start groups t
      → IsChunk layout held
      → Yields (seal_full storage (sink_of stream layout (start + length groups) held)) t s u
      → Keeps (flatten groups ++ held) s u
  seal_full-Keeps groups held t s u written is_chunk h =
      let sink = sink_of stream layout (start + length groups) held in
      elim (seal_full-cases sink t s u h) [
        | inl flushed ↦
            let (after, stands, same) =
              flush-Stands groups held t s u written (inr is_chunk) flushed in
            (after, [], stands, append-nil (flatten after) ∙ same)
        | inr (room, same, unchanged) ↦ (
          groups,
          held,
          (
            same,
            subst (Written storage layout start groups) (sym unchanged) written,
            not_sealed-IsResting stream layout (start + length groups) held is_chunk room,
          ),
          refl,
        )
      ]
