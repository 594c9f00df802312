-- ===== src/Persistence/Sink/Content.antt =====
-- What the sink of rust/src/persistence/local/queued_state_writer.rs has published and what it
-- holds back, in terms of the records it was given.
use scientific_workflow.Prelude.{
  ℕ, ◌+◌, ◌≤◌, ◌≡◌, refl, sym, ap, ◌∙◌, subst, ◌⊎◌, inl, inr, ◌&&◌, Bool-cases, none, some, List,
  [], ◌∷◌, ◌++◌, length, length-append, ltb, ok, Result-cases, arith,
}
use scientific_workflow.Prelude.Texts.{Text}
use mathlib.Core.List.{append-nil}
use scientific_workflow.Persistence.Records.{Bytes, EncodedStateRecord, u64_bound, len}
use scientific_workflow.Persistence.Sink.{
  StateStreamLayout, chunked, individual_files, BufferedChunkState, StateStreamSink, new_chunk,
  append_chunk, open_chunk, extend,
}
use scientific_workflow.Persistence.Sink.Chunks.{
  payload, last, IsChunk, chunk_of, payload-append, last-append,
}

-- The sink that holds back the records `held`, its held chunk having the ordinal `n`.
abbrev pub sink_of : Text → StateStreamLayout → ℕ → List EncodedStateRecord → StateStreamSink
sink_of stream layout n [] = record {
  stream = stream;
  layout = layout;
  next_ordinal = n;
  buffer = [];
  active = none;
}
sink_of stream layout n (r ∷ records) = record {
  stream = stream;
  layout = layout;
  next_ordinal = n + 1;
  buffer = payload (r ∷ records);
  active = some (chunk_of n (r ∷ records));
}

-- The records that a sink may hold back between two calls.
abbrev pub IsResting : StateStreamLayout → List EncodedStateRecord → Type 0
IsResting individual_files held = held ≡ []
IsResting (chunked target) held = (held ≡ []) ⊎ IsChunk (chunked target) held

-- The chunk that stays held takes the record `r`.
abbrev pub HasRoom : StateStreamLayout → List EncodedStateRecord → EncodedStateRecord → Type 0
HasRoom individual_files held r = held ≡ []
HasRoom (chunked target) held r = (held ≡ []) ⊎ (length (payload held) + len r ≤ target)

pub payload-snoc :
    (xs : List EncodedStateRecord) (r : EncodedStateRecord)
    → payload (xs ++ r ∷ []) ≡ payload xs ++ r.bytes
payload-snoc xs r =
    payload-append xs (r ∷ []) ∙ ap (λ (b : Bytes). payload xs ++ b) (append-nil r.bytes)

-- A chunk that took one record more.
abbrev pub grown : EncodedStateRecord → BufferedChunkState → BufferedChunkState
grown r c = record c {
  hasher = c.hasher ++ r.bytes;
  bytes = c.bytes + len r;
  records = c.records + 1;
  last_iteration = r.iteration;
}

chunk_of-grown :
    (n : ℕ) (x : EncodedStateRecord) (xs : List EncodedStateRecord) (r : EncodedStateRecord)
    → grown r (chunk_of n (x ∷ xs)) ≡ chunk_of n (x ∷ xs ++ r ∷ [])
chunk_of-grown n x xs r =
    let chunk : Bytes → ℕ → ℕ → ℕ → BufferedChunkState = λ hasher records bytes last_iteration.
      record {
        ordinal = n;
        hasher = hasher;
        records = records;
        bytes = bytes;
        first_iteration = x.iteration;
        last_iteration = last_iteration;
      } in
    let hashed = sym (payload-snoc (x ∷ xs) r) in
    let counted : length (x ∷ xs) + 1 ≡ length (x ∷ xs ++ r ∷ []) =
      sym (length-append (x ∷ xs) (r ∷ [])) in
    let sized : length (payload (x ∷ xs)) + len r ≡ length (payload (x ∷ xs ++ r ∷ [])) =
      sym (length-append (payload (x ∷ xs)) r.bytes) ∙ ap length hashed in
    let ended : r.iteration ≡ last (x ∷ xs ++ r ∷ []) = sym (last-append (x ∷ xs) r) in
    ap (λ h. chunk h (length (x ∷ xs) + 1) (length (payload (x ∷ xs)) + len r) r.iteration) hashed
    ∙ ap (λ k. chunk (payload (x ∷ xs ++ r ∷ [])) k (length (payload (x ∷ xs)) + len r) r.iteration)
        counted
    ∙ ap (λ b. chunk (payload (x ∷ xs ++ r ∷ [])) (length (x ∷ xs ++ r ∷ [])) b r.iteration) sized
    ∙ ap
        (chunk (payload (x ∷ xs ++ r ∷ [])) (length (x ∷ xs ++ r ∷ []))
          (length (payload (x ∷ xs ++ r ∷ []))))
        ended

pub filled-IsChunk :
    (layout : StateStreamLayout) (held : List EncodedStateRecord) (r : EncodedStateRecord)
    → HasRoom layout held r
    → IsChunk layout (held ++ r ∷ [])
filled-IsChunk individual_files held r h =
    subst (λ (o : List EncodedStateRecord). length (o ++ r ∷ []) ≡ 1) (sym h) refl
filled-IsChunk (chunked target) held r (inl h) =
    subst (λ (o : List EncodedStateRecord). IsChunk (chunked target) (o ++ r ∷ [])) (sym h)
      (omega arith, inl refl)
filled-IsChunk (chunked target) held r (inr h) =
    let counted : length (held ++ r ∷ []) ≡ length held + 1 = length-append held (r ∷ []) in
    let bytes : length (payload (held ++ r ∷ [])) ≡ length (payload held) + len r =
      ap length (payload-snoc held r) ∙ length-append (payload held) r.bytes in
    (omega arith, inr (omega arith))

module _ {Fault : Type 0} where
  open_chunk-cases :
      (stream : Text) (layout : StateStreamLayout) (n : ℕ) (r : EncodedStateRecord)
      (opened : StateStreamSink)
      → open_chunk {Fault = Fault} r (sink_of stream layout n []) ≡ ok opened
      → opened ≡ (record (sink_of stream layout n []) {
        active = some (new_chunk n r.iteration);
        next_ordinal = n + 1;
      })
  unfolding open_chunk new_chunk
  open_chunk-cases stream layout n r opened h = elim (Bool-cases (ltb (n + 1) u64_bound)) [
    | inl e ↦ ground arith
    | inr e ↦ absurd (ground arith)
  ]

  open_chunk-some :
      (r : EncodedStateRecord) (c : BufferedChunkState) (s opened : StateStreamSink)
      → open_chunk {Fault = Fault} r (record s { active = some c }) ≡ ok opened
      → opened ≡ (record s { active = some c })
  unfolding open_chunk
  open_chunk-some r c s opened h = ground arith

  append_chunk-cases :
      (stream : Text) (r : EncodedStateRecord) (c d : BufferedChunkState)
      → append_chunk {Fault = Fault} stream r c ≡ ok d
      → d ≡ grown r c
  unfolding append_chunk
  append_chunk-cases stream r c d h =
      elim (Bool-cases (ltb (c.bytes + len r) u64_bound && ltb (c.records + 1) u64_bound)) [
        | inl e ↦ ground arith
        | inr e ↦ absurd (ground arith)
      ]

  extend-some :
      (r : EncodedStateRecord) (c : BufferedChunkState) (s extended : StateStreamSink)
      → extend {Fault = Fault} r (record s { active = some c }) ≡ ok extended
      → extended ≡ (record s { active = some (grown r c); buffer = s.buffer ++ r.bytes })
  unfolding extend
  extend-some r c s extended h = elim (Result-cases (append_chunk {Fault = Fault} s.stream r c)) [
    | inl (d, e) ↦ let is_grown = append_chunk-cases s.stream r c d e in ground arith
    | inr (e, failed) ↦ absurd (ground arith)
  ]

  -- An open chunk that takes `r` is again the chunk of its records.
  pub fill-lem :
      (stream : Text) (layout : StateStreamLayout) (n : ℕ) (held : List EncodedStateRecord)
      (r : EncodedStateRecord) (opened extended : StateStreamSink)
      → open_chunk {Fault = Fault} r (sink_of stream layout n held) ≡ ok opened
      → extend {Fault = Fault} r opened ≡ ok extended
      → extended ≡ sink_of stream layout n (held ++ r ∷ [])
  unfolding new_chunk
  fill-lem stream layout n [] r opened extended h g =
      let empty = record (sink_of stream layout n []) { next_ordinal = n + 1 } in
      let is_extended = extend-some r (new_chunk n r.iteration) empty extended (
        subst (λ s. extend {Fault = Fault} r s ≡ ok extended)
          (open_chunk-cases stream layout n r opened h) g) in
      let filled : Bytes → ℕ → ℕ → StateStreamSink = λ b size count. record empty {
        buffer = b;
        active =
            some (record (new_chunk n r.iteration) { hasher = b; bytes = size; records = count });
      } in
      let size : 0 + len r ≡ len r = omega arith in
      let count : 0 + 1 ≡ 1 = omega arith in
      is_extended
      ∙ ap (λ k. filled r.bytes k (0 + 1)) size
      ∙ ap (filled r.bytes (len r)) count
      ∙ ap (λ b. filled b (length b) 1) (sym (append-nil r.bytes))
  fill-lem stream layout n (x ∷ xs) r opened extended h g =
      let sink = sink_of stream layout n (x ∷ xs) in
      let kept : opened ≡ sink = open_chunk-some r (chunk_of n (x ∷ xs)) sink opened h in
      let is_extended =
        extend-some r (chunk_of n (x ∷ xs)) sink extended
          (subst (λ s. extend {Fault = Fault} r s ≡ ok extended) kept g) in
      let filled : Bytes → BufferedChunkState → StateStreamSink =
        λ b c. record sink { buffer = b; active = some c } in
      is_extended
      ∙ ap (λ b. filled b (grown r (chunk_of n (x ∷ xs)))) (sym (payload-snoc (x ∷ xs) r))
      ∙ ap (filled (payload (x ∷ xs ++ r ∷ []))) (chunk_of-grown n x xs r)
