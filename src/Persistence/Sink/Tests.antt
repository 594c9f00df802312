-- ===== src/Persistence/Sink/Tests.antt =====
-- Small runs of the sink of rust/src/persistence/local/queued_state_writer.rs.
use scientific_workflow.Prelude.{◌≡◌, refl, false, List, [], ◌∷◌, All, Result, ok}
use scientific_workflow.Persistence.Records.{EncodedStateRecord, PersistenceError}
use scientific_workflow.Persistence.Sink.{
  chunked, chunk_filename, Call, Storage, StateStreamSink, new_sink, new_chunk, is_full,
  should_seal, append_chunk, open_chunk, extend, call, descriptor, seal, flush, roll_over,
  seal_full, append, append_all, write_stream,
}
use scientific_workflow.Persistence.Sink.Chunks.{
  IsChunk, flatten, numbered, described, published, prepared,
}
use scientific_workflow.Persistence.Sink.Stream.{write_stream-lossless}

abbrev willing : Storage (Unit {0})
willing = record { exists = λ name t. false; reply = λ c t. ok tt; checksum_of = λ b. [] }

abbrev three : List EncodedStateRecord
three =
    record { iteration = 1; bytes = 7 ∷ 7 ∷ [] }
    ∷ record { iteration = 4; bytes = 8 ∷ 8 ∷ [] }
    ∷ record { iteration = 9; bytes = 9 ∷ 9 ∷ [] }
    ∷ []

abbrev three_run : Result (PersistenceError (Unit {0})) StateStreamSink × List Call
three_run = write_stream willing three (new_sink [] (chunked 5) 2) []

files_of_three :
    published three_run.1
    ≡ (chunk_filename 2, 7 ∷ 7 ∷ 8 ∷ 8 ∷ []) ∷ (chunk_filename 3, 9 ∷ 9 ∷ []) ∷ []
unfolding write_stream append_all append roll_over seal_full flush seal call descriptor open_chunk
    extend append_chunk is_full should_seal new_sink new_chunk
files_of_three = refl

write_stream-lossless_example :
    (groups : List (List EncodedStateRecord)) × (flatten groups ≡ three)
    × (published three_run.1 ≡ numbered 2 groups)
    × (prepared three_run.1 ≡ described willing 2 groups)
    × All (IsChunk (chunked 5)) groups
unfolding write_stream append_all append roll_over seal_full flush seal call descriptor open_chunk
    extend append_chunk is_full should_seal new_sink new_chunk
write_stream-lossless_example =
    write_stream-lossless willing [] (chunked 5) 2 three
      (record (new_sink [] (chunked 5) 2) { next_ordinal = 4 }) three_run.1 refl
