-- ===== src/Persistence/Sink.antt =====
-- `StateStreamSink` and `BufferedChunkState` of
-- rust/src/persistence/local/queued_state_writer.rs: how the worker gathers a stream's records
-- into chunks and publishes each with one write, a descriptor and a rename. The file system and
-- the manifest answer by the calls that they have had. The texts of the two file names of a chunk
-- are kept as constructors.
pub mod Chunks
pub mod Publish
pub mod Content
pub mod Lossless
pub mod Stream
pub mod Tests
use scientific_workflow.Prelude.{
  ℕ, ◌+◌, Bool, true, false, not, ◌&&◌, ◌||◌, Option, none, some, is_none, ltb, leb, ◌==◌,
  if◌then◌else◌, Result, ok, err, List, [], ◌∷◌, ◌++◌, length,
}
use scientific_workflow.Prelude.Texts.{Text}
use scientific_workflow.Prelude.Runs.{Run, ◌>>=◌, ◌>>◌, pure, fail}
use scientific_workflow.Persistence.Records.{
  Bytes, EncodedStateRecord, PersistenceError, byte_count_overflow, recording_directory_exists,
  debug_assertion, fault, u64_bound, len,
}

pub data StateStreamLayout : Type 0 where
  chunked : (target_bytes : ℕ) → StateStreamLayout
  individual_files : StateStreamLayout

pub data FileName : Type 0 where
  chunk_filename chunk_temp_filename : (ordinal : ℕ) → FileName

pub record ChunkMetadata : Type 0 where
  pub ordinal : ℕ
  pub file : FileName
  pub records : ℕ
  pub bytes : ℕ
  pub checksum : Text
  pub first_iteration : ℕ
  pub last_iteration : ℕ

-- The calls of one stream; the directory is always the stream's.
pub data Call : Type 0 where
  create_file sync_file : FileName → Call
  write_all : FileName → Bytes → Call
  sync_directory : Call
  prepare_chunk : ChunkMetadata → Call
  rename : (from to : FileName) → Call

-- What the file system and the manifest answer, and the checksum text of SHA-256.
pub record Storage (Fault : Type 0) : Type 0 where
  pub exists : FileName → List Call → Bool
  pub reply : Call → List Call → Result Fault (Unit {0})
  pub checksum_of : Bytes → Text

-- `hasher` is what the digest was fed.
pub record BufferedChunkState : Type 0 where
  pub ordinal : ℕ
  pub hasher : Bytes
  pub records : ℕ
  pub bytes : ℕ
  pub first_iteration : ℕ
  pub last_iteration : ℕ

pub record StateStreamSink : Type 0 where
  pub stream : Text
  pub layout : StateStreamLayout
  pub next_ordinal : ℕ
  pub buffer : Bytes
  pub active : Option BufferedChunkState

unfoldable pub new_sink : Text → StateStreamLayout → ℕ → StateStreamSink
new_sink stream layout next_ordinal = record {
  stream = stream;
  layout = layout;
  next_ordinal = next_ordinal;
  buffer = [];
  active = none;
}

unfoldable pub new_chunk : ℕ → ℕ → BufferedChunkState
new_chunk ordinal iteration = record {
  ordinal = ordinal;
  hasher = [];
  records = 0;
  bytes = 0;
  first_iteration = iteration;
  last_iteration = iteration;
}

-- The test before a record goes in: the chunk would grow past its target.
unfoldable pub is_full : StateStreamLayout → ℕ → Option BufferedChunkState → Bool
is_full individual_files bytes active = false
is_full (chunked target_bytes) bytes none = false
is_full (chunked target_bytes) bytes (some c) =
    ltb 0 c.records && (not (ltb (c.bytes + bytes) u64_bound) || ltb target_bytes (c.bytes + bytes))

-- The test after a record went in.
unfoldable pub should_seal : StateStreamLayout → Option BufferedChunkState → Bool
should_seal individual_files active = true
should_seal (chunked target_bytes) none = false
should_seal (chunked target_bytes) (some c) = leb target_bytes c.bytes

abbrev pub Writing : Type 0 → Type 0 → Type 0
Writing Fault A = Run Call (PersistenceError Fault) A

module _ {Fault : Type 0} where
  -- `BufferedChunkState::append`
  unfoldable pub append_chunk :
      Text
      → EncodedStateRecord
      → BufferedChunkState
      → Result (PersistenceError Fault) BufferedChunkState
  append_chunk stream r c =
      if ltb (c.bytes + len r) u64_bound && ltb (c.records + 1) u64_bound
      then ok (record c {
        hasher = c.hasher ++ r.bytes;
        bytes = c.bytes + len r;
        records = c.records + 1;
        last_iteration = r.iteration;
      })
      else err (byte_count_overflow stream)

  unfoldable pub open_chunk :
      EncodedStateRecord → StateStreamSink → Result (PersistenceError Fault) StateStreamSink
  unfolding new_chunk
  open_chunk r sink = elim sink.active [
    | some c ↦ ok sink
    | none ↦
        if ltb (sink.next_ordinal + 1) u64_bound
        then ok (record sink {
          active = some (new_chunk sink.next_ordinal r.iteration);
          next_ordinal = sink.next_ordinal + 1;
        })
        else err (byte_count_overflow sink.stream)
  ]

  -- The record's bytes go to the buffer and its facts to the chunk.
  unfoldable pub extend :
      EncodedStateRecord → StateStreamSink → Result (PersistenceError Fault) StateStreamSink
  unfolding append_chunk
  extend r sink = elim sink.active [
    | none ↦ err (debug_assertion)
    | some c ↦ elim (append_chunk sink.stream r c) [
      | err e ↦ err e
      | ok d ↦ ok (record sink { buffer = sink.buffer ++ r.bytes; active = some d })
    ]
  ]

  abbrev pub check : {A : Type 0} → Result (PersistenceError Fault) A → Writing Fault A
  check r t = (r, t)

module _ {Fault : Type 0} (storage : Storage Fault) where
  -- A call that fails is on the trace too.
  unfoldable pub call : Call → Writing Fault (Unit {0})
  call c t = elim (storage.reply c t) [ ok _ ↦ (ok tt, c ∷ t) | err e ↦ (err (fault e), c ∷ t) ]

  unfoldable pub descriptor : BufferedChunkState → ChunkMetadata
  descriptor c = record {
    ordinal = c.ordinal;
    file = chunk_filename c.ordinal;
    records = c.records;
    bytes = c.bytes;
    checksum = storage.checksum_of c.hasher;
    first_iteration = c.first_iteration;
    last_iteration = c.last_iteration;
  }

  abbrev pub absent : FileName → Writing Fault (Unit {0})
  absent name t = if storage.exists name t then (err recording_directory_exists, t) else (ok tt, t)

  unfoldable pub seal : BufferedChunkState → Bytes → Writing Fault (Unit {0})
  unfolding call descriptor
  seal c bytes = do
    if c.bytes == length bytes then pure tt else fail debug_assertion
    absent (chunk_filename c.ordinal)
    call (create_file (chunk_temp_filename c.ordinal))
    call (write_all (chunk_temp_filename c.ordinal) bytes)
    call (sync_file (chunk_temp_filename c.ordinal))
    call sync_directory
    call (prepare_chunk (descriptor c))
    call (rename (chunk_temp_filename c.ordinal) (chunk_filename c.ordinal))
    call sync_directory

  unfoldable pub flush : StateStreamSink → Writing Fault StateStreamSink
  unfolding seal
  flush sink = elim sink.active [
    | none ↦ pure sink
    | some c ↦ do seal c sink.buffer; pure (record sink { active = none; buffer = [] })
  ]

  unfoldable pub roll_over : EncodedStateRecord → StateStreamSink → Writing Fault StateStreamSink
  unfolding flush is_full
  roll_over r sink = if is_full sink.layout (len r) sink.active then flush sink else pure sink

  unfoldable pub seal_full : StateStreamSink → Writing Fault StateStreamSink
  unfolding flush should_seal
  seal_full sink = if should_seal sink.layout sink.active then flush sink else pure sink

  -- `StateStreamSink::append`
  unfoldable pub append : EncodedStateRecord → StateStreamSink → Writing Fault StateStreamSink
  unfolding roll_over open_chunk extend seal_full
  append r sink = do
    if ltb (len r) u64_bound then pure tt else fail (byte_count_overflow sink.stream)
    rolled ← roll_over r sink
    opened ← check (open_chunk r rolled)
    extended ← check (extend r opened)
    seal_full extended

  -- The worker's loop over the records of one stream, and the flush after it.
  unfoldable pub append_all :
      List EncodedStateRecord → StateStreamSink → Writing Fault StateStreamSink
  unfolding append
  append_all [] sink = pure sink
  append_all (r ∷ records) sink = do appended ← append r sink; append_all records appended

  unfoldable pub write_stream :
      List EncodedStateRecord → StateStreamSink → Writing Fault StateStreamSink
  unfolding append_all flush
  write_stream records sink = do written ← append_all records sink; flush written
