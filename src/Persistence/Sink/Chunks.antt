-- ===== src/Persistence/Sink/Chunks.antt =====
-- What chunks a stream's records may be gathered in, apart from how
-- rust/src/persistence/local/queued_state_writer.rs counts them.
use scientific_workflow.Prelude.{
  ℕ, suc, ◌+◌, ◌≤◌, ◌<◌, ◌≡◌, refl, sym, ap, ◌∙◌, ◌⊎◌, Bool, false, ◌==◌, if◌then◌else◌, List, [],
  ◌∷◌, ◌++◌, length, arith,
}
use mathlib.Core.List.{append_assoc, append-nil}
use scientific_workflow.Persistence.Records.{Bytes, EncodedStateRecord}
use scientific_workflow.Persistence.Sink.{
  StateStreamLayout, chunked, individual_files, FileName, chunk_filename, chunk_temp_filename,
  ChunkMetadata, Call, create_file, sync_file, write_all, sync_directory, prepare_chunk, rename,
  Storage, BufferedChunkState, descriptor,
}

abbrev pub payload : List EncodedStateRecord → Bytes
payload [] = []
payload (r ∷ records) = r.bytes ++ payload records

abbrev pub first : List EncodedStateRecord → ℕ
first [] = 0
first (r ∷ records) = r.iteration

abbrev pub last : List EncodedStateRecord → ℕ
last [] = 0
last (r ∷ []) = r.iteration
last (r ∷ s ∷ records) = last (s ∷ records)

abbrev pub flatten : List (List EncodedStateRecord) → List EncodedStateRecord
flatten [] = []
flatten (g ∷ groups) = g ++ flatten groups

-- A chunk that may be published: of one record, or within the target.
abbrev pub IsChunk : StateStreamLayout → List EncodedStateRecord → Type 0
IsChunk individual_files g = length g ≡ 1
IsChunk (chunked target) g = (0 < length g) × ((length g ≡ 1) ⊎ (length (payload g) ≤ target))

abbrev pub chunk_of : ℕ → List EncodedStateRecord → BufferedChunkState
chunk_of ordinal g = record {
  ordinal = ordinal;
  hasher = payload g;
  records = length g;
  bytes = length (payload g);
  first_iteration = first g;
  last_iteration = last g;
}

abbrev pub numbered : ℕ → List (List EncodedStateRecord) → List (FileName × Bytes)
numbered start [] = []
numbered start (g ∷ groups) = (chunk_filename start, payload g) ∷ numbered (start + 1) groups

abbrev pub described :
    {Fault : Type 0} → Storage Fault → ℕ → List (List EncodedStateRecord) → List ChunkMetadata
unfolding descriptor
described storage start [] = []
described storage start (g ∷ groups) =
    descriptor storage (chunk_of start g) ∷ described storage (start + 1) groups

-- The files that a trace leaves: a rename publishes what was last written under the old name.
abbrev pub same_name : FileName → FileName → Bool
same_name (chunk_filename a) (chunk_filename b) = a == b
same_name (chunk_temp_filename a) (chunk_temp_filename b) = a == b
same_name (chunk_filename a) (chunk_temp_filename b) = false
same_name (chunk_temp_filename a) (chunk_filename b) = false

abbrev pub contents : FileName → List Call → Bytes
contents name [] = []
contents name (create_file m ∷ t) = contents name t
contents name (sync_file m ∷ t) = contents name t
contents name (write_all m bytes ∷ t) = if same_name name m then bytes else contents name t
contents name (sync_directory ∷ t) = contents name t
contents name (prepare_chunk d ∷ t) = contents name t
contents name (rename from to ∷ t) = contents name t

abbrev pub published : List Call → List (FileName × Bytes)
published [] = []
published (create_file m ∷ t) = published t
published (sync_file m ∷ t) = published t
published (write_all m bytes ∷ t) = published t
published (sync_directory ∷ t) = published t
published (prepare_chunk d ∷ t) = published t
published (rename from to ∷ t) = published t ++ (to, contents from t) ∷ []

abbrev pub prepared : List Call → List ChunkMetadata
prepared [] = []
prepared (create_file m ∷ t) = prepared t
prepared (sync_file m ∷ t) = prepared t
prepared (write_all m bytes ∷ t) = prepared t
prepared (sync_directory ∷ t) = prepared t
prepared (prepare_chunk d ∷ t) = prepared t ++ d ∷ []
prepared (rename from to ∷ t) = prepared t

pub payload-append :
    (xs ys : List EncodedStateRecord) → payload (xs ++ ys) ≡ payload xs ++ payload ys
payload-append [] ys = refl
payload-append (x ∷ xs) ys =
    ap (λ p. x.bytes ++ p) (payload-append xs ys)
    ∙ sym (append_assoc x.bytes (payload xs) (payload ys))

pub last-append :
    (xs : List EncodedStateRecord) (r : EncodedStateRecord) → last (xs ++ r ∷ []) ≡ r.iteration
last-append [] r = refl
last-append (x ∷ []) r = refl
last-append (x ∷ y ∷ xs) r = last-append (y ∷ xs) r

pub flatten-append :
    (groups : List (List EncodedStateRecord)) (g : List EncodedStateRecord)
    → flatten (groups ++ g ∷ []) ≡ flatten groups ++ g
flatten-append [] g = append-nil g
flatten-append (x ∷ groups) g =
    ap (λ p. x ++ p) (flatten-append groups g) ∙ sym (append_assoc x (flatten groups) g)

pub numbered-append :
    (start : ℕ) (groups : List (List EncodedStateRecord)) (g : List EncodedStateRecord)
    → numbered start (groups ++ g ∷ [])
      ≡ numbered start groups ++ (chunk_filename (start + length groups), payload g) ∷ []
numbered-append start [] g = ground arith
numbered-append start (x ∷ groups) g =
    let ih = numbered-append (start + 1) groups g in
    let shift : (start + 1) + length groups ≡ start + suc (length groups) = omega arith in
    ap (λ p. (chunk_filename start, payload x) ∷ p)
      (ih ∙ ap (λ n. numbered (start + 1) groups ++ (chunk_filename n, payload g) ∷ []) shift)

pub described-append :
    {Fault : Type 0} (storage : Storage Fault) (start : ℕ) (groups : List (List EncodedStateRecord))
    (g : List EncodedStateRecord)
    → described storage start (groups ++ g ∷ [])
      ≡ described storage start groups
        ++ descriptor storage (chunk_of (start + length groups) g) ∷ []
unfolding descriptor
described-append storage start [] g = ground arith
described-append storage start (x ∷ groups) g =
    let ih = described-append storage (start + 1) groups g in
    let shift : (start + 1) + length groups ≡ start + suc (length groups) = omega arith in
    ap (λ p. descriptor storage (chunk_of start x) ∷ p)
      (ih
        ∙ ap (λ n. described storage (start + 1) groups ++ descriptor storage (chunk_of n g) ∷ [])
            shift)
