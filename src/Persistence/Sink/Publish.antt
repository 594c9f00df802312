-- ===== src/Persistence/Sink/Publish.antt =====
-- What a publication by `seal` of rust/src/persistence/local/queued_state_writer.rs leaves on the
-- trace.
use scientific_workflow.Prelude.{
  ℕ, ◌≡◌, refl, subst, inl, inr, Bool, true, Bool-cases, List, [], ◌∷◌, ◌++◌, length, ◌==◌,
  if◌then◌else◌, Result-cases, arith,
}
use scientific_workflow.Prelude.Runs.{◌>>◌, pure, fail, Yields, >>=-Yields}
use scientific_workflow.Persistence.Records.{Bytes, PersistenceError, debug_assertion}
use scientific_workflow.Persistence.Sink.{
  Writing, FileName, chunk_filename, chunk_temp_filename, Call, create_file, sync_file, write_all,
  sync_directory, prepare_chunk, rename, Storage, BufferedChunkState, call, descriptor, absent,
  seal,
}
use scientific_workflow.Persistence.Sink.Chunks.{published, prepared}

-- The trace of a publication on top of the trace before it.
abbrev pub publication :
    {Fault : Type 0} → Storage Fault → BufferedChunkState → Bytes → List Call → List Call
unfolding descriptor
publication storage c bytes t =
    let temp = chunk_temp_filename c.ordinal in
    sync_directory
    ∷ rename temp (chunk_filename c.ordinal)
    ∷ prepare_chunk (descriptor storage c)
    ∷ sync_directory
    ∷ sync_file temp
    ∷ write_all temp bytes
    ∷ create_file temp
    ∷ t

module _ {Fault : Type 0} (storage : Storage Fault) where
  pub call-Yields :
      (c : Call) (t : List Call) (a : Unit {0}) (u : List Call)
      → Yields (call storage c) t a u
      → u ≡ c ∷ t
  unfolding call
  call-Yields c t a u h = elim (Result-cases (storage.reply c t)) [
    | inl (x, e) ↦ ground arith
    | inr (x, e) ↦ ground arith
  ]

  pub absent-Yields :
      (name : FileName) (t : List Call) (a : Unit {0}) (u : List Call)
      → Yields (absent storage name) t a u
      → u ≡ t
  absent-Yields name t a u h = elim (Bool-cases (storage.exists name t)) [
    | inl e ↦ ground arith
    | inr e ↦ ground arith
  ]

  -- A program that starts with a call, with a test for a file, or with a guard.
  pub then_call :
      {A : Type 0} (c : Call) (k : Writing Fault A) (t : List Call) (b : A) (u : List Call)
      → Yields (call storage c >> k) t b u
      → Yields k (c ∷ t) b u
  then_call c k t b u h =
      let (a, v, ran, rest) = >>=-Yields (call storage c) (λ _. k) t b u h in
      subst (λ w. Yields k w b u) (call-Yields c t a v ran) rest

  pub then_absent :
      {A : Type 0} (name : FileName) (k : Writing Fault A) (t : List Call) (b : A) (u : List Call)
      → Yields (absent storage name >> k) t b u
      → Yields k t b u
  then_absent name k t b u h =
      let (a, v, ran, rest) = >>=-Yields (absent storage name) (λ _. k) t b u h in
      subst (λ w. Yields k w b u) (absent-Yields name t a v ran) rest

  pub then_guard :
      {A : Type 0} (test : Bool) (e : PersistenceError Fault) (k : Writing Fault A) (t : List Call)
      (b : A) (u : List Call)
      → Yields ((if test then pure tt else fail e) >> k) t b u
      → Yields k t b u
  then_guard test e k t b u h = elim (Bool-cases test) [
    | inl on ↦ ground arith
    | inr off ↦ absurd (ground arith)
  ]

  pub seal-Yields :
      (c : BufferedChunkState) (bytes : Bytes) (t : List Call) (u : List Call)
      → Yields (seal storage c bytes) t tt u
      → u ≡ publication storage c bytes t
  unfolding seal descriptor
  seal-Yields c bytes t u h =
      let temp = chunk_temp_filename c.ordinal in
      let Step : Type 0 = Writing Fault (Unit {0}) in
      let shown : Step = call storage sync_directory in
      let renamed : Step = call storage (rename temp (chunk_filename c.ordinal)) >> shown in
      let known : Step = call storage (prepare_chunk (descriptor storage c)) >> renamed in
      let safe : Step = call storage sync_directory >> known in
      let synced : Step = call storage (sync_file temp) >> safe in
      let written : Step = call storage (write_all temp bytes) >> synced in
      let created : Step = call storage (create_file temp) >> written in
      let guarded : Step = absent storage (chunk_filename c.ordinal) >> created in
      let t1 = create_file temp ∷ t in
      let t2 = write_all temp bytes ∷ t1 in
      let t3 = sync_file temp ∷ t2 in
      let t4 = sync_directory ∷ t3 in
      let t5 = prepare_chunk (descriptor storage c) ∷ t4 in
      let t6 = rename temp (chunk_filename c.ordinal) ∷ t5 in
      let h0 =
        then_absent (chunk_filename c.ordinal) created t tt u
          (then_guard (c.bytes == length bytes) debug_assertion guarded t tt u h) in
      let h2 =
        then_call (write_all temp bytes) synced t1 tt u
          (then_call (create_file temp) written t tt u h0) in
      let h4 =
        then_call sync_directory known t3 tt u (then_call (sync_file temp) safe t2 tt u h2) in
      let h6 =
        then_call (rename temp (chunk_filename c.ordinal)) shown t5 tt u
          (then_call (prepare_chunk (descriptor storage c)) renamed t4 tt u h4) in
      call-Yields sync_directory t6 tt u h6

pub ==-refl : (n : ℕ) → (n == n) ≡ true
==-refl n = ground arith

pub published-publication :
    {Fault : Type 0} (storage : Storage Fault) (c : BufferedChunkState) (bytes : Bytes)
    (t : List Call)
    → published (publication storage c bytes t)
      ≡ published t ++ (chunk_filename c.ordinal, bytes) ∷ []
unfolding publication
published-publication storage c bytes t = rw (==-refl c.ordinal)

pub prepared-publication :
    {Fault : Type 0} (storage : Storage Fault) (c : BufferedChunkState) (bytes : Bytes)
    (t : List Call)
    → prepared (publication storage c bytes t) ≡ prepared t ++ descriptor storage c ∷ []
unfolding publication
prepared-publication storage c bytes t = refl
