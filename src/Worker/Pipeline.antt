-- ===== src/Worker/Pipeline.antt =====
-- worker.py: all chunks of a job delivered one after another, with calls that pass.
use markitdown_server.Prelude.{
  All-zip, All-map, ℕ, ◌≡◌, ◌≢◌, ◌⊎◌, refl, ap, ◌∙◌, inl, inr, false, some, List, [], ◌∷◌, arith,
  count_if, Text, All, length, ◌==◌, Bool-cases,
}
use markitdown_server.Prelude.Int.{pos}
use markitdown_server.Storage.{Bytes, Codec, found, get_part, put_part, part_key}
use markitdown_server.Storage.Bucket.{get-put_part}
use markitdown_server.Taskqueue.{TaskCodec, ChunkTask}
use markitdown_server.Tables.{Job, is_terminal, is_open, open_chunk}
use markitdown_server.Jobstore.{get_job, chunk_indices}
use markitdown_server.Jobstore.Invariant.{WellFormed}
use markitdown_server.Jobstore.Completing.{
  completed, completed-WellFormed, chunk_indices-completed, open-completed, open-completed_self,
  is_open-completed, completed-remaining, get_job-completed,
}
use markitdown_server.Action.{World, Action, ret, ◌>>◌}
use markitdown_server.Worker.{Config, Tools, handle, finish, on_task}
use markitdown_server.Worker.Passing.{Passing}
use markitdown_server.Worker.Converting.{HasSource, conversion}
use markitdown_server.Worker.Recording.{handle-records}

-- The deliveries of the tasks of a list, one after another.
abbrev pub handle_all : Config → Codec → TaskCodec → Tools → List ChunkTask → Action Unit
handle_all config codec tasks tools [] = ret tt
handle_all config codec tasks tools (t ∷ ts) =
    on_task config codec tasks tools t >> handle_all config codec tasks tools ts

-- The chunk of this index is that of a task of the list.
abbrev pub Awaits : ℕ → List ChunkTask → Type 0
Awaits i [] = ⊥
Awaits i (t ∷ ts) = (i ≡ t.chunk_index) ⊎ Awaits i ts

abbrev pub AreDistinct : List ChunkTask → Type 0
AreDistinct [] = Unit
AreDistinct (t ∷ ts) = All (λ u. u.chunk_index ≢ t.chunk_index) ts × AreDistinct ts

-- The chunk of this index is done, and its text is stored.
abbrev pub Stored : Codec → (ℕ → Text) → Text → Text → World → ℕ → Type 0
Stored codec texts id doc_key w i =
    (count_if (open_chunk id i) w.db.chunks ≡ 0)
    × (get_part codec doc_key i w.bucket ≡ found (texts i))

-- Between two deliveries: these tasks of the job are still to be handled, the chunks of the others are stored, and the
-- source's ranges convert to these texts.
pub record Underway (config : Config) (codec : Codec) (tools : Tools) (content : Bytes)
    (texts : ℕ → Text) (id doc_key file_hash : Text) (ts : List ChunkTask) (w : World)
    : Type 0 where
  pub fine : Passing w
  pub well : WellFormed w.db
  pub job : Job
  pub has_job : get_job id w.db ≡ some job
  pub active : is_terminal job.status ≡ false
  pub same_id : job.job_id ≡ id
  pub same_key : job.doc_key ≡ doc_key
  pub left : count_if (is_open id) w.db.chunks ≡ length ts
  pub each_open : All (λ t. count_if (open_chunk id t.chunk_index) w.db.chunks ≡ 1) ts
  pub distinct : AreDistinct ts
  pub own : All (λ t. (t.job_id ≡ id) × (t.doc_key ≡ doc_key) × (t.file_hash ≡ file_hash)) ts
  pub converts : All (λ t. conversion tools content t ≡ inl (texts t.chunk_index)) ts
  pub parts :
      All
        (λ i. (get_part codec doc_key i w.bucket ≡ found (texts i)) ⊎ Awaits i ts)
        (chunk_indices id w.db)
  pub source : HasSource config file_hash content w

module _ (config : Config) (codec : Codec) (tasks : TaskCodec) (tools : Tools) (content : Bytes)
    (texts : ℕ → Text) where
  pub part-put :
      (doc_key : Text) (t : ChunkTask) (ts : List ChunkTask) (b : List (Text × Bytes)) (i : ℕ)
      → (get_part codec doc_key i b ≡ found (texts i)) ⊎ Awaits i (t ∷ ts)
      → (get_part codec doc_key i (put_part codec doc_key t.chunk_index (texts t.chunk_index) b)
          ≡ found (texts i))
        ⊎ Awaits i ts
  part-put doc_key t ts b i h = elim (Bool-cases (i == t.chunk_index)) [
    | inl e ↦
        let same : i ≡ t.chunk_index = ground arith in
        inl
          (get-put_part codec doc_key i t.chunk_index (texts t.chunk_index) b ∙ (rw (e, same) refl))
    | inr e ↦ elim h [
      | inl there ↦
          inl (get-put_part codec doc_key i t.chunk_index (texts t.chunk_index) b ∙ (rw e there))
      | inr (inl same) ↦ absurd (ground arith)
      | inr (inr rest) ↦ inr rest
    ]
  ]

  pub part-put_stored :
      (doc_key : Text) (t : ChunkTask) (b : List (Text × Bytes)) (i : ℕ)
      → (i ≡ t.chunk_index) ⊎ (get_part codec doc_key i b ≡ found (texts i))
      → get_part codec doc_key i (put_part codec doc_key t.chunk_index (texts t.chunk_index) b)
        ≡ found (texts i)
  part-put_stored doc_key t b i h =
      let before : (get_part codec doc_key i b ≡ found (texts i)) ⊎ Awaits i (t ∷ []) = elim h [
        | inl same ↦ inr (inl same)
        | inr there ↦ inl there
      ] in
      elim (part-put doc_key t [] b i before) [
        | inl there ↦ there
        | inr none_left ↦ absurd none_left
      ]

  -- Handling the first task records its chunk, and is done but for what `finish` does with the number of tasks that are left.
  pub recorded :
      (t : ChunkTask) (ts : List ChunkTask) (w : World)
      → Underway config codec tools content texts t.job_id t.doc_key t.file_hash (t ∷ ts) w
      → (v : World) × (handle config codec tasks tools t w
          ≡ finish config codec tasks tools t (pos (length ts)) v)
        × Underway config codec tools content texts t.job_id t.doc_key t.file_hash ts v
        × (chunk_indices t.job_id v.db ≡ chunk_indices t.job_id w.db)
        × ((i : ℕ)
            → (i ≡ t.chunk_index) ⊎ Stored codec texts t.job_id t.doc_key w i
            → Stored codec texts t.job_id t.doc_key v i)
  recorded t ts w u =
      let (a, a', a'', n, c, same, file) =
        handle-records config codec tasks tools content t w u.fine u.source u.job
          (texts t.chunk_index) u.has_job u.active u.converts.0 in
      let done =
        completed t.job_id t.chunk_index config.consumer_name (part_key t.doc_key t.chunk_index)
          t.attempt a a' a'' w.db in
      let v = record w {
        db = done.1;
        bucket = put_part codec t.doc_key t.chunk_index (texts t.chunk_index) w.bucket;
        cache = c;
        calls = n;
      } in
      let indices =
        chunk_indices-completed t.job_id t.chunk_index config.consumer_name
          (part_key t.doc_key t.chunk_index) t.attempt a a' a'' w.db in
      let left : count_if (is_open t.job_id) done.1.chunks ≡ length ts = omega (
        arith,
        u.left,
        is_open-completed t.job_id t.chunk_index config.consumer_name
            (part_key t.doc_key t.chunk_index) t.attempt a a' a'' w.db u.well u.job u.has_job
            u.active u.each_open.0,
      ) in
      let (j, has_job, active, same_id, same_key) =
        get_job-completed t.job_id t.chunk_index config.consumer_name
          (part_key t.doc_key t.chunk_index) t.attempt a a' a'' w.db u.well u.job u.has_job u.active
          u.each_open.0 in
      (
        v,
        same
            ∙ ap (λ r. finish config codec tasks tools t r v)
                (completed-remaining t.job_id t.chunk_index config.consumer_name
                    (part_key t.doc_key t.chunk_index) t.attempt a a' a'' w.db u.well u.job
                    u.has_job u.active u.each_open.0
                  ∙ ap pos left),
        record {
          fine = u.fine;
          well =
              completed-WellFormed t.job_id t.chunk_index config.consumer_name
                (part_key t.doc_key t.chunk_index) t.attempt a a' a'' w.db u.well;
          job = j;
          has_job = has_job;
          active = active;
          same_id = same_id ∙ u.same_id;
          same_key = same_key ∙ u.same_key;
          left = left;
          each_open =
              All-zip ts
                (λ x ne one.
                  open-completed t.job_id t.chunk_index config.consumer_name
                    (part_key t.doc_key t.chunk_index) t.attempt a a' a'' w.db x.chunk_index ne
                  ∙ one)
                u.distinct.0 u.each_open.1;
          distinct = u.distinct.1;
          own = u.own.1;
          converts = u.converts.1;
          parts = rw indices (
              All-map (chunk_indices t.job_id w.db) (λ i h. part-put t.doc_key t ts w.bucket i h)
                u.parts);
          source = inl file;
        },
        indices,
        λ i h. (
          elim (Bool-cases (i == t.chunk_index)) [
            | inl e ↦
                let same : i ≡ t.chunk_index = ground arith in
                rw same (
                  open-completed_self t.job_id t.chunk_index config.consumer_name
                    (part_key t.doc_key t.chunk_index) t.attempt a a' a'' w.db)
            | inr e ↦
                open-completed t.job_id t.chunk_index config.consumer_name
                  (part_key t.doc_key t.chunk_index) t.attempt a a' a'' w.db i (ground arith)
                ∙ elim h [ inl same ↦ absurd (ground arith) | inr before ↦ before.0 ]
          ],
          part-put_stored t.doc_key t w.bucket i
              (elim h [ inl same ↦ inl same | inr before ↦ inr before.1 ]),
        ),
      )
