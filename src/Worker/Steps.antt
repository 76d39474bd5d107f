-- ===== src/Worker/Steps.antt =====
-- The calls that worker.py's `handle` makes, and relations that hold of each of them.
use markitdown_server.Prelude.{
  ℕ, ◌+◌, ◌≤◌, ◌≡◌, refl, inl, inr, Bool, true, false, Option, none, some, List, [], ◌∷◌, ◌++◌,
  if◌then◌else◌, leb, Text, Bool-cases, Option-cases, arith, length,
}
use markitdown_server.Prelude.Int.{ℤ, pos, negsuc, eq_ℤ}
use markitdown_server.Pagination.{paginate}
use markitdown_server.Storage.{Bytes, Codec, put_bytes, get_bytes, source_key, part_key, get_part}
use markitdown_server.Taskqueue.{TaskCodec, ChunkTask, publish_retry, publish_failed}
use markitdown_server.Cache.{Cache, CacheFile, cached, touch}
use markitdown_server.Tables.{Job, is_terminal}
use markitdown_server.Jobstore.{get_job, chunk_indices}
use markitdown_server.Jobstore.History.{
  Call, commit, complete, start_row, start_job, fail_row, reschedule, fail, record_doc,
}
use markitdown_server.Action.{Error, World, Action, ret, ◌>>=◌, statement}
use markitdown_server.Action.Moves.{
  read-Moves, or_raise-Moves, Closed, Moves, bind-Moves, try_except-Moves, call-Moves, ret-Moves,
  raise-Moves, publish_messages-Moves,
}
use markitdown_server.Worker.{
  Config, Tools, or_diverges, fetch_new, fetch_source, open_source, convert_range, put_object,
  fetch_parts, send_pages, assemble, handle_failure, convert_chunk, finish, assemble_found,
  handle_found, describe, markdown_of, not_subscriptable, record_chunk, handle_active, handle,
}

-- A relation that holds of each effect which a worker's call has while it handles a task.
pub record Steps (R : World → World → Type 0) (config : Config) (tasks : TaskCodec)
    (task : ChunkTask) : Type 0 where
  pub closed : Closed R
  pub on_statement : (c : Call) (t : ℕ) (w : World) → R w (record w { db = commit c t w.db })
  pub on_object :
      (key : Text) (body : Bytes) (w : World)
      → R w (record w { bucket = put_bytes key body w.bucket })
  pub on_cache : (files : Cache) (w : World) → R w (record w { cache = files })
  pub on_retry :
      task.attempt + 1 ≤ config.broker.max_attempts
      → (w : World)
      → R w (record w { published = w.published ++ publish_retry config.broker tasks task ∷ [] })
  pub on_failed :
      (error : Text)
      → config.broker.max_attempts ≤ task.attempt
      → (w : World)
      → R w (record w {
        published = w.published ++ publish_failed config.broker tasks task error ∷ [];
      })

module _ (R : World → World → Type 0) (config : Config) (codec : Codec) (tasks : TaskCodec)
    (tools : Tools) (task : ChunkTask) (steps : Steps R config tasks task) where
  open steps use {closed, on_statement, on_object, on_cache, on_retry, on_failed}
  open closed use {here}

  bind :
      {A B : Type 0} (m : Action A) (f : A → Action B)
      → Moves R m
      → ((a : A) → Moves R (f a))
      → Moves R (m >>= f)
  bind m f = bind-Moves R closed m f

  or_diverges-Moves : {A : Type 0} (r : Option A) → Moves R (or_diverges r)
  or_diverges-Moves none = record { behind = λ w. here w }
  or_diverges-Moves (some a) = record { behind = λ w. here w }

  commit-Moves : (c : Call) → Moves R (statement (commit c))
  commit-Moves c =
      call-Moves R closed (λ t w. (tt, record w { db = commit c t w.db }))
        (λ t w. on_statement c t w)

  fetch_new-Moves : (file_hash : Text) → Moves R (fetch_new config codec tasks tools file_hash)
  fetch_new-Moves file_hash =
      bind _ _
        (bind _ _ (read-Moves R closed (λ t w. get_bytes (source_key file_hash) w.bucket))
          (λ body. or_raise-Moves R closed _))
        (λ content. call-Moves R closed _ (λ t w. on_cache _ w))

  fetch_source-Moves :
      (file_hash : Text) → Moves R (fetch_source config codec tasks tools file_hash)
  unfolding fetch_source
  fetch_source-Moves file_hash = record { behind = λ w. by_cache w (cached file_hash w.cache) refl }
    where
      by_cache :
          (w : World) (o : Option CacheFile)
          → cached file_hash w.cache ≡ o
          → R w (fetch_source config codec tasks tools file_hash w).1
      by_cache w none e = rw (e, fetch_source) ((fetch_new-Moves file_hash).behind w)
      by_cache w (some f) e =
          rw (e, fetch_source)
            ((call-Moves R closed (λ t w'. (tt, record w' { cache = touch file_hash t w'.cache }))
                (λ t w'. on_cache (touch file_hash t w'.cache) w')).behind
              w)

  put_object-Moves : (key : Text) (body : Bytes) → Moves R (put_object key body)
  put_object-Moves key body =
      call-Moves R closed (λ t w. (tt, record w { bucket = put_bytes key body w.bucket }))
        (λ t w. on_object key body w)

  open_source-Moves : (file_hash : Text) → Moves R (open_source file_hash)
  open_source-Moves file_hash = record {
    behind = λ w. elim (Option-cases (cached file_hash w.cache)) [
      | inl e ↦ rw (e, open_source) (here w)
      | inr (f, e) ↦ rw (e, open_source) (here w)
    ];
  }

  convert_range-Moves :
      (file_hash : Text) (start : ℕ) (end : ℤ) (llm : Bool)
      → Moves R (convert_range config codec tasks tools file_hash start end llm)
  unfolding convert_range
  convert_range-Moves file_hash start end llm = bind _ _ (fetch_source-Moves file_hash) (λ _.
      bind _ _ (open_source-Moves file_hash) (λ source. elim (Bool-cases (eq_ℤ end (negsuc 0))) [
        | inl e ↦ rw e (or_raise-Moves R closed _)
        | inr e ↦ rw e (
            bind _ _ (or_raise-Moves R closed (tools.read_pages source))
              (λ pages. or_raise-Moves R closed _))
      ]))

  fetch_parts-Moves :
      (doc_key : Text) (indices : List ℕ)
      → Moves R (fetch_parts config codec tasks tools doc_key indices)
  unfolding fetch_parts
  fetch_parts-Moves doc_key [] = ret-Moves R closed []
  fetch_parts-Moves doc_key (index ∷ indices) =
      bind _ _ (read-Moves R closed (λ t w. get_part codec doc_key index w.bucket)) (λ part.
        bind _ _ (or_raise-Moves R closed _) (λ text.
          bind _ _ (fetch_parts-Moves doc_key indices) (λ rest. ret-Moves R closed (_ ∷ rest))))

  send_pages-Moves :
      (doc_key : Text) (index : ℕ) (pages : List Text)
      → Moves R (send_pages config codec tasks tools doc_key index pages)
  unfolding send_pages
  send_pages-Moves doc_key index [] = ret-Moves R closed tt
  send_pages-Moves doc_key index (page ∷ pages) =
      bind _ _ (put_object-Moves _ _) (λ _. send_pages-Moves doc_key (index + 1) pages)

  assemble-Moves : (job : Job) → Moves R (assemble config codec tasks tools job)
  unfolding assemble commit
  assemble-Moves job =
      bind _ _ (read-Moves R closed (λ t w. chunk_indices job.job_id w.db)) (λ indices.
        bind _ _ (fetch_parts-Moves job.doc_key indices) (λ parts.
          bind _ _ (or_diverges-Moves (paginate (markdown_of parts) config.page_size)) (λ pages.
            bind _ _ (bind _ _ (send_pages-Moves job.doc_key 1 pages) (λ _. put_object-Moves _ _))
              (λ _.
                bind _ _
                  (commit-Moves (
                    record_doc job.doc_key job.file_hash (length pages) job.total_chunks
                      (length (markdown_of parts)) config.page_size config.document_ttl_days))
                  (λ _. commit-Moves (Call.finish job.job_id))))))

  handle_failure-Moves : (e : Error) → Moves R (handle_failure config codec tasks tools task e)
  unfolding handle_failure commit
  handle_failure-Moves e = elim (Bool-cases (leb config.broker.max_attempts task.attempt)) [
    | inl h ↦ given_up (ground arith) h
    | inr h ↦ again (ground arith) h
  ]
    where
      given_up :
          config.broker.max_attempts ≤ task.attempt
          → leb config.broker.max_attempts task.attempt ≡ true
          → Moves R (handle_failure config codec tasks tools task e)
      given_up le h =
          rw (h, handle_failure)
            (bind _ _
              (publish_messages-Moves R closed tools.is_amqp_error _
                ((λ w. on_failed (describe e) le w), tt))
              (λ _.
                bind _ _ (commit-Moves (fail_row task.job_id task.chunk_index (describe e)))
                  (λ _. commit-Moves (fail task.job_id _ (some task.chunk_index)))))

      again :
          task.attempt + 1 ≤ config.broker.max_attempts
          → leb config.broker.max_attempts task.attempt ≡ false
          → Moves R (handle_failure config codec tasks tools task e)
      again le h =
          rw (h, handle_failure)
            (bind _ _ (commit-Moves (reschedule task.job_id task.chunk_index (describe e))) (λ _.
              publish_messages-Moves R closed tools.is_amqp_error _ ((λ w. on_retry le w), tt)))

  convert_chunk-Moves : Moves R (convert_chunk config codec tasks tools task)
  unfolding convert_chunk
  convert_chunk-Moves =
      bind _ _ (convert_range-Moves task.file_hash task.start_page task.end_page task.use_llm)
        (λ markdown. put_object-Moves _ _)

  assembled-Moves : (o : Option Job) → Moves R (assemble_found config codec tasks tools o)
  assembled-Moves none = raise-Moves R closed not_subscriptable
  assembled-Moves (some j) = assemble-Moves j

  finish-Moves : (remaining : ℤ) → Moves R (finish config codec tasks tools task remaining)
  unfolding finish commit
  finish-Moves remaining = elim (Bool-cases (eq_ℤ remaining (pos 0))) [
    | inl e ↦ rw e (
        try_except-Moves R closed _ _
          (bind _ _ (read-Moves R closed (λ t w. get_job task.job_id w.db)) assembled-Moves)
          (λ e. commit-Moves (fail task.job_id _ none)))
    | inr e ↦ rw e (ret-Moves R closed tt)
  ]

  record_chunk-Moves : Moves R (record_chunk config codec tasks tools task)
  unfolding record_chunk commit
  record_chunk-Moves =
      bind _ _
        (call-Moves R closed _ (λ t w.
          on_statement
            (complete task.job_id task.chunk_index (part_key task.doc_key task.chunk_index)) t w))
        finish-Moves

  handle_active-Moves : Moves R (handle_active config codec tasks tools task)
  unfolding handle_active commit
  handle_active-Moves =
      bind _ _
        (commit-Moves (start_row task.job_id task.chunk_index config.consumer_name task.attempt))
        (λ _. bind _ _ (commit-Moves (start_job task.job_id)) (λ _.
          bind _ _
            (try_except-Moves R closed _ _
              (bind _ _ convert_chunk-Moves (λ _. ret-Moves R closed _))
              (λ e. bind _ _ (handle_failure-Moves e) (λ _. ret-Moves R closed _)))
            on_converted))
    where
      on_converted :
          (converted : Bool)
          → Moves R (if converted then record_chunk config codec tasks tools task else ret tt)
      on_converted true = record_chunk-Moves
      on_converted false = ret-Moves R closed tt

  pub handle-Moves : Moves R (handle config codec tasks tools task)
  unfolding handle
  handle-Moves = bind _ _ (read-Moves R closed (λ t w. get_job task.job_id w.db)) on_job
    where
      on_job : (o : Option Job) → Moves R (handle_found config codec tasks tools task o)
      on_job none = ret-Moves R closed tt
      on_job (some j) = elim (Bool-cases (is_terminal j.status)) [
        | inl e ↦ rw (e, handle_found) (ret-Moves R closed tt)
        | inr e ↦ rw (e, handle_found) handle_active-Moves
      ]
