-- ===== src/Worker/Ending.antt =====
-- worker.py's `handle` and `on_task` end.
use markitdown_server.Prelude.{
  ◌+◌, ℕ, ◌≤◌, ◌≡◌, refl, inl, inr, Bool, true, false, Option, none, some, List, [], ◌∷◌,
  if◌then◌else◌, leb, Text, Bool-cases, Option-cases, Returns,
}
use markitdown_server.Prelude.Int.{ℤ, pos, negsuc, eq_ℤ}
use markitdown_server.Pagination.{paginate}
use markitdown_server.Pagination.Bounds.{paginate-IsPage}
use markitdown_server.Storage.{Codec}
use markitdown_server.Taskqueue.{TaskCodec, ChunkTask}
use markitdown_server.Cache.{CacheFile, cached}
use markitdown_server.Tables.{Job, is_terminal}
use markitdown_server.Action.{
  Error, World, Result, returned, raised, diverges, ret, on_raise, try_except,
}
use markitdown_server.Action.Ends.{
  Ends, ended, bind-Ends, try_except-Ends, call-Ends, ret-Ends, raise-Ends, or_raise-Ends,
  publish_messages-Ends,
}
use markitdown_server.Worker.{
  Config, Tools, fetch_source, open_source, convert_range, fetch_parts, send_pages, assemble,
  handle_failure, convert_chunk, finish, or_diverges, assemble_found, handle_found, markdown_of,
  not_subscriptable, record_chunk, handle_active, handle, on_task,
}

module _ (config : Config) (codec : Codec) (tasks : TaskCodec) (tools : Tools)
    (positive : 1 ≤ config.page_size) where
  fetch_source-Ends : (file_hash : Text) → Ends (fetch_source config codec tasks tools file_hash)
  unfolding fetch_source
  fetch_source-Ends file_hash = record {
    in_world = λ w. by_cache w (cached file_hash w.cache) refl;
  }
    where
      by_cache :
          (w : World) (c : Option CacheFile)
          → cached file_hash w.cache ≡ c
          → ended (fetch_source config codec tasks tools file_hash w).0 ≡ true
      by_cache w none e =
          rw (e, fetch_source)
            ((bind-Ends _ _ (bind-Ends _ _ (call-Ends _) (λ b. or_raise-Ends _))
                (λ content. call-Ends _)).in_world
              w)
      by_cache w (some f) e = rw (e, fetch_source) ((call-Ends _).in_world w)

  open_source-Ends : (file_hash : Text) → Ends (open_source file_hash)
  open_source-Ends file_hash = record {
    in_world = λ w. elim (Option-cases (cached file_hash w.cache)) [
      | inl e ↦ rw (e, open_source) refl
      | inr (f, e) ↦ rw (e, open_source) refl
    ];
  }

  convert_range-Ends :
      (file_hash : Text) (start : ℕ) (end : ℤ) (llm : Bool)
      → Ends (convert_range config codec tasks tools file_hash start end llm)
  unfolding convert_range
  convert_range-Ends file_hash start end llm = bind-Ends _ _ (fetch_source-Ends file_hash) (λ _.
      bind-Ends _ _ (open_source-Ends file_hash) (λ source.
        elim (Bool-cases (eq_ℤ end (negsuc 0))) [
          | inl e ↦ rw e (or_raise-Ends _)
          | inr e ↦ rw e (bind-Ends _ _ (or_raise-Ends _) (λ pages. or_raise-Ends _))
        ]))

  fetch_parts-Ends :
      (doc_key : Text) (indices : List ℕ)
      → Ends (fetch_parts config codec tasks tools doc_key indices)
  unfolding fetch_parts
  fetch_parts-Ends doc_key [] = ret-Ends []
  fetch_parts-Ends doc_key (index ∷ indices) = bind-Ends _ _ (call-Ends _) (λ part.
      bind-Ends _ _ (or_raise-Ends _)
        (λ text. bind-Ends _ _ (fetch_parts-Ends doc_key indices) (λ rest. ret-Ends (_ ∷ rest))))

  send_pages-Ends :
      (doc_key : Text) (index : ℕ) (pages : List Text)
      → Ends (send_pages config codec tasks tools doc_key index pages)
  unfolding send_pages
  send_pages-Ends doc_key index [] = ret-Ends tt
  send_pages-Ends doc_key index (page ∷ pages) =
      bind-Ends _ _ (call-Ends _) (λ _. send_pages-Ends doc_key (index + 1) pages)

  paginate-Ends : (content : Text) → Ends (or_diverges (paginate content config.page_size))
  paginate-Ends content =
      by_pages _ (paginate content config.page_size)
        (paginate-IsPage config.page_size positive content)
    where
      by_pages :
          (P : List Text → Type 0) (o : Option (List Text)) → Returns o P → Ends (or_diverges o)
      by_pages P none h = absurd h
      by_pages P (some pages) h = record { in_world = λ w. refl }

  assemble-Ends : (job : Job) → Ends (assemble config codec tasks tools job)
  unfolding assemble
  assemble-Ends job = bind-Ends _ _ (call-Ends _) (λ indices.
      bind-Ends _ _ (fetch_parts-Ends job.doc_key indices) (λ parts.
        bind-Ends _ _ (paginate-Ends (markdown_of parts)) (λ pages.
          bind-Ends _ _ (bind-Ends _ _ (send_pages-Ends job.doc_key 1 pages) (λ _. call-Ends _))
            (λ _. bind-Ends _ _ (call-Ends _) (λ _. call-Ends _)))))

  module _ (task : ChunkTask) where
    handle_failure-Ends : (e : Error) → Ends (handle_failure config codec tasks tools task e)
    unfolding handle_failure
    handle_failure-Ends e = elim (Bool-cases (leb config.broker.max_attempts task.attempt)) [
      | inl h ↦
          rw (h, handle_failure)
            (bind-Ends _ _ (publish_messages-Ends tools.is_amqp_error _)
              (λ _. bind-Ends _ _ (call-Ends _) (λ _. call-Ends _)))
      | inr h ↦
          rw (h, handle_failure)
            (bind-Ends _ _ (call-Ends _) (λ _. publish_messages-Ends tools.is_amqp_error _))
    ]

    convert_chunk-Ends : Ends (convert_chunk config codec tasks tools task)
    unfolding convert_chunk
    convert_chunk-Ends =
        bind-Ends _ _ (convert_range-Ends task.file_hash task.start_page task.end_page task.use_llm)
          (λ markdown. call-Ends _)

    assembled-Ends : (o : Option Job) → Ends (assemble_found config codec tasks tools o)
    assembled-Ends none = raise-Ends not_subscriptable
    assembled-Ends (some j) = assemble-Ends j

    finish-Ends : (remaining : ℤ) → Ends (finish config codec tasks tools task remaining)
    unfolding finish
    finish-Ends remaining = elim (Bool-cases (eq_ℤ remaining (pos 0))) [
      | inl e ↦
          rw e (try_except-Ends _ _ (bind-Ends _ _ (call-Ends _) assembled-Ends) (λ e. call-Ends _))
      | inr e ↦ rw e (ret-Ends tt)
    ]

    handle_active-Ends : Ends (handle_active config codec tasks tools task)
    unfolding handle_active record_chunk
    handle_active-Ends = bind-Ends _ _ (call-Ends _) (λ _. bind-Ends _ _ (call-Ends _) (λ _.
        bind-Ends _ _
          (try_except-Ends _ _ (bind-Ends _ _ convert_chunk-Ends (λ _. ret-Ends _))
            (λ e. bind-Ends _ _ (handle_failure-Ends e) (λ _. ret-Ends _)))
          on_converted))
      where
        on_converted :
            (converted : Bool)
            → Ends (if converted then record_chunk config codec tasks tools task else ret tt)
        on_converted true = bind-Ends _ _ (call-Ends _) finish-Ends
        on_converted false = ret-Ends tt

    handle-Ends : Ends (handle config codec tasks tools task)
    unfolding handle
    handle-Ends = bind-Ends _ _ (call-Ends _) on_job
      where
        on_job : (o : Option Job) → Ends (handle_found config codec tasks tools task o)
        on_job none = ret-Ends tt
        on_job (some j) = elim (Bool-cases (is_terminal j.status)) [
          | inl e ↦ rw (e, handle_found) (ret-Ends tt)
          | inr e ↦ rw (e, handle_found) handle_active-Ends
        ]

    absorbed :
        (r : Result Unit × World) → ended r.0 ≡ true → (on_raise (λ e. ret tt) r).0 ≡ returned tt
    absorbed (returned u, w) h = refl
    absorbed (raised e, w) h = refl
    absorbed (diverges, w) h = cc

    -- With a page size of at least one, whatever its calls come to and whatever other processes do, the handling of a delivered
    -- chunk ends, and no exception of it reaches the consume loop.
    pub on_task-returns : (w : World) → (on_task config codec tasks tools task w).0 ≡ returned tt
    unfolding on_task try_except
    on_task-returns w = absorbed (handle config codec tasks tools task w) (handle-Ends.in_world w)
