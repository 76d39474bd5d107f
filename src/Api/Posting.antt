-- ===== src/Api/Posting.antt =====
-- api/index.py: what `create_job` and the publishing of a job's tasks do to the rows of the job and to the queue.
use mathlib.Core.Path.{subst}
use mathlib.Core.List.{append_assoc, append-nil}
use markitdown_server.Prelude.{
  ℕ, ◌+◌, ◌≡◌, refl, ap, sym, ◌∙◌, inl, inr, Bool, true, false, List, [], ◌∷◌, ◌++◌, ◌⊎◌, Text, All,
  All-append, Option-cases,
}
use markitdown_server.Chunker.{PageRange}
use markitdown_server.Taskqueue.{Settings, TaskCodec, ChunkTask, Message, publish, as_message}
use markitdown_server.Tables.{Database}
use markitdown_server.Jobstore.{create_job}
use markitdown_server.Jobstore.History.{commit, create, or_unchanged}
use markitdown_server.Jobstore.Lasting.{HasJob, create_job-HasJob, run_keeps_job, commit_keeps_job}
use markitdown_server.Action.{
  World, CallOutcome, passes, lost, unconfirmed, come_to, Result, returned, raised, diverges, call,
  before_call,
}
use markitdown_server.Action.Moves.{Closed, Moves, call-Moves}
use markitdown_server.Api.Submit.{chunk_tasks, insert_job, is_created}

-- The message of a first attempt at a chunk of the job.
abbrev pub IsTaskOf : Settings → TaskCodec → Text → Message → Type 0
IsTaskOf broker tasks job_id m =
    (t : ChunkTask) × (t.job_id ≡ job_id)
    × (t.attempt ≡ 1)
    × (m ≡ as_message broker.exchange broker.queue (tasks.to_bytes t))

-- Messages of the job are published.
abbrev pub Posts : Settings → TaskCodec → Text → World → World → List Message → Type 0
Posts broker tasks job_id u v ms =
    (v.published ≡ u.published ++ ms) × All (IsTaskOf broker tasks job_id) ms

-- The row of the job stays, and if a message of the job is published the job has a row.
abbrev pub Announces : Settings → TaskCodec → Text → World → World → Type 0
Announces broker tasks job_id u v =
    (HasJob job_id u.db → HasJob job_id v.db)
    × (ms : List Message) × Posts broker tasks job_id u v ms
    × ((ms ≡ []) ⊎ HasJob job_id v.db)

-- The same, without a claim that the job has a row.
abbrev pub Tells : Settings → TaskCodec → Text → World → World → Type 0
Tells broker tasks job_id u v =
    (HasJob job_id u.db → HasJob job_id v.db)
    × (ms : List Message) × Posts broker tasks job_id u v ms

module _ (broker : Settings) (tasks : TaskCodec) (job_id : Text) where
  Posts-append :
      (u v w : World) (ms ns : List Message)
      → Posts broker tasks job_id u v ms
      → Posts broker tasks job_id v w ns
      → Posts broker tasks job_id u w (ms ++ ns)
  Posts-append u v w ms ns (e, h) (e', k) = (
    e' ∙ ap (λ ps. ps ++ ns) e ∙ append_assoc u.published ms ns,
    All-append (IsTaskOf broker tasks job_id) ms ns h k,
  )

  on_either :
      (v w : World) (ms ns : List Message)
      → (HasJob job_id v.db → HasJob job_id w.db)
      → (ms ≡ []) ⊎ HasJob job_id v.db
      → (ns ≡ []) ⊎ HasJob job_id w.db
      → (ms ++ ns ≡ []) ⊎ HasJob job_id w.db
  on_either v w ms ns keeps (inr has) _ = inr (keeps has)
  on_either v w ms ns keeps (inl e) (inr has) = inr has
  on_either v w ms ns keeps (inl e) (inl e') = inl (ap (λ xs. xs ++ ns) e ∙ e')

  pub Announces-Closed : Closed (Announces broker tasks job_id)
  Announces-Closed = record {
    here = λ w. (λ has. has, [], (sym (append-nil w.published), tt), inl refl);
    then_on = λ u v w (keeps, ms, posts, told) (keeps', ns, posts', told'). (
      λ has. keeps' (keeps has),
      ms ++ ns,
      Posts-append u v w ms ns posts posts',
      on_either v w ms ns keeps' told told',
    );
    disturbed = λ o n w. (
      run_keeps_job job_id o.transactions w.db,
      [],
      (sym (append-nil w.published), tt),
      inl refl,
    );
  }

  pub Tells-Closed : Closed (Tells broker tasks job_id)
  Tells-Closed = record {
    here = λ w. (λ has. has, [], (sym (append-nil w.published), tt));
    then_on = λ u v w (keeps, ms, posts) (keeps', ns, posts').
        (λ has. keeps' (keeps has), ms ++ ns, Posts-append u v w ms ns posts posts');
    disturbed =
        λ o n w. (run_keeps_job job_id o.transactions w.db, [], (sym (append-nil w.published), tt));
  }

  -- Each message that `publish` hands over for the chunks may be published.
  pub chunk_tasks-Tells :
      (doc_key file_hash : Text) (total : ℕ) (use_llm : Bool) (index : ℕ) (ranges : List PageRange)
      → All
          (λ m.
            (w : World)
            → Tells broker tasks job_id w (record w { published = w.published ++ m ∷ [] }))
          (publish broker tasks (chunk_tasks job_id doc_key file_hash total use_llm index ranges))
  unfolding publish chunk_tasks
  chunk_tasks-Tells doc_key file_hash total use_llm index [] = tt
  chunk_tasks-Tells doc_key file_hash total use_llm index ((start, end) ∷ ranges) = (
    λ w. (
      λ has. has,
      as_message broker.exchange broker.queue _ ∷ [],
      (refl, ((_, refl, refl, refl), tt)),
    ),
    chunk_tasks-Tells doc_key file_hash total use_llm (index + 1) ranges,
  )

  -- A call that returned `a` has had its effect.
  come_to-returned :
      (o : CallOutcome) (before : World) (a a' : Bool) (after : World)
      → (come_to o before (a, after)).0 ≡ returned a'
      → (a ≡ a') × ((come_to o before (a, after)).1 ≡ after)
  come_to-returned passes before a a' after h = (ap value h, refl)
    where
      value : Result Bool → Bool
      value (returned b) = b
      value (raised e) = false
      value diverges = false
  come_to-returned (lost e) before a a' after h = cc
  come_to-returned (unconfirmed e) before a a' after h = cc

  is_created-HasJob :
      (doc_key file_hash url : Text) (ranges : List PageRange) (use_llm : Bool) (t : ℕ)
      (db : Database)
      → is_created (create_job job_id doc_key file_hash url ranges use_llm t db) ≡ true
      → HasJob job_id
          (or_unchanged db (create_job job_id doc_key file_hash url ranges use_llm t db))
  is_created-HasJob doc_key file_hash url ranges use_llm t db =
      elim (Option-cases (create_job job_id doc_key file_hash url ranges use_llm t db)) [
        | inl e ↦ rw e (λ h. absurd (nothing h))
        | inr (after, e) ↦
            rw e (λ h. create_job-HasJob job_id doc_key file_hash url ranges use_llm t db after e)
      ]
    where
      nothing : false ≡ true → ⊥
      nothing h = cc

  pub insert_job-HasJob :
      (doc_key file_hash url : Text) (ranges : List PageRange) (use_llm : Bool) (w : World)
      → let r = insert_job job_id doc_key file_hash url ranges use_llm w in
        r.0 ≡ returned true → HasJob job_id r.1.db
  unfolding call
  insert_job-HasJob doc_key file_hash url ranges use_llm w h =
      let before = before_call w in
      let t = (w.schedule w.calls).now in
      let created = create_job job_id doc_key file_hash url ranges use_llm t before.db in
      let (yes_created, same) =
        come_to-returned (w.schedule w.calls).outcome before (is_created created) true
          (record before { db = or_unchanged before.db created }) h in
      subst (λ v. HasJob job_id v.db) (sym same)
        (is_created-HasJob doc_key file_hash url ranges use_llm t before.db yes_created)

  pub insert_job-Moves :
      (doc_key file_hash url : Text) (ranges : List PageRange) (use_llm : Bool)
      → Moves
          (Announces broker tasks job_id)
          (insert_job job_id doc_key file_hash url ranges use_llm)
  insert_job-Moves doc_key file_hash url ranges use_llm =
      call-Moves (Announces broker tasks job_id) Announces-Closed _ (λ t w. (
        (unfold commit in
            commit_keeps_job job_id (create job_id doc_key file_hash url ranges use_llm) t w.db),
        [],
        (sym (append-nil w.published), tt),
        inl refl,
      ))
