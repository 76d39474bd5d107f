-- ===== src/Api/Announcing.antt =====
-- What api/index.py's `submit` publishes, and when: the rows of a job first, then its messages.
use mathlib.Core.List.{append-nil}
use markitdown_server.Prelude.{
  ◌≡◌, refl, sym, inl, inr, Bool, true, false, List, [], ◌++◌, ◌⊎◌, Text, All, length,
  if◌then◌else◌,
}
use markitdown_server.Chunker.{PageRange}
use markitdown_server.Taskqueue.{Message, publish}
use markitdown_server.Jobstore.Lasting.{HasJob}
use markitdown_server.Action.{
  World, Result, returned, raised, diverges, Action, on_result, ret, raise, ◌>>=◌, ◌>>◌,
  publish_messages,
}
use markitdown_server.Action.Moves.{
  Moves, bind-Moves, ret-Moves, raise-Moves, publish_messages-Moves,
}
use markitdown_server.Api.{Service, Outside, Submission, accepted}
use markitdown_server.Api.Submit.{chunk_tasks, insert_job, integrity_error, enqueue, submit}
use markitdown_server.Api.Steps.{submit-Moves}
use markitdown_server.Api.Posting.{
  Announces, Announces-Closed, IsTaskOf, Tells, Tells-Closed, chunk_tasks-Tells, insert_job-HasJob,
  insert_job-Moves,
}

module _ (service : Service) (outside : Outside) (job_id url : Text) (use_llm : Bool) where
  -- What `enqueue` does once `create_job` has ended.
  abbrev publish_job : Text → Text → List PageRange → Bool → Action Submission
  publish_job doc_key file_hash ranges created = do
    if created then ret tt else raise integrity_error
    publish_messages outside.tools.is_amqp_error (
        publish service.broker outside.tasks
          (chunk_tasks job_id doc_key file_hash (length ranges) use_llm 0 ranges))
    ret (accepted job_id doc_key (length ranges))

  publish_job-Moves :
      (doc_key file_hash : Text) (ranges : List PageRange) (created : Bool)
      → Moves
          (Tells service.broker outside.tasks job_id)
          (publish_job doc_key file_hash ranges created)
  publish_job-Moves doc_key file_hash ranges created =
      let R = Tells service.broker outside.tasks job_id in
      let closed = Tells-Closed service.broker outside.tasks job_id in
      bind-Moves R closed _ _ (on_created created) (λ _.
        bind-Moves R closed _ _
          (publish_messages-Moves R closed outside.tools.is_amqp_error _ (
            chunk_tasks-Tells service.broker outside.tasks job_id doc_key file_hash (length ranges)
              use_llm 0 ranges))
          (λ _. ret-Moves R closed _))
    where
      on_created :
          (created : Bool)
          → Moves
              (Tells service.broker outside.tasks job_id)
              (if created then ret tt else raise integrity_error)
      on_created true = ret-Moves _ (Tells-Closed service.broker outside.tasks job_id) tt
      on_created false =
          raise-Moves _ (Tells-Closed service.broker outside.tasks job_id) integrity_error

  -- What follows `create_job` publishes only if that has returned.
  published_after :
      (doc_key file_hash : Text) (ranges : List PageRange) (w : World) (r : Result Bool × World)
      → Announces service.broker outside.tasks job_id w r.1
      → (r.0 ≡ returned true → HasJob job_id r.1.db)
      → Announces service.broker outside.tasks job_id w
          (on_result (publish_job doc_key file_hash ranges) r).1
  unfolding ◌>>=◌
  published_after doc_key file_hash ranges w (returned true, v) before has =
      let has_job = has refl in
      let (keeps, ms, posts) = (publish_job-Moves doc_key file_hash ranges true).behind v in
      (Announces-Closed service.broker outside.tasks job_id).then_on w v
        (publish_job doc_key file_hash ranges true v).1 before
        (keeps, ms, posts, inr (keeps has_job))
  published_after doc_key file_hash ranges w (returned false, v) before has =
      (Announces-Closed service.broker outside.tasks job_id).then_on w v v before
        ((Announces-Closed service.broker outside.tasks job_id).here v)
  published_after doc_key file_hash ranges w (raised e, v) before has = before
  published_after doc_key file_hash ranges w (diverges, v) before has = before

  enqueue-Moves :
      (doc_key file_hash : Text) (ranges : List PageRange)
      → Moves
          (Announces service.broker outside.tasks job_id)
          (enqueue service outside job_id doc_key file_hash url ranges use_llm)
  unfolding enqueue ◌>>=◌
  enqueue-Moves doc_key file_hash ranges = record {
    behind = λ w.
        published_after doc_key file_hash ranges w
          (insert_job job_id doc_key file_hash url ranges use_llm w)
          ((insert_job-Moves service.broker outside.tasks job_id doc_key file_hash url ranges
              use_llm).behind
            w)
          (insert_job-HasJob service.broker outside.tasks job_id doc_key file_hash url ranges
            use_llm w);
  }

  -- State first, then publish: whatever the calls come to and whatever other processes do meanwhile, `submit` publishes nothing
  -- but first attempts of its own job's chunks, and if it has published anything, its job has a row.
  pub submit-announces :
      (w : World)
      → let after = (submit service outside job_id url use_llm w).1 in
        (ms : List Message) × (after.published ≡ w.published ++ ms)
        × All (IsTaskOf service.broker outside.tasks job_id) ms
        × ((ms ≡ []) ⊎ HasJob job_id after.db)
  submit-announces w =
      let (keeps, ms, (same, tasks), told) =
        (submit-Moves (Announces service.broker outside.tasks job_id)
            (Announces-Closed service.broker outside.tasks job_id)
            (λ key body w. (λ has. has, [], (sym (append-nil w.published), tt), inl refl)) service
            outside job_id url use_llm enqueue-Moves).behind
          w in
      (ms, same, tasks, told)
