-- ===== src/Worker/Effects.antt =====
-- What handling a chunk does to the database and to the broker, whatever its calls come to.
use mathlib.Core.List.{append_assoc, append-nil}
use markitdown_server.Prelude.{
  ◌+◌, ◌≤◌, ◌≡◌, refl, ap, sym, ◌∙◌, inl, inr, true, none, some, List, [], ◌∷◌, ◌++◌, ◌⊎◌, Text,
  All, All-append,
}
use markitdown_server.Storage.{Codec}
use markitdown_server.Taskqueue.{TaskCodec, ChunkTask, Message, publish_retry, publish_failed}
use markitdown_server.Tables.{Job, is_terminal}
use markitdown_server.Jobstore.{get_job}
use markitdown_server.Action.{
  World, passes, lost, Error, returned, raised, call, ◌>>=◌, before_call, on_result, come_to,
}
use markitdown_server.Action.Moves.{Closed}
use markitdown_server.Worker.{Config, Tools, handle}
use markitdown_server.Worker.Steps.{Steps, handle-Moves}

-- A message that handling a task may publish: the task's next attempt while attempts are left, and the failed task when none is.
abbrev pub IsSentFor : Config → TaskCodec → ChunkTask → Message → Type 0
IsSentFor config tasks task m =
    (m ≡ publish_retry config.broker tasks task) × (task.attempt + 1 ≤ config.broker.max_attempts)
    ⊎ (error : Text) × (m ≡ publish_failed config.broker tasks task error)
      × (config.broker.max_attempts ≤ task.attempt)

abbrev pub Sends : Config → TaskCodec → ChunkTask → World → World → Type 0
Sends config tasks task u v =
    (ms : List Message) × (v.published ≡ u.published ++ ms) × All (IsSentFor config tasks task) ms

module _ (config : Config) (tasks : TaskCodec) (task : ChunkTask) where
  Sends-Closed : Closed (Sends config tasks task)
  Sends-Closed = record {
    here = λ w. ([], sym (append-nil w.published), tt);
    then_on = λ u v w (ms, e, h) (ns, e', k). (
      ms ++ ns,
      e' ∙ ap (λ ps. ps ++ ns) e ∙ append_assoc u.published ms ns,
      All-append (IsSentFor config tasks task) ms ns h k,
    );
    disturbed = λ o n w. ([], sym (append-nil w.published), tt);
  }

  Sends-Steps : Steps (Sends config tasks task) config tasks task
  Sends-Steps = record {
    closed = Sends-Closed;
    on_statement = λ c t w. ([], sym (append-nil w.published), tt);
    on_object = λ key body w. ([], sym (append-nil w.published), tt);
    on_cache = λ files w. ([], sym (append-nil w.published), tt);
    on_retry = λ le w. (publish_retry config.broker tasks task ∷ [], refl, (inl (refl, le), tt));
    on_failed = λ error le w.
        (publish_failed config.broker tasks task error ∷ [], refl, (inr (error, refl, le), tt));
  }

module _ (config : Config) (codec : Codec) (tasks : TaskCodec) (tools : Tools) (task : ChunkTask)
    (w : World) where
  -- Whatever the calls come to and whatever other processes do, `handle` publishes nothing but the next attempt of its task, and that only while the attempt is below
  -- MAX_ATTEMPTS, and the failed task, and that only when it is not.
  pub handle-Sends : Sends config tasks task w (handle config codec tasks tools task w).1
  handle-Sends =
      (handle-Moves (Sends config tasks task) config codec tasks tools task
          (Sends-Steps config tasks task)).behind
        w

  -- A chunk whose job is unknown, done or failed when the statement that reads it passes is dropped: `handle` returns and has made
  -- this one call, which changes nothing; what other processes did before it is in the world that it reads.
  pub handle-inactive :
      (w.schedule w.calls).outcome ≡ passes
      → ((j : Job) × (get_job task.job_id (before_call w).db ≡ some j)
          × (is_terminal j.status ≡ true))
        ⊎ (get_job task.job_id (before_call w).db ≡ none)
      → handle config codec tasks tools task w ≡ (returned tt, before_call w)
  unfolding handle ◌>>=◌ call
  handle-inactive fine (inl (j, found, over)) = rw (fine, found, over, on_result, come_to) refl
  handle-inactive fine (inr unknown) = rw (fine, unknown, on_result, come_to) refl

  -- If the statement that reads the job is lost, `handle` raises its error, and has made this one call, which changes
  -- nothing and publishes nothing; what other processes did before it is all that has changed.
  pub handle-lost :
      (e : Error)
      → (w.schedule w.calls).outcome ≡ lost e
      → handle config codec tasks tools task w ≡ (raised e, before_call w)
  unfolding handle ◌>>=◌ call
  handle-lost e broken = rw broken refl
