-- ===== src/Api/Endpoints.antt =====
-- api/index.py: the endpoints that convert, and `readyz`.
use markitdown_server.Prelude.{
  ℕ, Bool, true, false, ◌&&◌, Option, ◌⊎◌, inl, inr, if◌then◌else◌, Text, codes, none, some,
}
use markitdown_server.Tables.{JobStatus}
use markitdown_server.Action.{Action, ret, ◌>>=◌, try_except, call}
use markitdown_server.Api.{
  ConvertRequest, JobAccepted, Outside, PageResponse, Reply, Service, Submission, accepted, answer,
  cached, on_answer,
}
use markitdown_server.Api.Pages.{completed_job_payload, wait_for_job}
use markitdown_server.Api.Submit.{submit_request}

-- `health` of db.py, storage.py and taskqueue.py: a call that passes with a good answer.
abbrev pub health : Bool → Action Bool
health good = try_except (call (λ t w. (good, w))) (λ e. ret false)

pub record Readiness : Type 0 where
  pub database : Bool
  pub storage : Bool
  pub queue : Bool

-- The status of `readyz`, and its checks; `is_open` is that of the connection to the broker.
unfoldable pub readyz : Bool → Action (ℕ × Readiness)
readyz is_open = do
  database ← health true
  storage ← health true
  queue ← health is_open
  ret (
    if database && storage && queue then 200 else 503,
    record { database = database; storage = storage; queue = queue },
  )

-- `root`, the liveness answer: its status
abbrev pub root : Action Text
root = ret (codes "ok")

-- `openapi_yaml`: the document, and what `_openapi_yaml` is then; `dump` is the dump of `app.openapi()`.
abbrev pub openapi_yaml : Text → Option Text → Text × Option Text
openapi_yaml dump none = (dump, some dump)
openapi_yaml dump (some document) = (document, some document)

module _ (service : Service) (outside : Outside) where
  open outside use {codec}

  -- What `convert_endpoint` makes of a submission.
  abbrev pub finish_convert : ℕ → Submission → Action (Reply PageResponse)
  finish_convert polls (cached p) = ret (answer p)
  finish_convert polls (accepted job_id doc_key total) =
      wait_for_job polls job_id >>= λ job. completed_job_payload codec job

  unfoldable pub convert_endpoint : ℕ → Text → Option ConvertRequest → Action (Reply PageResponse)
  unfolding submit_request wait_for_job completed_job_payload
  convert_endpoint polls job_id request = do
    result ← submit_request service outside job_id request
    on_answer result (finish_convert polls)

  -- The status and the body of `async_convert_endpoint`.
  abbrev pub accept : Submission → ℕ × (PageResponse ⊎ JobAccepted)
  accept (cached p) = (200, inl p)
  accept (accepted id key total) = (
    202,
    inr (record { job_id = id; status = JobStatus.queued; doc_key = key; total_chunks = total }),
  )

  unfoldable pub async_convert_endpoint :
      Text → Option ConvertRequest → Action (Reply (ℕ × (PageResponse ⊎ JobAccepted)))
  unfolding submit_request
  async_convert_endpoint job_id request = do
    result ← submit_request service outside job_id request
    on_answer result (λ s. ret (answer (accept s)))
