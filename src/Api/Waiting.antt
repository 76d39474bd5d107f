-- ===== src/Api/Waiting.antt =====
-- api/index.py's `_wait_for_job`.
use markitdown_server.Prelude.{
  ℕ, zero, suc, ◌<◌, ◌≡◌, refl, ◌∙◌, inl, inr, true, Option, none, some, Text, arith, Option-cases,
  Bool-cases,
}
use markitdown_server.Tables.{Job, is_terminal}
use markitdown_server.Jobstore.{get_job}
use markitdown_server.Action.{World, passes, returned, call, ◌>>=◌, on_result, come_to, before_call}
use markitdown_server.Api.Pages.{wait_for_job, terminal_job, after_poll}

-- The world behind a number of polls, between which other processes act.
abbrev pub polled : ℕ → World → World
polled zero w = w
polled (suc n) w = polled n (before_call w)

module _ (job_id : Text) where
  terminal_job-some :
      (o : Option Job) (j : Job)
      → terminal_job o ≡ some j
      → (o ≡ some j) × (is_terminal j.status ≡ true)
  terminal_job-some none j e = cc
  terminal_job-some (some i) j e = elim (Bool-cases (is_terminal i.status)) [
    | inl over ↦ ground arith
    | inr active ↦ ground arith
  ]

  one_poll :
      (polls : ℕ) (w : World)
      → (w.schedule w.calls).outcome ≡ passes
      → wait_for_job (suc polls) job_id w
        ≡ after_poll
            (wait_for_job polls job_id)
            (terminal_job (get_job job_id (before_call w).db))
            (before_call w)
  unfolding wait_for_job call ◌>>=◌
  one_poll polls w fine = rw (fine, come_to, on_result) refl

  -- Where every poll passes and one of those that are made finds the job done or failed, `_wait_for_job` returns, and the job that
  -- it returns is done or failed and stands in the table behind some poll, whatever other processes do meanwhile.
  pub wait_for_job-returns :
      (polls k : ℕ) (w : World) (j : Job)
      → ((n : ℕ) → (w.schedule n).outcome ≡ passes)
      → get_job job_id (polled (suc k) w).db ≡ some j
      → is_terminal j.status ≡ true
      → k < polls
      → (n : ℕ) × (j' : Job) × (wait_for_job polls job_id w ≡ (returned j', polled n w))
        × (get_job job_id (polled n w).db ≡ some j')
        × (is_terminal j'.status ≡ true)
  wait_for_job-returns zero k w j fine found over le = absurd (omega arith)
  wait_for_job-returns (suc polls) zero w j fine found over le =
      (1, j, one_poll polls w (fine w.calls) ∙ (rw (found, over) refl), found, over)
  wait_for_job-returns (suc polls) (suc k) w j fine found over le =
      let (n, j', same, here, ended) =
        wait_for_job-returns polls k (before_call w) j fine found over (omega arith) in
      elim (Option-cases (terminal_job (get_job job_id (before_call w).db))) [
        | inr (i, e) ↦
            let (now, done) = terminal_job-some _ i e in
            (1, i, one_poll polls w (fine w.calls) ∙ (rw e refl), now, done)
        | inl e ↦ (suc n, j', one_poll polls w (fine w.calls) ∙ (rw e same), here, ended)
      ]
