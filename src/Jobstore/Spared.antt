-- ===== src/Jobstore/Spared.antt =====
-- jobstore.py: a chunk that is done stays done, and is not counted down again, whatever else is committed meanwhile.
use markitdown_server.Prelude.{
  ℕ, ◌+◌, ◌≡◌, refl, ap, ◌∙◌, inl, inr, Bool, true, false, List, [], ◌∷◌, arith, Bool-cases,
  Option-cases, Text, text_eq, text_eq_iff, count_if, ◌&&◌, ◌==◌,
}
use markitdown_server.Chunker.{PageRange}
use markitdown_server.Sql.{update_where, count_if-append}
use markitdown_server.Tables.{
  Chunk, Database, at_chunk, open_chunk, exists_row, of_job, chunk_already_done,
}
use markitdown_server.Jobstore.{
  create_job, insert_chunks, set_completed, set_running, complete_chunk, fail_chunk,
  reschedule_chunk, fail_job, finish_job, record_document, start_chunk_row, start_job_row,
}
use markitdown_server.Jobstore.Laws.{chunks-complete_chunk}
use markitdown_server.Jobstore.Outcomes.{complete_chunk-none, none-left-open}
use markitdown_server.Jobstore.Rows.{new_chunks, insert_chunks-append}
use markitdown_server.Jobstore.History.{
  Call, History, commit, run, or_unchanged, create, start_row, start_job, complete, fail_row,
  reschedule, fail, finish, record_doc,
}

-- The call creates no chunks of the job, and does not mark this chunk failed.
abbrev pub Spares : Text → ℕ → Call → Type 0
Spares job i (create id key hash url ranges llm) = text_eq id job ≡ false
Spares job i (fail_row id index error) = (text_eq id job && index == i) ≡ false
Spares job i _ = Unit

abbrev pub AllSpare : Text → ℕ → History → Type 0
AllSpare job i [] = Unit
AllSpare job i ((c, now) ∷ h) = Spares job i c × AllSpare job i h

module _ (job : Text) (i : ℕ) where
  -- No row of the chunk is open.
  abbrev IsDone : Database → Type 0
  IsDone db = count_if (open_chunk job i) db.chunks ≡ 0

  updated-none :
      (p : Chunk → Bool) (f : Chunk → Chunk) (rows : List Chunk)
      → ((c : Chunk) → p c ≡ true → open_chunk job i (f c) ≡ true → open_chunk job i c ≡ true)
      → count_if (open_chunk job i) rows ≡ 0
      → count_if (open_chunk job i) (update_where p f rows) ≡ 0
  updated-none p f [] opens h = refl
  updated-none p f (c ∷ rows) opens h = ground (arith, opens c, updated-none p f rows opens)

  new_chunks-none :
      (id : Text) (index : ℕ) (ranges : List PageRange) (now : ℕ)
      → text_eq id job ≡ false
      → count_if (open_chunk job i) (new_chunks id index ranges now) ≡ 0
  new_chunks-none id index [] now other = refl
  new_chunks-none id index (r ∷ ranges) now other =
      ground (arith, new_chunks-none id (index + 1) ranges now other)

  created-none :
      (id key hash url : Text) (ranges : List PageRange) (llm : Bool) (now : ℕ) (db : Database)
      → text_eq id job ≡ false
      → IsDone db
      → IsDone (or_unchanged db (create_job id key hash url ranges llm now db))
  unfolding create_job
  created-none id key hash url ranges llm now db other h =
      elim (Bool-cases (exists_row (of_job id) db.jobs)) [
        | inl e ↦ rw e h
        | inr e ↦ elim (Option-cases (insert_chunks id 0 ranges now db.chunks)) [
          | inl none_left ↦ rw (e, none_left) h
          | inr (rows, inserted) ↦
              rw (e, inserted)
                (ap (λ cs. count_if (open_chunk job i) cs)
                    (insert_chunks-append id now 0 ranges db.chunks rows inserted)
                  ∙ count_if-append (open_chunk job i) db.chunks (new_chunks id 0 ranges now)
                  ∙ omega (arith, h, new_chunks-none id 0 ranges now other))
        ]
      ]

  commit-IsDone :
      (c : Call) (now : ℕ) (db : Database) → Spares job i c → IsDone db → IsDone (commit c now db)
  unfolding commit
  commit-IsDone (create id key hash url ranges llm) now db other h =
      created-none id key hash url ranges llm now db other h
  commit-IsDone (start_row id index owner attempt) now db spared h =
      unfold start_chunk_row in
      updated-none (open_chunk id index) (set_running owner attempt now) db.chunks
        (λ c p q. ground arith) h
  commit-IsDone (start_job id) now db spared h = unfold start_job_row in h
  commit-IsDone (complete id index s3_key) now db spared h =
      ap (λ cs. count_if (open_chunk job i) cs) (chunks-complete_chunk id index s3_key now db)
      ∙ updated-none (open_chunk id index) (set_completed s3_key now) db.chunks
          (λ c p q. ground arith) h
  commit-IsDone (fail_row id index error) now db spared h =
      unfold fail_chunk in
      updated-none (at_chunk id index) _ db.chunks
        (λ c p q.
          ground
            (arith, spared, text_eq_iff c.job_id id, text_eq_iff c.job_id job, text_eq_iff id job))
        h
  commit-IsDone (reschedule id index error) now db spared h =
      unfold reschedule_chunk in
      updated-none (open_chunk id index) _ db.chunks (λ c p q. ground arith) h
  commit-IsDone (fail id error index) now db spared h = unfold fail_job in h
  commit-IsDone (finish id) now db spared h = unfold finish_job in h
  commit-IsDone (record_doc key hash pages chunks len size ttl) now db spared h =
      unfold record_document in h

  run-IsDone : (h : History) (db : Database) → AllSpare job i h → IsDone db → IsDone (run h db)
  unfolding run
  run-IsDone [] db spared done = done
  run-IsDone ((c, now) ∷ h) db (here, spared) done =
      run-IsDone h (commit c now db) spared (commit-IsDone c now db here done)

  -- A chunk that has been completed is counted down once: behind any history in which its job is not created again and the chunk is
  -- not marked failed, completing it returns CHUNK_ALREADY_DONE and changes nothing, at any time and with any key.
  pub complete_chunk-again :
      (h : History) (s3_key other_key : Text) (now later : ℕ) (db : Database)
      → AllSpare job i h
      → let after = run h (complete_chunk job i s3_key now db).1 in
        complete_chunk job i other_key later after ≡ (chunk_already_done, after)
  complete_chunk-again h s3_key other_key now later db spared =
      let completed = (complete_chunk job i s3_key now db).1 in
      complete_chunk-none job i other_key later (run h completed) (
        run-IsDone h completed spared (
          ap (λ rows. count_if (open_chunk job i) rows) (chunks-complete_chunk job i s3_key now db)
          ∙ none-left-open job i s3_key now db.chunks))
