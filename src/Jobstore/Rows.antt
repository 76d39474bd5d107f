-- ===== src/Jobstore/Rows.antt =====
-- How many rows of the chunk table are open after each statement.
use markitdown_server.Prelude.{
  sym, ap, ◌∙◌, append-nil, append_assoc, ℕ, ◌+◌, ◌≤◌, ◌≡◌, refl, inl, inr, false, ◌&&◌, Option,
  none, some, List, [], ◌∷◌, ◌++◌, arith, if◌then◌else◌, count_if, Bool-cases, Text, text_eq,
  text_eq_iff, length,
}
use markitdown_server.Sql.{update_where, count_if-append}
use markitdown_server.Chunker.{PageRange}
use markitdown_server.Tables.{Chunk, is_done, at_chunk, open_chunk, of_chunk, is_open, exists_row}
use markitdown_server.Jobstore.Laws.{exists_row-append}
use markitdown_server.Jobstore.{set_completed, new_chunk, insert_chunks}

-- Completing a chunk closes exactly the rows that `changes()` counts.
pub count-completed :
    (job id : Text) (index : ℕ) (s3_key : Text) (now : ℕ) (rows : List Chunk)
    → count_if (is_open job) (update_where (open_chunk id index) (set_completed s3_key now) rows)
        + (if text_eq id job then count_if (open_chunk id index) rows else 0)
      ≡ count_if (is_open job) rows
count-completed job id index s3_key now [] = ground arith
count-completed job id index s3_key now (c ∷ rows) = ground (
  arith,
  text_eq_iff id job,
  text_eq_iff c.job_id id,
  text_eq_iff c.job_id job,
  count-completed job id index s3_key now rows,
)

-- Failing a chunk closes and opens nothing if no row of it is done.
pub count-failed :
    (job id : Text) (index : ℕ) (f : Chunk → Chunk) (rows : List Chunk)
    → ((c : Chunk) → ((f c).job_id ≡ c.job_id) × (is_done (f c).status ≡ false))
    → count_if (λ c. at_chunk id index c && is_done c.status) rows ≡ 0
    → count_if (is_open job) (update_where (at_chunk id index) f rows) ≡ count_if (is_open job) rows
count-failed job id index f [] h none_done = refl
count-failed job id index f (c ∷ rows) h none_done =
    ground (arith, h c, count-failed job id index f rows h)

exists_row-count :
    (job : Text) (i : ℕ) (rows : List Chunk)
    → exists_row (at_chunk job i) rows ≡ false
    → count_if (at_chunk job i) rows ≡ 0
exists_row-count job i [] h = refl
exists_row-count job i (c ∷ rows) h = ground (arith, exists_row-count job i rows)

append_unique :
    (row : Chunk) (rows : List Chunk)
    → ((job : Text) (i : ℕ) → count_if (at_chunk job i) rows ≤ 1)
    → exists_row (at_chunk row.job_id row.chunk_index) rows ≡ false
    → (job : Text) (i : ℕ) → count_if (at_chunk job i) (rows ++ row ∷ []) ≤ 1
append_unique row rows u free job i = rw (count_if-append (at_chunk job i) rows (row ∷ [])) (
    ground (
      arith,
      u job i,
      text_eq_iff row.job_id job,
      exists_row-count row.job_id row.chunk_index rows free,
    ))

-- The rows of a job's chunks that the `for` loop of `create_job` inserts, from an index on.
abbrev pub new_chunks : Text → ℕ → List PageRange → ℕ → List Chunk
new_chunks id index [] timestamp = []
new_chunks id index (r ∷ ranges) timestamp =
    new_chunk id index r timestamp ∷ new_chunks id (index + 1) ranges timestamp

module _ (id : Text) (timestamp : ℕ) where
  insert_chunks-cons :
      (index : ℕ) (r : PageRange) (ranges : List PageRange) (rows rows' : List Chunk)
      → insert_chunks id index (r ∷ ranges) timestamp rows ≡ some rows'
      → (exists_row (at_chunk id index) rows ≡ false)
        × (insert_chunks id
              (index + 1)
              ranges
              timestamp
              (rows ++ new_chunk id index r timestamp ∷ [])
            ≡ some rows')
  unfolding insert_chunks
  insert_chunks-cons index r ranges rows rows' e =
      elim (Bool-cases (exists_row (at_chunk id index) rows)) [
        | inl taken ↦ absurd (none-ne-some (rw taken at e))
        | inr free ↦ (free, rw free at e)
      ]
    where
      none-ne-some : ◌≡◌ {A = Option (List Chunk)} none (some rows') → ⊥
      none-ne-some h = cc

  pub insert_chunks-append :
      (index : ℕ) (ranges : List PageRange) (rows rows' : List Chunk)
      → insert_chunks id index ranges timestamp rows ≡ some rows'
      → rows' ≡ rows ++ new_chunks id index ranges timestamp
  insert_chunks-append index [] rows rows' e =
      let same : rows ≡ rows' = unfold insert_chunks in cc in sym same ∙ sym (append-nil rows)
  insert_chunks-append index (r ∷ ranges) rows rows' e =
      insert_chunks-append (index + 1) ranges (rows ++ new_chunk id index r timestamp ∷ []) rows'
        (insert_chunks-cons index r ranges rows rows' e).1
      ∙ append_assoc rows (new_chunk id index r timestamp ∷ [])
          (new_chunks id (index + 1) ranges timestamp)

  -- The inserted rows obey UNIQUE (job_id, chunk_index).
  pub insert_chunks_unique :
      (index : ℕ) (ranges : List PageRange) (rows rows' : List Chunk)
      → insert_chunks id index ranges timestamp rows ≡ some rows'
      → ((job : Text) (i : ℕ) → count_if (at_chunk job i) rows ≤ 1)
      → (job : Text) (i : ℕ) → count_if (at_chunk job i) rows' ≤ 1
  insert_chunks_unique index [] rows rows' e u job i =
      let same : rows ≡ rows' = unfold insert_chunks in cc in rw (← same) (u job i)
  insert_chunks_unique index (r ∷ ranges) rows rows' e u job i =
      let (free, rest) = insert_chunks-cons index r ranges rows rows' e in
      insert_chunks_unique (index + 1) ranges (rows ++ new_chunk id index r timestamp ∷ []) rows'
        rest (append_unique (new_chunk id index r timestamp) rows u free) job i

  -- The loop finds no duplicate where the table has no row of the job from the index on.
  pub insert_chunks-fresh :
      (index : ℕ) (ranges : List PageRange) (rows : List Chunk)
      → ((i : ℕ) → index ≤ i → exists_row (at_chunk id i) rows ≡ false)
      → insert_chunks id index ranges timestamp rows
        ≡ some (rows ++ new_chunks id index ranges timestamp)
  unfolding insert_chunks
  insert_chunks-fresh index [] rows h = ap some (sym (append-nil rows))
  insert_chunks-fresh index (r ∷ ranges) rows h = rw (h index (omega arith)) (
      insert_chunks-fresh (index + 1) ranges (rows ++ new_chunk id index r timestamp ∷ [])
        (λ i le. later i le)
      ∙ ap some (
          append_assoc rows (new_chunk id index r timestamp ∷ [])
            (new_chunks id (index + 1) ranges timestamp)))
    where
      later :
          (i : ℕ)
          → index + 1 ≤ i
          → exists_row (at_chunk id i) (rows ++ new_chunk id index r timestamp ∷ []) ≡ false
      later i le =
          rw (exists_row-append (at_chunk id i) rows (new_chunk id index r timestamp ∷ []))
            (ground (arith, h i))

  pub count-new_chunks :
      (job : Text) (index : ℕ) (ranges : List PageRange)
      → (count_if (is_open job) (new_chunks id index ranges timestamp)
          ≡ (if text_eq id job then length ranges else 0))
        × (count_if (of_chunk job) (new_chunks id index ranges timestamp)
            ≡ (if text_eq id job then length ranges else 0))
  count-new_chunks job index [] = ground arith
  count-new_chunks job index (r ∷ ranges) = ground (arith, count-new_chunks job (index + 1) ranges)
