-- ===== src/Jobstore/Fresh.antt =====
-- jobstore.py: the tables just after `create_job`, for a job id that no row had.
use mathlib.Core.Path.{subst}
use markitdown_server.Prelude.{
  ℕ, ◌+◌, ◌<◌, ◌≡◌, refl, ap, ◌∙◌, Bool, false, ◌&&◌, some, List, [], ◌∷◌, ◌++◌, arith, count_if,
  keep_if, map, Text, text_eq_refl, leb, ltb, length, if◌then◌else◌,
}
use markitdown_server.Prelude.Int.{pos}
use markitdown_server.Sql.{select_first-append, count_if-append, order_by, insert_sorted}
use markitdown_server.Chunker.{PageRange}
use markitdown_server.Tables.{Chunk, Database, of_job, of_chunk, open_chunk, is_open, exists_row}
use markitdown_server.Jobstore.{new_job, get_job, chunk_indices, ℤ}
use markitdown_server.Jobstore.History.{commit, create, or_unchanged}
use markitdown_server.Jobstore.Rows.{new_chunks}
use markitdown_server.Jobstore.Creating.{create_job-fresh}
use markitdown_server.Jobstore.Assembler.{exists_row-none}
use markitdown_server.Jobstore.Invariant.{WellFormed, counter}
use markitdown_server.Jobstore.WellFormed.{commit-WellFormed}

-- The indices of the ranges of a plan.
abbrev pub indices_from : ℕ → List PageRange → List ℕ
indices_from index [] = []
indices_from index (r ∷ ranges) = index ∷ indices_from (index + 1) ranges

order_by-indices_from :
    (index : ℕ) (ranges : List PageRange)
    → order_by (indices_from index ranges) ≡ indices_from index ranges
order_by-indices_from index [] = refl
order_by-indices_from index (r ∷ []) = refl
order_by-indices_from index (r ∷ q ∷ ranges) =
    ap (λ ns. insert_sorted index ns) (order_by-indices_from (index + 1) (q ∷ ranges))
    ∙ ground arith

none_kept :
    (id : Text) (rows : List Chunk)
    → exists_row (of_chunk id) rows ≡ false
    → keep_if (of_chunk id) rows ≡ []
none_kept id [] h = refl
none_kept id (c ∷ rows) h = ground (arith, none_kept id rows)

keep_if-append :
    (p : Chunk → Bool) (xs ys : List Chunk) → keep_if p (xs ++ ys) ≡ keep_if p xs ++ keep_if p ys
keep_if-append p [] ys = refl
keep_if-append p (x ∷ xs) ys = ground (arith, keep_if-append p xs ys)

none_open :
    (id : Text) (i : ℕ) (rows : List Chunk)
    → exists_row (of_chunk id) rows ≡ false
    → count_if (open_chunk id i) rows ≡ 0
none_open id i [] h = refl
none_open id i (c ∷ rows) h = ground (arith, none_open id i rows)

module _ (id : Text) (t : ℕ) where
  indices-new_chunks :
      (index : ℕ) (ranges : List PageRange)
      → map (λ c. c.chunk_index) (keep_if (of_chunk id) (new_chunks id index ranges t))
        ≡ indices_from index ranges
  indices-new_chunks index [] = refl
  indices-new_chunks index ((start, end) ∷ ranges) =
      rw (text_eq_refl id) (ap (λ ns. index ∷ ns) (indices-new_chunks (index + 1) ranges))

  open-new_chunks :
      (i index : ℕ) (ranges : List PageRange)
      → count_if (open_chunk id i) (new_chunks id index ranges t)
        ≡ (if leb index i && ltb i (index + length ranges) then 1 else 0)
  open-new_chunks i index [] = ground arith
  open-new_chunks i index ((start, end) ∷ ranges) =
      ground (arith, text_eq_refl id, open-new_chunks i (index + 1) ranges)

  module _ (key hash url : Text) (ranges : List PageRange) (llm : Bool) (db : Database)
      (no_job : exists_row (of_job id) db.jobs ≡ false)
      (no_chunks : exists_row (of_chunk id) db.chunks ≡ false) where
    abbrev pub fresh : Database
    fresh = record db {
      jobs = db.jobs ++ new_job id key hash url (length ranges) llm t ∷ [];
      chunks = db.chunks ++ new_chunks id 0 ranges t;
    }

    pub fresh-WellFormed : WellFormed db → WellFormed fresh
    unfolding commit
    fresh-WellFormed w =
        subst WellFormed
          (ap (λ o. or_unchanged db o)
            (create_job-fresh id t key hash url ranges llm db no_job no_chunks))
          (commit-WellFormed (create id key hash url ranges llm) t db w tt)

    pub get_job-fresh : get_job id fresh ≡ some (new_job id key hash url (length ranges) llm t)
    unfolding get_job
    get_job-fresh =
        select_first-append (of_job id) db.jobs (new_job id key hash url (length ranges) llm t ∷ [])
        ∙ (rw (exists_row-none id db.jobs no_job, text_eq_refl id) refl)

    pub is_open-fresh : WellFormed db → count_if (is_open id) fresh.chunks ≡ length ranges
    is_open-fresh w =
        let same : ◌≡◌ {A = ℤ} (pos (length ranges)) (pos (count_if (is_open id) fresh.chunks)) =
          counter fresh id (new_job id key hash url (length ranges) llm t) (fresh-WellFormed w)
            get_job-fresh refl in
        ground arith

    pub chunk_indices-fresh : chunk_indices id fresh ≡ indices_from 0 ranges
    unfolding chunk_indices
    chunk_indices-fresh =
        ap (λ rows. order_by (map (λ c. c.chunk_index) rows))
          (keep_if-append (of_chunk id) db.chunks (new_chunks id 0 ranges t)
            ∙ ap (λ rows. rows ++ keep_if (of_chunk id) (new_chunks id 0 ranges t))
                (none_kept id db.chunks no_chunks))
        ∙ ap order_by (indices-new_chunks 0 ranges)
        ∙ order_by-indices_from 0 ranges

    pub open-fresh : (i : ℕ) → i < length ranges → count_if (open_chunk id i) fresh.chunks ≡ 1
    open-fresh i h =
        count_if-append (open_chunk id i) db.chunks (new_chunks id 0 ranges t)
        ∙ ground (arith, none_open id i db.chunks no_chunks, open-new_chunks i 0 ranges)
