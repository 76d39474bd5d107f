-- ===== src/Jobstore/Documents.antt =====
-- What `find_cached_document` finds.
use markitdown_server.Prelude.{
  ℕ, ◌≡◌, refl, Bool, true, not, none, some, List, [], ◌∷◌, keep_if, Text, arith, text_eq,
  text_eq_refl,
}
use markitdown_server.Sql.{select_first, select_first-append}
use markitdown_server.Tables.{Document, Database}
use markitdown_server.Jobstore.{
  get_job, find_cached_document, record_document, finish_job, new_document,
}

select_first-keep_if :
    {A : Type 0} (p : A → Bool) (xs : List A) → select_first p (keep_if (λ x. not (p x)) xs) ≡ none
select_first-keep_if p [] = refl
select_first-keep_if p (x ∷ xs) = ground (arith, select_first-keep_if p xs)

module _ (doc_key file_hash : Text) (pages chunks len page_size ttl created : ℕ)
    (db : Database) where
  abbrev row : Document
  row = new_document doc_key file_hash pages chunks len page_size ttl created

  row-found : text_eq row.doc_key doc_key ≡ true
  row-found = unfold new_document in text_eq_refl doc_key

  -- A document that has been recorded is found under its key, whatever was recorded under it before.
  pub find_cached_document-record_document :
      find_cached_document doc_key
        (record_document doc_key file_hash pages chunks len page_size ttl created db)
      ≡ some row
  unfolding find_cached_document record_document
  find_cached_document-record_document =
      let is_key : Document → Bool = λ d. text_eq d.doc_key doc_key in
      rw
        (
          select_first-append is_key (keep_if (λ d. not (text_eq d.doc_key doc_key)) db.documents)
              (row ∷ []),
          select_first-keep_if is_key db.documents,
          row-found,
        )
        refl

pub find_cached_document-finish_job :
    (doc_key id : Text) (now : ℕ) (db : Database)
    → find_cached_document doc_key (finish_job id now db) ≡ find_cached_document doc_key db
find_cached_document-finish_job doc_key id now db = unfold find_cached_document finish_job in refl

pub get_job-record_document :
    (id doc_key file_hash : Text) (pages chunks len page_size ttl created : ℕ) (db : Database)
    → get_job id (record_document doc_key file_hash pages chunks len page_size ttl created db)
      ≡ get_job id db
get_job-record_document id doc_key file_hash pages chunks len page_size ttl created db =
    unfold get_job record_document in refl
