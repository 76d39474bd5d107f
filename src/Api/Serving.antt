-- ===== src/Api/Serving.antt =====
-- api/index.py: reading the pages of a document that a worker has stored.
use mathlib.Core.Path.{subst}
use markitdown_server.Prelude.{
  ℕ, zero, suc, ◌+◌, ◌≤◌, ◌<◌, ◌≡◌, refl, ap, ◌∙◌, inl, inr, true, false, Option, none, some, List,
  [], ◌∷◌, Text, arith, length, get_elem?, if◌then◌else◌, >>=-eq-some, Option-cases, not, ◌||◌,
  ◌++◌, Bool-cases,
}
use markitdown_server.Prelude.Int.{ℤ, pos, negsuc}
use markitdown_server.Pagination.{
  Paging, start, split_blocks, add_blocks, paginate, close, is_empty, Paging, add_blocks, start,
  split_blocks,
}
use markitdown_server.Storage.{
  Codec, Manifest, found, get_manifest, get_page, put_document, manifest_of,
}
use markitdown_server.Storage.Bucket.{get-put_document}
use markitdown_server.Taskqueue.{TaskCodec}
use markitdown_server.Tables.{Job}
use markitdown_server.Jobstore.{chunk_indices}
use markitdown_server.Action.{World, returned}
use markitdown_server.Worker.{Config, Tools, assemble, markdown_of}
use markitdown_server.Worker.Passing.{Passing, PartsAre, call-returned, bind-returned}
use markitdown_server.Worker.Assembly.{assembled, stored}
use markitdown_server.Api.{Reply, answer, not_found, page_response, PageResponse}
use markitdown_server.Api.Pages.{
  read_manifest, read_page, first_page_payload, get_page_endpoint, completed_job_payload,
  is_outside, is_failed,
}

-- The page of a number, from 1 on.
abbrev pub page_at : List Text → ℤ → Option Text
page_at pages (pos zero) = none
page_at pages (pos (suc i)) = get_elem? pages i
page_at pages (negsuc n) = none

-- What the endpoint replies to a request for a page.
abbrev pub page_reply : Text → Manifest → ℕ → Option Text → Reply PageResponse
page_reply doc_key manifest number none = not_found
page_reply doc_key manifest number (some page) = answer (page_response doc_key number manifest page)

abbrev pub number_of : ℤ → ℕ
number_of (pos n) = n
number_of (negsuc n) = 0

get_elem?-in_range :
    (pages : List Text) (i : ℕ) (p : Text) → get_elem? pages i ≡ some p → i < length pages
get_elem?-in_range [] i p e = cc
get_elem?-in_range (q ∷ pages) zero p e = omega arith
get_elem?-in_range (q ∷ pages) (suc i) p e = omega (arith, get_elem?-in_range pages i p e)

get_elem?-beyond : (pages : List Text) (i : ℕ) → get_elem? pages i ≡ none → length pages ≤ i
get_elem?-beyond [] i e = omega arith
get_elem?-beyond (q ∷ pages) zero e = cc
get_elem?-beyond (q ∷ pages) (suc i) e = omega (arith, get_elem?-beyond pages i e)

module _ (codec : Codec) (doc_key : Text) (pages : List Text) (total_length page_size : ℕ)
    (w : World) (fine : Passing w) where
  abbrev manifest : Manifest
  manifest = manifest_of codec doc_key pages total_length page_size

  module _ (stored : get_manifest codec doc_key w.bucket ≡ found manifest)
      (pages_stored : (i : ℕ) (p : Text)
        → get_elem? pages i ≡ some p
        → get_page codec doc_key (suc i) w.bucket ≡ found p) where
    manifest_read :
        read_manifest codec doc_key w ≡ (returned (some manifest), record w { calls = w.calls + 1 })
    manifest_read = bind-returned _ _ (call-returned _ w fine) ∙ (rw stored refl)

    page_read :
        (i n : ℕ) (p : Text)
        → get_elem? pages i ≡ some p
        → let v = record w { calls = n } in
          read_page codec doc_key (suc i) v ≡ (returned (some p), record v { calls = n + 1 })
    page_read i n p e =
        bind-returned _ _ (call-returned _ (record w { calls = n }) fine)
        ∙ (rw (pages_stored i p e) refl)

    -- The endpoint on a document that is stored.
    pub get_page_endpoint-stored :
        (page : ℤ)
        → (get_page_endpoint codec doc_key page w).0
          ≡ returned (page_reply doc_key manifest (number_of page) (page_at pages page))
    unfolding get_page_endpoint
    get_page_endpoint-stored (pos zero) = ap (λ r. r.0) (bind-returned _ _ manifest_read)
    get_page_endpoint-stored (negsuc n) =
        let out : is_outside (negsuc n) (length pages) ≡ true = ground arith in
        ap (λ r. r.0) (bind-returned _ _ manifest_read) ∙ (rw out refl)
    get_page_endpoint-stored (pos (suc i)) = elim (Option-cases (get_elem? pages i)) [
      | inl e ↦
          let beyond = get_elem?-beyond pages i e in
          let out : is_outside (pos (suc i)) (length pages) ≡ true = ground arith in
          ap (λ r. r.0) (bind-returned _ _ manifest_read) ∙ (rw (out, e) refl)
      | inr (p, e) ↦
          let within = get_elem?-in_range pages i p e in
          let inside : is_outside (pos (suc i)) (length pages) ≡ false = ground arith in
          ap (λ r. r.0) (bind-returned _ _ manifest_read)
          ∙ (rw (inside, e) (ap (λ r. r.0) (bind-returned _ _ (page_read i (w.calls + 1) p e))))
    ]

    completed_job_payload-at :
        (j : Job) (p : Text)
        → is_failed j.status ≡ false
        → get_elem? pages 0 ≡ some p
        → (completed_job_payload codec (record j { doc_key = doc_key }) w).0
          ≡ returned (answer (page_response doc_key 1 manifest p))
    unfolding completed_job_payload first_page_payload
    completed_job_payload-at j p not_failed first = rw not_failed (
        ap (λ r. r.0)
          (bind-returned _ _ manifest_read
            ∙ bind-returned _ _ (bind-returned _ _ (page_read 0 (w.calls + 1) p first))))

    -- What `completed_job_payload` replies for a job that has not failed.
    pub completed_job_payload-stored :
        (j : Job) (p : Text)
        → j.doc_key ≡ doc_key
        → is_failed j.status ≡ false
        → get_elem? pages 0 ≡ some p
        → (completed_job_payload codec j w).0
          ≡ returned (answer (page_response doc_key 1 manifest p))
    completed_job_payload-stored j p key not_failed first =
        ap (λ k. (completed_job_payload codec (record j { doc_key = k }) w).0) key
        ∙ completed_job_payload-at j p not_failed first

-- `close` leaves a page.
close-page : (s : Paging) → (p : Text) × (get_elem? (close s) 0 ≡ some p)
unfolding close
close-page s = first_of s.pages
  where
    first_of :
        (pages : List Text)
        → (p : Text) × (get_elem?
              (if not (is_empty s.current) || is_empty pages
                then pages ++ s.current ∷ []
                else pages)
              0
            ≡ some p)
    first_of [] = elim (Bool-cases (is_empty s.current)) [
      | inl e ↦ (s.current, rw e refl)
      | inr e ↦ (s.current, rw e refl)
    ]
    first_of (q ∷ pages) = elim (Bool-cases (is_empty s.current)) [
      | inl e ↦ (q, rw e refl)
      | inr e ↦ (q, rw e refl)
    ]

-- What `paginate` returns has a first page.
pub paginate-page :
    (content : Text) (page_size : ℕ) (pages : List Text)
    → paginate content page_size ≡ some pages
    → (p : Text) × (get_elem? pages 0 ≡ some p)
unfolding paginate
paginate-page [] page_size pages e = ([], cc)
paginate-page (c ∷ content) page_size pages e =
    let (s, added, closed) =
      >>=-eq-some (add_blocks page_size start (split_blocks (c ∷ content))) (λ s. some (close s))
        e in
    let (p, first) = close-page s in
    let same : close s ≡ pages = cc in (p, subst (λ ps. get_elem? ps 0 ≡ some p) same first)

module _ (config : Config) (codec : Codec) (tasks : TaskCodec) (tools : Tools) (job : Job)
    (texts pages : List Text) (w : World) (fine : Passing w)
    (parts : PartsAre codec job.doc_key w.bucket (chunk_indices job.job_id w.db) texts)
    (paginated : paginate (markdown_of texts) config.page_size ≡ some pages) where
  -- What a worker assembles is what the API serves: under the conditions of `assemble-stores`, `get_page_endpoint` replies to a
  -- request for any page number with that page of `pages`, from 1 on, and with 404 if there is none; and `convert_endpoint`
  -- ends a job of that document that has not failed with the first page.
  pub get_page_endpoint-assemble :
      (page : ℤ) (j : Job)
      → j.doc_key ≡ job.doc_key
      → is_failed j.status ≡ false
      → let after = (assemble config codec tasks tools job w).1 in
        let m = manifest_of codec job.doc_key pages (length (markdown_of texts)) config.page_size in
        ((get_page_endpoint codec job.doc_key page after).0
          ≡ returned (page_reply job.doc_key m (number_of page) (page_at pages page)))
        × (p : Text) × (get_elem? pages 0 ≡ some p)
        × ((completed_job_payload codec j after).0
            ≡ returned (answer (page_response job.doc_key 1 m p)))
  get_page_endpoint-assemble page j key not_failed =
      let (t, t', n, same) =
        assembled config codec tasks tools job texts pages w fine parts paginated in
      let (p, first) = paginate-page (markdown_of texts) config.page_size pages paginated in
      let total = length (markdown_of texts) in
      let after = record w {
        db = stored config codec tasks tools job texts pages w fine parts paginated t t';
        bucket = put_document codec job.doc_key pages total config.page_size w.bucket;
        calls = n;
      } in
      rw same (
        get_page_endpoint-stored codec job.doc_key pages total config.page_size after fine
            (written 0 p first).0 (λ i q e. page_stored i q (written i q e).1) page,
        p,
        first,
        completed_job_payload-stored codec job.doc_key pages total config.page_size after fine
            (written 0 p first).0 (λ i q e. page_stored i q (written i q e).1) j p key not_failed
            first,
      )
    where
      written :
          (i : ℕ) (q : Text)
          → get_elem? pages i ≡ some q
          → let b =
              put_document codec job.doc_key pages
                (length (markdown_of texts))
                config.page_size
                w.bucket in
            (get_manifest codec job.doc_key b
              ≡ found (
                  manifest_of codec job.doc_key pages
                    (length (markdown_of texts))
                    config.page_size))
            × (get_page codec job.doc_key (i + 1) b ≡ found q)
      written i q e =
          get-put_document codec job.doc_key pages (length (markdown_of texts)) config.page_size
            w.bucket i q e

      page_stored :
          (i : ℕ) (q : Text)
          → (let b =
                put_document codec job.doc_key pages
                  (length (markdown_of texts))
                  config.page_size
                  w.bucket in
              get_page codec job.doc_key (i + 1) b ≡ found q
              → get_page codec job.doc_key (suc i) b ≡ found q)
      page_stored i q e = let at : i + 1 ≡ suc i = omega arith in rw (← at) e
