-- ===== src/Api/Resubmitting.antt =====
-- api/index.py's `submit` for a document that a worker has assembled.
use mathlib.Core.Path.{subst}
use markitdown_server.Prelude.{◌+◌, ◌≡◌, ap, sym, Bool, some, List, Text, length, get_elem?}
use markitdown_server.Pagination.{paginate}
use markitdown_server.Storage.{get_manifest, Bytes, manifest_of, get_page, found}
use markitdown_server.Tables.{Job}
use markitdown_server.Jobstore.{find_cached_document, new_document, get_job, chunk_indices}
use markitdown_server.Action.{World, returned}
use markitdown_server.Worker.{Config, assemble, markdown_of}
use markitdown_server.Worker.Passing.{Passing, PartsAre}
use markitdown_server.Worker.Assembly.{assembled, assemble-stores}
use markitdown_server.Api.{Service, Outside, cached, page_response}
use markitdown_server.Api.Submit.{submit_file, doc_key_of}
use markitdown_server.Api.Serving.{paginate-page}
use markitdown_server.Api.Caching.{submit_file-cached}

module _ (config : Config) (service : Service) (outside : Outside) (job : Job)
    (texts pages : List Text) (w : World) (fine : Passing w)
    (parts : PartsAre outside.codec job.doc_key w.bucket (chunk_indices job.job_id w.db) texts)
    (paginated : paginate (markdown_of texts) config.page_size ≡ some pages) where
  -- A document that a worker has assembled is not converted again: under the conditions of `assemble-stores`, and when the calls
  -- pass, submitting the same content under the same settings returns the first of the pages that were assembled, and changes
  -- and publishes nothing.
  pub submit_file-assembled :
      (j : Job) (job_id url : Text) (use_llm : Bool) (content : Bytes)
      → get_job job.job_id w.db ≡ some j
      → job.doc_key ≡ doc_key_of service outside content use_llm
      → let after = (assemble config outside.codec outside.tasks outside.tools job w).1 in
        let m =
          manifest_of outside.codec job.doc_key pages
            (length (markdown_of texts))
            config.page_size in
        (p : Text) × (get_elem? pages 0 ≡ some p)
        × (submit_file service outside job_id url use_llm content after ≡ (
          returned (cached (page_response job.doc_key 1 m p)),
          record after { calls = after.calls + 1 + 1 + 1 },
        ))
  submit_file-assembled j job_id url use_llm content found_job key =
      let (p, first) = paginate-page (markdown_of texts) config.page_size pages paginated in
      let (t, t', n, same) =
        assembled config outside.codec outside.tasks outside.tools job texts pages w fine parts
          paginated in
      let (_, manifest, page, (s, recorded), _, _, _) =
        assemble-stores config outside.codec outside.tasks outside.tools job texts pages w fine
          parts paginated j 0 p found_job first in
      let after = (assemble config outside.codec outside.tasks outside.tools job w).1 in
      let fine_after : Passing after = subst Passing (sym (ap (λ r. r.1) same)) fine in
      let d =
        new_document job.doc_key job.file_hash (length pages) job.total_chunks
          (length (markdown_of texts)) config.page_size config.document_ttl_days s in
      let m =
        manifest_of outside.codec job.doc_key pages (length (markdown_of texts)) config.page_size in
      (
        p,
        first,
        subst
            (λ k.
              find_cached_document k after.db ≡ some d
              → get_manifest outside.codec k after.bucket ≡ found m
              → get_page outside.codec k 1 after.bucket ≡ found p
              → submit_file service outside job_id url use_llm content after ≡ (
                returned (cached (page_response k 1 m p)),
                record after { calls = after.calls + 1 + 1 + 1 },
              ))
            (sym key)
            (submit_file-cached service outside job_id url use_llm content after fine_after d m p)
            recorded manifest page,
      )
