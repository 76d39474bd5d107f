-- ===== src/Api/Caching.antt =====
-- api/index.py: submitting a document that the cache serves.
use markitdown_server.Prelude.{◌+◌, ◌≡◌, ap, ◌∙◌, Bool, some, Text}
use markitdown_server.Storage.{found, get_page, Manifest, Bytes, get_manifest}
use markitdown_server.Tables.{Document}
use markitdown_server.Jobstore.{find_cached_document}
use markitdown_server.Action.{or_raise, World, returned}
use markitdown_server.Worker.Passing.{Passing, call-returned, bind-returned}
use markitdown_server.Api.{cached, page_response, read_fetched, Service, Outside}
use markitdown_server.Api.Pages.{cached_payload, first_page_payload}
use markitdown_server.Api.Submit.{doc_key_of, submit_file}

module _ (service : Service) (outside : Outside) (job_id url : Text) (use_llm : Bool)
    (content : Bytes) (w : World) (fine : Passing w) where
  abbrev cached_key : Text
  cached_key = doc_key_of service outside content use_llm

  -- When its calls pass and the document is recorded and stored, `submit` returns its first page, and neither the tables nor the
  -- bucket nor what is published have changed.
  pub submit_file-cached :
      (d : Document) (m : Manifest) (page : Text)
      → find_cached_document cached_key w.db ≡ some d
      → get_manifest outside.codec cached_key w.bucket ≡ found m
      → get_page outside.codec cached_key 1 w.bucket ≡ found page
      → submit_file service outside job_id url use_llm content w ≡ (
        returned (cached (page_response cached_key 1 m page)),
        record w { calls = w.calls + 1 + 1 + 1 },
      )
  unfolding submit_file cached_payload first_page_payload
  submit_file-cached d m page recorded stored first =
      bind-returned _ _
        (call-returned _ w fine ∙ ap (λ o. (returned o, record w { calls = w.calls + 1 })) recorded)
      ∙ bind-returned _ _ (
          bind-returned _ _ (
            bind-returned _ _ (call-returned _ _ fine)
            ∙ ap (λ f. or_raise (read_fetched f) (record w { calls = w.calls + 1 + 1 })) stored)
          ∙ bind-returned _ _ (
              bind-returned _ _ (call-returned _ _ fine)
              ∙ ap (λ f. or_raise (read_fetched f) (record w { calls = w.calls + 1 + 1 + 1 }))
                  first))
