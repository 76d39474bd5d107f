-- ===== src/Api/Steps.antt =====
-- The calls that api/index.py's `submit` makes, and relations that hold of each of them.
use markitdown_server.Prelude.{
  inl, inr, Bool-cases, Bool, true, false, Option, none, some, List, Text, if◌then◌else◌,
}
use markitdown_server.Action.{World, Action, ret, ◌>>=◌, Error}
use markitdown_server.Action.Moves.{
  try_except-Moves, raise-Moves, Closed, Moves, bind-Moves, read-Moves, or_raise-Moves, ret-Moves,
  call-Moves,
}
use markitdown_server.Storage.{Bytes, Codec, Manifest, put_bytes, source_key}
use markitdown_server.Api.{Service, Outside, PageResponse, cached}
use markitdown_server.Api.Pages.{read_manifest, first_page_payload, cached_payload, payload_of}
use markitdown_server.Api.Submit.{
  send_source, enqueue, submit_new, submit_file, submit, doc_key_of, file_hash_of, not_there,
}
use markitdown_server.Worker.{put_object, or_diverges}
use markitdown_server.Tables.{Document}
use markitdown_server.Chunker.{PageRange}

module _ (R : World → World → Type 0) (closed : Closed R)
    (on_object : (key : Text) (body : Bytes) (w : World)
      → R w (record w { bucket = put_bytes key body w.bucket })) where
  or_diverges-Moves : {A : Type 0} (r : Option A) → Moves R (or_diverges r)
  or_diverges-Moves none = record { behind = λ w. closed.here w }
  or_diverges-Moves (some a) = ret-Moves R closed a

  bind :
      {A B : Type 0} (m : Action A) (f : A → Action B)
      → Moves R m
      → ((a : A) → Moves R (f a))
      → Moves R (m >>= f)
  bind m f = bind-Moves R closed m f

  module _ (codec : Codec) where
    read_manifest-Moves : (doc_key : Text) → Moves R (read_manifest codec doc_key)
    read_manifest-Moves doc_key = bind _ _ (read-Moves R closed _) (λ m. or_raise-Moves R closed _)

    first_page_payload-Moves :
        (doc_key : Text) (manifest : Manifest) → Moves R (first_page_payload codec doc_key manifest)
    unfolding first_page_payload
    first_page_payload-Moves doc_key manifest =
        bind _ _ (bind _ _ (read-Moves R closed _) (λ c. or_raise-Moves R closed _))
          (λ c. ret-Moves R closed _)

    cached_payload-Moves :
        (doc_key : Text) (document : Option Document)
        → Moves R (cached_payload codec doc_key document)
    unfolding cached_payload
    cached_payload-Moves doc_key none = ret-Moves R closed none
    cached_payload-Moves doc_key (some d) = bind _ _ (read_manifest-Moves doc_key) on_manifest
      where
        on_manifest : (m : Option Manifest) → Moves R (payload_of codec doc_key m)
        on_manifest none = ret-Moves R closed none
        on_manifest (some m) = first_page_payload-Moves doc_key m

  send_source-Moves :
      (is_client_error : Error → Bool) (file_hash : Text) (content : Bytes)
      → Moves R (send_source is_client_error file_hash content)
  send_source-Moves is_client_error file_hash content =
      bind _ _ (try_except-Moves R closed _ _ (read-Moves R closed _) on_error) on_there
    where
      on_error : (e : Error) → Moves R (not_there is_client_error e)
      on_error e = elim (Bool-cases (is_client_error e)) [
        | inl h ↦ rw h (ret-Moves R closed false)
        | inr h ↦ rw h (raise-Moves R closed e)
      ]

      on_there :
          (there : Bool)
          → Moves R (if there then ret tt else put_object (source_key file_hash) content)
      on_there true = ret-Moves R closed tt
      on_there false = call-Moves R closed _ (λ t w. on_object (source_key file_hash) content w)

  module _ (service : Service) (outside : Outside) (job_id url : Text) (use_llm : Bool)
      (on_enqueue : (doc_key file_hash : Text) (ranges : List PageRange)
        → Moves R (enqueue service outside job_id doc_key file_hash url ranges use_llm)) where
    submit_new-Moves :
        (doc_key file_hash : Text) (content : Bytes)
        → Moves R (submit_new service outside job_id doc_key file_hash url use_llm content)
    unfolding submit_new
    submit_new-Moves doc_key file_hash content = bind _ _ (or_raise-Moves R closed _) (λ ranges.
        bind _ _ (send_source-Moves outside.is_client_error file_hash content)
          (λ _. on_enqueue doc_key file_hash ranges))

    submit_file-Moves :
        (content : Bytes) → Moves R (submit_file service outside job_id url use_llm content)
    unfolding submit_file
    submit_file-Moves content = bind _ _ (read-Moves R closed _) (λ document.
        bind _ _
          (cached_payload-Moves outside.codec (doc_key_of service outside content use_llm) document)
          on_payload)
      where
        on_payload :
            (p : Option PageResponse)
            → Moves R (elim p [
              | some p ↦ ret (cached p)
              | none ↦
                  submit_new service outside job_id
                    (doc_key_of service outside content use_llm)
                    (file_hash_of service outside content)
                    url
                    use_llm
                    content
            ])
        on_payload (some p) = ret-Moves R closed (cached p)
        on_payload none = submit_new-Moves _ _ content

    pub submit-Moves : Moves R (submit service outside job_id url use_llm)
    unfolding submit
    submit-Moves =
        bind _ _
          (bind _ _ (read-Moves R closed _) (λ r.
            bind _ _ (or_diverges-Moves r)
              (λ a. bind _ _ (or_raise-Moves R closed a) (λ o. or_raise-Moves R closed _))))
          submit_file-Moves
