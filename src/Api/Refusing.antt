-- ===== src/Api/Refusing.antt =====
-- api/index.py: what a request is refused with.
use mathlib.Core.Path.{subst}
use markitdown_server.Converter.{Response, download}
use markitdown_server.Prelude.{
  Option-cases, sym, inl, inr, Bool-cases, if◌then◌else◌, ℕ, ◌≡◌, refl, ap, ◌⊎◌, inl, inr, Bool,
  true, false, Option, none, some, [], ◌∷◌, ◌++◌, Text, codes, Bool-cases, text_eq, text_eq_iff,
  List,
}
use markitdown_server.Chunker.{PageRange}
use markitdown_server.Storage.{Bytes, Codec, Manifest, source_key}
use markitdown_server.Tables.{Document}
use markitdown_server.Action.{
  call, or_raise, before_call, come_to, CallOutcome, passes, lost, unconfirmed, on_raise, on_result,
  raised, diverges, Error, World, Result, returned, Action, ret, raise, ◌>>=◌, try_except,
}
use markitdown_server.Action.Ends.{
  try_except-Ends, Ends, bind-Ends, call-Ends, ret-Ends, raise-Ends, or_raise-Ends,
  publish_messages-Ends, ended,
}
use markitdown_server.Api.{
  Service, Outside, Reply, answer, http_exception, ConvertRequest, PageResponse, Submission, cached,
  guarded, verify_api_key, on_answer,
}
use markitdown_server.Api.Pages.{read_manifest, first_page_payload, payload_of, cached_payload}
use markitdown_server.Api.Submit.{
  send_source, enqueue, submit_new, submit_file, submit, submit_url, submit_request, file_required,
  default_llm, integrity_error, doc_key_of, file_hash_of, submit_checked, not_there,
  downloaded_file,
}
use markitdown_server.Worker.{put_object, or_diverges}

module _ (codec : Codec) where
  read_manifest-Ends : (doc_key : Text) → Ends (read_manifest codec doc_key)
  read_manifest-Ends doc_key = bind-Ends _ _ (call-Ends _) (λ m. or_raise-Ends _)

  first_page_payload-Ends :
      (doc_key : Text) (manifest : Manifest) → Ends (first_page_payload codec doc_key manifest)
  unfolding first_page_payload
  first_page_payload-Ends doc_key manifest =
      bind-Ends _ _ (bind-Ends _ _ (call-Ends _) (λ c. or_raise-Ends _)) (λ c. ret-Ends _)

  cached_payload-Ends :
      (doc_key : Text) (document : Option Document) → Ends (cached_payload codec doc_key document)
  unfolding cached_payload
  cached_payload-Ends doc_key none = ret-Ends none
  cached_payload-Ends doc_key (some d) = bind-Ends _ _ (read_manifest-Ends doc_key) on_manifest
    where
      on_manifest : (m : Option Manifest) → Ends (payload_of codec doc_key m)
      on_manifest none = ret-Ends none
      on_manifest (some m) = first_page_payload-Ends doc_key m

-- A call that only answers, and what is made of its answer.
answered-Ends :
    {A B : Type 0} (a : A) (f : A → Action B) → Ends (f a) → Ends (call (λ t w. (a, w)) >>= f)
unfolding call ◌>>=◌
answered-Ends a f h = record {
  in_world = λ w. by_outcome (w.schedule w.calls).outcome (before_call w);
}
  where
    by_outcome : (o : CallOutcome) (w : World) → ended (on_result f (come_to o w (a, w))).0 ≡ true
    by_outcome passes w = h.in_world w
    by_outcome (lost e) w = refl
    by_outcome (unconfirmed e) w = refl

module _ (service : Service) (outside : Outside) (job_id url : Text) (use_llm : Bool) where
  enqueue-Ends :
      (doc_key file_hash : Text) (ranges : List PageRange)
      → Ends (enqueue service outside job_id doc_key file_hash url ranges use_llm)
  unfolding enqueue
  enqueue-Ends doc_key file_hash ranges = bind-Ends _ _ (call-Ends _) (λ created.
      bind-Ends _ _ (on_created created) (λ _.
        bind-Ends _ _ (publish_messages-Ends outside.tools.is_amqp_error _) (λ _. ret-Ends _)))
    where
      on_created : (created : Bool) → Ends (if created then ret tt else raise integrity_error)
      on_created true = ret-Ends tt
      on_created false = raise-Ends integrity_error

  send_source-Ends :
      (file_hash : Text) (content : Bytes)
      → Ends (send_source outside.is_client_error file_hash content)
  send_source-Ends file_hash content =
      bind-Ends _ _ (try_except-Ends _ _ (call-Ends _) on_error) on_there
    where
      on_error : (e : Error) → Ends (not_there outside.is_client_error e)
      on_error e = elim (Bool-cases (outside.is_client_error e)) [
        | inl h ↦ rw h (ret-Ends false)
        | inr h ↦ rw h (raise-Ends e)
      ]

      on_there :
          (there : Bool)
          → Ends (if there then ret tt else put_object (source_key file_hash) content)
      on_there true = ret-Ends tt
      on_there false = call-Ends _

  -- `submit` hangs only where the server of the URL never finishes.
  submit-Ends :
      (r : Response ⊎ Error)
      → outside.respond url ≡ some r
      → Ends (submit service outside job_id url use_llm)
  unfolding submit submit_file submit_new
  submit-Ends r answers =
      bind-Ends _ _
        (subst (λ o. Ends (call (λ t w. (o, w)) >>= λ response. opened response)) (sym answers)
          (answered-Ends (some r) opened (
            bind-Ends _ _ (ret-Ends r)
              (λ a. bind-Ends _ _ (or_raise-Ends a) (λ o. or_raise-Ends _)))))
        (λ content. bind-Ends _ _ (call-Ends _) (λ document.
          bind-Ends _ _ (cached_payload-Ends outside.codec _ document) (on_payload content)))
    where
      opened : Option (Response ⊎ Error) → Action Bytes
      opened response = or_diverges response >>= λ answered. or_raise answered >>= λ o.
          or_raise (downloaded_file (download url service.max_download_bytes o))

      on_payload :
          (content : Bytes) (p : Option PageResponse)
          → Ends (elim p [
            | some p ↦ ret (cached p)
            | none ↦
                submit_new service outside job_id
                  (doc_key_of service outside content use_llm)
                  (file_hash_of service outside content)
                  url
                  use_llm
                  content
          ])
      on_payload content (some p) = ret-Ends (cached p)
      on_payload content none =
          bind-Ends _ _ (or_raise-Ends _)
            (λ ranges. bind-Ends _ _ (send_source-Ends _ content) (λ _. enqueue-Ends _ _ ranges))

-- A reply that accepts a request, or refuses it as the caller's mistake.
abbrev pub IsReply : {A : Type 0} → Reply A → Type 0
IsReply (answer a) = Unit
IsReply (http_exception status detail) = (status ≡ 400) ⊎ (status ≡ 422)

abbrev refused : Error → Action (Reply Submission)
refused e = ret (http_exception 400 (codes "Error processing URL: " ++ e.message))

-- A request ends with a reply, or hangs on a URL whose server never finishes.
abbrev pub IsAnswered : Outside → Text → Result (Reply Submission) → Type 0
IsAnswered outside url result =
    ((r : Reply Submission) × (result ≡ returned r) × IsReply r)
    ⊎ (result ≡ diverges) × (outside.respond url ≡ none)

by_result :
    (outside : Outside) (url : Text) (r : Result Submission × World)
    → (ended r.0 ≡ true) ⊎ (outside.respond url ≡ none)
    → IsAnswered outside url (on_raise refused (on_result (λ s. ret (answer s)) r)).0
by_result outside url (returned s, v) h = inl (answer s, refl, tt)
by_result outside url (raised e, v) h =
    inl (http_exception 400 (codes "Error processing URL: " ++ e.message), refl, inl refl)
by_result outside url (diverges, v) (inl h) = cc
by_result outside url (diverges, v) (inr hangs) = inr (refl, hangs)

-- The URL of a request; a request without one has the empty URL here.
abbrev pub url_of : Option ConvertRequest → Text
url_of none = []
url_of (some request) = elim request.file [ none ↦ [] | some url ↦ url ]

-- Whatever the calls of `submit` come to, and whatever the server of the URL answers, `_submit_request` does not let an exception
-- through: it replies, and refuses with no other status than 400 and 422, or it hangs, but only if that server never finishes.
pub submit_request-replies :
    (service : Service) (outside : Outside) (job_id : Text) (request : Option ConvertRequest)
    (w : World)
    → IsAnswered outside (url_of request) (submit_request service outside job_id request w).0
unfolding submit_request try_except ◌>>=◌
submit_request-replies service outside job_id none w =
    inl (file_required service outside, refl, inr refl)
submit_request-replies service outside job_id (some request) w =
    by_file (default_llm service outside request.use_llm) request.file
  where
    replied :
        (url : Text) (llm : Bool)
        → IsAnswered outside url (submit_url service outside job_id url llm w).0
    replied url llm =
        by_result outside url (submit service outside job_id url llm w)
          (elim (Option-cases (outside.respond url)) [
            | inl hangs ↦ inr hangs
            | inr (r, answers) ↦
                inl ((submit-Ends service outside job_id url llm r answers).in_world w)
          ])

    by_file :
        (llm : Bool) (file : Option Text)
        → IsAnswered outside
            (elim file [ none ↦ [] | some url ↦ url ])
            (submit_checked service outside job_id llm file w).0
    by_file llm none = inl (file_required service outside, refl, inr refl)
    by_file llm (some []) = inl (file_required service outside, refl, inr refl)
    by_file llm (some (c ∷ url)) = replied (c ∷ url) llm

-- Without ADMIN_API_KEY, or without its value in the header, an endpoint makes no call: the world stays as it is, and the reply is
-- 500 or 401. With it, the endpoint runs.
pub guarded-either :
    {A : Type 0} (service : Service) (header : Option Text) (endpoint : Action (Reply A))
    (w : World)
    → ((header ≡ service.admin_api_key) × (guarded service header endpoint w ≡ endpoint w))
      ⊎ ((status : ℕ) × (detail : Text) × ((status ≡ 401) ⊎ (status ≡ 500))
          × (guarded service header endpoint w ≡ (returned (http_exception status detail), w)))
unfolding verify_api_key
guarded-either service header endpoint w = by_key service.admin_api_key header
  where
    by_key :
        (admin header : Option Text)
        → ((header ≡ admin)
            × (on_answer (verify_api_key admin header) (λ key. endpoint) w ≡ endpoint w))
          ⊎ ((status : ℕ) × (detail : Text) × ((status ≡ 401) ⊎ (status ≡ 500))
              × (on_answer (verify_api_key admin header) (λ key. endpoint) w
                  ≡ (returned (http_exception status detail), w)))
    by_key none header = inr (500, codes "API key not configured on server", inr refl, refl)
    by_key (some []) header = inr (500, codes "API key not configured on server", inr refl, refl)
    by_key (some (c ∷ s)) none = inr (401, codes "Invalid API key", inl refl, refl)
    by_key (some (c ∷ s)) (some key) = elim (Bool-cases (text_eq key (c ∷ s))) [
      | inl e ↦
          let same : key ≡ c ∷ s = (text_eq_iff key (c ∷ s)).0 e in inl (ap some same, rw e refl)
      | inr e ↦ inr (401, codes "Invalid API key", inl refl, rw e refl)
    ]
