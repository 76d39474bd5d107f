-- ===== src/Worker/Passing.antt =====
-- Actions whose calls pass.
use mathlib.Core.List.{append_assoc, append-nil}
use markitdown_server.Jobstore.History.{run}
use markitdown_server.Prelude.{◌++◌, ℕ, ◌+◌, ◌≡◌, refl, ap, ◌∙◌, List, [], ◌∷◌, Text, Bool}
use markitdown_server.Storage.{Bucket, Codec, found, get_part, put_pages, put_bytes, page_key}
use markitdown_server.Taskqueue.{TaskCodec, Message}
use markitdown_server.Action.{
  raised, World, passes, returned, Action, ◌>>=◌, call, Others, publish_messages, send_all,
  try_except, Error, publish_again, on_result, on_raise,
}
use markitdown_server.Worker.{Config, Tools, fetch_parts, send_pages}

-- Every call of the world's schedule passes, and no other process interferes.
abbrev pub quiet : Others
quiet = record { transactions = []; objects = λ b. b }

abbrev pub Passing : World → Type 0
Passing w = (n : ℕ) → ((w.schedule n).outcome ≡ passes) × ((w.schedule n).others ≡ quiet)

pub call-returned :
    {A : Type 0} (op : ℕ → World → A × World) (w : World)
    → Passing w
    → let r = op (w.schedule w.calls).now (record w { calls = w.calls + 1 }) in
      call op w ≡ (returned r.0, r.1)
unfolding call run
call-returned op w fine = rw ((fine w.calls).0, (fine w.calls).1) refl

-- What follows an action that returns.
pub bind-returned :
    {A B : Type 0} (m : Action A) (f : A → Action B) {a : A} {w v : World}
    → m w ≡ (returned a, v)
    → (m >>= f) w ≡ f a v
unfolding ◌>>=◌
bind-returned m f e = ap (λ r. on_result f r) e

-- What follows an action that raises is not run.
pub bind-raised :
    {A B : Type 0} (m : Action A) (f : A → Action B) {e : Error} {w v : World}
    → m w ≡ (raised e, v)
    → (m >>= f) w ≡ (raised e, v)
unfolding ◌>>=◌
bind-raised m f h = ap (λ r. on_result f r) h

-- The parts of a document that stand in the bucket under the given indices.
abbrev pub PartsAre : Codec → Text → Bucket → List ℕ → List Text → Type 0
PartsAre codec doc_key b [] [] = Unit
PartsAre codec doc_key b [] (t ∷ texts) = ⊥
PartsAre codec doc_key b (i ∷ indices) [] = ⊥
PartsAre codec doc_key b (i ∷ indices) (t ∷ texts) =
    (get_part codec doc_key i b ≡ found t) × PartsAre codec doc_key b indices texts

module _ (config : Config) (codec : Codec) (tasks : TaskCodec) (tools : Tools)
    (doc_key : Text) where
  pub fetch_parts-found :
      (indices : List ℕ) (texts : List Text) (w : World)
      → Passing w
      → PartsAre codec doc_key w.bucket indices texts
      → (n : ℕ) × (fetch_parts config codec tasks tools doc_key indices w
          ≡ (returned texts, record w { calls = n }))
  unfolding fetch_parts
  fetch_parts-found [] [] w fine parts = (w.calls, refl)
  fetch_parts-found [] (t ∷ texts) w fine parts = absurd parts
  fetch_parts-found (i ∷ indices) [] w fine parts = absurd parts
  fetch_parts-found (i ∷ indices) (t ∷ texts) w fine (here, there) =
      let (n, rest) =
        fetch_parts-found indices texts (record w { calls = w.calls + 1 }) fine there in
      (
        n,
        bind-returned _ _ (
              call-returned (λ t' w'. (get_part codec doc_key i w'.bucket, w')) w fine
              ∙ ap (λ x. (returned x, record w { calls = w.calls + 1 })) here)
            ∙ bind-returned _ _ refl
            ∙ bind-returned _ _ rest,
      )

  pub send_pages-put :
      (index : ℕ) (pages : List Text) (w : World)
      → Passing w
      → (n : ℕ) × (send_pages config codec tasks tools doc_key index pages w ≡ (
        returned tt,
        record w { bucket = put_pages codec doc_key index pages w.bucket; calls = n },
      ))
  unfolding send_pages put_pages
  send_pages-put index [] w fine = (w.calls, refl)
  send_pages-put index (p ∷ pages) w fine =
      let w' = record w {
        bucket = put_bytes (page_key doc_key index) (codec.encode p) w.bucket;
        calls = w.calls + 1;
      } in
      let (n, rest) = send_pages-put (index + 1) pages w' fine in
      (n, bind-returned _ _ (call-returned _ w fine) ∙ rest)

pub send_all-sent :
    (ms : List Message) (w : World)
    → Passing w
    → (n : ℕ) × (send_all ms w
        ≡ (returned tt, record w { published = w.published ++ ms; calls = n }))
send_all-sent [] w fine = (w.calls, rw (append-nil w.published))
send_all-sent (m ∷ ms) w fine =
    let w' = record w { published = w.published ++ m ∷ []; calls = w.calls + 1 } in
    let (n, rest) = send_all-sent ms w' fine in
    (
      n,
      bind-returned _ _ (call-returned _ w fine)
          ∙ rest
          ∙ ap (λ ps. (returned tt, record w { published = ps; calls = n }))
              (append_assoc w.published (m ∷ []) ms),
    )

-- When all calls pass, `_publish` sends every message once.
pub publish_messages-sent :
    (is_amqp_error : Error → Bool) (ms : List Message) (w : World)
    → Passing w
    → (n : ℕ) × (publish_messages is_amqp_error ms w
        ≡ (returned tt, record w { published = w.published ++ ms; calls = n }))
unfolding publish_messages try_except
publish_messages-sent is_amqp_error ms w fine =
    let (n, sent) = send_all-sent ms (record w { calls = w.calls + 1 }) fine in
    (
      n,
      ap (λ r. on_raise (publish_again is_amqp_error ms) r)
          (bind-returned _ _ (call-returned _ w fine) ∙ sent),
    )
