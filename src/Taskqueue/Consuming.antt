-- ===== src/Taskqueue/Consuming.antt =====
-- taskqueue.py's consume loop over a list of deliveries.
use markitdown_server.Prelude.{
  ℕ, ◌≡◌, refl, ap, sym, ◌∙◌, inl, inr, Bool, false, Option, none, some, List, [], ◌∷◌, ◌++◌, ◌&&◌,
  Option-cases, Bool-cases, if◌then◌else◌,
}
use markitdown_server.Storage.{Bytes}
use markitdown_server.Taskqueue.{
  ChunkTask, Outcome, fine, Delivery, stop, idle, broken, message, Effect, handled, parked, acked,
  cancel, raised, is_fine, acknowledge, serve, consume,
}

-- What the documentation promises for one message, as it is parsed.
abbrev pub served_as : ℕ → Bytes → Option ChunkTask → List Effect
served_as tag body none = parked body ∷ acked tag ∷ []
served_as tag body (some task) = handled task ∷ acked tag ∷ []

module _ (from_bytes : Bytes → Option ChunkTask) where
  -- The calls that a message takes pass: its acknowledgement, and if it cannot be parsed the publication of its copy before.
  abbrev pub passes_calls : Bytes → Outcome → Outcome → Bool
  passes_calls body publish_call ack_call = elim (from_bytes body) [
    | none ↦ is_fine publish_call && is_fine ack_call
    | some task ↦ is_fine ack_call
  ]

  -- The messages that are delivered before the loop is told to stop or one of its calls raises.
  abbrev pub taken : List Delivery → List (ℕ × Bytes)
  taken [] = []
  taken (stop ∷ ds) = []
  taken (broken ∷ ds) = []
  taken (idle ∷ ds) = taken ds
  taken (message tag body publish_call ack_call ∷ ds) =
      let rest = taken ds in
      if passes_calls body publish_call ack_call then (tag, body) ∷ rest else []

  -- What has been done for a message one of whose calls raises.
  abbrev pub unfinished : Bytes → Outcome → List Effect
  unfinished body publish_call = elim (from_bytes body) [
    | none ↦ if is_fine publish_call then parked body ∷ [] else []
    | some task ↦ handled task ∷ []
  ]

  -- The end of the loop: it is told to stop and cancels, or a call raises, behind a message that is never acknowledged.
  abbrev pub ending : List Delivery → List Effect
  ending [] = cancel ∷ []
  ending (stop ∷ ds) = cancel ∷ []
  ending (broken ∷ ds) = raised ∷ []
  ending (idle ∷ ds) = ending ds
  ending (message tag body publish_call ack_call ∷ ds) =
      let rest = ending ds in
      if passes_calls body publish_call ack_call
      then rest
      else unfinished body publish_call ++ raised ∷ []

  -- What the documentation promises for one message: it is handled, or parked if it cannot be parsed, and then acknowledged.
  abbrev pub served : ℕ × Bytes → List Effect
  served (tag, body) = served_as tag body (from_bytes body)

  abbrev pub served_all : List (ℕ × Bytes) → List Effect → List Effect
  served_all [] last = last
  served_all (m ∷ ms) last = served m ++ served_all ms last

  served-append :
      (tag : ℕ) (body : Bytes) (o : Option ChunkTask) (es : List Effect)
      → from_bytes body ≡ o
      → served (tag, body) ++ es
        ≡ elim o [ none ↦ parked body ∷ acked tag ∷ es | some task ↦ handled task ∷ acked tag ∷ es ]
  served-append tag body none es e = ap (λ o. served_as tag body o ++ es) e
  served-append tag body (some task) es e = ap (λ o. served_as tag body o ++ es) e

  serve-served_all :
      (ds : List Delivery) → serve from_bytes (λ t. false) ds ≡ served_all (taken ds) (ending ds)
  unfolding serve
  serve-served_all [] = refl
  serve-served_all (stop ∷ ds) = refl
  serve-served_all (broken ∷ ds) = refl
  serve-served_all (idle ∷ ds) = serve-served_all ds
  serve-served_all (message tag body publish_call ack_call ∷ ds) =
      elim (Option-cases (from_bytes body)) [
        | inl e ↦ elim (Bool-cases (is_fine publish_call)) [
          | inl p ↦ elim (Bool-cases (is_fine ack_call)) [
            | inl a ↦
                rw (e, p, a, serve, acknowledge, taken, ending, served_all, served, passes_calls)
                  (ap (λ x. parked body ∷ acked tag ∷ x) (serve-served_all ds)
                    ∙ sym (served-append tag body none _ e))
            | inr a ↦
                rw
                  (
                    e, p, a, serve, acknowledge, taken, ending, served_all, served, passes_calls,
                    unfinished,
                  )
                  refl
          ]
          | inr p ↦
              rw
                (
                  e, p, serve, acknowledge, taken, ending, served_all, served, passes_calls,
                  unfinished,
                )
                refl
        ]
        | inr (task, e) ↦ elim (Bool-cases (is_fine ack_call)) [
          | inl a ↦
              rw (e, a, serve, acknowledge, taken, ending, served_all, served, passes_calls)
                (ap (λ x. handled task ∷ acked tag ∷ x) (serve-served_all ds)
                  ∙ sym (served-append tag body (some task) _ e))
          | inr a ↦
              rw
                (
                  e, a, serve, acknowledge, taken, ending, served_all, served, passes_calls,
                  unfinished,
                )
                refl
        ]
      ]

  -- With a handler that never raises, once the channel is there, and whatever the other calls come to, `consume` serves exactly the
  -- messages that are delivered before it is told to stop or one of its calls raises, in order: each is handled once, or parked
  -- once if it cannot be parsed, and then acknowledged once. Told to stop, it cancels the consumer. Where a call raises, the
  -- exception leaves it behind what has been done for the message at hand, which is not acknowledged.
  pub consume-served_all :
      (ds : List Delivery)
      → consume from_bytes (λ t. false) fine fine ds ≡ served_all (taken ds) (ending ds)
  unfolding consume
  consume-served_all ds = serve-served_all ds
