-- ===== src/Taskqueue.antt =====
-- taskqueue.py: chunk tasks, the topology of the broker, publishing and the consume loop.
-- The settings are those of config.py. `TaskCodec` stands for the standard library's JSON, of which the code
-- relies on the round trip. What the broker does with a call of pika is given as a list of outcomes, and
-- what it delivers as a list of deliveries.
pub mod Routing
pub mod Publishing
pub mod Consuming
pub mod Connecting
pub mod Ready
pub mod Tests
use markitdown_server.Prelude.{
  ℕ, zero, suc, ◌+◌, ◌*◌, ◌≡◌, Bool, true, false, Option, none, some, List, [], ◌∷◌, ◌++◌, map, min,
  if◌then◌else◌, Text, codes, length, take, ◌&&◌,
}
use markitdown_server.Prelude.Int.{ℤ}
use markitdown_server.Storage.{Bytes, decimal}

pub record Settings : Type 0 where
  pub exchange : Text
  pub queue : Text
  pub retry_delays : List ℕ
  pub max_attempts : ℕ

abbrev pub retry_exchange : Settings → Text
retry_exchange s = s.exchange ++ codes ".retry"

abbrev pub dlx_exchange : Settings → Text
dlx_exchange s = s.exchange ++ codes ".dlx"

abbrev pub failed_queue : Settings → Text
failed_queue s = s.queue ++ codes ".failed"

pub record ChunkTask : Type 0 where
  pub job_id : Text
  pub chunk_index : ℕ
  pub doc_key : Text
  pub file_hash : Text
  pub start_page : ℕ
  pub end_page : ℤ
  pub total_chunks : ℕ
  pub use_llm : Bool
  pub attempt : ℕ

unfoldable pub next_attempt : ChunkTask → ChunkTask
next_attempt task = record task { attempt = task.attempt + 1 }

-- `to_bytes`, `from_bytes` (where `none` raises) and the body that `publish_failed` writes.
pub record TaskCodec : Type 0 where
  pub to_bytes : ChunkTask → Bytes
  pub from_bytes : Bytes → Option ChunkTask
  pub failed_bytes : ChunkTask → Text → Bytes
  pub from_bytes-to_bytes : (t : ChunkTask) → from_bytes (to_bytes t) ≡ some t

-- `f"{config.RABBITMQ_QUEUE}.retry.{tier}"`
unfoldable pub tier_name : Settings → ℕ → Text
tier_name s tier = s.queue ++ (codes ".retry." ++ decimal tier)

unfoldable pub retry_queue_name : Settings → ℕ → Text
retry_queue_name s attempt = tier_name s (min attempt (length s.retry_delays))

pub record QueueArguments : Type 0 where
  pub message_ttl : Option ℕ
  pub dead_letter_exchange : Option Text
  pub dead_letter_routing_key : Option Text

pub data Declaration : Type 0 where
  exchange_declare : Text → Declaration
  queue_declare : Text → QueueArguments → Declaration
  queue_bind : Text → Text → Text → Declaration

abbrev pub retry_arguments : Settings → ℕ → QueueArguments
retry_arguments s delay = record {
  message_ttl = some (delay * 1000);
  dead_letter_exchange = some s.exchange;
  dead_letter_routing_key = some s.queue;
}

-- The `for` loop of `declare`, from a tier on.
unfoldable pub declare_tiers : Settings → ℕ → List ℕ → List Declaration
declare_tiers s tier [] = []
declare_tiers s tier (delay ∷ delays) =
    queue_declare (tier_name s tier) (retry_arguments s delay)
    ∷ queue_bind (tier_name s tier) (retry_exchange s) (tier_name s tier)
    ∷ declare_tiers s (tier + 1) delays

abbrev pub no_arguments : QueueArguments
no_arguments = record {
  message_ttl = none;
  dead_letter_exchange = none;
  dead_letter_routing_key = none;
}

-- The calls that `declare` makes on a channel, in order.
unfoldable pub declare : Settings → List Declaration
declare s =
    exchange_declare s.exchange
    ∷ exchange_declare (retry_exchange s)
    ∷ exchange_declare (dlx_exchange s)
    ∷ queue_declare s.queue (record no_arguments { dead_letter_exchange = some (dlx_exchange s) })
    ∷ queue_bind s.queue s.exchange s.queue
    ∷ (declare_tiers s 1 s.retry_delays
        ++ queue_declare (failed_queue s) no_arguments
          ∷ queue_bind (failed_queue s) (dlx_exchange s) s.queue
          ∷ [])

pub record Message : Type 0 where
  pub exchange : Text
  pub routing_key : Text
  pub body : Bytes

-- What a call of the broker comes to: it is done, it raises an AMQPError, or it raises another exception.
pub data Outcome : Type 0 where
  fine amqp_error other_error : Outcome

-- Where a pass over the bodies ends, with what it sent and the outcomes of the calls to come.
pub record Pass : Type 0 where
  pub ended : Outcome
  pub sent : List Bytes
  pub outcomes : List Outcome

-- `for body in bodies: ch.basic_publish(…)`; the calls past the list of outcomes are fine.
unfoldable pub publish_bodies : List Bytes → List Outcome → Pass
publish_bodies [] outcomes = record { ended = fine; sent = []; outcomes = outcomes }
publish_bodies (b ∷ bodies) [] = let p = publish_bodies bodies [] in record p { sent = b ∷ p.sent }
publish_bodies (b ∷ bodies) (fine ∷ outcomes) =
    let p = publish_bodies bodies outcomes in record p { sent = b ∷ p.sent }
publish_bodies (b ∷ bodies) (amqp_error ∷ outcomes) = record {
  ended = amqp_error;
  sent = [];
  outcomes = outcomes;
}
publish_bodies (b ∷ bodies) (other_error ∷ outcomes) = record {
  ended = other_error;
  sent = [];
  outcomes = outcomes;
}

-- `ch = channel()` and the loop: the first outcome is that of `channel`.
unfoldable pub publish_pass : List Bytes → List Outcome → Pass
unfolding publish_bodies
publish_pass bodies [] = publish_bodies bodies []
publish_pass bodies (fine ∷ outcomes) = publish_bodies bodies outcomes
publish_pass bodies (e ∷ outcomes) = record { ended = e; sent = []; outcomes = outcomes }

-- After an AMQPError the connection is closed and all bodies are published again; any other error, and one of
-- the second pass, is raised.
unfoldable pub second_pass : List Bytes → Pass → Pass
unfolding publish_pass
second_pass bodies p = elim p.ended [
  | fine ↦ p
  | amqp_error ↦ let q = publish_pass bodies p.outcomes in record q { sent = p.sent ++ q.sent }
  | other_error ↦ p
]

-- `_publish`: how it ends and which bodies were sent.
unfoldable pub publish_all : List Bytes → List Outcome → Pass
unfolding second_pass
publish_all bodies outcomes = second_pass bodies (publish_pass bodies outcomes)

abbrev pub as_message : Text → Text → Bytes → Message
as_message exchange routing_key body = record {
  exchange = exchange;
  routing_key = routing_key;
  body = body;
}

module _ (s : Settings) (codec : TaskCodec) where
  open codec use {to_bytes, from_bytes, failed_bytes}

  -- The messages that `publish`, `publish_retry` and `publish_failed` hand to `_publish`.
  unfoldable pub publish : List ChunkTask → List Message
  publish tasks = map (λ t. as_message s.exchange s.queue (to_bytes t)) tasks

  unfoldable pub publish_retry : ChunkTask → Message
  publish_retry task =
      as_message (retry_exchange s) (retry_queue_name s task.attempt) (to_bytes (next_attempt task))

  unfoldable pub publish_failed : ChunkTask → Text → Message
  publish_failed task error =
      as_message (dlx_exchange s) s.queue (failed_bytes task (take 2000 error))

-- What an iteration of the loop is given: `should_stop` is true, no message, an error of `ch.consume`, or a message with its tag and
-- body, and what `basic_publish`, if it is called, and `basic_ack` come to for it.
pub data Delivery : Type 0 where
  stop : Delivery
  idle : Delivery
  broken : Delivery
  message : ℕ → Bytes → Outcome → Outcome → Delivery

-- What the loop does, in order. `cancel` is its regular end, where an error of `ch.cancel` is only logged; after `raised` an
-- exception leaves it.
pub data Effect : Type 0 where
  handled : ChunkTask → Effect
  parked : Bytes → Effect
  acked : ℕ → Effect
  cancel : Effect
  raised : Effect

abbrev pub is_fine : Outcome → Bool
is_fine fine = true
is_fine amqp_error = false
is_fine other_error = false

-- `ch.basic_ack(method.delivery_tag)`, and what follows it
abbrev pub acknowledge : ℕ → Outcome → List Effect → List Effect
acknowledge tag ack rest = if is_fine ack then acked tag ∷ rest else raised ∷ []

-- The `for` loop of `consume` and what is behind it, for a handler that raises on the tasks given by a test.
unfoldable pub serve : (Bytes → Option ChunkTask) → (ChunkTask → Bool) → List Delivery → List Effect
serve from_bytes raises [] = cancel ∷ []
serve from_bytes raises (stop ∷ ds) = cancel ∷ []
serve from_bytes raises (broken ∷ ds) = raised ∷ []
serve from_bytes raises (idle ∷ ds) = serve from_bytes raises ds
serve from_bytes raises (message tag body publish_call ack_call ∷ ds) =
    let rest = serve from_bytes raises ds in
    elim (from_bytes body) [
      | none ↦
          if is_fine publish_call then parked body ∷ acknowledge tag ack_call rest else raised ∷ []
      | some task ↦
          handled task ∷ acknowledge tag ack_call (if raises task then raised ∷ [] else rest)
    ]

-- `consume`, by what `channel()` and `basic_qos` come to.
unfoldable pub consume :
    (Bytes → Option ChunkTask)
    → (ChunkTask → Bool)
    → Outcome
    → Outcome
    → List Delivery
    → List Effect
unfolding serve
consume from_bytes raises channel_call qos_call ds =
    if is_fine channel_call && is_fine qos_call then serve from_bytes raises ds else raised ∷ []
