-- ===== src/Taskqueue/Connecting.antt =====
-- taskqueue.py: `connect`, `channel`, `close` and `health` on a thread's connection. Each call of pika takes the next of the given
-- outcomes; the calls past the list are fine. Each call of `declare` is one of them. `stays` says whether the connection stays open when
-- a call on it raises: an error of the channel leaves it open, a loss of the connection does not.
use markitdown_server.Prelude.{ℕ, Bool, true, false, Option, none, some, List, [], ◌∷◌, ◌++◌}
use markitdown_server.Taskqueue.{
  Settings, Declaration, declare, Outcome, fine, amqp_error, other_error,
}

-- `_local`: whether the connection is open, if there is one, and what has been declared on the channel, if there is one.
pub record Thread : Type 0 where
  pub connection : Option Bool
  pub channel : Option (List Declaration)

-- How a call of this module ends, with the outcomes of the calls to come and the thread behind it.
pub record Reached : Type 0 where
  pub ended : Outcome
  pub outcomes : List Outcome
  pub thread : Thread

abbrev next : List Outcome → Outcome
next [] = fine
next (o ∷ os) = o

abbrev later : List Outcome → List Outcome
later [] = []
later (o ∷ os) = os

-- `declare(_local.channel)`, from the calls that have been made on.
unfoldable pub declare_on :
    Bool → List Declaration → List Declaration → List Outcome → Thread → Reached
declare_on stays made [] os t = record {
  ended = fine;
  outcomes = os;
  thread = record t { channel = some made };
}
declare_on stays made (d ∷ ds) os t =
    let rest = declare_on stays (made ++ d ∷ []) ds (later os) t in
    elim (next os) [
      | fine ↦ rest
      | amqp_error ↦ record {
        ended = amqp_error;
        outcomes = later os;
        thread = record t { connection = some stays; channel = some made };
      }
      | other_error ↦ record {
        ended = other_error;
        outcomes = later os;
        thread = record t { connection = some stays; channel = some made };
      }
    ]

-- `_local.channel = connection.channel()` and `declare`
unfoldable pub open_on : Settings → Bool → List Outcome → Thread → Reached
unfolding declare_on
open_on s stays os t = elim (next os) [
  | fine ↦ declare_on stays [] (declare s) (later os) t
  | amqp_error ↦ record {
    ended = amqp_error;
    outcomes = later os;
    thread = record t { connection = some stays };
  }
  | other_error ↦ record {
    ended = other_error;
    outcomes = later os;
    thread = record t { connection = some stays };
  }
]

-- `connection is not None and connection.is_open`
abbrev pub is_connected : Thread → Bool
is_connected t = elim t.connection [ none ↦ false | some is_open ↦ is_open ]

unfoldable pub connect : Settings → Bool → List Outcome → Thread → Reached
unfolding open_on
connect s stays os t = elim (is_connected t) [
  | true ↦ record { ended = fine; outcomes = os; thread = t }
  | false ↦ elim (next os) [
    | fine ↦ open_on s stays (later os) (record t { connection = some true })
    | amqp_error ↦ record { ended = amqp_error; outcomes = later os; thread = t }
    | other_error ↦ record { ended = other_error; outcomes = later os; thread = t }
  ]
]

-- `close`, whose own error is only logged
unfoldable pub close : Thread → Thread
close t = record { connection = none; channel = none }

-- `health`: `connect().is_open`, and `False` after an exception
unfoldable pub health : Settings → Bool → List Outcome → Thread → Bool
unfolding connect
health s stays os t = elim (connect s stays os t).ended [
  | fine ↦ is_connected (connect s stays os t).thread
  | amqp_error ↦ false
  | other_error ↦ false
]

-- What `queue_declare(…, passive=True)` answers on a channel: how many messages wait.
abbrev pub counted : ℕ → Reached → Option ℕ
counted message_count r = elim r.ended [
  | fine ↦ elim (next r.outcomes) [
    | fine ↦ some message_count
    | amqp_error ↦ none
    | other_error ↦ none
  ]
  | amqp_error ↦ none
  | other_error ↦ none
]

-- `queue_depth`, and `None` after an exception; on a thread whose connection has no channel the call is one of `None`, which raises.
unfoldable pub queue_depth : Settings → Bool → ℕ → List Outcome → Thread → Option ℕ
unfolding connect
queue_depth s stays message_count os t = elim (connect s stays os t).thread.channel [
  | none ↦ none
  | some declared ↦ counted message_count (connect s stays os t)
]
