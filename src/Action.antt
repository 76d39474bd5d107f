-- ===== src/Action.antt =====
-- What a process (a worker of worker.py, a request of api/index.py) acts on, and how a call of it may end.
-- A process acts on a `World` by calls: statements of the database, requests to the bucket, publishes to the broker. A
-- schedule gives every call its time, what the other processes have done to the tables and the bucket since the call before,
-- and what the call comes to: it passes, it raises before it takes effect, or it takes effect and raises all the same.
pub mod Moves
pub mod Ends
use markitdown_server.Prelude.{
  ◌⊎◌, inl, inr, ℕ, ◌+◌, List, [], ◌∷◌, ◌++◌, Text, Bool, if◌then◌else◌,
}
use markitdown_server.Storage.{Bucket}
use markitdown_server.Taskqueue.{Message}
use markitdown_server.Cache.{Cache}
use markitdown_server.Tables.{Database}
use markitdown_server.Jobstore.History.{History, run}

pub record Error : Type 0 where
  pub type_name : Text
  pub message : Text

pub data CallOutcome : Type 0 where
  passes : CallOutcome
  lost : Error → CallOutcome
  unconfirmed : Error → CallOutcome

-- The transactions that other processes have committed, and what has become of the objects.
pub record Others : Type 0 where
  pub transactions : History
  pub objects : Bucket → Bucket

pub record Moment : Type 0 where
  pub now : ℕ
  pub others : Others
  pub outcome : CallOutcome

-- What all processes share, and this one's own: the messages it has published, its cache, schedule and number of calls.
pub record World : Type 0 where
  pub db : Database
  pub bucket : Bucket
  pub published : List Message
  pub cache : Cache
  pub schedule : ℕ → Moment
  pub calls : ℕ

-- A function returns, raises, or (`paginate` on a page size of 0) does not end.
pub data Result (A : Type 0) : Type 0 where
  returned : A → Result A
  raised : Error → Result A
  diverges : Result A

abbrev pub Action : Type 0 → Type 0
Action A = World → Result A × World

abbrev pub ret : {A : Type 0} → A → Action A
ret a w = (returned a, w)

abbrev pub raise : {A : Type 0} → Error → Action A
raise e w = (raised e, w)

-- A value, or the exception that is raised.
abbrev pub or_raise : {A : Type 0} → A ⊎ Error → Action A
or_raise (inl a) = ret a
or_raise (inr e) = raise e

abbrev pub on_result : {A B : Type 0} → (A → Action B) → Result A × World → Result B × World
on_result f (returned a, w) = f a w
on_result f (raised e, w) = (raised e, w)
on_result f (diverges, w) = (diverges, w)

infixl 5 ◌>>=◌
unfoldable pub ◌>>=◌ : {A B : Type 0} → Action A → (A → Action B) → Action B
◌>>=◌ m f w = on_result f (m w)

abbrev pub on_raise : {A : Type 0} → (Error → Action A) → Result A × World → Result A × World
on_raise handler (returned a, w) = (returned a, w)
on_raise handler (raised e, w) = handler e w
on_raise handler (diverges, w) = (diverges, w)

infixl 5 ◌>>◌
abbrev pub ◌>>◌ : {B : Type 0} → Action Unit → Action B → Action B
◌>>◌ m k = m >>= λ _. k

-- `try: … except Exception as exc: …`
unfoldable pub try_except : {A : Type 0} → Action A → (Error → Action A) → Action A
try_except m handler w = on_raise handler (m w)

abbrev pub come_to : {A : Type 0} → CallOutcome → World → A × World → Result A × World
come_to passes before (a, after) = (returned a, after)
come_to (lost e) before (a, after) = (raised e, before)
come_to (unconfirmed e) before (a, after) = (raised e, after)

abbrev pub interfere : Others → World → World
interfere others w = record w {
  db = run others.transactions w.db;
  bucket = others.objects w.bucket;
}

-- The world that the next call acts on.
abbrev pub before_call : World → World
before_call w = record (interfere (w.schedule w.calls).others w) { calls = w.calls + 1 }

-- One call.
unfoldable pub call : {A : Type 0} → (ℕ → World → A × World) → Action A
call op w =
    let moment = w.schedule w.calls in
    let before = before_call w in come_to moment.outcome before (op moment.now before)

abbrev pub statement : (ℕ → Database → Database) → Action Unit
statement f = call (λ t w. (tt, record w { db = f t w.db }))

abbrev pub send : Message → Action Unit
send m = call (λ t w. (tt, record w { published = w.published ++ m ∷ [] }))

abbrev pub send_all : List Message → Action Unit
send_all [] = ret tt
send_all (m ∷ ms) = send m >> send_all ms

-- `channel()`
abbrev pub open_channel : Action Unit
open_channel = call (λ t w. (tt, w))

-- `except pika.exceptions.AMQPError`, and everything is published again, on a new connection.
abbrev pub publish_again : (Error → Bool) → List Message → Error → Action Unit
publish_again is_amqp_error ms e = if is_amqp_error e then open_channel >> send_all ms else raise e

-- `_publish`
unfoldable pub publish_messages : (Error → Bool) → List Message → Action Unit
publish_messages is_amqp_error ms =
    try_except (open_channel >> send_all ms) (publish_again is_amqp_error ms)
