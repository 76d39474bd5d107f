-- ===== src/Taskqueue/Tests.antt =====
-- Tests of publishing and consuming, and the theorems at concrete inputs.
use markitdown_server.Prelude.{
  ℕ, zero, suc, min, ◌-◌, ◌*◌, ◌≡◌, refl, ap, Bool, true, false, Option, none, some, List, [], ◌∷◌,
  ◌++◌, Text, codes, get_elem?, length, take, drop, arith, Occurs, inl,
}
use markitdown_server.Prelude.Int.{ℤ, pos, negsuc}
use markitdown_server.Storage.{Bytes}
use markitdown_server.Taskqueue.Connecting.{
  open_on, declare_on, is_connected, Thread, connect, close, health,
}
use markitdown_server.Taskqueue.Ready.{ReadyIfFine, connect-ReadyIfFine, connect-half_open}
use markitdown_server.Taskqueue.{
  Settings, TaskCodec, ChunkTask, fine, amqp_error, publish_bodies, publish_pass, second_pass,
  publish_all, stop, idle, message, consume, Delivery, declare_tiers, queue_declare, queue_bind,
  declare, retry_exchange, publish_retry,
}
use markitdown_server.Taskqueue.Publishing.{IsPrefix, publish_all-delivers}
use markitdown_server.Taskqueue.Consuming.{taken, ending, served_all, consume-served_all}
use markitdown_server.Taskqueue.Routing.{publish_retry-routed}

-- A codec: the numbers of a task and the lengths of two of its texts, then the texts.
abbrev page_sign : ℤ → ℕ
page_sign (pos n) = 0
page_sign (negsuc n) = 1

abbrev page_size : ℤ → ℕ
page_size (pos n) = n
page_size (negsuc n) = n

abbrev page_of : ℕ → ℕ → ℤ
page_of zero n = pos n
page_of (suc s) n = negsuc n

page_of-page_sign : (z : ℤ) → page_of (page_sign z) (page_size z) ≡ z
page_of-page_sign (pos n) = refl
page_of-page_sign (negsuc n) = refl

abbrev flag : Bool → ℕ
flag false = 0
flag true = 1

abbrev flag_of : ℕ → Bool
flag_of zero = false
flag_of (suc n) = true

flag_of-flag : (b : Bool) → flag_of (flag b) ≡ b
flag_of-flag false = refl
flag_of-flag true = refl

take-length : (xs ys : Text) → take (length xs) (xs ++ ys) ≡ xs
take-length [] ys = refl
take-length (x ∷ xs) ys = ap (λ t. x ∷ t) (take-length xs ys)

drop-length : (xs ys : Text) → drop (length xs) (xs ++ ys) ≡ ys
drop-length [] ys = refl
drop-length (x ∷ xs) ys = drop-length xs ys

abbrev write_task : ChunkTask → Bytes
write_task t =
    t.chunk_index
    ∷ t.start_page
    ∷ page_sign t.end_page
    ∷ page_size t.end_page
    ∷ t.total_chunks
    ∷ flag t.use_llm
    ∷ t.attempt
    ∷ length t.job_id
    ∷ length t.doc_key
    ∷ (t.job_id ++ (t.doc_key ++ t.file_hash))

abbrev read_task : Bytes → Option ChunkTask
read_task (c ∷ s ∷ g ∷ e ∷ n ∷ u ∷ a ∷ j ∷ d ∷ texts) = some (record {
  job_id = take j texts;
  chunk_index = c;
  doc_key = take d (drop j texts);
  file_hash = drop d (drop j texts);
  start_page = s;
  end_page = page_of g e;
  total_chunks = n;
  use_llm = flag_of u;
  attempt = a;
})
read_task bs = none

pub read-write_task : (t : ChunkTask) → read_task (write_task t) ≡ some t
read-write_task t =
    rw
      (
        take-length,
        drop-length,
        take-length,
        drop-length,
        page_of-page_sign t.end_page,
        flag_of-flag t.use_llm,
      )
      refl

abbrev pub plain_tasks : TaskCodec
plain_tasks = record {
  to_bytes = write_task;
  from_bytes = read_task;
  failed_bytes = λ t error. write_task t ++ error;
  from_bytes-to_bytes = read-write_task;
}

abbrev pub settings : Settings
settings = record {
  exchange = codes "x";
  queue = codes "q";
  retry_delays = 30 ∷ 120 ∷ [];
  max_attempts = 3;
}

abbrev pub third_try : ChunkTask
third_try = record {
  job_id = codes "j";
  chunk_index = 1;
  doc_key = codes "d";
  file_hash = codes "h";
  start_page = 0;
  end_page = negsuc 0;
  total_chunks = 2;
  use_llm = false;
  attempt = 3;
}

-- A dropped connection in the middle: the first body is sent twice.
publish_all_again :
    (publish_all ((1 ∷ []) ∷ (2 ∷ []) ∷ []) (fine ∷ fine ∷ amqp_error ∷ [])).sent
    ≡ (1 ∷ []) ∷ (1 ∷ []) ∷ (2 ∷ []) ∷ []
unfolding publish_all second_pass publish_pass publish_bodies
publish_all_again = refl

publish_all-delivers_example :
    (repeated : List Bytes) × IsPrefix repeated ((1 ∷ []) ∷ (2 ∷ []) ∷ [])
    × ((publish_all ((1 ∷ []) ∷ (2 ∷ []) ∷ []) (fine ∷ fine ∷ amqp_error ∷ [])).sent
        ≡ repeated ++ ((1 ∷ []) ∷ (2 ∷ []) ∷ []))
unfolding publish_all second_pass publish_pass publish_bodies
publish_all-delivers_example =
    publish_all-delivers ((1 ∷ []) ∷ (2 ∷ []) ∷ []) (fine ∷ fine ∷ amqp_error ∷ []) refl

publish_retry-routed_example :
    let m = publish_retry settings plain_tasks third_try in
    (delay : ℕ) × (get_elem? settings.retry_delays
        (min third_try.attempt (length settings.retry_delays) - 1)
      ≡ some delay)
    × (m.exchange ≡ retry_exchange settings)
    × Occurs
        (queue_declare m.routing_key (record {
          message_ttl = some (delay * 1000);
          dead_letter_exchange = some settings.exchange;
          dead_letter_routing_key = some settings.queue;
        }))
        (declare settings)
    × Occurs (queue_bind m.routing_key (retry_exchange settings) m.routing_key) (declare settings)
    × Occurs (queue_bind settings.queue settings.exchange settings.queue) (declare settings)
publish_retry-routed_example =
    publish_retry-routed settings plain_tasks third_try (omega arith) (omega arith)

-- A task, a malformed message, and a task whose acknowledgement is lost.
abbrev deliveries : List Delivery
deliveries =
    message 1 (write_task third_try) fine fine
    ∷ idle
    ∷ message 2 [] fine fine
    ∷ message 3 (write_task third_try) fine amqp_error
    ∷ stop
    ∷ []

consume-served_all_example :
    consume read_task (λ t. false) fine fine deliveries
    ≡ served_all read_task (taken read_task deliveries) (ending read_task deliveries)
consume-served_all_example = consume-served_all read_task deliveries

abbrev no_thread : Thread
no_thread = record { connection = none; channel = none }

connect-ReadyIfFine_example :
    let r = connect settings true (fine ∷ fine ∷ []) no_thread in
    (is_connected r.thread ≡ true) × (r.thread.channel ≡ some (declare settings))
unfolding connect open_on declare_on declare declare_tiers
connect-ReadyIfFine_example =
    connect-ReadyIfFine settings true (fine ∷ fine ∷ []) no_thread (inl refl)

connect-half_open_example :
    let r = connect settings true (fine ∷ amqp_error ∷ []) no_thread in
    (r.ended ≡ amqp_error)
    × ((connect settings true [] r.thread).ended ≡ fine)
    × ((connect settings true [] r.thread).thread.channel ≡ none)
    × (health settings true [] r.thread ≡ true)
    × ReadyIfFine settings
        (connect settings true [] (close r.thread)).ended
        (connect settings true [] (close r.thread)).thread
connect-half_open_example = connect-half_open settings amqp_error true [] [] no_thread tt refl refl
