-- ===== src/Taskqueue/Routing.antt =====
-- Where the broker's topology takes a retried message.
use mathlib.Core.Path.{subst}
use markitdown_server.Prelude.{
  ℕ, zero, suc, ◌+◌, ◌*◌, ◌-◌, ◌≤◌, ◌<◌, ◌≡◌, refl, inl, inr, some, List, [], ◌∷◌, min, arith,
  length, get_elem?, Occurs, Occurs-append_left,
}
use markitdown_server.Taskqueue.{
  Settings, TaskCodec, ChunkTask, Declaration, queue_declare, queue_bind, retry_exchange, tier_name,
  retry_queue_name, retry_arguments, declare_tiers, declare, publish_retry,
}

-- A tier's queue is declared with its delay and bound under its own name.
abbrev pub HasTier : Settings → ℕ → ℕ → List Declaration → Type 0
HasTier s tier delay ds =
    Occurs (queue_declare (tier_name s tier) (retry_arguments s delay)) ds
    × Occurs (queue_bind (tier_name s tier) (retry_exchange s) (tier_name s tier)) ds

declare_tiers-HasTier :
    (s : Settings) (tier i : ℕ) (delays : List ℕ)
    → i < length delays
    → (delay : ℕ) × (get_elem? delays i ≡ some delay)
      × HasTier s (tier + i) delay (declare_tiers s tier delays)
unfolding declare_tiers
declare_tiers-HasTier s tier i [] h = absurd (omega arith)
declare_tiers-HasTier s tier zero (d ∷ delays) h =
    let same : tier + 0 ≡ tier = omega arith in rw same (d, refl, (inl refl, inr (inl refl)))
declare_tiers-HasTier s tier (suc i) (d ∷ delays) h =
    let same : tier + 1 + i ≡ tier + suc i = omega arith in
    let (delay, found, (declared, bound)) =
      declare_tiers-HasTier s (tier + 1) i delays (omega arith) in
    let moved : HasTier s (tier + suc i) delay (declare_tiers s (tier + 1) delays) =
      subst (λ n. HasTier s n delay (declare_tiers s (tier + 1) delays)) same (declared, bound) in
    (delay, found, (inr (inr moved.0), inr (inr moved.1)))

-- A chunk that is retried, with at least one delay configured, is published to the retry exchange under the name of a queue that
-- `declare` has declared and bound there: that of its attempt, or the last tier. The queue holds it for the delay of that tier, in
-- milliseconds, and dead-letters it to the exchange and routing key to which `declare` has bound the work queue.
pub publish_retry-routed :
    (s : Settings) (codec : TaskCodec) (task : ChunkTask)
    → 1 ≤ task.attempt
    → 1 ≤ length s.retry_delays
    → let m = publish_retry s codec task in
      (delay : ℕ) × (get_elem? s.retry_delays (min task.attempt (length s.retry_delays) - 1)
        ≡ some delay)
      × (m.exchange ≡ retry_exchange s)
      × Occurs
          (queue_declare m.routing_key (record {
            message_ttl = some (delay * 1000);
            dead_letter_exchange = some s.exchange;
            dead_letter_routing_key = some s.queue;
          }))
          (declare s)
      × Occurs (queue_bind m.routing_key (retry_exchange s) m.routing_key) (declare s)
      × Occurs (queue_bind s.queue s.exchange s.queue) (declare s)
unfolding publish_retry retry_queue_name declare
publish_retry-routed s codec task started some_delay =
    let tier : ℕ = min task.attempt (length s.retry_delays) in
    let counted : 1 + (tier - 1) ≡ tier = omega arith in
    let (delay, found, (declared, bound)) =
      declare_tiers-HasTier s 1 (tier - 1) s.retry_delays (omega arith) in
    let tier_is : HasTier s tier delay (declare_tiers s 1 s.retry_delays) =
      subst (λ n. HasTier s n delay (declare_tiers s 1 s.retry_delays)) counted (declared, bound) in
    (
      delay,
      found,
      refl,
      behind_main tier_is.0,
      behind_main tier_is.1,
      inr (inr (inr (inr (inl refl)))),
    )
  where
    behind_main :
        {d : Declaration} → Occurs d (declare_tiers s 1 s.retry_delays) → Occurs d (declare s)
    behind_main {d} h =
        inr (inr (inr (inr (inr (Occurs-append_left d (declare_tiers s 1 s.retry_delays) _ h)))))
