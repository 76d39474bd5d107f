-- ===== src/Action/Moves.antt =====
-- Relations between the world before an action and the world behind it, composed as actions are.
use markitdown_server.Prelude.{
  ◌⊎◌, inl, inr, ◌∷◌, [], ◌++◌, ℕ, ◌+◌, List, Bool, All, Bool-cases, inl, inr,
}
use markitdown_server.Action.{
  or_raise, Error, World, CallOutcome, passes, lost, unconfirmed, come_to, Result, returned, raised,
  diverges, Action, on_result, on_raise, ◌>>=◌, try_except, call, ret, raise, Others, before_call,
  open_channel, publish_messages, interfere, Message, send_all, publish_again,
}

-- A relation that holds of a world and itself, and of two steps if it holds of each, and allows for what other processes do.
pub record Closed (R : World → World → Type 0) : Type 0 where
  pub here : (w : World) → R w w
  pub then_on : (u v w : World) → R u v → R v w → R u w
  pub disturbed : (o : Others) (n : ℕ) (w : World) → R w (record (interfere o w) { calls = n })

-- An action takes every world to one that the relation holds of, however it ends.
pub record Moves (R : World → World → Type 0) {A : Type 0} (m : Action A) : Type 0 where
  pub behind : (w : World) → R w (m w).1

module _ (R : World → World → Type 0) (closed : Closed R) where
  on_result-moves :
      {A B : Type 0} (f : A → Action B) (w : World) (r : Result A × World)
      → R w r.1
      → ((a : A) → Moves R (f a))
      → R w (on_result f r).1
  on_result-moves f w (returned a, v) h k = closed.then_on w v (f a v).1 h ((k a).behind v)
  on_result-moves f w (raised e, v) h k = h
  on_result-moves f w (diverges, v) h k = h

  pub bind-Moves :
      {A B : Type 0} (m : Action A) (f : A → Action B)
      → Moves R m
      → ((a : A) → Moves R (f a))
      → Moves R (m >>= f)
  unfolding ◌>>=◌
  bind-Moves m f h k = record { behind = λ w. on_result-moves f w (m w) (h.behind w) k }

  on_raise-moves :
      {A : Type 0} (handler : Error → Action A) (w : World) (r : Result A × World)
      → R w r.1
      → ((e : Error) → Moves R (handler e))
      → R w (on_raise handler r).1
  on_raise-moves handler w (returned a, v) h k = h
  on_raise-moves handler w (raised e, v) h k = closed.then_on w v (handler e v).1 h ((k e).behind v)
  on_raise-moves handler w (diverges, v) h k = h

  pub try_except-Moves :
      {A : Type 0} (m : Action A) (handler : Error → Action A)
      → Moves R m
      → ((e : Error) → Moves R (handler e))
      → Moves R (try_except m handler)
  unfolding try_except
  try_except-Moves m handler h k = record {
    behind = λ w. on_raise-moves handler w (m w) (h.behind w) k;
  }

  come_to-moves :
      {A : Type 0} (o : CallOutcome) (w before : World) (r : A × World)
      → R w before
      → R before r.1
      → R w (come_to o before r).1
  come_to-moves passes w before (a, after) h k = closed.then_on w before after h k
  come_to-moves (lost e) w before (a, after) h k = h
  come_to-moves (unconfirmed e) w before (a, after) h k = closed.then_on w before after h k

  pub call-Moves :
      {A : Type 0} (op : ℕ → World → A × World)
      → ((t : ℕ) (w : World) → R w (op t w).1)
      → Moves R (call op)
  unfolding call
  call-Moves op h = record {
    behind = λ w.
        let before = before_call w in
        let moment = w.schedule w.calls in
        come_to-moves moment.outcome w before (op moment.now before)
          (closed.disturbed moment.others (w.calls + 1) w) (h moment.now before);
  }

  pub ret-Moves : {A : Type 0} (a : A) → Moves R (ret a)
  ret-Moves a = record { behind = λ w. closed.here w }

  pub raise-Moves : {A : Type 0} (e : Error) → Moves R (raise {A = A} e)
  raise-Moves e = record { behind = λ w. closed.here w }

  pub read-Moves : {A : Type 0} (f : ℕ → World → A) → Moves R (call (λ t w. (f t w, w)))
  read-Moves f = call-Moves (λ t w. (f t w, w)) (λ t w. closed.here w)

  pub or_raise-Moves : {A : Type 0} (r : A ⊎ Error) → Moves R (or_raise r)
  or_raise-Moves (inl a) = ret-Moves a
  or_raise-Moves (inr e) = raise-Moves e

  send_all-Moves :
      (ms : List Message)
      → All (λ m. (w : World) → R w (record w { published = w.published ++ m ∷ [] })) ms
      → Moves R (send_all ms)
  send_all-Moves [] h = ret-Moves tt
  send_all-Moves (m ∷ ms) (here, there) =
      bind-Moves _ _ (call-Moves _ (λ t w. here w)) (λ _. send_all-Moves ms there)

  channel-Moves : Moves R open_channel
  channel-Moves = call-Moves _ (λ t w. closed.here w)

  pub publish_messages-Moves :
      (is_amqp_error : Error → Bool) (ms : List Message)
      → All (λ m. (w : World) → R w (record w { published = w.published ++ m ∷ [] })) ms
      → Moves R (publish_messages is_amqp_error ms)
  unfolding publish_messages
  publish_messages-Moves is_amqp_error ms h =
      try_except-Moves _ _ (bind-Moves _ _ channel-Moves (λ _. send_all-Moves ms h)) again
    where
      again : (e : Error) → Moves R (publish_again is_amqp_error ms e)
      again e = elim (Bool-cases (is_amqp_error e)) [
        | inl amqp ↦ rw amqp (bind-Moves _ _ channel-Moves (λ _. send_all-Moves ms h))
        | inr other ↦ rw other (raise-Moves e)
      ]
