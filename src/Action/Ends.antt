-- ===== src/Action/Ends.antt =====
-- Actions that end, by returning or raising, in every world.
use markitdown_server.Prelude.{
  ℕ, ◌≡◌, refl, ◌⊎◌, inl, inr, Bool, true, false, List, [], ◌∷◌, Bool-cases,
}
use markitdown_server.Action.{
  Error, World, CallOutcome, passes, lost, unconfirmed, come_to, Result, returned, raised, diverges,
  Action, on_result, on_raise, ◌>>=◌, try_except, call, ret, raise, or_raise, send_all,
  publish_messages, publish_again, Message, before_call,
}

abbrev pub ended : {A : Type 0} → Result A → Bool
ended (returned a) = true
ended (raised e) = true
ended diverges = false

pub record Ends {A : Type 0} (m : Action A) : Type 0 where
  pub in_world : (w : World) → ended (m w).0 ≡ true

on_result-Ends :
    {A B : Type 0} (f : A → Action B) (r : Result A × World)
    → ended r.0 ≡ true
    → ((a : A) → Ends (f a))
    → ended (on_result f r).0 ≡ true
on_result-Ends f (returned a, w) h k = (k a).in_world w
on_result-Ends f (raised e, w) h k = refl
on_result-Ends f (diverges, w) h k = h

pub bind-Ends :
    {A B : Type 0} (m : Action A) (f : A → Action B)
    → Ends m
    → ((a : A) → Ends (f a))
    → Ends (m >>= f)
unfolding ◌>>=◌
bind-Ends m f h k = record { in_world = λ w. on_result-Ends f (m w) (h.in_world w) k }

on_raise-Ends :
    {A : Type 0} (handler : Error → Action A) (r : Result A × World)
    → ended r.0 ≡ true
    → ((e : Error) → Ends (handler e))
    → ended (on_raise handler r).0 ≡ true
on_raise-Ends handler (returned a, w) h k = refl
on_raise-Ends handler (raised e, w) h k = (k e).in_world w
on_raise-Ends handler (diverges, w) h k = h

pub try_except-Ends :
    {A : Type 0} (m : Action A) (handler : Error → Action A)
    → Ends m
    → ((e : Error) → Ends (handler e))
    → Ends (try_except m handler)
unfolding try_except
try_except-Ends m handler h k = record {
  in_world = λ w. on_raise-Ends handler (m w) (h.in_world w) k;
}

come_to-ends :
    {A : Type 0} (o : CallOutcome) (before : World) (r : A × World)
    → ended (come_to o before r).0 ≡ true
come_to-ends passes before (a, after) = refl
come_to-ends (lost e) before (a, after) = refl
come_to-ends (unconfirmed e) before (a, after) = refl

pub call-Ends : {A : Type 0} (op : ℕ → World → A × World) → Ends (call op)
unfolding call
call-Ends op = record {
  in_world = λ w.
      come_to-ends (w.schedule w.calls).outcome (before_call w)
        (op (w.schedule w.calls).now (before_call w));
}

pub ret-Ends : {A : Type 0} (a : A) → Ends (ret a)
ret-Ends a = record { in_world = λ w. refl }

pub raise-Ends : {A : Type 0} (e : Error) → Ends (raise {A = A} e)
raise-Ends e = record { in_world = λ w. refl }

pub or_raise-Ends : {A : Type 0} (r : A ⊎ Error) → Ends (or_raise r)
or_raise-Ends (inl a) = ret-Ends a
or_raise-Ends (inr e) = raise-Ends e

send_all-Ends : (ms : List Message) → Ends (send_all ms)
send_all-Ends [] = ret-Ends tt
send_all-Ends (m ∷ ms) = bind-Ends _ _ (call-Ends _) (λ _. send_all-Ends ms)

pub publish_messages-Ends :
    (is_amqp_error : Error → Bool) (ms : List Message) → Ends (publish_messages is_amqp_error ms)
unfolding publish_messages
publish_messages-Ends is_amqp_error ms =
    try_except-Ends _ _ (bind-Ends _ _ (call-Ends _) (λ _. send_all-Ends ms)) again
  where
    again : (e : Error) → Ends (publish_again is_amqp_error ms e)
    again e = elim (Bool-cases (is_amqp_error e)) [
      | inl amqp ↦ rw amqp (bind-Ends _ _ (call-Ends _) (λ _. send_all-Ends ms))
      | inr other ↦ rw other (raise-Ends e)
    ]
