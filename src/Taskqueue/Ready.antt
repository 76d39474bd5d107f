-- ===== src/Taskqueue/Ready.antt =====
-- taskqueue.py's `connect`: when its channel has the whole topology, and when there is none.
use mathlib.Core.List.{append_assoc, append-nil}
use markitdown_server.Prelude.{
  Bool, ◌≡◌, refl, ap, sym, ◌∙◌, ◌⊎◌, inl, inr, true, false, none, some, List, [], ◌∷◌, ◌++◌,
}
use markitdown_server.Taskqueue.{
  Settings, Declaration, declare, Outcome, fine, amqp_error, other_error,
}
use markitdown_server.Taskqueue.Connecting.{
  Thread, declare_on, open_on, is_connected, connect, close, health,
}

-- The connection is open, and its channel has the whole topology.
abbrev pub IsReady : Settings → Thread → Type 0
IsReady s t = (is_connected t ≡ true) × (t.channel ≡ some (declare s))

-- A call that ended well has left a thread that is ready.
abbrev pub ReadyIfFine : Settings → Outcome → Thread → Type 0
ReadyIfFine s fine t = IsReady s t
ReadyIfFine s amqp_error t = Unit
ReadyIfFine s other_error t = Unit

-- The call raises.
abbrev pub IsFailure : Outcome → Type 0
IsFailure fine = ⊥
IsFailure amqp_error = Unit
IsFailure other_error = Unit

module _ (s : Settings) (stays : Bool) where
  declare_on-Ready :
      (made ds : List Declaration) (os : List Outcome) (t : Thread)
      → is_connected t ≡ true
      → made ++ ds ≡ declare s
      → let r = declare_on stays made ds os t in ReadyIfFine s r.ended r.thread
  unfolding declare_on
  declare_on-Ready made [] os t open_now all = (open_now, ap some (sym (append-nil made) ∙ all))
  declare_on-Ready made (d ∷ ds) [] t open_now all =
      declare_on-Ready (made ++ d ∷ []) ds [] t open_now (append_assoc made (d ∷ []) ds ∙ all)
  declare_on-Ready made (d ∷ ds) (fine ∷ os) t open_now all =
      declare_on-Ready (made ++ d ∷ []) ds os t open_now (append_assoc made (d ∷ []) ds ∙ all)
  declare_on-Ready made (d ∷ ds) (amqp_error ∷ os) t open_now all = tt
  declare_on-Ready made (d ∷ ds) (other_error ∷ os) t open_now all = tt

  open_on-Ready :
      (os : List Outcome) (t : Thread)
      → is_connected t ≡ true
      → let r = open_on s stays os t in ReadyIfFine s r.ended r.thread
  unfolding open_on
  open_on-Ready [] t open_now = declare_on-Ready [] (declare s) [] t open_now refl
  open_on-Ready (fine ∷ os) t open_now = declare_on-Ready [] (declare s) os t open_now refl
  open_on-Ready (amqp_error ∷ os) t open_now = tt
  open_on-Ready (other_error ∷ os) t open_now = tt

  fresh_connect :
      (os : List Outcome) (t : Thread)
      → is_connected t ≡ false
      → let r = connect s stays os t in ReadyIfFine s r.ended r.thread
  unfolding connect
  fresh_connect [] t shut =
      rw (shut, connect, ReadyIfFine) (open_on-Ready [] (record t { connection = some true }) refl)
  fresh_connect (fine ∷ os) t shut =
      rw (shut, connect, ReadyIfFine) (open_on-Ready os (record t { connection = some true }) refl)
  fresh_connect (amqp_error ∷ os) t shut = rw (shut, connect, ReadyIfFine) tt
  fresh_connect (other_error ∷ os) t shut = rw (shut, connect, ReadyIfFine) tt

  -- On a thread whose connection is not open, or is open with the whole topology on its channel, a `connect` that returns leaves
  -- an open connection with the whole topology on its channel, whatever the calls of pika come to.
  pub connect-ReadyIfFine :
      (os : List Outcome) (t : Thread)
      → (is_connected t ≡ false) ⊎ IsReady s t
      → let r = connect s stays os t in ReadyIfFine s r.ended r.thread
  unfolding connect
  connect-ReadyIfFine os t (inl shut) = fresh_connect os t shut
  connect-ReadyIfFine os t (inr ready) = rw (ready.0, connect, ReadyIfFine) ready

module _ (s : Settings) where
  half_connected :
      (failed : Outcome) (os : List Outcome) (t : Thread)
      → IsFailure failed
      → is_connected t ≡ false
      → connect s true (fine ∷ failed ∷ os) t
        ≡ record { ended = failed; outcomes = os; thread = record t { connection = some true } }
  unfolding connect open_on
  half_connected fine os t failure shut = absurd failure
  half_connected amqp_error os t failure shut = rw (shut, connect) refl
  half_connected other_error os t failure shut = rw (shut, connect) refl

  -- On a thread without an open connection and without a channel, when the broker accepts the connection, `connection.channel()` raises
  -- and the connection stays open: `connect` raises, and the thread keeps an open connection without a channel. From then on
  -- `connect` returns at once and `health` is true, until the connection is closed; a `connect` behind `close` that returns has the
  -- whole topology on its channel.
  pub connect-half_open :
      (failed : Outcome) (stays : Bool) (os os' : List Outcome) (t : Thread)
      → IsFailure failed
      → is_connected t ≡ false
      → t.channel ≡ none
      → let r = connect s true (fine ∷ failed ∷ os) t in
        (r.ended ≡ failed)
        × ((connect s stays os' r.thread).ended ≡ fine)
        × ((connect s stays os' r.thread).thread.channel ≡ none)
        × (health s stays os' r.thread ≡ true)
        × ReadyIfFine s
            (connect s stays os' (close r.thread)).ended
            (connect s stays os' (close r.thread)).thread
  unfolding connect open_on health close
  connect-half_open failed stays os os' t failure shut no_channel =
      rw (half_connected failed os t failure shut) (
        refl,
        refl,
        no_channel,
        refl,
        fresh_connect s stays os' (record { connection = none; channel = none }) refl,
      )
