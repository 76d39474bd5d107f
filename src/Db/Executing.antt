-- ===== src/Db/Executing.antt =====
-- db.py's `execute`: what a write leaves behind, with its one reconnect.
use mathlib.Core.Path.{subst}
use markitdown_server.Prelude.{
  ◌∙◌, ◌≡◌, refl, ◌⊎◌, inl, inr, Bool, true, false, none, List, [], ◌∷◌, All, Text, Bool-cases, sym,
  some, ap,
}
use markitdown_server.Action.{Error, CallOutcome, passes, lost, unconfirmed}
use markitdown_server.Db.{
  Session, write, Round, rows, not_connected, failed, run_connected, run_round, conn_execute,
  conn_commit, get_connection, last_round, close_connection, next_attempt, run_sql, execute,
  is_stale_connection,
}

-- A call that raises has had no effect.
abbrev pub IsConfirmed : CallOutcome → Type 0
IsConfirmed passes = Unit
IsConfirmed (lost e) = Unit
IsConfirmed (unconfirmed e) = ⊥

abbrev pub Uncertain : List CallOutcome → Type 0
Uncertain os = ¬ All IsConfirmed os

-- A session with nothing pending.
abbrev pub session : {D : Type 0} → D → Bool → List CallOutcome → Session D
session c is_open os = record { committed = c; pending = none; is_open = is_open; outcomes = os }

module _ {D R : Type 0} (f : D → R × D) where
  -- What one round has done to the committed data.
  abbrev RoundDone : D → List CallOutcome → Round R × Session D → Type 0
  RoundDone c os (rows r, s) = (s.committed ≡ (f c).1) × (r ≡ (f c).0)
  RoundDone c os (not_connected e, s) = s.committed ≡ c
  RoundDone c os (failed e, s) =
      ((s.committed ≡ c) × (All IsConfirmed os → All IsConfirmed s.outcomes))
      ⊎ ((s.committed ≡ (f c).1) × Uncertain os)

  run_connected-done :
      (c : D) (os : List CallOutcome)
      → RoundDone c os (run_connected (write f) true (session c true os))
  unfolding conn_execute conn_commit
  run_connected-done c [] = (refl, refl)
  run_connected-done c (lost e ∷ os) = inl (refl, λ h. h.1)
  run_connected-done c (unconfirmed e ∷ os) = inl (refl, λ h. h.1)
  run_connected-done c (passes ∷ []) = (refl, refl)
  run_connected-done c (passes ∷ passes ∷ os) = (refl, refl)
  run_connected-done c (passes ∷ lost e ∷ os) = inl (refl, λ h. h.1.1)
  run_connected-done c (passes ∷ unconfirmed e ∷ os) = inr (refl, λ h. h.1.0)

  -- The same round behind a call of `connect`.
  later_round :
      (c : D) (o : CallOutcome) (os : List CallOutcome) (r : Round R × Session D)
      → RoundDone c os r
      → RoundDone c (o ∷ os) r
  later_round c o os (rows r, s) h = h
  later_round c o os (not_connected e, s) h = h
  later_round c o os (failed e, s) (inl (same, kept)) = inl (same, λ h. kept h.1)
  later_round c o os (failed e, s) (inr (done, not_sure)) = inr (done, λ h. not_sure h.1)

  run_round-done :
      (c : D) (is_open : Bool) (os : List CallOutcome)
      → RoundDone c os (run_round (write f) true (session c is_open os))
  unfolding run_round get_connection
  run_round-done c true os = run_connected-done c os
  run_round-done c false [] = run_connected-done c []
  run_round-done c false (passes ∷ os) = later_round c passes os _ (run_connected-done c os)
  run_round-done c false (lost e ∷ os) = refl
  run_round-done c false (unconfirmed e ∷ os) = refl

  -- What a write has done: if it returned, it was committed once, or twice if a call raised after its effect; if it raised, it was
  -- not committed, unless a call raised after its effect.
  abbrev pub Executed : D → List CallOutcome → (R ⊎ Error) × Session D → Type 0
  Executed c os (inl r, s) =
      ((s.committed ≡ (f c).1) × (r ≡ (f c).0)) ⊎ ((s.committed ≡ (f (f c).1).1) × Uncertain os)
  Executed c os (inr e, s) =
      (s.committed ≡ c)
      ⊎ ((s.committed ≡ (f c).1) × Uncertain os)
      ⊎ ((s.committed ≡ (f (f c).1).1) × Uncertain os)

  second_done :
      (c : D) (os os' : List CallOutcome) (r : Round R × Session D)
      → (All IsConfirmed os → All IsConfirmed os')
      → RoundDone c os' r
      → Executed c os (last_round r)
  second_done c os os' (rows r, s) kept h = inl h
  second_done c os os' (not_connected e, s) kept h = inl h
  second_done c os os' (failed e, s) kept (inl (same, _)) = inl same
  second_done c os os' (failed e, s) kept (inr (done, not_sure)) =
      inr (inl (done, λ h. not_sure (kept h)))

  twice_done :
      (c : D) (os os' : List CallOutcome) (r : Round R × Session D)
      → Uncertain os
      → RoundDone (f c).1 os' r
      → Executed c os (last_round r)
  twice_done c os os' (rows r, s) not_sure (h, _) = inr (h, not_sure)
  twice_done c os os' (not_connected e, s) not_sure h = inr (inl (h, not_sure))
  twice_done c os os' (failed e, s) not_sure (inl (same, _)) = inr (inl (same, not_sure))
  twice_done c os os' (failed e, s) not_sure (inr (done, _)) = inr (inr (done, not_sure))

  module _ (lower : Text → Text) where
    retried :
        (c : D) (os : List CallOutcome) (s : Session D)
        → ((s.committed ≡ c) × (All IsConfirmed os → All IsConfirmed s.outcomes))
          ⊎ ((s.committed ≡ (f c).1) × Uncertain os)
        → Executed c os (last_round (run_round (write f) true (close_connection s)))
    unfolding close_connection
    retried c os s (inl (same, kept)) =
        second_done c os s.outcomes (run_round (write f) true (close_connection s)) kept (
          subst (λ d. RoundDone d s.outcomes (run_round (write f) true (close_connection s))) same
            (run_round-done s.committed false s.outcomes))
    retried c os s (inr (done, not_sure)) =
        twice_done c os s.outcomes (run_round (write f) true (close_connection s)) not_sure (
          subst (λ d. RoundDone d s.outcomes (run_round (write f) true (close_connection s))) done
            (run_round-done s.committed false s.outcomes))

    attempted :
        (c : D) (os : List CallOutcome) (r : Round R × Session D)
        → RoundDone c os r
        → Executed c os (next_attempt lower (write f) true r)
    attempted c os (rows r, s) h = inl h
    attempted c os (not_connected e, s) h = inl h
    attempted c os (failed e, s) h = elim (Bool-cases (is_stale_connection lower e)) [
      | inl stale ↦ rw (stale, next_attempt) (retried c os s h)
      | inr other ↦ rw (other, next_attempt) (left h)
    ]
      where
        left :
            ((s.committed ≡ c) × (All IsConfirmed os → All IsConfirmed s.outcomes))
              ⊎ ((s.committed ≡ (f c).1) × Uncertain os)
            → Executed c os (inr e, s)
        left (inl (same, _)) = inl same
        left (inr (done, not_sure)) = inr (inl (done, not_sure))

    -- A write on a connection with nothing pending, whatever the calls of the driver come to: if it returns, it has been committed
    -- once, with its rows, or twice; if it raises, it has been committed not at all, once or twice; and it has been committed
    -- twice, or once though it raised, only if some call raised after it had taken effect.
    pub execute-Executed :
        (s : Session D) → s.pending ≡ none → Executed s.committed s.outcomes (execute lower f s)
    unfolding run_sql
    execute-Executed s fresh = attempted s.committed s.outcomes (run_round (write f) true s) (
        subst
          (λ p.
            RoundDone s.committed s.outcomes (run_round (write f) true (record s { pending = p })))
          (sym fresh) (run_round-done s.committed s.is_open s.outcomes))

    -- On an open connection with nothing pending, if the commit of a write takes effect and raises an error that counts as a stale
    -- connection, and the connect, the statement and the commit of the retry pass, the write returns and is committed twice.
    pub execute-twice :
        (c : D) (e : Error) (os : List CallOutcome)
        → is_stale_connection lower e ≡ true
        → let r =
            execute lower f
              (session c true (passes ∷ unconfirmed e ∷ passes ∷ passes ∷ passes ∷ os)) in
          (r.0 ≡ inl (f (f c).1).0) × (r.1.committed ≡ (f (f c).1).1) × (r.1.outcomes ≡ os)
    unfolding run_sql run_round get_connection conn_execute conn_commit close_connection
    execute-twice c e os stale = rw (stale, next_attempt) (refl, refl, refl)

module _ {D R Q : Type 0} (lower : Text → Text) (f : D → R × D) (g : D → Q × D) where
  left_pending :
      (c : D) (e : Error) (os : List CallOutcome)
      → is_stale_connection lower e ≡ false
      → execute lower f (session c true (passes ∷ lost e ∷ os))
        ≡ (inr e, record { committed = c; pending = some (f c).1; is_open = true; outcomes = os })
  unfolding run_sql run_round get_connection conn_execute conn_commit
  left_pending c e os other = rw (other, next_attempt) refl

  both_committed :
      (c d : D) (os : List CallOutcome)
      → (execute lower g (record {
        committed = c;
        pending = some d;
        is_open = true;
        outcomes = passes ∷ passes ∷ os;
      })).1.committed
        ≡ (g d).1
  unfolding run_sql run_round get_connection conn_execute conn_commit
  both_committed c d os = refl

  -- On an open connection with nothing pending, a write whose commit is lost with an error that does not count as a stale connection
  -- raises and commits nothing, but stays pending on the connection: a next write whose statement and commit pass commits both.
  pub execute-leaves_pending :
      (c : D) (e : Error) (os : List CallOutcome)
      → is_stale_connection lower e ≡ false
      → let first = execute lower f (session c true (passes ∷ lost e ∷ passes ∷ passes ∷ os)) in
        (first.0 ≡ inr e)
        × (first.1.committed ≡ c)
        × (first.1.pending ≡ some (f c).1)
        × ((execute lower g first.1).1.committed ≡ (g (f c).1).1)
  execute-leaves_pending c e os other =
      let left = left_pending c e (passes ∷ passes ∷ os) other in
      (
        ap (λ r. r.0) left,
        ap (λ r. r.1.committed) left,
        ap (λ r. r.1.pending) left,
        ap (λ r. (execute lower g r.1).1.committed) left ∙ both_committed c (f c).1 os,
      )
