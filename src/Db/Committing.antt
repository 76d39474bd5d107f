-- ===== src/Db/Committing.antt =====
-- db.py's `transaction`: all of its block, or nothing.
use mathlib.Core.Path.{subst}
use markitdown_server.Prelude.{
  ℕ, ◌+◌, ◌≤◌, count_if, arith, ◌≡◌, refl, sym, ◌∙◌, ◌⊎◌, inl, inr, Bool, true, false, Option, none,
  some, List, [], ◌∷◌, Text, Bool-cases,
}
use markitdown_server.Action.{Error, CallOutcome, passes, lost, unconfirmed}
use markitdown_server.Db.{
  Session, Done, Round, rows, not_connected, failed, read, run_round, run_connected, run_sql,
  next_attempt, query, view, conn_execute, conn_commit, conn_rollback, get_connection,
  close_connection, is_stale_connection, run_block, roll_back, commit_block, connected_block,
  pinged_block, transaction,
}
use markitdown_server.Db.Executing.{session}

-- The statements of a block on the data, one after another.
abbrev pub apply_all : {D : Type 0} → List (D → D) → D → D
apply_all [] d = d
apply_all (f ∷ fs) d = apply_all fs (f d)

abbrev pub fails : CallOutcome → Bool
fails passes = false
fails (lost e) = true
fails (unconfirmed e) = true

-- How many of these calls raise.
abbrev pub failures : List CallOutcome → ℕ
failures os = count_if fails os

module _ {D : Type 0} where
  -- The committed data are these, and nothing is pending.
  abbrev pub Rests : D → Session D → Type 0
  Rests c s = (s.committed ≡ c) × (s.pending ≡ none)

  connected_read :
      {R : Type 0} (f : D → R) (c : D) (os : List CallOutcome)
      → Rests c (run_connected (read f) false (session c true os)).1
  unfolding conn_execute
  connected_read f c [] = (refl, refl)
  connected_read f c (passes ∷ os) = (refl, refl)
  connected_read f c (lost e ∷ os) = (refl, refl)
  connected_read f c (unconfirmed e ∷ os) = (refl, refl)

  round_read :
      {R : Type 0} (f : D → R) (c : D) (is_open : Bool) (os : List CallOutcome)
      → Rests c (run_round (read f) false (session c is_open os)).1
  unfolding run_round get_connection
  round_read f c true os = connected_read f c os
  round_read f c false [] = connected_read f c []
  round_read f c false (passes ∷ os) = connected_read f c os
  round_read f c false (lost e ∷ os) = (refl, refl)
  round_read f c false (unconfirmed e ∷ os) = (refl, refl)

  -- A session at rest is one with nothing pending.
  pub at_rest :
      (P : Session D → Type 0) (c : D) (s : Session D)
      → Rests c s
      → P (session c s.is_open s.outcomes)
      → P s
  at_rest P c s (same, fresh) h =
      subst (λ p. P (record s { pending = p })) (sym fresh)
        (subst (λ d. P (session d s.is_open s.outcomes)) (sym same) h)

  -- A call uses up its outcome.
  connected_read-failures :
      {R : Type 0} (f : D → R) (s : Session D)
      → failures (run_connected (read f) false s).1.outcomes ≤ failures s.outcomes
  unfolding conn_execute
  connected_read-failures f s = by_outcomes s.outcomes
    where
      by_outcomes :
          (os : List CallOutcome)
          → failures (run_connected (read f) false (record s { outcomes = os })).1.outcomes
            ≤ failures os
      by_outcomes [] = omega arith
      by_outcomes (passes ∷ os) = omega arith
      by_outcomes (lost e ∷ os) = omega arith
      by_outcomes (unconfirmed e ∷ os) = omega arith

  get_connection-failures :
      (s : Session D) → failures (get_connection s).1.outcomes ≤ failures s.outcomes
  unfolding get_connection
  get_connection-failures s = by_outcomes s.is_open s.outcomes
    where
      by_outcomes :
          (is_open : Bool) (os : List CallOutcome)
          → failures (get_connection (record s { is_open = is_open; outcomes = os })).1.outcomes
            ≤ failures os
      by_outcomes true os = omega arith
      by_outcomes false [] = omega arith
      by_outcomes false (passes ∷ os) = omega arith
      by_outcomes false (lost e ∷ os) = omega arith
      by_outcomes false (unconfirmed e ∷ os) = omega arith

  round_read-failures :
      {R : Type 0} (f : D → R) (s : Session D)
      → failures (run_round (read f) false s).1.outcomes ≤ failures s.outcomes
  unfolding run_round get_connection
  round_read-failures {R} f s = by_outcomes s.is_open s.outcomes
    where
      by_outcomes :
          (is_open : Bool) (os : List CallOutcome)
          → failures
              (run_round (read f) false (record s { is_open = is_open; outcomes = os })).1.outcomes
            ≤ failures os
      by_outcomes true os = connected_read-failures f (record s { is_open = true; outcomes = os })
      by_outcomes false [] =
          connected_read-failures f (record s { is_open = true; pending = none; outcomes = [] })
      by_outcomes false (passes ∷ os) = omega (
        arith,
        connected_read-failures f (record s { is_open = true; pending = none; outcomes = os }),
      )
      by_outcomes false (lost e ∷ os) = omega arith
      by_outcomes false (unconfirmed e ∷ os) = omega arith

  module _ (lower : Text → Text) where
    next_attempt-failures :
        {R : Type 0} (f : D → R) (r : Round R × Session D)
        → failures (next_attempt lower (read f) false r).1.outcomes ≤ failures r.1.outcomes
    next_attempt-failures f (rows r, v) = omega arith
    next_attempt-failures f (not_connected e, v) = omega arith
    next_attempt-failures f (failed e, v) = elim (Bool-cases (is_stale_connection lower e)) [
      | inl stale ↦
          rw (stale, next_attempt)
            (unfold close_connection in
              round_read-failures f (record v { is_open = false; pending = none }))
      | inr other ↦ rw (other, next_attempt) (omega arith)
    ]

    query-failures :
        {R : Type 0} (f : D → R) (s : Session D)
        → failures (query lower f s).1.outcomes ≤ failures s.outcomes
    unfolding run_sql
    query-failures f s =
        omega (arith, next_attempt-failures f (run_round (read f) false s), round_read-failures f s)

    second-Rests :
        {R : Type 0} (f : D → R) (c : D) (s : Session D)
        → s.committed ≡ c
        → Rests c (run_round (read f) false (close_connection s)).1
    unfolding close_connection
    second-Rests f c s same =
        at_rest
          (λ v. Rests c (run_round (read f) false (record v { is_open = false; pending = none })).1)
          c (record s { pending = none }) (same, refl) (round_read f c false s.outcomes)

    next_attempt-Rests :
        {R : Type 0} (f : D → R) (c : D) (r : Round R × Session D)
        → Rests c r.1
        → Rests c (next_attempt lower (read f) false r).1
    next_attempt-Rests f c (rows r, v) h = h
    next_attempt-Rests f c (not_connected e, v) h = h
    next_attempt-Rests f c (failed e, v) h = elim (Bool-cases (is_stale_connection lower e)) [
      | inl stale ↦ rw (stale, next_attempt) (second-Rests f c v h.0)
      | inr other ↦ rw (other, next_attempt) h
    ]

    query-Rests :
        {R : Type 0} (f : D → R) (c : D) (s : Session D) → Rests c s → Rests c (query lower f s).1
    unfolding run_sql
    query-Rests f c s rests =
        at_rest (λ v. Rests c (query lower f v).1) c s rests
          (next_attempt-Rests f c (run_round (read f) false (session c s.is_open s.outcomes))
            (round_read f c s.is_open s.outcomes))

    -- What a block has done on an open connection, where so many calls were to raise.
    abbrev pub BlockDone : D → D → ℕ → (Done ⊎ Error) × Session D → Type 0
    BlockDone c d n (inl u, s) = (s.committed ≡ c) × (view s ≡ d) × (failures s.outcomes ≤ n)
    BlockDone c d n (inr e, s) = (s.committed ≡ c) × (failures s.outcomes + 1 ≤ n)

    BlockDone-le :
        (c d : D) (m n : ℕ) (r : (Done ⊎ Error) × Session D)
        → m ≤ n
        → BlockDone c d m r
        → BlockDone c d n r
    BlockDone-le c d m n (inl u, s) le (same, viewed, few) = (same, viewed, omega arith)
    BlockDone-le c d m n (inr e, s) le (same, few) = (same, omega arith)

    pub run_block-done :
        (fs : List (D → D)) (c : D) (p : Option D) (is_open : Bool) (os : List CallOutcome)
        → let s : Session D = record {
          committed = c;
          pending = p;
          is_open = is_open;
          outcomes = os;
        } in
          BlockDone c (apply_all fs (view s)) (failures os) (run_block lower fs s)
    unfolding run_block conn_execute
    run_block-done [] c p is_open os = (refl, refl, omega arith)
    run_block-done (f ∷ fs) c p is_open [] = run_block-done fs c (some _) is_open []
    run_block-done (f ∷ fs) c p is_open (passes ∷ os) =
        BlockDone-le c _ (failures os) (failures (passes ∷ os)) _ (omega arith)
          (run_block-done fs c (some _) is_open os)
    run_block-done (f ∷ fs) c p is_open (lost e ∷ os) = (refl, omega arith)
    run_block-done (f ∷ fs) c p is_open (unconfirmed e ∷ os) = (refl, omega arith)

    -- What a transaction has done, where so many calls were to raise: if it returned, all of its block; if it raised, all or nothing.
    -- Nothing is pending behind it, unless two calls have raised.
    abbrev pub IsAtomic : D → D → ℕ → (Done ⊎ Error) × Session D → Type 0
    IsAtomic c d n (inl u, s) = (s.committed ≡ d) × (s.pending ≡ none)
    IsAtomic c d n (inr e, s) =
        ((s.committed ≡ c) ⊎ (s.committed ≡ d)) × ((s.pending ≡ none) ⊎ (2 ≤ n))

    rolled_back :
        (s : Session D)
        → ((conn_rollback s).1.committed ≡ s.committed)
          × (((conn_rollback s).1.pending ≡ none) ⊎ (1 ≤ failures s.outcomes))
    unfolding conn_rollback
    rolled_back s = by_outcomes s.outcomes
      where
        by_outcomes :
            (os : List CallOutcome)
            → ((conn_rollback (record s { outcomes = os })).1.committed ≡ s.committed)
              × (((conn_rollback (record s { outcomes = os })).1.pending ≡ none)
                  ⊎ (1 ≤ failures os))
        by_outcomes [] = (refl, inl refl)
        by_outcomes (passes ∷ os) = (refl, inl refl)
        by_outcomes (lost e ∷ os) = (refl, inr (omega arith))
        by_outcomes (unconfirmed e ∷ os) = (refl, inl refl)

    Atomic-rolled :
        (c d : D) (n : ℕ) (e : Error) (s : Session D)
        → (s.committed ≡ c) ⊎ (s.committed ≡ d)
        → failures s.outcomes + 1 ≤ n
        → IsAtomic c d n (roll_back lower e s)
    Atomic-rolled c d n e s either few =
        let (kept, left) = rolled_back s in
        (
          elim either [ inl before ↦ inl (kept ∙ before) | inr behind ↦ inr (kept ∙ behind) ],
          elim left [ inl none_left ↦ inl none_left | inr more ↦ inr (omega arith) ],
        )

    Atomic-commit :
        (c d : D) (n : ℕ) (s : Session D)
        → s.committed ≡ c
        → view s ≡ d
        → failures s.outcomes ≤ n
        → IsAtomic c d n (commit_block lower (inl tt, s))
    unfolding conn_commit
    Atomic-commit c d n s same viewed few = by_outcomes s.outcomes few
      where
        by_outcomes :
            (os : List CallOutcome)
            → failures os ≤ n
            → IsAtomic c d n (commit_block lower (inl tt, record s { outcomes = os }))
        by_outcomes [] few = (viewed, refl)
        by_outcomes (passes ∷ os) few = (viewed, refl)
        by_outcomes (lost e ∷ os) few =
            Atomic-rolled c d n e (record s { outcomes = os }) (inl same) (omega arith)
        by_outcomes (unconfirmed e ∷ os) few =
            Atomic-rolled c d n e (record s { committed = view s; pending = none; outcomes = os })
              (inr viewed) (omega arith)

    Atomic-block :
        (c d : D) (n : ℕ) (r : (Done ⊎ Error) × Session D)
        → BlockDone c d n r
        → IsAtomic c d n (commit_block lower r)
    Atomic-block c d n (inl u, s) (same, viewed, few) = Atomic-commit c d n s same viewed few
    Atomic-block c d n (inr e, s) (same, few) = Atomic-rolled c d n e s (inl same) few

    pub get_connection-Rests : (c : D) (s : Session D) → Rests c s → Rests c (get_connection s).1
    unfolding get_connection
    get_connection-Rests c s rests = by_outcomes s.is_open s.outcomes
      where
        by_outcomes :
            (is_open : Bool) (os : List CallOutcome)
            → Rests c (get_connection (record s { is_open = is_open; outcomes = os })).1
        by_outcomes true os = rests
        by_outcomes false [] = (rests.0, refl)
        by_outcomes false (passes ∷ os) = (rests.0, refl)
        by_outcomes false (lost e ∷ os) = rests
        by_outcomes false (unconfirmed e ∷ os) = (rests.0, refl)

    Atomic-connected :
        (fs : List (D → D)) (c : D) (n : ℕ) (r : (Done ⊎ Error) × Session D)
        → Rests c r.1
        → failures r.1.outcomes ≤ n
        → IsAtomic c (apply_all fs c) n (connected_block lower fs r)
    Atomic-connected fs c n (inr e, s) rests few = (inl rests.0, inl rests.1)
    Atomic-connected fs c n (inl u, s) rests few =
        Atomic-block c (apply_all fs c) n (run_block lower fs s) (
          BlockDone-le c (apply_all fs c) (failures s.outcomes) n (run_block lower fs s) few (
            at_rest (λ v. BlockDone c (apply_all fs c) (failures s.outcomes) (run_block lower fs v))
              c s rests (run_block-done fs c none s.is_open s.outcomes)))

    Atomic-pinged :
        (fs : List (D → D)) (c : D) (n : ℕ) (r : (Done ⊎ Error) × Session D)
        → Rests c r.1
        → failures r.1.outcomes ≤ n
        → IsAtomic c (apply_all fs c) n (pinged_block lower fs r)
    Atomic-pinged fs c n (inr e, s) rests few = (inl rests.0, inl rests.1)
    Atomic-pinged fs c n (inl u, s) rests few =
        Atomic-connected fs c n (get_connection s) (get_connection-Rests c s rests)
          (omega (arith, few, get_connection-failures s))

    -- All or nothing: on a connection with nothing pending, whatever the calls of the driver come to, a transaction that returns has
    -- committed all statements of its block in order, and one that raises has committed all of them or none. Behind it nothing is
    -- pending, unless it raises and at least two calls of the driver raise, as when the block and then the rollback do.
    pub transaction-IsAtomic :
        (fs : List (D → D)) (s : Session D)
        → s.pending ≡ none
        → IsAtomic s.committed
            (apply_all fs s.committed)
            (failures s.outcomes)
            (transaction lower fs s)
    unfolding transaction
    transaction-IsAtomic fs s fresh =
        Atomic-pinged fs s.committed (failures s.outcomes) _
          (query-Rests (λ d. tt) s.committed s (refl, fresh)) (query-failures (λ d. tt) s)
