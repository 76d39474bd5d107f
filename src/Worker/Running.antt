-- ===== src/Worker/Running.antt =====
-- worker.py: `main`, `run_forever`, the signal handler and the liveness file.
-- `_stop` is an Event that is never cleared. A round of the loop is one call of `taskqueue.consume` and the wait behind it; the
-- rounds are given by what the call comes to and by when a signal arrives; one may arrive before the loop as well.
mod Tests
use markitdown_server.Prelude.{
  ℕ, ◌≡◌, refl, ap, ◌∙◌, ◌⊎◌, inl, inr, Bool, true, false, Option, some, List, [], ◌∷◌, ◌++◌, Text,
  append-nil, codes, map,
}
use markitdown_server.Storage.{decimal}
use markitdown_server.Action.{Error}

-- When a signal arrives in a round: not at all, before `consume` has ended, or between that and the next test of the loop.
pub data Signal : Type 0 where
  none_yet during_consume behind_consume : Signal

pub record Round : Type 0 where
  pub raises : Bool
  pub signal : Signal

pub data Step : Type 0 where
  migrate ensure_bucket touch_liveness consume close wait : Step

-- `_handle_signal` sets `_stop`: what `_stop.is_set()` is when `consume` has ended, and behind the round.
abbrev pub set_by : Signal → Bool
set_by during_consume = true
set_by _ = false

abbrev pub is_set : Round → Bool
is_set r = elim r.signal [ none_yet ↦ false | during_consume ↦ true | behind_consume ↦ true ]

-- What the body of the `while` loop does.
abbrev pub round_steps : Round → List Step
round_steps r = elim r.raises [
  | false ↦ touch_liveness ∷ consume ∷ []
  | true ↦ elim (set_by r.signal) [
    | true ↦ touch_liveness ∷ consume ∷ []
    | false ↦ touch_liveness ∷ consume ∷ close ∷ wait ∷ []
  ]
]

-- The `while` loop, and whether it has ended within the rounds.
unfoldable pub run_rounds : Bool → List Round → List Step × Bool
run_rounds true rounds = ([], true)
run_rounds false [] = ([], false)
run_rounds false (r ∷ rounds) =
    let rest = run_rounds (is_set r) rounds in (round_steps r ++ rest.0, rest.1)

-- `taskqueue.close()` behind the loop
abbrev pub then_close : List Step × Bool → List Step × Bool
then_close (steps, true) = (steps ++ close ∷ [], true)
then_close (steps, false) = (steps, false)

-- `run_forever`, by whether `_stop` is set already.
unfoldable pub run_forever : Bool → List Round → List Step × Bool
unfolding run_rounds
run_forever set rounds = then_close (run_rounds set rounds)

-- `main`, with what `db.migrate` and `storage.ensure_bucket` come to and whether a signal arrives during them; the flag says whether
-- it has returned.
unfoldable pub main :
    Unit {0} ⊎ Error → Unit {0} ⊎ Error → Bool → List Round → (List Step × Bool) ⊎ Error
unfolding run_forever
main (inr e) ensured early rounds = inr e
main (inl u) (inr e) early rounds = inr e
main (inl u) (inl v) early rounds =
    inl (migrate ∷ ensure_bucket ∷ (run_forever early rounds).0, (run_forever early rounds).1)

-- `f"{socket.gethostname()}-{os.getpid()}"`
abbrev pub consumer_name : Text → ℕ → Text
consumer_name hostname pid = hostname ++ (codes "-" ++ decimal pid)

-- `_touch_liveness`: the file behind it, where an OSError of `open` is swallowed.
abbrev pub touch : Bool → ℕ → Option Text → Option Text
touch fails now file = elim fails [ true ↦ file | false ↦ some (decimal now) ]

-- A round without a signal, whose `consume` raises or not, and what the documentation promises for such rounds: the connection is
-- closed and waited for behind every one that raises.
abbrev pub quiet_round : Bool → Round
quiet_round raises = record { raises = raises; signal = none_yet }

abbrev pub reconnects : List Bool → List Step
reconnects [] = []
reconnects (false ∷ rounds) = touch_liveness ∷ consume ∷ reconnects rounds
reconnects (true ∷ rounds) = touch_liveness ∷ consume ∷ close ∷ wait ∷ reconnects rounds

one_round :
    (r : Round) (rounds : List Round) (set : Bool)
    → is_set r ≡ set
    → run_rounds false (r ∷ rounds)
      ≡ (round_steps r ++ (run_rounds set rounds).0, (run_rounds set rounds).1)
unfolding run_rounds
one_round r rounds set e =
    ap (λ b. (round_steps r ++ (run_rounds b rounds).0, (run_rounds b rounds).1)) e

last_round :
    (r : Round) (after : List Round)
    → is_set r ≡ true
    → run_rounds false (r ∷ after) ≡ (round_steps r, true)
last_round r after set =
    one_round r after true set
    ∙ (unfold run_rounds in ap (λ steps. (steps, true)) (append-nil (round_steps r)))

rounds-stop :
    (before : List Bool) (r : Round) (after : List Round)
    → is_set r ≡ true
    → run_rounds false (map quiet_round before ++ r ∷ after)
      ≡ (reconnects before ++ round_steps r, true)
rounds-stop [] r after set = last_round r after set
rounds-stop (false ∷ before) r after set =
    one_round (quiet_round false) (map quiet_round before ++ r ∷ after) false refl
    ∙ ap (λ x. (touch_liveness ∷ consume ∷ x.0, x.1)) (rounds-stop before r after set)
rounds-stop (true ∷ before) r after set =
    one_round (quiet_round true) (map quiet_round before ++ r ∷ after) false refl
    ∙ ap (λ x. (touch_liveness ∷ consume ∷ close ∷ wait ∷ x.0, x.1))
        (rounds-stop before r after set)

main-of :
    (before : List Bool) (r : Round) (after : List Round)
    → is_set r ≡ true
    → main (inl tt) (inl tt) false (map quiet_round before ++ r ∷ after)
      ≡ inl (migrate ∷ ensure_bucket ∷ (reconnects before ++ round_steps r) ++ close ∷ [], true)
unfolding main
main-of before r after set = rw (rounds-stop before r after set) refl

-- A worker that has migrated and has its bucket stops at the first signal, whatever the rounds behind it would have done, and closes
-- the connection at last. If the signal comes before the loop, there is no round. If not, every round without a signal touches the
-- liveness file and consumes, and closes the connection and waits if `consume` has raised; the round of the signal is
-- the last one: it does not wait when the signal has come before `consume` raises, and does when it comes behind.
pub main-stops :
    (before : List Bool) (raises : Bool) (after : List Round)
    → (main (inl tt) (inl tt) true after ≡ inl (migrate ∷ ensure_bucket ∷ close ∷ [], true))
      × (main
            (inl tt)
            (inl tt)
            false
            (map quiet_round before ++ record { raises = raises; signal = during_consume } ∷ after)
          ≡ inl (
            migrate ∷ ensure_bucket ∷ (reconnects before ++ touch_liveness ∷ consume ∷ [])
                ++ close ∷ [],
            true,
          ))
      × (main
            (inl tt)
            (inl tt)
            false
            (map quiet_round before ++ record { raises = raises; signal = behind_consume } ∷ after)
          ≡ inl (
            migrate ∷ ensure_bucket ∷ (reconnects before ++ reconnects (raises ∷ [])) ++ close ∷ [],
            true,
          ))
main-stops before false after = (
  unfold main run_forever run_rounds in refl,
  main-of before (record { raises = false; signal = during_consume }) after refl,
  main-of before (record { raises = false; signal = behind_consume }) after refl,
)
main-stops before true after = (
  unfold main run_forever run_rounds in refl,
  main-of before (record { raises = true; signal = during_consume }) after refl,
  main-of before (record { raises = true; signal = behind_consume }) after refl,
)
