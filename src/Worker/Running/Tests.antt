-- ===== src/Worker/Running/Tests.antt =====
-- Tests of the loop of a worker, and the theorem at a concrete input.
use markitdown_server.Prelude.{◌≡◌, inl, true, false, [], ◌∷◌}
use markitdown_server.Worker.Running.{
  main, main-stops, touch_liveness, consume, close, wait, ensure_bucket, migrate, during_consume,
  quiet_round, behind_consume,
}

-- A round that loses its connection, one in which the signal arrives, and one that is never reached.
main-stops_example :
    (main (inl tt) (inl tt) true (quiet_round true ∷ [])
      ≡ inl (migrate ∷ ensure_bucket ∷ close ∷ [], true))
    × (main (inl tt) (inl tt) false (
          quiet_round true
          ∷ record { raises = true; signal = during_consume }
          ∷ quiet_round true
          ∷ [])
        ≡ inl (
          migrate ∷ ensure_bucket ∷ touch_liveness ∷ consume ∷ close ∷ wait ∷ touch_liveness
              ∷ consume ∷ close ∷ [],
          true,
        ))
    × (main (inl tt) (inl tt) false (
          quiet_round true
          ∷ record { raises = true; signal = behind_consume }
          ∷ quiet_round true
          ∷ [])
        ≡ inl (
          migrate ∷ ensure_bucket ∷ touch_liveness ∷ consume ∷ close ∷ wait ∷ touch_liveness
              ∷ consume ∷ close ∷ wait ∷ close ∷ [],
          true,
        ))
main-stops_example = main-stops (true ∷ []) true (quiet_round true ∷ [])
