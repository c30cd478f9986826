-- ===== src/Transport/Tests.antt =====
-- The circuit breaker of src/ismet/transport/circuit.py at concrete readings of the clock.
use ismet.Prelude.{true, false, none, [], ◌∷◌, ◌≡◌, ◌≢◌, refl, arith}
use ismet.Transport.Circuit.{
  closed, open_, half_open, CircuitBreaker, poll, check, record_failure, release_probe,
}
use ismet.Transport.Circuit.Laws.{
  checked, failed, calls, failures_at, call, count_from, opens_at_threshold, one_probe,
}

abbrev fresh : CircuitBreaker
fresh = record {
  failure_threshold = 2;
  recovery_timeout = 30;
  state = closed;
  failures = 0;
  opened_at = 0;
  probing = false;
}

abbrev opened : CircuitBreaker
opened = record fresh { state = open_; failures = 2; opened_at = 10 }

-- The second failure opens the breaker, and the first check after the recovery time probes.
opens_and_probes :
    calls fresh (failed 5 ∷ failed 10 ∷ checked 20 20 ∷ checked 40 40 ∷ [])
    ≡ record opened { state = half_open; probing = true }
unfolding calls call record_failure check poll
opens_and_probes = refl

opens_at_threshold_example :
    ((failures_at fresh (5 ∷ 10 ∷ [])).state ≡ open_)
    × ((failures_at fresh (5 ∷ 10 ∷ [])).failures ≡ 2)
unfolding count_from
opens_at_threshold_example = opens_at_threshold fresh (5 ∷ 10 ∷ []) refl (omega arith)

one_probe_example :
    let (c', verdict) = check 40 40 opened in
    (verdict ≡ none)
    × (c'.state ≡ half_open)
    × ((check 41 41 c').0 ≡ c')
    × ((check 41 41 c').1 ≢ none)
    × ((check 41 41 (release_probe c')).1 ≡ none)
one_probe_example = one_probe opened 40 40 41 41 refl (omega arith)

abbrev probing : CircuitBreaker
probing = record opened { state = half_open; probing = true }
