-- ===== src/Transport/Circuit/Laws.antt =====
-- When the circuit breaker (src/ismet/transport/circuit.py) opens, refuses and lets a probe through.
use ismet.Prelude.{
  ℕ, ◌+◌, ◌-◌, ◌≤◌, ◌<◌, true, none, some, List, [], ◌∷◌, leb, ◌≡◌, ◌≢◌, refl, ap, ◌∙◌, inl, inr,
  arith, Bool-cases, if◌then◌else◌,
}
use mathlib.Core.Path.{subst₂}
use ismet.Transport.Circuit.{
  closed, open_, half_open, CircuitBreaker, new_breaker, poll, check, record_success,
  record_failure, release_probe, reset,
}

-- A call of one of the breaker's methods, with its readings of the clock.
pub data Call : Type 0 where
  polled : (now : ℕ) → Call
  checked : (now later : ℕ) → Call
  succeeded : Call
  failed : (now : ℕ) → Call
  released : Call
  was_reset : Call

unfoldable pub call : CircuitBreaker → Call → CircuitBreaker
call c (polled now) = poll now c
call c (checked now later) = (check now later c).0
call c succeeded = record_success c
call c (failed now) = record_failure now c
call c released = release_probe c
call c was_reset = reset c

unfoldable pub calls : CircuitBreaker → List Call → CircuitBreaker
calls c [] = c
calls c (m ∷ ms) = calls (call c m) ms

-- A closed breaker is below its threshold, a breaker that is not closed has failed, and only a
-- half-open one has a probe out.
pub record IsValid (c : CircuitBreaker) : Type 0 where
  pub below_threshold : c.state ≡ closed → c.failures < c.failure_threshold
  pub has_failed : c.state ≢ closed → 0 < c.failures
  pub probes_half_open : c.probing ≡ true → c.state ≡ half_open
  pub positive : 0 < c.failure_threshold

new_breaker-IsValid : (t r : ℕ) {c : CircuitBreaker} → new_breaker t r ≡ some c → IsValid c
unfolding new_breaker
new_breaker-IsValid t r e = ground arith

call-IsValid : (c : CircuitBreaker) (m : Call) → IsValid c → IsValid (call c m)
unfolding call poll check record_success record_failure release_probe reset
call-IsValid c (polled now) v = ground arith
call-IsValid c (checked now later) v = ground arith
call-IsValid c succeeded v = ground arith
call-IsValid c (failed now) v = ground arith
call-IsValid c released v = ground arith
call-IsValid c was_reset v = ground arith

calls-IsValid : (c : CircuitBreaker) (ms : List Call) → IsValid c → IsValid (calls c ms)
unfolding calls
calls-IsValid c [] v = v
calls-IsValid c (m ∷ ms) v = calls-IsValid (call c m) ms (call-IsValid c m v)

-- After any calls of a new breaker: closed means fewer failures than the threshold since the last
-- success, not closed means at least one failure, and a probe is out only while it is half-open.
new_calls-IsValid :
    (t r : ℕ) {c : CircuitBreaker} (ms : List Call)
    → new_breaker t r ≡ some c
    → IsValid (calls c ms)
new_calls-IsValid t r {c = c} ms e = calls-IsValid c ms (new_breaker-IsValid t r e)

-- Failures alone, at the times `nows`.
unfoldable pub failures_at : CircuitBreaker → List ℕ → CircuitBreaker
failures_at c [] = c
failures_at c (now ∷ nows) = failures_at (record_failure now c) nows

unfoldable pub count_from : ℕ → List ℕ → ℕ
count_from n [] = n
count_from n (x ∷ xs) = count_from (n + 1) xs

count_from-le : (n : ℕ) (xs : List ℕ) → n ≤ count_from n xs
unfolding count_from
count_from-le n [] = omega arith
count_from-le n (x ∷ xs) = omega (arith, count_from-le (n + 1) xs)

-- A breaker that is not closed and gets failures only is open and stays so.
failures_open :
    (c : CircuitBreaker) (nows : List ℕ)
    → c.state ≡ open_
    → c.failure_threshold ≤ c.failures
    → (failures_at c nows).state ≡ open_
unfolding failures_at record_failure
failures_open c [] s h = s
failures_open c (now ∷ nows) s h =
    failures_open (record_failure now c) nows (ground arith) (ground arith)

state_at_threshold :
    (c : CircuitBreaker) (nows : List ℕ)
    → c.state ≡ closed
    → c.failures < c.failure_threshold
    → (failures_at c nows).state
      ≡ (if leb c.failure_threshold (count_from c.failures nows) then open_ else closed)
unfolding failures_at count_from record_failure
state_at_threshold c [] s h = ground arith
state_at_threshold c (now ∷ nows) s h =
    elim (Bool-cases (leb c.failure_threshold (c.failures + 1))) [
      | inl reached ↦
          let most = count_from-le (c.failures + 1) nows in
          let all : leb c.failure_threshold (count_from (c.failures + 1) nows) ≡ true =
            ground arith in
          rw all (failures_open (record_failure now c) nows (ground arith) (ground arith))
      | inr short ↦
          let rest = state_at_threshold (record_failure now c) nows (ground arith) (ground arith) in
          let same : (record_failure now c).failures ≡ c.failures + 1 = ground arith in
          let bound : (record_failure now c).failure_threshold ≡ c.failure_threshold =
            ground arith in
          subst₂
            (λ t n.
              (failures_at (record_failure now c) nows).state
              ≡ (if leb t (count_from n nows) then open_ else closed))
            bound same rest
    ]

failures_counted :
    (c : CircuitBreaker) (nows : List ℕ)
    → (failures_at c nows).failures ≡ count_from c.failures nows
unfolding failures_at count_from
failures_counted c [] = refl
failures_counted c (now ∷ nows) =
    let same : (record_failure now c).failures ≡ c.failures + 1 =
      unfold record_failure in ground arith in
    failures_counted (record_failure now c) nows ∙ ap (λ n. count_from n nows) same

-- Consecutive failures of a closed breaker that is below its threshold open it exactly when the
-- threshold is reached, with fewer it is still closed, and all of them are counted.
pub opens_at_threshold :
    (c : CircuitBreaker) (nows : List ℕ)
    → c.state ≡ closed
    → c.failures < c.failure_threshold
    → ((failures_at c nows).state
        ≡ (if leb c.failure_threshold (count_from c.failures nows) then open_ else closed))
      × ((failures_at c nows).failures ≡ count_from c.failures nows)
opens_at_threshold c nows s h = (state_at_threshold c nows s h, failures_counted c nows)

-- Within its recovery time an open breaker refuses, states at most the time that is left by its
-- clock, and does not change.
pub open_refuses :
    (c : CircuitBreaker) (now later : ℕ)
    → c.state ≡ open_
    → now - c.opened_at < c.recovery_timeout
    → check now later c ≡ (c, some (c.recovery_timeout - (later - c.opened_at)))
unfolding check poll
open_refuses c now later s h = ground arith

-- A breaker whose recovery time is over lets one call through as a probe, and every further check
-- is refused until an outcome is recorded or the probe is released.
pub one_probe :
    (c : CircuitBreaker) (now later now' later' : ℕ)
    → c.state ≡ open_
    → c.recovery_timeout ≤ now - c.opened_at
    → let (c', verdict) = check now later c in
      (verdict ≡ none)
      × (c'.state ≡ half_open)
      × ((check now' later' c').0 ≡ c')
      × ((check now' later' c').1 ≢ none)
      × ((check now' later' (release_probe c')).1 ≡ none)
unfolding check poll release_probe
one_probe c now later now' later' s h = ground arith

-- The probe decides: its success closes the breaker and clears the count, its failure opens it
-- again for a whole recovery time, whatever the threshold.
pub probe_decides :
    (c : CircuitBreaker) (now now' later' : ℕ)
    → c.state ≡ half_open
    → now' - now < c.recovery_timeout
    → ((record_success c).state ≡ closed)
      × ((record_success c).failures ≡ 0)
      × ((record_failure now c).state ≡ open_)
      × ((check now' later' (record_failure now c)).1 ≢ none)
unfolding record_success record_failure check poll
probe_decides c now now' later' s h = ground arith
