-- ===== src/Transport/Circuit.antt =====
-- src/ismet/transport/circuit.py: the circuit breaker. The clock is monotonic, so a reading is a
-- number of ticks that an operation takes as an argument; a reading is never before `opened_at`.
use ismet.Prelude.{
  ℕ, zero, suc, ◌+◌, ◌-◌, ◌≤◌, ◌<◌, Bool, true, false, not, ◌&&◌, ◌||◌, Option, none, some, List,
  [], ◌∷◌, ltb, leb, ◌≡◌, ◌≢◌, ◌⊎◌, refl, inl, inr, arith, Bool-cases, if◌then◌else◌,
}
pub mod Laws

pub data CircuitState : Type 0 where
  closed open_ half_open : CircuitState

abbrev pub is_open_ : CircuitState → Bool
is_open_ open_ = true
is_open_ _ = false

abbrev pub is_half_open : CircuitState → Bool
is_half_open half_open = true
is_half_open _ = false

pub record CircuitBreaker : Type 0 where
  pub failure_threshold : ℕ
  pub recovery_timeout : ℕ
  pub state : CircuitState
  pub failures : ℕ
  pub opened_at : ℕ
  pub probing : Bool

-- `__init__`; `none` is its `ValueError`.
unfoldable pub new_breaker : ℕ → ℕ → Option CircuitBreaker
new_breaker threshold timeout =
    if ltb threshold 1
    then none
    else some (record {
      failure_threshold = threshold;
      recovery_timeout = timeout;
      state = closed;
      failures = 0;
      opened_at = 0;
      probing = false;
    })

-- The `state` property, which moves an open breaker to half-open when its time is over.
unfoldable pub poll : ℕ → CircuitBreaker → CircuitBreaker
poll now c =
    if is_open_ c.state && leb c.recovery_timeout (now - c.opened_at)
    then record c { state = half_open; probing = false }
    else c

-- `check`, past the read of the state: `some remaining` is the `CircuitOpen` that is raised.
abbrev pub check_state : CircuitState → ℕ → CircuitBreaker → CircuitBreaker × Option ℕ
check_state closed now c = (c, none)
check_state half_open now c =
    if c.probing
    then (c, some (c.recovery_timeout - (now - c.opened_at)))
    else (record c { probing = true }, none)
check_state open_ now c = (c, some (c.recovery_timeout - (now - c.opened_at)))

-- `check`, with the readings of the clock for the state and for the time that remains.
unfoldable pub check : ℕ → ℕ → CircuitBreaker → CircuitBreaker × Option ℕ
check now later c = let c' = poll now c in check_state c'.state later c'

unfoldable pub record_success : CircuitBreaker → CircuitBreaker
record_success c = record c { failures = 0; state = closed; probing = false }

unfoldable pub record_failure : ℕ → CircuitBreaker → CircuitBreaker
record_failure now c =
    let counted = record c { failures = c.failures + 1 } in
    if is_half_open c.state || leb c.failure_threshold (c.failures + 1)
    then record counted { state = open_; opened_at = now; probing = false }
    else counted

unfoldable pub release_probe : CircuitBreaker → CircuitBreaker
release_probe c = if is_half_open c.state then record c { probing = false } else c

unfoldable pub reset : CircuitBreaker → CircuitBreaker
unfolding record_success
reset c = record_success c
