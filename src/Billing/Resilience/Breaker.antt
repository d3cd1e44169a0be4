-- ===== src/Billing/Resilience/Breaker.antt =====
-- Laws of the circuit breaker of the billing service.
use capibarco.Base.{ℕ, ◌+◌, ◌≤◌, ◌<◌, ◌≡◌, ◌≢◌, false, some, arith, Bool-cases, inl, inr, ◌∙◌}
use capibarco.Base.Result.{Result, ok, err}
use capibarco.Billing.Domain.{Error, circuit_open}
use capibarco.Billing.Ports.{Env, CircuitBreaker, World, Action, tick}
use capibarco.Billing.Resilience.Defs.{
  new_circuit_breaker, on_failure, on_success, is_open, settle, execute,
}

-- An open breaker has counted as many failures as its threshold, which is not zero.
pub record IsCounting (b : CircuitBreaker) : Type 0 where
  pub positive : 0 < b.threshold
  pub tripped : b.opened_until ≢ 0 → b.threshold ≤ b.failures

pub new-IsCounting : (threshold cooldown : ℕ) → IsCounting (new_circuit_breaker threshold cooldown)
unfolding new_circuit_breaker
new-IsCounting threshold cooldown = ground arith

-- The call does not touch the breaker itself.
abbrev pub Leaves : {A : Type 0} → Action A → Type 0
Leaves fn = (w : World) → (fn w).1.breaker ≡ w.breaker

-- What `Execute` leaves in the world.
abbrev pub HasBreaker : (CircuitBreaker → Type 0) → World → Type 0
HasBreaker P w = (b : CircuitBreaker) × (w.breaker ≡ some b) × P b

settle-IsCounting :
    (env : Env) {A : Type 0} (r : Result Error A × World) (b : CircuitBreaker)
    → r.1.breaker ≡ some b
    → IsCounting b
    → HasBreaker IsCounting (settle env r).1
unfolding on_failure on_success
settle-IsCounting env (ok a, w) b e h = (on_success b, ground arith, ground arith)
settle-IsCounting env (err x, w) b e h = (on_failure (env.now w.tick) b, ground arith, ground arith)

-- For a breaker that is open only after as many failures as its threshold, which is positive, and a
-- call that leaves the breaker itself alone: `Execute` leaves such a breaker again, whatever
-- the call returns and whatever the clock says.
pub execute-IsCounting :
    (env : Env) {A : Type 0} (b : CircuitBreaker) (fn : Action A) (w : World)
    → w.breaker ≡ some b
    → Leaves fn
    → IsCounting b
    → HasBreaker IsCounting (execute env b fn w).1
unfolding execute
execute-IsCounting env b fn w e l h = elim (Bool-cases (is_open (env.now w.tick) b)) [
  | inl open_now ↦ rw open_now (b, e, h)
  | inr closed ↦ rw closed (settle-IsCounting env (fn (tick w)) b (l (tick w) ∙ e) h)
]

settle_failed :
    (env : Env) {A : Type 0} (r : Result Error A × World) (b : CircuitBreaker) {x : Error}
    → r.1.breaker ≡ some b
    → r.0 ≡ err x
    → (settle env r).1.breaker ≡ some (on_failure (env.now r.1.tick) b)
settle_failed env (ok a, w) b e f = cc
settle_failed env (err y, w) b e f = ground arith

execute_failed :
    (env : Env) {A : Type 0} (b : CircuitBreaker) (fn : Action A) (w : World) {x : Error}
    → (fn (tick w)).1.breaker ≡ some b
    → is_open (env.now w.tick) b ≡ false
    → (fn (tick w)).0 ≡ err x
    → (execute env b fn w).1.breaker ≡ some (on_failure (env.now (fn (tick w)).1.tick) b)
unfolding execute
execute_failed env b fn w e closed f = rw closed (settle_failed env (fn (tick w)) b e f)

-- A call that leaves the breaker itself alone, is made while it is closed, and fails when the failures
-- reach the threshold opens the breaker: at every later call, as long as the clock has not reached
-- the end of the cool-down that began when the call failed, `Execute` answers with the error of an
-- open breaker and does not make the call.
pub execute-opens :
    (env : Env) {A B : Type 0} (b : CircuitBreaker) (fn : Action A) (w : World) (later : Action B)
    (w' : World) {x : Error}
    → w.breaker ≡ some b
    → Leaves fn
    → is_open (env.now w.tick) b ≡ false
    → (fn (tick w)).0 ≡ err x
    → b.threshold ≤ b.failures + 1
    → env.now w'.tick < env.now (fn (tick w)).1.tick + b.cooldown
    → (b' : CircuitBreaker) × ((execute env b fn w).1.breaker ≡ some b')
      × (execute env b' later w' ≡ (err circuit_open, tick w'))
unfolding execute is_open on_failure
execute-opens env b fn w later w' e l closed failed reached before = (
  on_failure (env.now (fn (tick w)).1.tick) b,
  execute_failed env b fn w (l (tick w) ∙ e) closed failed,
  ground arith,
)
