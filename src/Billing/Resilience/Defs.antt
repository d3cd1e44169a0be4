-- ===== src/Billing/Resilience/Defs.antt =====
-- The definitions: circuit breaker, retry loop and `callPayment`.
use capibarco.Base.{
  ℕ, zero, suc, ◌+◌, ◌-◌, Bool, true, false, none, some, ltb, leb, ◌==◌, if◌then◌else◌,
}
use capibarco.Base.Result.{Result, ok, err}
use capibarco.Billing.Domain.{Error, circuit_open, cancelled}
use capibarco.Billing.Ports.{Env, CircuitBreaker, World, Action, tick}

-- `NewCircuitBreaker`: 0 stands for zero and below; a second is 10^9 ns.
unfoldable pub new_circuit_breaker : ℕ → ℕ → CircuitBreaker
new_circuit_breaker threshold cooldown = record {
  threshold = if threshold == 0 then 3 else threshold;
  cooldown = if cooldown == 0 then 1_000_000_000 else cooldown;
  failures = 0;
  opened_until = 0;
}

-- What `Execute` writes after a call that failed at time `now`.
unfoldable pub on_failure : ℕ → CircuitBreaker → CircuitBreaker
on_failure now b =
    let counted = record b { failures = b.failures + 1 } in
    if leb b.threshold (b.failures + 1)
    then record counted { opened_until = now + b.cooldown }
    else counted

-- What `Execute` writes after a call that succeeded.
unfoldable pub on_success : CircuitBreaker → CircuitBreaker
on_success b = record b { failures = 0; opened_until = 0 }

-- `time.Now().Before(b.openedUntil)`
unfoldable pub is_open : ℕ → CircuitBreaker → Bool
is_open now b = ltb now b.opened_until

module _ (env : Env) {A : Type 0} where
  abbrev pub settle : Result Error A × World → Result Error A × World
  settle (ok a, w) =
      (ok a, record w { breaker = elim w.breaker [ none ↦ none | some b ↦ some (on_success b) ] })
  settle (err e, w) = (
    err e,
    record (tick w) {
      breaker = elim w.breaker [ none ↦ none | some b ↦ some (on_failure (env.now w.tick) b) ];
    },
  )

  -- `(*CircuitBreaker).Execute`
  unfoldable pub execute : CircuitBreaker → Action A → Action A
  unfolding is_open on_failure on_success
  execute b fn w =
      if is_open (env.now w.tick) b then (err circuit_open, tick w) else settle (fn (tick w))

  -- The rounds of `RetryPolicy.Do` after the first, `left` of them. A wait is cut short by a
  -- context that is done; with no backoff there is no wait.
  unfoldable pub retry_loop : ℕ → Action A → Action A
  retry_loop zero fn w = fn w
  retry_loop (suc left) fn w =
      let (r, w') = fn w in
      elim r [
        | ok a ↦ (ok a, w')
        | err e ↦ elim (env.backoff == 0) [
          | true ↦ retry_loop left fn w'
          | false ↦ elim (env.done w'.tick) [
            | true ↦ (err cancelled, tick w')
            | false ↦ retry_loop left fn (tick w')
          ]
        ]
      ]

  -- `RetryPolicy.Do`
  unfoldable pub retry : Action A → Action A
  unfolding retry_loop
  retry fn = retry_loop (env.attempts - 1) fn

  abbrev pub guarded : Action A → Action A
  guarded fn w = elim w.breaker [ none ↦ fn w | some b ↦ execute b fn w ]

  -- `(*Service).callPayment`
  unfoldable pub call_payment : Action A → Action A
  unfolding retry execute
  call_payment fn w = elim (leb env.attempts 1) [
    | true ↦ guarded fn w
    | false ↦ retry (guarded fn) w
  ]
