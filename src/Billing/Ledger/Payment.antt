-- ===== src/Billing/Ledger/Payment.antt =====
-- A call of the payment provider that succeeds at the first attempt, through the breaker and the
-- retries of `callPayment` (backend/billing-service/internal/application/service.go).
use capibarco.Base.{
  ℕ, zero, suc, ◌+◌, ◌-◌, ◌≡◌, refl, Bool-cases, inl, inr, leb, false, Option, none, some, arith,
}
use capibarco.Base.Result.{Result, ok}
use capibarco.Billing.Domain.{Error}
use capibarco.Billing.Ports.{Env, World, CircuitBreaker, Action, tick}
use capibarco.Billing.Resilience.{call_payment, execute, is_open, retry}
use capibarco.Billing.Resilience.Defs.{retry_loop, guarded}
use capibarco.Billing.Service.Defs.{provider}

module _ (env : Env) where
  -- A breaker, where there is one, that is closed whenever it is asked.
  abbrev pub IsClosed : Option CircuitBreaker → Type 0
  IsClosed none = Unit
  IsClosed (some b) = (n : ℕ) → is_open (env.now n) b ≡ false

  -- What a call through the breaker gives that succeeds: the value, and the tables left alone.
  abbrev Answers : {A : Type 0} → Action A → A → World → Type 0
  Answers m a w = (w' : World) × (m w ≡ (ok a, w')) × (w'.db ≡ w.db)

  guarded-Answers :
      {A : Type 0} (says : ℕ → Result Error A) (a : A) (o : Option CircuitBreaker) (w : World)
      → IsClosed o
      → ((n : ℕ) → says n ≡ ok a)
      → (w' : World) × (elim o [ none ↦ provider says w | some b ↦ execute env b (provider says) w ]
          ≡ (ok a, w'))
        × (w'.db ≡ w.db)
  unfolding provider execute
  guarded-Answers says a none w closed gives =
      (record (tick w) { provider_calls = w.provider_calls + 1 }, rw (gives w.tick) refl, refl)
  guarded-Answers says a (some b) w closed gives = (
    (execute env b (provider says) w).1,
    ground (arith, closed w.tick, gives (w.tick + 1)),
    ground (arith, closed w.tick, gives (w.tick + 1)),
  )

  retry_loop-Answers :
      {A : Type 0} (left : ℕ) (m : Action A) (a : A) (w : World)
      → Answers m a w
      → Answers (retry_loop env left m) a w
  unfolding retry_loop
  retry_loop-Answers zero m a w h = h
  retry_loop-Answers (suc left) m a w (w', e, same) = (w', ground arith, same)

  pub call_payment-Answers :
      {A : Type 0} (says : ℕ → Result Error A) (a : A) (w : World)
      → IsClosed w.breaker
      → ((n : ℕ) → says n ≡ ok a)
      → Answers (call_payment env (provider says)) a w
  unfolding call_payment retry
  call_payment-Answers says a w closed gives =
      let once : Answers (guarded env (provider says)) a w =
        guarded-Answers says a w.breaker w closed gives in
      let more = retry_loop-Answers (env.attempts - 1) (guarded env (provider says)) a w once in
      elim (Bool-cases (leb env.attempts 1)) [
        | inl e ↦ (once.0, ground (arith, e, once.1), once.2)
        | inr e ↦ (more.0, ground (arith, e, more.1), more.2)
      ]
