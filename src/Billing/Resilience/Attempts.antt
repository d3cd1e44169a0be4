-- ===== src/Billing/Resilience/Attempts.antt =====
-- Laws of the retry loop of the billing service, for a policy without backoff.
use capibarco.Base.{ℕ, zero, suc, ◌+◌, ◌≤◌, ◌<◌, ◌≡◌, refl, arith, ◌-◌, ◌∙◌, ap}
use mathlib.Core.Path.{subst}
use native.Mathlib.Nat.{add-zero}
use capibarco.Base.Result.{Result, ok, err}
use capibarco.Billing.Domain.{Error}
use capibarco.Billing.Ports.{Env, World, Action}
use capibarco.Billing.Resilience.Defs.{retry_loop, retry}

-- The call of a dependency, as the service makes it: one answer for each number of a call.
abbrev pub numbered : {A : Type 0} → (ℕ → Result Error A) → Action A
numbered answer w = (answer w.tick, record w { tick = w.tick + 1 })

module _ (env : Env) (eager : env.backoff ≡ 0) {A : Type 0} (answer : ℕ → Result Error A) where
  abbrev Fails : ℕ → Type 0
  Fails n = (x : Error) × (answer n ≡ err x)

  shift : (m i : ℕ) → Fails (m + suc i) → Fails (m + 1 + i)
  shift m i h = subst Fails (omega arith) h

  loop_step :
      (left : ℕ) (w : World)
      → Fails w.tick
      → retry_loop env (suc left) (numbered answer) w
        ≡ retry_loop env left (numbered answer) (record w { tick = w.tick + 1 })
  unfolding retry_loop
  loop_step left w (x, e) = simp (e, eager)

  loop_done :
      (left : ℕ) (w : World) {a : A}
      → answer w.tick ≡ ok a
      → retry_loop env left (numbered answer) w ≡ (ok a, record w { tick = w.tick + 1 })
  unfolding retry_loop
  loop_done zero w e = simp e
  loop_done (suc left) w e = simp e

  loop_found :
      (k left : ℕ) (w : World) {a : A}
      → k ≤ left
      → ((i : ℕ) → i < k → Fails (w.tick + i))
      → answer (w.tick + k) ≡ ok a
      → ((retry_loop env left (numbered answer) w).0 ≡ ok a)
        × ((retry_loop env left (numbered answer) w).1.tick ≡ w.tick + k + 1)
  loop_found zero left w le bad good =
      rw (loop_done left w (rw add-zero at good)) (refl, omega arith)
  loop_found (suc k) zero w le bad good = absurd (omega arith)
  loop_found (suc k) (suc left) w {a} le bad good =
      rw (loop_step left w (rw add-zero at (bad 0 (omega arith)))) (
        let (r, t) =
          loop_found k left (record w { tick = w.tick + 1 }) {a = a} (omega arith)
            (λ i lt. shift w.tick i (bad (suc i) (omega arith)))
            (subst (λ (t : ℕ). answer t ≡ ok a) (omega arith) good) in
        (r, omega arith))

  loop_exhausted :
      (left : ℕ) (w : World)
      → ((i : ℕ) → i ≤ left → Fails (w.tick + i))
      → ((retry_loop env left (numbered answer) w).0 ≡ answer (w.tick + left))
        × ((retry_loop env left (numbered answer) w).1.tick ≡ w.tick + left + 1)
  unfolding retry_loop
  loop_exhausted zero w bad = rw add-zero (refl, refl)
  loop_exhausted (suc left) w bad = rw (loop_step left w (rw add-zero at (bad 0 (omega arith)))) (
      let (r, t) =
        loop_exhausted left (record w { tick = w.tick + 1 })
          (λ i le. shift w.tick i (bad (suc i) (omega arith))) in
      (r ∙ ap answer (omega arith), omega arith))

  -- `RetryPolicy.Do`, without backoff, stops at the first call that succeeds, if that is one of its attempts, and
  -- returns what that call returned, having made no further call.
  pub retry_found :
      (k : ℕ) (w : World) {a : A}
      → k < env.attempts
      → ((i : ℕ) → i < k → (x : Error) × (answer (w.tick + i) ≡ err x))
      → answer (w.tick + k) ≡ ok a
      → ((retry env (numbered answer) w).0 ≡ ok a)
        × ((retry env (numbered answer) w).1.tick ≡ w.tick + k + 1)
  unfolding retry
  retry_found k w lt bad good = loop_found k (env.attempts - 1) w (omega arith) bad good

  -- Where every attempt fails, `RetryPolicy.Do` without backoff makes exactly as many calls as it has attempts, one at least, and
  -- returns the error of the last.
  pub retry_exhausted :
      (w : World)
      → ((i : ℕ) → i ≤ env.attempts - 1 → (x : Error) × (answer (w.tick + i) ≡ err x))
      → ((retry env (numbered answer) w).0 ≡ answer (w.tick + (env.attempts - 1)))
        × ((retry env (numbered answer) w).1.tick ≡ w.tick + (env.attempts - 1) + 1)
  unfolding retry
  retry_exhausted w bad = loop_exhausted (env.attempts - 1) w bad
