-- ===== src/Billing/Triple/Payment.antt =====
-- Rules for the calls of the payment provider, through the breaker and the retries, and for the
-- look-up of an idempotency key.
use capibarco.Base.{
  ℕ, zero, suc, Bool, true, false, Option, none, some, inl, inr, leb, ◌==◌, Bool-cases, ◌-◌,
}
use capibarco.Base.Result.{Result, ok, err}
use capibarco.Billing.Domain.{Error, not_found}
use capibarco.Billing.Ports.{IdempotencyRecord, Env, Db, CircuitBreaker, World, Action, tick}
use capibarco.Billing.Resilience.{execute, retry_loop, call_payment, is_open, settle, guarded}
use capibarco.Billing.Service.Defs.{provider, answer, replay_or}
use capibarco.Billing.Triple.{Post, Holds, Keeps}

module _ (env : Env) (P : Db → Type 0) {A : Type 0} where
  provider_post : (r : Result Error A) (w : World) → P w.db → Post {A = A} (λ _. P) P (r, w)
  provider_post (ok a) w p = p
  provider_post (err e) w p = p

  pub provider-Holds : (answer : ℕ → Result Error A) → Keeps P (provider answer)
  unfolding provider
  provider-Holds answer = record { run = λ w p. provider_post (answer w.tick) _ p }

  retry_loop_post :
      (left : ℕ) (fn : Action A)
      → Keeps P fn
      → Keeps P (retry_loop env left fn)
      → (r : Result Error A × World) → Post (λ _. P) P r
      → Post {A = A}
          (λ _. P)
          P
          (elim r.0 [
            | ok a ↦ (ok a, r.1)
            | err e ↦ elim (env.backoff == 0) [
              | true ↦ retry_loop env left fn r.1
              | false ↦ elim (env.done r.1.tick) [
                | true ↦ (err Error.cancelled, tick r.1)
                | false ↦ retry_loop env left fn (tick r.1)
              ]
            ]
          ])
  retry_loop_post left fn k h (ok a, w) p = p
  retry_loop_post left fn k h (err e, w) p = elim (Bool-cases (env.backoff == 0)) [
    | inl b ↦ rw b (h.run w p)
    | inr b ↦
        rw b
          (elim (Bool-cases (env.done w.tick)) [ inl d ↦ rw d p | inr d ↦ rw d (h.run (tick w) p) ])
  ]

  pub retry_loop-Holds : (left : ℕ) (fn : Action A) → Keeps P fn → Keeps P (retry_loop env left fn)
  unfolding retry_loop
  retry_loop-Holds zero fn k = record { run = λ w p. k.run w p }
  retry_loop-Holds (suc left) fn k = record {
    run = λ w p. retry_loop_post left fn k (retry_loop-Holds left fn k) (fn w) (k.run w p);
  }

  execute_post : (b : CircuitBreaker) (fn : Action A) → Keeps P fn → Keeps P (execute env b fn)
  unfolding execute
  execute_post b fn k = record {
    run = λ w p. elim (Bool-cases (is_open (env.now w.tick) b)) [
      | inl o ↦ rw o p
      | inr o ↦ rw o (settle_post (fn (tick w)) (k.run (tick w) p))
    ];
  }
    where
      settle_post :
          (r : Result Error A × World) → Post (λ _. P) P r → Post (λ _. P) P (settle env r)
      settle_post (ok a, w) p = p
      settle_post (err e, w) p = p

  guarded_post :
      (fn : Action A) (o : Option CircuitBreaker) (w : World)
      → Keeps P fn
      → P w.db
      → Post {A = A} (λ _. P) P (elim o [ none ↦ fn w | some b ↦ execute env b fn w ])
  guarded_post fn none w k p = k.run w p
  guarded_post fn (some b) w k p = (execute_post b fn k).run w p

  guarded-Holds : (fn : Action A) → Keeps P fn → Keeps P (guarded env fn)
  guarded-Holds fn k = record { run = λ w p. guarded_post fn w.breaker w k p }

  either_post :
      (b : Bool) (x y : Result Error A × World)
      → Post (λ _. P) P x
      → Post (λ _. P) P y
      → Post {A = A} (λ _. P) P (elim b [ true ↦ x | false ↦ y ])
  either_post true x y p q = p
  either_post false x y p q = q

  pub call_payment-Holds : {fn : Action A} → Keeps P fn → Keeps P (call_payment env fn)
  unfolding call_payment
  call_payment-Holds {fn} k =
      let single = guarded-Holds fn k in
      let retried = retry_loop-Holds (env.attempts - 1) (guarded env fn) single in
      record {
        run = λ w p. either_post (leb env.attempts 1) _ _ (single.run w p) (retried.run w p);
      }

module _ {P E : Db → Type 0} {R : IdempotencyRecord → Db → Type 0} {A : Type 0}
    {Q : A → Db → Type 0} (back : (db : Db) → P db → E db) where
  replay_post :
      (r : Result Error IdempotencyRecord × World) (hit : IdempotencyRecord → Action A)
      (miss : Action A)
      → Post R P r
      → ((a : IdempotencyRecord) → Holds (R a) (hit a) Q E)
      → Holds P miss Q E
      → Post Q E (answer r.0 hit miss r.1)
  replay_post (ok a, w) hit miss p h m = (h a).run w p
  replay_post (err not_found, w) hit miss p h m = m.run w p
  replay_post (err _, w) hit miss p h m = back w.db p

  -- A look-up that fails otherwise than by a missing row ends the action.
  pub replay_or-Fails :
      {look : Action IdempotencyRecord} {hit : IdempotencyRecord → Action A} {miss : Action A}
      → Holds P look R P
      → ((a : IdempotencyRecord) → Holds (R a) (hit a) Q E)
      → Holds P miss Q E
      → Holds P (replay_or look hit miss) Q E
  unfolding replay_or
  replay_or-Fails {look} {hit} {miss} l h m = record {
    run = λ w p. replay_post (look w) hit miss (l.run w p) h m;
  }

pub replay_or-Holds :
    {P : Db → Type 0} {R : IdempotencyRecord → Db → Type 0} {A : Type 0} {Q : A → Db → Type 0}
    {look : Action IdempotencyRecord} {hit : IdempotencyRecord → Action A} {miss : Action A}
    → Holds P look R P
    → ((a : IdempotencyRecord) → Holds (R a) (hit a) Q P)
    → Holds P miss Q P
    → Holds P (replay_or look hit miss) Q P
replay_or-Holds l h m = replay_or-Fails (λ _ p. p) l h m
