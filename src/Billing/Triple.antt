-- ===== src/Billing/Triple.antt =====
-- Triples over the tables: what holds of them after an action that returns a value, and after one
-- that returns an error. The rules follow the steps of the billing service.
pub mod Payment
pub mod Reads
use capibarco.Base.{
  ℕ, zero, suc, ◌≡◌, refl, Bool, true, false, Option, none, some, Option-cases, inl, inr, arith,
  leb, ◌==◌, if◌then◌else◌, Bool-cases, ap, sym,
}
use mathlib.Core.Path.{subst}
use capibarco.Base.Result.{Result, ok, err}
use capibarco.Billing.Domain.{Error, not_found}
use capibarco.Billing.Ports.{
  IdempotencyRecord, BillingEvent, Env, Db, CircuitBreaker, World, Action, ◌>>=◌, lift, pure, ask,
  tick, call, publish,
}
use capibarco.Billing.Store.{query, exec, within_tx}
use capibarco.Billing.Resilience.{execute, retry_loop, retry, call_payment}
use capibarco.Billing.Service.Defs.{provider, replay_or}

abbrev pub Post : {A : Type 0} → (A → Db → Type 0) → (Db → Type 0) → Result Error A × World → Type 0
Post Q E (ok a, w) = Q a w.db
Post Q E (err e, w) = E w.db

pub record Holds {A : Type 0} (P : Db → Type 0) (m : Action A) (Q : A → Db → Type 0)
    (E : Db → Type 0) : Type 0 where
  pub run : (w : World) → P w.db → Post Q E (m w)

-- An action that keeps a predicate, whatever it returns.
abbrev pub Keeps : {A : Type 0} → (Db → Type 0) → Action A → Type 0
Keeps P m = Holds P m (λ _. P) P

module _ {A B : Type 0} {E : Db → Type 0} {R : A → Db → Type 0} {Q : B → Db → Type 0} where
  bind_post :
      (r : Result Error A × World) (f : A → Action B)
      → Post R E r
      → ((a : A) → Holds (R a) (f a) Q E)
      → Post Q E (elim r.0 [ ok a ↦ f a r.1 | err e ↦ (err e, r.1) ])
  bind_post (ok a, w) f h k = (k a).run w h
  bind_post (err e, w) f h k = h

  pub bind :
      {P : Db → Type 0} {m : Action A} {f : A → Action B}
      → Holds P m R E
      → ((a : A) → Holds (R a) (f a) Q E)
      → Holds P (m >>= f) Q E
  unfolding ◌>>=◌
  bind {m} {f} h k = record { run = λ w p. bind_post (m w) f (h.run w p) k }

conseq_post :
    {A : Type 0} {Q Q' : A → Db → Type 0} {E E' : Db → Type 0} (r : Result Error A × World)
    → ((a : A) (db : Db) → Q a db → Q' a db)
    → ((db : Db) → E db → E' db)
    → Post Q E r
    → Post Q' E' r
conseq_post (ok a, w) q e h = q a w.db h
conseq_post (err x, w) q e h = e w.db h

pub conseq :
    {A : Type 0} {P P' E E' : Db → Type 0} {Q Q' : A → Db → Type 0} {m : Action A}
    → ((db : Db) → P' db → P db)
    → ((a : A) (db : Db) → Q a db → Q' a db)
    → ((db : Db) → E db → E' db)
    → Holds P m Q E
    → Holds P' m Q' E'
conseq {m} p q e h = record { run = λ w x. conseq_post (m w) q e (h.run w (p w.db x)) }

pub if-Holds :
    {A : Type 0} {P E : Db → Type 0} {Q : A → Db → Type 0} (b : Bool) {x y : Action A}
    → Holds P x Q E
    → Holds P y Q E
    → Holds P (if b then x else y) Q E
if-Holds true h k = h
if-Holds false h k = k

pub return :
    {A : Type 0} {P E : Db → Type 0} {Q : A → Db → Type 0} (a : A)
    → ((db : Db) → P db → Q a db)
    → Holds P (pure a) Q E
unfolding pure
return a h = record { run = λ w p. h w.db p }

module _ (P : Db → Type 0) where
  pub pure-Holds : {A : Type 0} (a : A) → Keeps P (pure a)
  unfolding pure
  pure-Holds a = record { run = λ w p. p }

  pub ask-Holds : {A : Type 0} (f : ℕ → A) → Keeps P (ask f)
  unfolding ask
  ask-Holds f = record { run = λ w p. p }

  lift_post :
      {A : Type 0} (r : Result Error A) (w : World)
      → P w.db
      → Post (λ a db. P db × (r ≡ ok a)) P (r, w)
  lift_post (ok a) w p = (p, refl)
  lift_post (err e) w p = p

  pub lift-Holds :
      {A : Type 0} (r : Result Error A) → Holds P (lift r) (λ a db. P db × (r ≡ ok a)) P
  unfolding lift
  lift-Holds r = record { run = lift_post r }

  query_post :
      {A : Type 0} (f : Db → Result Error A) (r : Result Error A) (w : World)
      → f w.db ≡ r
      → P w.db
      → Post (λ a db. P db × (f db ≡ ok a)) P (r, w)
  query_post f (ok a) w e p = (p, e)
  query_post f (err x) w e p = p

  pub query-Holds :
      {A : Type 0} (f : Db → Result Error A) → Holds P (query f) (λ a db. P db × (f db ≡ ok a)) P
  unfolding query
  query-Holds f = record { run = λ w p. query_post f (f w.db) w refl p }

  exec_post :
      (f : Db → Result Error Db) (r : Result Error Db) (w : World) {Q : Db → Type 0}
      → f w.db ≡ r
      → ((db db' : Db) → P db → f db ≡ ok db' → Q db')
      → P w.db
      → Post {A = Unit {0}}
          (λ _. Q)
          P
          (elim r [ ok db ↦ (ok tt, record w { db = db }) | err e ↦ (err e, w) ])
  exec_post f (ok db) w e k p = k w.db db p e
  exec_post f (err x) w e k p = p

  pub exec-Holds :
      (f : Db → Result Error Db) {Q : Db → Type 0}
      → ((db db' : Db) → P db → f db ≡ ok db' → Q db')
      → Holds P (exec f) (λ _. Q) P
  unfolding exec
  exec-Holds f k = record { run = λ w p. exec_post f (f w.db) w refl k p }

module _ (env : Env) (P : Db → Type 0) where
  pub call-Holds : Keeps P (call env)
  unfolding call
  call-Holds = record {
    run = λ w p. elim (Option-cases (env.fault w.tick)) [
      | inl none_e ↦ rw none_e p
      | inr (n, e) ↦ rw e p
    ];
  }

  pub publish-Holds : (e : BillingEvent) → Keeps P (publish env e)
  unfolding publish call
  publish-Holds e = record {
    run = λ w p. elim (Option-cases (env.fault w.tick)) [
      | inl none_e ↦ rw none_e p
      | inr (n, x) ↦ rw x p
    ];
  }

  commit_post :
      {A : Type 0} (Q : A → Db → Type 0) (E F : Db → Type 0) (r : Result Error A × World)
      (w : World)
      → ((db : Db) → P db → F db)
      → ((a : A) (db : Db) (n : ℕ) → env.commit_lost n ≡ true → Q a db → F db)
      → P w.db
      → Post Q E r
      → Post Q F (elim r.0 [
        | err e ↦ (err e, record r.1 { db = w.db })
        | ok a ↦
            let (committed, w3) = call env r.1 in
            elim committed [
              | err e ↦ (
                err e,
                elim (env.commit_lost r.1.tick) [ true ↦ w3 | false ↦ record w3 { db = w.db } ],
              )
              | ok _ ↦ (ok a, w3)
            ]
      ])
  unfolding call
  commit_post Q E F (err e, w2) w back lost p q = back w.db p
  commit_post Q E F (ok a, w2) w back lost p q = elim (Option-cases (env.fault w2.tick)) [
    | inl e ↦ rw e q
    | inr (n, e) ↦ elim (Bool-cases (env.commit_lost w2.tick)) [
      | inl l ↦ rw (e, l) (lost a w2.db w2.tick l q)
      | inr l ↦ rw (e, l) (back w.db p)
    ]
  ]

  -- A transaction that fails leaves the tables as they were, whatever its body wrote, or with all
  -- that the body wrote, where the answer of the COMMIT was lost.
  pub within_tx-Holds :
      {A : Type 0} {Q : A → Db → Type 0} {E F : Db → Type 0} (body : Bool → Action A)
      → ((db : Db) → P db → F db)
      → ((a : A) (db : Db) (n : ℕ) → env.commit_lost n ≡ true → Q a db → F db)
      → Holds P (body true) Q E
      → Holds P (within_tx env false body) Q F
  unfolding within_tx
  within_tx-Holds {Q} {E} {F} body back lost h = record {
    run = λ w p. elim (Option-cases (env.fault w.tick)) [
      | inl e ↦ rw e (commit_post Q E F (body true (tick w)) w back lost p (h.run (tick w) p))
      | inr (n, e) ↦ rw e (back w.db p)
    ];
  }
