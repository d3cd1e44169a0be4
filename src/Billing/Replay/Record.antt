-- ===== src/Billing/Replay/Record.antt =====
-- `ConfirmDonation` of backend/billing-service/internal/application/service.go, and the key that it
-- records.
use mathlib.Core.Path.{subst}
use capibarco.Base.{ℕ, ◌≡◌, ◌≢◌, refl, ◌⊎◌, inl, inr, Option, none, some, arith}
use capibarco.Base.Text.{Text}
use capibarco.Base.Result.{Result, ok, err}
use capibarco.Billing.Domain.{Error, Donation, hash_idempotency_key}
use capibarco.Billing.Ports.{
  Env, Db, World, Action, IdempotencyRecord, PaymentConfirmation, ◌>>=◌, lift, pure,
}
use capibarco.Billing.Store.{get_idempotency, get_donation, save_idempotency}
use capibarco.Billing.Service.{
  ConfirmDonationInput, confirm_donation, finish_confirmation, confirm_success, confirm_failure,
  store_confirmation,
}
use capibarco.Billing.Service.Defs.{provider, replay_or, scope_confirm_donation}
use capibarco.Billing.Resilience.{call_payment}
use capibarco.Billing.Triple.Payment.{replay_or-Holds}
use capibarco.Billing.Triple.{
  Post, Holds, bind, conseq, call-Holds, query-Holds, exec-Holds, within_tx-Holds, publish-Holds,
  return, if-Holds,
}
use capibarco.Billing.Replay.{
  IsRecorded, Unchanged, bind_ok, save_idempotency-IsRecorded, confirm_donation-recorded,
}

abbrev Any : Db → Type 0
Any _ = Unit

-- What holds of the tables after a confirmation under the hash.
abbrev IsDone : Text → Option Donation → Db → Type 0
IsDone hash r db = r ≢ none → IsRecorded scope_confirm_donation hash db

module _ (env : Env) where
  any : {A : Type 0} (m : Action A) → Holds Any m (λ _. Any) Any
  any m = record { run = λ w p. Any-post (m w) }
    where
      Any-post : {A : Type 0} (r : Result Error A × World) → Post {A = A} (λ _. Any) Any r
      Any-post (ok a, w) = tt
      Any-post (err e, w) = tt

  get_donation-keeps : (P : Db → Type 0) (id : Text) → Holds P (get_donation env id) (λ _. P) Any
  unfolding get_donation
  get_donation-keeps P id =
      bind (conseq (λ _ s. s) (λ _ _ s. s) (λ _ _. tt) (call-Holds env P))
        λ _. conseq (λ _ s. s) (λ _ _ s. s.0) (λ _ _. tt) (query-Holds P _)

  save_idempotency-done :
      (r : IdempotencyRecord)
      → Holds Any (save_idempotency env r) (λ _. IsRecorded r.scope r.key_hash) Any
  unfolding save_idempotency
  save_idempotency-done r =
      bind (any _) λ _. exec-Holds _ _ λ db db' p e. save_idempotency-IsRecorded r db db' e

  store_confirmation-done :
      (now : ℕ) (hash : Text) (d : Donation)
      → Holds Any
          (store_confirmation env now hash d)
          (λ _. IsRecorded scope_confirm_donation hash)
          Any
  unfolding store_confirmation
  store_confirmation-done now hash d =
      within_tx-Holds env _ _ (λ _ s. s) (λ _ _ _ _ _. tt)
        (bind (any _) λ _. bind (any _) λ id. bind (any _) λ _. save_idempotency-done _)

  confirm_success-IsDone :
      (input : ConfirmDonationInput) (hash : Text) (d : Donation) (c : PaymentConfirmation)
      (now : ℕ)
      → Holds Any (confirm_success env input hash d c now) (IsDone hash) Any
  unfolding confirm_success
  confirm_success-IsDone input hash d c now = bind (any _) λ d'.
      bind (store_confirmation-done now hash d') λ _.
        bind (conseq (λ _ s. s) (λ _ _ s. s) (λ _ _. tt) (publish-Holds env _ _))
          λ _. return _ (λ _ s _. s)

  confirm_failure-IsDone :
      (input : ConfirmDonationInput) (hash : Text) (d : Donation) (c : PaymentConfirmation)
      (now : ℕ)
      → Holds Any (confirm_failure env input d c now) (IsDone hash) Any
  unfolding confirm_failure
  confirm_failure-IsDone input hash d c now =
      bind (any _) λ d'. bind (any _) λ _. return _ (λ _ s h. absurd (h refl))

  finish_confirmation-IsDone :
      (input : ConfirmDonationInput) (hash : Text) (d : Donation) (c : PaymentConfirmation)
      → Holds Any (finish_confirmation env input hash d c) (IsDone hash) Any
  unfolding finish_confirmation
  finish_confirmation-IsDone input hash d c = bind (any _) λ now.
      if-Holds c.succeeded (confirm_success-IsDone input hash d c now)
        (confirm_failure-IsDone input hash d c now)

  get_idempotency-done :
      (scope hash : Text)
      → Holds Any (get_idempotency env scope hash) (λ _. IsRecorded scope hash) Any
  unfolding get_idempotency
  get_idempotency-done scope hash = bind (any _) λ _.
      conseq (λ _ s. s) (λ r db s missing. absurd (ground (arith, missing, s.1))) (λ _ s. s)
        (query-Holds Any _)

  -- After the hash of the key: what the tables record if a donation is returned.
  confirm_hashed-IsDone :
      (input : ConfirmDonationInput) (hash : Text)
      → Holds Any
          (replay_or
            (get_idempotency env scope_confirm_donation hash)
            (λ found. get_donation env found.resource_id >>= λ d. pure (some d))
            (get_donation env input.donation_id >>= λ d.
              call_payment env (provider (λ n. env.confirm n input.provider_payment_id)) >>= λ c.
              finish_confirmation env input hash d c))
          (IsDone hash)
          Any
  confirm_hashed-IsDone input hash =
      replay_or-Holds (get_idempotency-done scope_confirm_donation hash)
        (λ found. bind (get_donation-keeps _ found.resource_id) λ d. return _ (λ _ s _. s))
        (bind (any _) λ d. bind (any _) λ c. finish_confirmation-IsDone input hash d c)

Result-cases :
    {A : Type 0} (r : Result Error A) → ((a : A) × (r ≡ ok a)) ⊎ ((e : Error) × (r ≡ err e))
Result-cases (ok a) = inl (a, refl)
Result-cases (err e) = inr (e, refl)

confirm_donation-unhashed :
    (env : Env) (input : ConfirmDonationInput) (w : World) {e : Error}
    → hash_idempotency_key env.digest scope_confirm_donation input.idempotency_key ≡ err e
    → confirm_donation env input w ≡ (err e, w)
unfolding confirm_donation ◌>>=◌ lift
confirm_donation-unhashed env input w h = rw h

confirm_donation-hashed :
    (env : Env) (input : ConfirmDonationInput) (hash : Text) (w : World)
    → hash_idempotency_key env.digest scope_confirm_donation input.idempotency_key ≡ ok hash
    → Post (IsDone hash) Any (confirm_donation env input w)
unfolding confirm_donation
confirm_donation-hashed env input hash w h =
    rw (bind_ok _ _ w h) ((confirm_hashed-IsDone env input hash).run w tt)

-- A call of `ConfirmDonation` that comes directly after one that has returned a donation, with the
-- same idempotency key, changes no table, publishes nothing, leaves the breaker alone and does not
-- reach the payment provider, whatever the environment answers then and whatever else that request
-- says: the payment is not confirmed twice.
pub confirm_donation-replay :
    (env env' : Env) (input input' : ConfirmDonationInput) (w w1 : World) {d : Donation}
    → confirm_donation env input w ≡ (ok (some d), w1)
    → env'.digest ≡ env.digest
    → input'.idempotency_key ≡ input.idempotency_key
    → Unchanged w1 (confirm_donation env' input' w1).1
confirm_donation-replay env env' input input' w w1 {d} e same_digest same_key =
    elim (Result-cases
      (hash_idempotency_key env.digest scope_confirm_donation input.idempotency_key)) [
        | inr (x, h) ↦ absurd (cc (confirm_donation-unhashed env input w h))
        | inl (hash, h) ↦
            let done =
              subst (Post (IsDone hash) Any) e (confirm_donation-hashed env input hash w h) in
            confirm_donation-recorded env' input' hash w1 (rw (same_digest, same_key) h)
              (done (λ x. cc))
      ]
