-- ===== src/Billing/Replay.antt =====
-- `ConfirmDonation` of backend/billing-service/internal/application/service.go with a key that has been
-- recorded.
pub mod Record
use capibarco.Base.{
  ℕ, ◌≡◌, ◌≢◌, refl, ◌⊎◌, inl, inr, Bool, true, false, Option, none, some, Option-cases, arith,
  if◌then◌else◌,
}
use capibarco.Base.Text.{Text, text_eq, text_eq_iff, text_eq_refl}
use capibarco.Base.Result.{Result, ok, err}
use capibarco.Base.Table.{find}
use capibarco.Billing.Domain.{Error, not_found, external, Donation, hash_idempotency_key}
use capibarco.Billing.Ports.{
  Env, Db, World, Action, IdempotencyRecord, PaymentConfirmation, ◌>>=◌, lift, pure, call, tick,
}
use capibarco.Billing.Store.{
  find_idempotency, insert_idempotency, get_idempotency, get_donation, query, is_key,
  save_idempotency,
}
use capibarco.Billing.Service.{
  ConfirmDonationInput, confirm_donation, finish_confirmation, confirm_success, confirm_failure,
  store_confirmation,
}
use capibarco.Billing.Service.Defs.{answer, provider, replay_or, scope_confirm_donation}
use capibarco.Billing.Resilience.{call_payment}
use capibarco.Billing.Triple.Payment.{replay_or-Holds}
use capibarco.Billing.Triple.{
  Post, Holds, bind, conseq, lift-Holds, ask-Holds, call-Holds, query-Holds, exec-Holds,
  within_tx-Holds, publish-Holds, return, if-Holds,
}

-- The key is recorded in the table of idempotency keys.
abbrev pub IsRecorded : Text → Text → Db → Type 0
IsRecorded scope hash db = find_idempotency scope hash db ≢ none

pub bind_ok :
    {A B : Type 0} (r : Result Error A) (f : A → Action B) (w : World) {a : A}
    → r ≡ ok a
    → (lift r >>= f) w ≡ f a w
unfolding lift ◌>>=◌
bind_ok r f w e = rw e

pub replay_or-look :
    {A : Type 0} (look : Action IdempotencyRecord) (hit : IdempotencyRecord → Action A)
    (miss : Action A) (w w' : World) {x : Result Error IdempotencyRecord}
    → look w ≡ (x, w')
    → replay_or look hit miss w ≡ answer x hit miss w'
unfolding replay_or
replay_or-look look hit miss w w' e = rw e

pub save_idempotency-IsRecorded :
    (r : IdempotencyRecord) (db db' : Db)
    → insert_idempotency r db ≡ ok db'
    → IsRecorded r.scope r.key_hash db'
unfolding insert_idempotency find_idempotency
save_idempotency-IsRecorded r db db' e =
    ground (arith, text_eq_refl r.scope, text_eq_refl r.key_hash)

get_donation-world : (env : Env) (id : Text) (w : World) → (get_donation env id w).1 ≡ tick w
unfolding get_donation ◌>>=◌ query
get_donation-world env id w = ground arith

-- A look-up of a recorded key finds its record, or fails for another reason than a missing row.
get_idempotency-recorded :
    (env : Env) (scope hash : Text) (w : World)
    → IsRecorded scope hash w.db
    → (x : Result Error IdempotencyRecord) × (get_idempotency env scope hash w ≡ (x, tick w))
      × (x ≢ err not_found)
unfolding get_idempotency ◌>>=◌ query
get_idempotency-recorded env scope hash w h = elim (Option-cases (env.fault w.tick)) [
  | inr (n, e) ↦ (err (external n), ground arith, λ x. cc)
  | inl e ↦ elim (Option-cases (find_idempotency scope hash w.db)) [
    | inl missing ↦ absurd (h missing)
    | inr (r, found) ↦ (ok r, ground arith, λ x. cc)
  ]
]

-- What a call leaves alone that only reads.
abbrev pub Unchanged : World → World → Type 0
Unchanged w w' =
    (w'.db ≡ w.db)
    × (w'.published ≡ w.published)
    × (w'.breaker ≡ w.breaker)
    × (w'.provider_calls ≡ w.provider_calls)

hit-Unchanged :
    (env : Env) (x : Result Error IdempotencyRecord) (miss : Action (Option Donation)) (w : World)
    → x ≢ err not_found
    → Unchanged w
        (answer x (λ found. get_donation env found.resource_id >>= λ d. pure (some d)) miss w).1
unfolding ◌>>=◌ pure
hit-Unchanged env (ok r) miss w h = ground (arith, get_donation-world env r.resource_id w)
hit-Unchanged env (err not_found) miss w h = absurd (h refl)
hit-Unchanged env (err _) miss w h = (refl, refl, refl, refl)

-- With a recorded key, `ConfirmDonation` changes no table, publishes nothing, leaves the breaker alone
-- and does not reach the payment provider, whatever else the request says.
pub confirm_donation-recorded :
    (env : Env) (input : ConfirmDonationInput) (hash : Text) (w : World)
    → hash_idempotency_key env.digest scope_confirm_donation input.idempotency_key ≡ ok hash
    → IsRecorded scope_confirm_donation hash w.db
    → Unchanged w (confirm_donation env input w).1
unfolding confirm_donation
confirm_donation-recorded env input hash w k h =
    let (x, looked, known) = get_idempotency-recorded env scope_confirm_donation hash w h in
    rw (bind_ok _ _ w k)
      (rw (replay_or-look _ _ _ w (tick w) looked) (hit-Unchanged env x _ (tick w) known))
