-- ===== src/Billing/Ledger.antt =====
-- What `ConfirmDonation` of backend/billing-service/internal/application/service.go writes to the ledger.
pub mod Payment
use capibarco.Base.{
  ℕ, zero, suc, ◌+◌, ◌-◌, ◌≡◌, refl, sym, ap, ◌∙◌, Bool-cases, inl, inr, leb, true, false, Option,
  none, some, ◌∷◌, exists, arith,
}
use capibarco.Base.Text.{Text, lit}
use capibarco.Base.Result.{Result, ok, err}
use capibarco.Base.Table.{exists-find}
use capibarco.Billing.Domain.{
  Error, not_found, Donation, LedgerEntry, succeeded, mark_succeeded, hash_idempotency_key,
}
use capibarco.Billing.Ports.{
  Env, Db, World, CircuitBreaker, Action, PaymentConfirmation, ◌>>=◌, lift, pure, ask, call,
  publish, tick,
}
use capibarco.Billing.Store.{
  find_donation, update_donation, find_idempotency, insert_idempotency, insert_ledger_entry,
  amount_checks, is_entry, is_donation, clashes, exec, query, save_donation, add_ledger_entry,
  save_idempotency, within_tx, get_idempotency, get_donation,
}
use capibarco.Billing.Resilience.{call_payment, execute, is_open, retry}
use capibarco.Billing.Resilience.Defs.{retry_loop, guarded}
use capibarco.Billing.Service.Defs.{provider, scope_confirm_donation}
use capibarco.Billing.Paid.{find_donation_self}
use capibarco.Billing.Replay.{bind_ok, replay_or-look}
use capibarco.Billing.Service.{
  ConfirmDonationInput, confirm_donation, finish_confirmation, confirm_success, store_confirmation,
}
use capibarco.Billing.Ledger.Payment.{IsClosed, call_payment-Answers}

-- The row that a confirmation at time `now` adds.
abbrev pub entry_of : Env → ℕ → ℕ → Donation → LedgerEntry
entry_of env n now d = record {
  id = env.new_id (lit "ledger") n;
  profile_id = d.payer_profile_id;
  amount = d.amount;
  reason = lit "donation_succeeded";
  reference_id = d.id;
  created_at = now;
}

-- A donation that is found is stored.
found_exists :
    (id : Text) (db : Db) {d : Donation}
    → find_donation id db ≡ some d
    → exists (is_donation d.id) db.donations ≡ true
unfolding find_donation
found_exists id db {d} e = exists-find (is_donation d.id) db.donations (find_donation_self id db e)

module _ (env : Env) (healthy : (n : ℕ) → env.fault n ≡ none) where
  store_confirmation-ledger :
      (now : ℕ) (hash : Text) (d : Donation) (w : World)
      → exists (is_donation d.id) w.db.donations ≡ true
      → exists (clashes d) w.db.donations ≡ false
      → amount_checks d.amount ≡ true
      → exists (is_entry (env.new_id (lit "ledger") (w.tick + 1 + 1))) w.db.ledger ≡ false
      → let (r, w') = store_confirmation env now hash d w in
        (r ≡ ok tt) × (w'.db.ledger ≡ entry_of env (w.tick + 1 + 1) now d ∷ w.db.ledger)
  unfolding store_confirmation ◌>>=◌ within_tx call exec save_donation update_donation ask
      add_ledger_entry insert_ledger_entry save_idempotency insert_idempotency
  store_confirmation-ledger now hash d w known free valid fresh = ground (
    arith,
    healthy w.tick,
    healthy (w.tick + 1),
    healthy (w.tick + 1 + 1),
    healthy (w.tick + 1 + 1 + 1),
    healthy (w.tick + 1 + 1 + 1 + 1),
    healthy (w.tick + 1 + 1 + 1 + 1 + 1),
  )

  -- A donation that is already succeeded goes through `MarkSucceeded` unchanged, and is stored,
  -- entered in the ledger and published once more.
  confirm_success-again :
      (input : ConfirmDonationInput) (hash : Text) (d : Donation) (c : PaymentConfirmation)
      (now : ℕ) (w : World)
      → d.status ≡ succeeded
      → exists (is_donation d.id) w.db.donations ≡ true
      → exists (clashes d) w.db.donations ≡ false
      → amount_checks d.amount ≡ true
      → exists (is_entry (env.new_id (lit "ledger") (w.tick + 1 + 1))) w.db.ledger ≡ false
      → let (r, w') = confirm_success env input hash d c now w in
        (r ≡ ok (some d)) × (w'.db.ledger ≡ entry_of env (w.tick + 1 + 1) now d ∷ w.db.ledger)
  unfolding confirm_success ◌>>=◌ lift mark_succeeded publish call pure
  confirm_success-again input hash d c now w paid known free valid fresh = ground (
    arith,
    store_confirmation-ledger now hash d w known free valid fresh,
    healthy (store_confirmation env now hash d w).1.tick,
  )

  get_idempotency-missing :
      (scope hash : Text) (w : World)
      → find_idempotency scope hash w.db ≡ none
      → get_idempotency env scope hash w ≡ (err not_found, tick w)
  unfolding get_idempotency ◌>>=◌ call query
  get_idempotency-missing scope hash w e = ground (arith, healthy w.tick)

  get_donation-stored :
      (id : Text) (w : World) {d : Donation}
      → find_donation id w.db ≡ some d
      → get_donation env id w ≡ (ok d, tick w)
  unfolding get_donation ◌>>=◌ call query
  get_donation-stored id w stored = ground (arith, healthy w.tick)

  after_ok :
      {A B : Type 0} (m : Action A) (f : A → Action B) (w : World) {a : A} {w' : World}
      → m w ≡ (ok a, w')
      → (m >>= f) w ≡ f a w'
  unfolding ◌>>=◌
  after_ok m f w e = ap (λ x. elim x.0 [ ok a ↦ f a x.1 | err x' ↦ (err x', x.1) ]) e

  -- The part of `ConfirmDonation` after the look-up of the key.
  confirm_fresh :
      (input : ConfirmDonationInput) (d : Donation) (c : PaymentConfirmation) (w : World)
      (k : Donation → PaymentConfirmation → Action (Option Donation))
      → find_donation input.donation_id w.db ≡ some d
      → IsClosed env w.breaker
      → ((n : ℕ) → env.confirm n input.provider_payment_id ≡ ok c)
      → (w' : World) × ((get_donation env input.donation_id >>= λ d.
              call_payment env (provider (λ n. env.confirm n input.provider_payment_id)) >>= λ c.
              k d c)
            w
          ≡ k d c w')
        × (w'.db ≡ w.db)
  confirm_fresh input d c w k stored closed says =
      let (w', e, same) =
        call_payment-Answers env (λ n. env.confirm n input.provider_payment_id) c (tick w) closed
          says in
      (w', after_ok _ _ w (get_donation-stored _ w stored) ∙ after_ok _ _ (tick w) e, same)

  finish_confirmed :
      (input : ConfirmDonationInput) (hash : Text) (d : Donation) (c : PaymentConfirmation)
      (w : World)
      → c.succeeded ≡ true
      → finish_confirmation env input hash d c w
        ≡ confirm_success env input hash d c (env.now w.tick) (tick w)
  unfolding finish_confirmation ◌>>=◌ ask
  finish_confirmed input hash d c w e = simp e

  -- Nothing in `ConfirmDonation` looks whether the donation was confirmed before. Where no call of
  -- the database or the broker fails, the breaker, if there is one, is closed, the provider confirms
  -- the payment named in the request, whichever payment that is, and the identifiers that are drawn
  -- for ledger entries are new: a request with a key that is not recorded, for a stored donation
  -- that has succeeded already, has an amount that the tables allow and a payment that is not another
  -- stored donation's, returns that donation and adds a further ledger entry for it, however often a
  -- payment may be tried.
  pub confirm_donation-again :
      (input : ConfirmDonationInput) (hash : Text) (d : Donation) (c : PaymentConfirmation)
      (w : World)
      → hash_idempotency_key env.digest scope_confirm_donation input.idempotency_key ≡ ok hash
      → find_idempotency scope_confirm_donation hash w.db ≡ none
      → find_donation input.donation_id w.db ≡ some d
      → d.status ≡ succeeded
      → exists (clashes d) w.db.donations ≡ false
      → amount_checks d.amount ≡ true
      → IsClosed env w.breaker
      → ((n : ℕ) → env.confirm n input.provider_payment_id ≡ ok c)
      → c.succeeded ≡ true
      → ((n : ℕ) → exists (is_entry (env.new_id (lit "ledger") n)) w.db.ledger ≡ false)
      → let (r, w') = confirm_donation env input w in
        (r ≡ ok (some d))
        × (n : ℕ) × (now : ℕ) × (w'.db.ledger ≡ entry_of env n now d ∷ w.db.ledger)
  unfolding confirm_donation
  confirm_donation-again input hash d c w h fresh_key stored paid free valid closed says yes_c
        fresh =
      let (w', e, same) =
        confirm_fresh input d c (tick w) (finish_confirmation env input hash) stored closed says in
      let (returned, written) =
        confirm_success-again input hash d c (env.now w'.tick) (tick w') paid
          (rw same (found_exists _ w.db stored)) (rw same free) valid (rw same (fresh _)) in
      rw
        (
          bind_ok _ _ w h,
          replay_or-look _ _ _ w (tick w) (get_idempotency-missing _ hash w fresh_key),
          e,
          finish_confirmed input hash d c w' yes_c,
        )
        (returned, w'.tick + 1 + 1 + 1, env.now w'.tick, rw (sym same) written)
