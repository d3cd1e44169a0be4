-- ===== src/Billing/Paid/Service.antt =====
-- The methods of the billing service over the predicate on boosts and paid donations.
use capibarco.Base.{ℕ, ◌≡◌, ◌≢◌, refl, some, arith}
use capibarco.Base.Text.{Text}
use capibarco.Base.Result.{Result, ok}
use capibarco.Billing.Domain.{
  Error, Boost, Donation, Entitlement, succeeded, mark_succeeded, mark_failed, NewBoostParams,
  new_boost,
}
use capibarco.Billing.Ports.{Env, Db, Action, ◌>>=◌, PaymentConfirmation, lift}
use capibarco.Billing.Store.{find_donation}
use capibarco.Billing.Service.{
  CreateDonationIntentInput, ConfirmDonationInput, CreateBoostInput, PurchaseEntitlementInput,
  store_intent, create_donation_intent, persist_failed_donation, store_confirmation,
  confirm_success, confirm_failure, finish_confirmation, confirm_donation, store_boost,
  create_boost, cancel_boost, create_and_confirm_internal_payment, store_purchase,
  purchase_entitlement,
}
use capibarco.Billing.Triple.{
  Holds, Keeps, bind, conseq, pure-Holds, ask-Holds, lift-Holds, publish-Holds, within_tx-Holds,
  if-Holds,
}
use capibarco.Billing.Triple.Payment.{provider-Holds, call_payment-Holds, replay_or-Holds}
use capibarco.Billing.Paid.{IsPaid, find_donation_self}
use capibarco.Billing.Paid.Statements.{
  Sound, get_idempotency-Sound, get_donation-Sound, get_boost-Sound, is_animal_archived-Sound,
  get_entitlements-Sound, save_idempotency-Sound, add_ledger_entry-Sound, create_entitlement-Sound,
  create_donation-Sound, save_donation-Sound, create_boost_row-Sound, save_boost-Sound,
}

-- A mark may not take a payment back.
mark_succeeded-status :
    (d : Donation) (text : Text) (at : ℕ) {d' : Donation}
    → mark_succeeded d text at ≡ ok d'
    → (d'.status ≡ succeeded) × (d'.id ≡ d.id)
unfolding mark_succeeded
mark_succeeded-status d text at e = ground arith

mark_failed-status :
    (d : Donation) (text : Text) (at : ℕ) {d' : Donation}
    → mark_failed d text at ≡ ok d'
    → (d.status ≢ succeeded) × (d'.id ≡ d.id)
unfolding mark_failed
mark_failed-status d text at e = ground arith

new_boost-paid :
    (p : NewBoostParams) {b : Boost}
    → new_boost p ≡ ok b
    → (p.donation_status ≡ succeeded) × (b.donation_id ≡ p.donation_id)
unfolding new_boost
new_boost-paid p e = ground arith

module _ (env : Env) (base : Db) where
  -- A step whose value is not looked at further.
  step : {A : Type 0} (r : Result Error A) → Keeps (Sound base) (lift r)
  step r = conseq (λ _ s. s) (λ _ _ s. s.0) (λ _ s. s) (lift-Holds _ r)

  store_intent-Sound :
      (now : ℕ) (hash : Text) (d : Donation) → Keeps (Sound base) (store_intent env now hash d)
  unfolding store_intent
  store_intent-Sound now hash d =
      within_tx-Holds env _ _ (λ _ s. s) (λ _ _ _ _ s. s)
        (bind (create_donation-Sound env base d) (λ _. save_idempotency-Sound env base _))

  -- Creating a donation intent keeps the invariant and every payment.
  pub create_donation_intent-Sound :
      (input : CreateDonationIntentInput) → Keeps (Sound base) (create_donation_intent env input)
  unfolding create_donation_intent
  create_donation_intent-Sound input = bind (step _) (λ hash.
      replay_or-Holds (get_idempotency-Sound env base _ _)
        (λ found.
          bind (conseq (λ _ s. s) (λ _ _ s. s.0) (λ _ s. s) (get_donation-Sound env base _))
            (λ donation. bind (provider-Holds env _ _) (λ intent. pure-Holds _ _)))
        (bind (ask-Holds _ _) (λ now. bind (ask-Holds _ _) (λ id. bind (step _) (λ donation.
          bind (call_payment-Holds env _ (provider-Holds env _ _))
            (λ intent. bind (store_intent-Sound now hash _) (λ _. pure-Holds _ _)))))))

  store_confirmation-Sound :
      (now : ℕ) (hash : Text) (d : Donation)
      → d.status ≡ succeeded
      → Keeps (Sound base) (store_confirmation env now hash d)
  unfolding store_confirmation
  store_confirmation-Sound now hash d paid =
      within_tx-Holds env _ _ (λ _ s. s) (λ _ _ _ _ s. s)
        (bind
          (conseq (λ _ s. (s, λ _ _ _. paid)) (λ _ _ s. s) (λ _ s. s)
            (save_donation-Sound env base d))
          (λ _. bind (ask-Holds _ _) (λ id.
            bind (add_ledger_entry-Sound env base _) (λ _. save_idempotency-Sound env base _))))

  confirm_success-Sound :
      (input : ConfirmDonationInput) (hash : Text) (d : Donation) (c : PaymentConfirmation)
      (now : ℕ)
      → Keeps (Sound base) (confirm_success env input hash d c now)
  unfolding confirm_success
  confirm_success-Sound input hash d c now =
      bind (lift-Holds _ _)
        (λ d'. settled d' (λ hash'. bind (publish-Holds env _ _) (λ _. pure-Holds _ _)))
    where
      settled :
          (d' : Donation) {B : Type 0} {k : Unit {0} → Action B}
          → ((u : Unit {0}) → Keeps (Sound base) (k u))
          → Holds
              (λ db. Sound base db × (mark_succeeded d c.provider_payment_id now ≡ ok d'))
              (store_confirmation env now hash d' >>= k)
              (λ _. Sound base)
              (Sound base)
      settled d' h = record {
        run = λ w s.
            (bind (store_confirmation-Sound now hash d' (mark_succeeded-status d _ now s.1).0)
                h).run
              w s.0;
      }

  persist_failed_donation-Sound :
      (input : ConfirmDonationInput) (d d' : Donation)
      → d.status ≢ succeeded
      → d'.id ≡ d.id
      → Holds
          (λ db. Sound base db × (find_donation d.id db ≡ some d))
          (persist_failed_donation env d' input)
          (λ _. Sound base)
          (Sound base)
  unfolding persist_failed_donation
  persist_failed_donation-Sound input d d' unpaid same =
      within_tx-Holds env _ _ (λ _ s. s.0) (λ _ _ _ _ s. s)
        (bind
          (conseq (λ db s. (s.0, λ o f p. absurd (unpaid (ground (arith, f, p, s.1, same)))))
            (λ _ _ s. s) (λ _ s. s) (save_donation-Sound env base d'))
          (λ _. publish-Holds env _ _))

  confirm_failure-Sound :
      (input : ConfirmDonationInput) (d : Donation) (c : PaymentConfirmation) (now : ℕ)
      → Holds
          (λ db. Sound base db × (find_donation d.id db ≡ some d))
          (confirm_failure env input d c now)
          (λ _. Sound base)
          (Sound base)
  unfolding confirm_failure
  confirm_failure-Sound input d c now =
      bind (conseq (λ _ s. s) (λ _ _ s. s) (λ _ s. s.0) (lift-Holds _ _)) (λ d'. record {
        run = λ w s.
            let (unpaid, same) = mark_failed-status d c.failure_reason now s.1 in
            (bind (persist_failed_donation-Sound input d d' unpaid same) (λ _. pure-Holds _ _)).run
              w s.0;
      })

  finish_confirmation-Sound :
      (input : ConfirmDonationInput) (hash : Text) (d : Donation) (c : PaymentConfirmation)
      → Holds
          (λ db. Sound base db × (find_donation d.id db ≡ some d))
          (finish_confirmation env input hash d c)
          (λ _. Sound base)
          (Sound base)
  unfolding finish_confirmation
  finish_confirmation-Sound input hash d c =
      bind (conseq (λ _ s. s) (λ _ _ s. s) (λ _ s. s.0) (ask-Holds _ _)) (λ now.
        if-Holds c.succeeded
          (conseq (λ _ s. s.0) (λ _ _ s. s) (λ _ s. s) (confirm_success-Sound input hash d c now))
          (confirm_failure-Sound input d c now))

  -- Confirming a donation keeps the invariant and every payment.
  pub confirm_donation-Sound :
      (input : ConfirmDonationInput) → Keeps (Sound base) (confirm_donation env input)
  unfolding confirm_donation
  confirm_donation-Sound input = bind (step _) (λ hash.
      replay_or-Holds (get_idempotency-Sound env base _ _)
        (λ found.
          bind (conseq (λ _ s. s) (λ _ _ s. s.0) (λ _ s. s) (get_donation-Sound env base _))
            (λ donation. pure-Holds _ _))
        (bind (get_donation-Sound env base _) (λ d.
          bind
            (conseq (λ db s. (s.0, find_donation_self input.donation_id db s.1)) (λ _ _ s. s)
              (λ _ s. s.0)
              (call_payment-Holds env (λ db. Sound base db × (find_donation d.id db ≡ some d))
                (provider-Holds env _ _)))
            (λ c. finish_confirmation-Sound input hash d c))))

  store_boost-Sound :
      (now : ℕ) (hash : Text) (b : Boost)
      → Holds
          (λ db. Sound base db × IsPaid b.donation_id db)
          (store_boost env now hash b)
          (λ _. Sound base)
          (Sound base)
  unfolding store_boost
  store_boost-Sound now hash b =
      within_tx-Holds env _ _ (λ _ s. s.0) (λ _ _ _ _ s. s)
        (bind (create_boost_row-Sound env base b) (λ _. save_idempotency-Sound env base _))

  -- A boost is stored only for a donation that has succeeded.
  pub create_boost-Sound : (input : CreateBoostInput) → Keeps (Sound base) (create_boost env input)
  unfolding create_boost
  create_boost-Sound input = bind (step _) λ hash.
      replay_or-Holds (get_idempotency-Sound env base _ _) (λ found. get_boost-Sound env base _)
        (bind (is_animal_archived-Sound env base _) λ archived. bind (step _) λ _.
          bind (get_donation-Sound env base _) λ d. bind (calm d (ask-Holds _ _)) λ now.
            bind (calm d (ask-Holds _ _)) λ id. bind (calm d (lift-Holds _ _)) λ b.
              bind
                (conseq (λ db s. (s.0.0, paid_for d b db _ s.0.1 s.1 refl refl)) (λ _ _ s. s)
                  (λ _ s. s) (store_boost-Sound now hash b))
                λ _. bind (publish-Holds env _ _) λ _. pure-Holds _ _)
    where
      calm :
          (d : Donation) {A : Type 0} {m : Action A} {Q : A → Db → Type 0}
          → Holds
              (λ db. Sound base db × (find_donation input.donation_id db ≡ some d))
              m
              Q
              (λ db. Sound base db × (find_donation input.donation_id db ≡ some d))
          → Holds
              (λ db. Sound base db × (find_donation input.donation_id db ≡ some d))
              m
              Q
              (Sound base)
      calm d h = conseq (λ _ s. s) (λ _ _ s. s) (λ _ s. s.0) h

      paid_for :
          (d : Donation) (b : Boost) (db : Db) (p : NewBoostParams)
          → find_donation input.donation_id db ≡ some d
          → new_boost p ≡ ok b
          → p.donation_status ≡ d.status
          → p.donation_id ≡ input.donation_id
          → IsPaid b.donation_id db
      paid_for d b db p f e st di =
          let (paid, same) = new_boost-paid p e in
          record { donation = d; stored = rw (same, di) f; paid = ground arith }

  -- Cancelling a boost keeps the invariant and every payment.
  pub cancel_boost-Sound : (id reason : Text) → Keeps (Sound base) (cancel_boost env id reason)
  unfolding cancel_boost
  cancel_boost-Sound id reason =
      bind (get_boost-Sound env base id) (λ b.
        bind (ask-Holds _ _) (λ now. bind (save_boost-Sound env base _) (λ _. pure-Holds _ _)))

  internal_payment-Sound :
      (d : Donation) → Keeps (Sound base) (create_and_confirm_internal_payment env d)
  unfolding create_and_confirm_internal_payment
  internal_payment-Sound d = bind (call_payment-Holds env _ (provider-Holds env _ _)) (λ intent.
      bind (call_payment-Holds env _ (provider-Holds env _ _))
        (λ confirmation. bind (step _) (λ _. pure-Holds _ _)))

  store_purchase-Sound :
      (input : PurchaseEntitlementInput) (now : ℕ) (hash : Text) (d : Donation) (e : Entitlement)
      → Keeps (Sound base) (store_purchase env input now hash d e)
  unfolding store_purchase
  store_purchase-Sound input now hash d e =
      within_tx-Holds env _ _ (λ _ s. s) (λ _ _ _ _ s. s)
        (bind (create_donation-Sound env base d) λ _.
          bind (create_entitlement-Sound env base e) λ _. bind (ask-Holds _ _) λ ledger_id.
            bind (add_ledger_entry-Sound env base _) λ _. save_idempotency-Sound env base _)

  -- Buying an entitlement keeps the invariant and every payment.
  pub purchase_entitlement-Sound :
      (input : PurchaseEntitlementInput) → Keeps (Sound base) (purchase_entitlement env input)
  unfolding purchase_entitlement
  purchase_entitlement-Sound input = bind (step _) λ hash.
      replay_or-Holds (get_idempotency-Sound env base _ _)
        (λ found. bind (get_entitlements-Sound env base _) λ entitlements.
          bind (step _) λ entitlement.
            bind (conseq (λ _ s. s) (λ _ _ s. s.0) (λ _ s. s) (get_donation-Sound env base _))
              λ donation. pure-Holds _ _)
        (bind (ask-Holds _ _) λ now. bind (ask-Holds _ _) λ id. bind (step _) λ pending.
          bind (internal_payment-Sound _) λ intent. bind (step _) λ donation.
            bind (ask-Holds _ _) λ entitlement_id. bind (step _) λ entitlement.
              bind (store_purchase-Sound input now hash donation entitlement)
                λ _. bind (publish-Holds env _ _) λ _. pure-Holds _ _)
