-- ===== src/Billing/Ports.antt =====
-- backend/billing-service/internal/application/ports.go: what the service asks of its
-- environment, and the state that its calls read and write.
-- A call of a dependency is numbered by `tick`, and `Env` says what the call of each number
-- answers, so that any pattern of failures, answers and clock readings is one `Env`.
use capibarco.Base.{ℕ, ◌+◌, Bool, Option, none, some, List, ◌∷◌}
use capibarco.Base.Text.{Text}
use capibarco.Base.Result.{Result, ok, err}
use capibarco.Billing.Domain.{Error, external, Money, Donation, Boost, Entitlement, LedgerEntry}

pub record IdempotencyRecord : Type 0 where
  pub scope : Text
  pub key_hash : Text
  pub resource_kind : Text
  pub resource_id : Text
  pub related_resource_id : Text
  pub created_at : ℕ

pub record PaymentIntentInput : Type 0 where
  pub provider : Text
  pub donation_id : Text
  pub payer_profile_id : Text
  pub amount : Money
  pub description : Text

pub record PaymentIntent : Type 0 where
  pub provider : Text
  pub provider_payment_id : Text
  pub payment_url : Text
  pub client_secret : Text

pub record PaymentConfirmation : Type 0 where
  pub provider_payment_id : Text
  pub succeeded : Bool
  pub failure_reason : Text

-- `Payload any`: the service publishes a donation, a boost or an entitlement.
pub data Payload : Type 0 where
  of_donation : Donation → Payload
  of_boost : Boost → Payload
  of_entitlement : Entitlement → Payload

pub record BillingEvent : Type 0 where
  pub topic : Text
  pub partition_key : Text
  pub type : Text
  pub trace_id : Text
  pub correlation_id : Text
  pub idempotency_key : Text
  pub payload : Payload

-- The environment: SHA-256, the failures of the database and of the broker, the clock, the
-- identifiers, the payment provider, whether the context ends during a wait, and whether a COMMIT
-- whose answer is an error took effect all the same.
pub record Env : Type 0 where
  pub digest : Text → Text
  pub fault : ℕ → Option ℕ
  pub commit_lost : ℕ → Bool
  pub now : ℕ → ℕ
  pub new_id : Text → ℕ → Text
  pub create_intent : ℕ → PaymentIntentInput → Result Error PaymentIntent
  pub get_intent : ℕ → Text → Result Error PaymentIntent
  pub confirm : ℕ → Text → Result Error PaymentConfirmation
  pub done : ℕ → Bool
  -- `RetryPolicy`: 0 stands for zero and below
  pub attempts : ℕ
  pub backoff : ℕ

-- The tables of the service's database.
pub record Db : Type 0 where
  pub donations : List Donation
  pub boosts : List Boost
  pub entitlements : List Entitlement
  pub ledger : List LedgerEntry
  pub idempotency : List IdempotencyRecord
  pub archived_animals : List Text

pub record CircuitBreaker : Type 0 where
  pub threshold : ℕ
  pub cooldown : ℕ
  pub failures : ℕ
  pub opened_until : ℕ

-- The tables, the events sent so far, the breaker (nil or not), the number of calls that reached the
-- payment provider, and the number of calls made.
pub record World : Type 0 where
  pub db : Db
  pub published : List BillingEvent
  pub breaker : Option CircuitBreaker
  pub provider_calls : ℕ
  pub tick : ℕ

-- A call that reads and writes the world, and returns a value or an error.
abbrev pub Action : Type 0 → Type 0
Action A = World → Result Error A × World

infixl 5 ◌>>=◌ ◌>>◌
unfoldable pub ◌>>=◌ : {A B : Type 0} → Action A → (A → Action B) → Action B
◌>>=◌ m f w = let (r, w') = m w in elim r [ ok a ↦ f a w' | err e ↦ (err e, w') ]

abbrev pub ◌>>◌ : {A B : Type 0} → Action A → Action B → Action B
m >> k = m >>= λ _. k

-- A step that cannot touch the world.
unfoldable pub lift : {A : Type 0} → Result Error A → Action A
lift r w = (r, w)

-- Counts one call.
abbrev pub tick : World → World
tick w = record w { tick = w.tick + 1 }

-- `return a, nil`
unfoldable pub pure : {A : Type 0} → A → Action A
pure a w = (ok a, w)

-- The number of this call, for what the environment answers.
unfoldable pub ask : {A : Type 0} → (ℕ → A) → Action A
ask f w = (ok (f w.tick), tick w)

module _ (env : Env) where
  -- A call of the database or the broker, which may fail before it does anything.
  unfoldable pub call : Action (Unit {0})
  call w = (elim (env.fault w.tick) [ none ↦ ok tt | some n ↦ err (external n) ], tick w)

  -- `s.events.Publish`
  unfoldable pub publish : BillingEvent → Action (Unit {0})
  unfolding call
  publish e w =
      let (r, w') = call w in
      elim r [ ok a ↦ (ok a, record w' { published = e ∷ w'.published }) | err x ↦ (err x, w') ]
