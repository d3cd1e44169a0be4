-- ===== src/Billing/ServiceTests.antt =====
-- The theorems on the billing service, at concrete worlds.
use capibarco.Base.{
  exists, if◌then◌else◌, ◌==◌, ℕ, zero, suc, ◌+◌, ◌≡◌, refl, ◌<◌, true, false, List, [], ◌∷◌, ◌++◌,
  Option, none, some, arith,
}
use capibarco.Base.Int.{pos}
use capibarco.Base.Text.{Text, lit, text_eq, trim_space, is_blank}
use capibarco.Base.Result.{Result, ok, err}
use capibarco.Billing.Domain.{
  Error, not_found, external, circuit_open, Money, Donation, PaymentStatus, DonationTargetType,
  hash_idempotency_key, mark_succeeded,
}
use capibarco.Billing.Ports.{
  Env, World, Action, CircuitBreaker, PaymentConfirmation, IdempotencyRecord, tick, pure, lift,
  ◌>>=◌, call, ask, publish,
}
use capibarco.Billing.Store.{
  is_entry, find_boost, within_tx, find_donation, find_idempotency, get_idempotency, query, exec,
  get_donation, save_donation, update_donation, add_ledger_entry, insert_ledger_entry,
  save_idempotency, insert_idempotency,
}
use capibarco.Billing.Service.{
  CreateDonationIntentInput, ConfirmDonationInput, CreateBoostInput, confirm_donation,
  finish_confirmation, confirm_success, store_confirmation,
}
use capibarco.Billing.Service.Defs.{replay_or, provider, scope_confirm_donation}
use capibarco.Billing.Resilience.{execute, retry, call_payment, is_open, new_circuit_breaker}
use capibarco.Billing.Resilience.Defs.{retry_loop}
use capibarco.Billing.Resilience.Breaker.{IsCounting, HasBreaker, execute-IsCounting, execute-opens}
use capibarco.Billing.Resilience.Attempts.{numbered, retry_found, retry_exhausted}
use capibarco.Billing.Paid.Boosts.{BoostsPaid}
use capibarco.Billing.Session.{Request, donate, confirm, boost, run, run-BoostsPaid}
use capibarco.Billing.Replay.{Unchanged, confirm_donation-recorded}
use capibarco.Billing.Replay.Record.{confirm_donation-replay}
use capibarco.Billing.Ledger.Payment.{IsClosed}
use capibarco.Billing.Ledger.{entry_of, confirm_donation-again}

abbrev five : Money
five = record { currency_code = lit "EUR"; units = pos 5; nanos = pos 0 }

abbrev donation : PaymentStatus → Text → ℕ → Donation
donation status payment_id at = record {
  id = lit "d1";
  payer_profile_id = lit "ann";
  target_type = DonationTargetType.animal;
  target_id = lit "rex";
  amount = five;
  status = status;
  provider = lit "mock";
  provider_payment_id = payment_id;
  failure_reason = [];
  created_at = 3;
  updated_at = at;
}

abbrev answered : PaymentConfirmation
answered = record { provider_payment_id = lit "p1"; succeeded = true; failure_reason = [] }

-- Everything works, but for the calls that `fault` names.
abbrev env_with : (ℕ → Option ℕ) → Env
env_with fault = record {
  digest = λ s. s;
  fault = fault;
  commit_lost = λ n. false;
  now = λ n. n + 50;
  new_id = λ prefix n. prefix ++ (n ∷ []);
  create_intent = λ n input. ok (record {
    provider = lit "mock";
    provider_payment_id = lit "p1";
    payment_url = [];
    client_secret = [];
  });
  get_intent = λ n id. err not_found;
  confirm = λ n id. ok answered;
  done = λ n. false;
  attempts = 1;
  backoff = 0;
}

abbrev env : Env
env = env_with (λ n. none)

abbrev broken : Env
broken = env_with (λ n. some 4)

abbrev world : List Donation → World
world donations = record {
  db = record {
    donations = donations;
    boosts = [];
    entitlements = [];
    ledger = [];
    idempotency = [];
    archived_animals = [];
  };
  published = [];
  breaker = none;
  provider_calls = 0;
  tick = 0;
}

no_boosts : (donations : List Donation) → BoostsPaid (world donations).db
unfolding find_boost
no_boosts donations = record { paid = λ id b e. absurd (ground arith) }

abbrev confirm_input : Text → ConfirmDonationInput
confirm_input key = record {
  donation_id = lit "d1";
  provider_payment_id = lit "p1";
  idempotency_key = key;
  trace_id = [];
  correlation_id = [];
}

abbrev donate_input : CreateDonationIntentInput
donate_input = record {
  payer_profile_id = lit "ann";
  target_type = DonationTargetType.animal;
  target_id = lit "rex";
  amount = five;
  provider = lit "mock";
  idempotency_key = lit "k0";
}

abbrev boost_input : CreateBoostInput
boost_input = record {
  animal_id = lit "rex";
  owner_profile_id = lit "ann";
  donation_id = lit "d1";
  duration = pos 100;
  idempotency_key = lit "k2";
  trace_id = [];
  correlation_id = [];
}

abbrev requests : List (Env × Request)
requests =
    (env, donate donate_input)
    ∷ (env, confirm (confirm_input (lit "k1")))
    ∷ (broken, confirm (confirm_input (lit "k3")))
    ∷ (env, boost boost_input)
    ∷ []

abbrev paid_world : World
paid_world = world (donation PaymentStatus.succeeded (lit "p1") 9 ∷ [])

run-BoostsPaid_example : BoostsPaid (run requests paid_world).db
run-BoostsPaid_example = run-BoostsPaid requests paid_world (no_boosts _)

abbrev pending_world : World
pending_world = world (donation PaymentStatus.pending [] 3 ∷ [])

-- The world that a first confirmation leaves.
abbrev confirmed : World
confirmed = (confirm_donation env (confirm_input (lit "k1")) pending_world).1

confirm_donation-replay_example :
    Unchanged confirmed (confirm_donation broken (confirm_input (lit "k1")) confirmed).1
unfolding confirm_donation ◌>>=◌ lift hash_idempotency_key is_blank replay_or get_idempotency query
    get_donation text_eq call_payment provider finish_confirmation ask confirm_success
    mark_succeeded store_confirmation within_tx trim_space call publish pure execute is_open retry
    retry_loop add_ledger_entry exec find_donation find_idempotency insert_idempotency
    insert_ledger_entry save_donation save_idempotency update_donation
confirm_donation-replay_example =
    confirm_donation-replay env broken (confirm_input (lit "k1")) (confirm_input (lit "k1"))
      pending_world confirmed {d = donation PaymentStatus.succeeded (lit "p1") 53} refl refl refl

abbrev record_of : Text → IdempotencyRecord
record_of key_hash = record {
  scope = scope_confirm_donation;
  key_hash = key_hash;
  resource_kind = lit "donation";
  resource_id = lit "d1";
  related_resource_id = [];
  created_at = 3;
}

abbrev hash : Text
hash = scope_confirm_donation ++ (0 ∷ lit "k1")

abbrev recorded_world : World
recorded_world = record paid_world {
  db = record paid_world.db { idempotency = record_of hash ∷ [] };
}

confirm_donation-recorded_example :
    Unchanged recorded_world (confirm_donation env (confirm_input (lit "k1")) recorded_world).1
unfolding hash_idempotency_key find_idempotency is_blank trim_space text_eq
confirm_donation-recorded_example =
    confirm_donation-recorded env (confirm_input (lit "k1")) hash recorded_world refl (λ e. cc)

-- The COMMIT is call 7; it takes effect and its answer is an error.
abbrev torn : Env
torn = record (env_with (λ n. if n == 7 then some 4 else none)) { commit_lost = λ n. true }

abbrev breaker : CircuitBreaker
breaker = record { threshold = 2; cooldown = 30; failures = 1; opened_until = 0 }

abbrev guarded_world : World
guarded_world = record pending_world { breaker = some breaker }

abbrev failing : Action (Unit {0})
failing w = (err (external 3), w)

execute-IsCounting_example : HasBreaker IsCounting (execute env breaker failing guarded_world).1
execute-IsCounting_example =
    execute-IsCounting env breaker failing guarded_world refl (λ w. refl)
      (record { positive = omega arith; tripped = λ n. absurd (n refl) })

execute-opens_example :
    (b' : CircuitBreaker) × ((execute env breaker failing guarded_world).1.breaker ≡ some b')
    × (execute env b' failing (tick guarded_world) ≡ (err circuit_open, tick (tick guarded_world)))
unfolding is_open
execute-opens_example =
    execute-opens env breaker failing guarded_world failing (tick guarded_world) {x = external 3}
      refl (λ w. refl) refl refl (omega arith) (omega arith)

abbrev third : ℕ → Result Error ℕ
third (suc (suc zero)) = ok 8
third n = err (external n)

abbrev patient : Env
patient = record env { attempts = 4 }

abbrev before_third : (i : ℕ) → i < 2 → (x : Error) × (third (0 + i) ≡ err x)
before_third zero h = (external 0, refl)
before_third (suc zero) h = (external 1, refl)
before_third (suc (suc i)) h = absurd (omega arith)

retry_found_example :
    ((retry patient (numbered third) pending_world).0 ≡ ok 8)
    × ((retry patient (numbered third) pending_world).1.tick ≡ 3)
retry_found_example = retry_found patient refl third 2 pending_world (omega arith) before_third refl

retry_exhausted_example :
    ((retry patient {A = ℕ} (numbered (λ n. err (external n))) pending_world).0 ≡ err (external 3))
    × ((retry patient {A = ℕ} (numbered (λ n. err (external n))) pending_world).1.tick ≡ 4)
retry_exhausted_example =
    retry_exhausted patient refl {A = ℕ} (λ n. err (external n)) pending_world
      (λ i h. (external (0 + i), refl))

-- As the service is started: a breaker, and three attempts for a payment.
abbrev started : World
started = record paid_world { breaker = some (new_circuit_breaker 3 30) }

abbrev trying : Env
trying = record env { attempts = 3 }

new_key : (n : ℕ) → exists (is_entry (trying.new_id (lit "ledger") n)) started.db.ledger ≡ false
new_key n = refl

closed : IsClosed trying started.breaker
unfolding is_open new_circuit_breaker
closed n = ground arith

confirm_donation-again_example :
    ((confirm_donation trying (confirm_input (lit "k1")) started).0
      ≡ ok (some (donation PaymentStatus.succeeded (lit "p1") 9)))
    × (n : ℕ) × (now : ℕ) × ((confirm_donation trying
          (confirm_input (lit "k1"))
          started).1.db.ledger
        ≡ entry_of trying n now (donation PaymentStatus.succeeded (lit "p1") 9) ∷ [])
unfolding hash_idempotency_key find_idempotency find_donation is_blank trim_space text_eq
confirm_donation-again_example =
    confirm_donation-again trying (λ n. refl) (confirm_input (lit "k1")) hash
      (donation PaymentStatus.succeeded (lit "p1") 9) answered started refl refl refl refl refl refl
      closed (λ n. refl) refl new_key
