-- ===== src/Billing/Store.antt =====
-- backend/billing-service/internal/infrastructure/postgres/store.go over the tables and constraints
-- of backend/migrations/billing-service: one function per statement that the service runs.
-- A statement may fail (`call`); otherwise it does to the lists of rows what its SQL says.
use capibarco.Base.{
  ℕ, Bool, true, false, ◌&&◌, ◌||◌, not, Option, none, some, List, ◌∷◌, ltb, if◌then◌else◌, exists,
  keep, is_empty,
}
use capibarco.Base.Int.{pos, ltb_ℤ}
use capibarco.Base.Text.{Text, text_eq}
use capibarco.Base.Result.{Result, ok, err}
use capibarco.Base.Table.{find, update}
use capibarco.Billing.Domain.{
  Error, not_found, conflict, constraint, Money, nanos_per_unit, Donation, is_target, Boost,
  Entitlement, is_known, LedgerEntry,
}
use capibarco.Billing.Ports.{IdempotencyRecord, Env, Db, Action, ◌>>=◌, ◌>>◌, ask, call}

-- A query whose single row is missing is `ErrNotFound` (mapErr on pgx.ErrNoRows).
abbrev pub or_not_found : {A : Type 0} → Option A → Result Error A
or_not_found none = err not_found
or_not_found (some a) = ok a

unfoldable pub query : {A : Type 0} → (Db → Result Error A) → Action A
query f w = (f w.db, w)

-- A statement that changes the tables, or breaks a constraint and changes nothing.
unfoldable pub exec : (Db → Result Error Db) → Action (Unit {0})
exec f w = elim (f w.db) [ ok db ↦ (ok tt, record w { db = db }) | err e ↦ (err e, w) ]

abbrev pub is_key : Text → Text → IdempotencyRecord → Bool
is_key scope hash r = text_eq r.scope scope && text_eq r.key_hash hash

unfoldable pub find_idempotency : Text → Text → Db → Option IdempotencyRecord
find_idempotency scope hash db = find (is_key scope hash) db.idempotency

-- ON CONFLICT(scope, key_hash) DO NOTHING
unfoldable pub insert_idempotency : IdempotencyRecord → Db → Result Error Db
unfolding find_idempotency
insert_idempotency r db = elim (find_idempotency r.scope r.key_hash db) [
  | none ↦ ok (record db { idempotency = r ∷ db.idempotency })
  | some _ ↦ ok db
]

abbrev pub is_donation : Text → Donation → Bool
is_donation id d = text_eq d.id id

unfoldable pub find_donation : Text → Db → Option Donation
find_donation id db = find (is_donation id) db.donations

-- CHECK (units >= 0), (nanos >= 0 AND nanos < 1000000000), (units > 0 OR nanos > 0)
abbrev pub amount_checks : Money → Bool
amount_checks m =
    not (ltb_ℤ m.units (pos 0))
    && (not (ltb_ℤ m.nanos (pos 0))
        && (ltb_ℤ m.nanos (pos nanos_per_unit) && (ltb_ℤ (pos 0) m.units || ltb_ℤ (pos 0) m.nanos)))

-- idx_donations_provider_payment: unique where provider_payment_id <> ''
abbrev pub is_same_payment : Donation → Donation → Bool
is_same_payment d o =
    not (is_empty d.provider_payment_id)
    && (text_eq o.provider d.provider && text_eq o.provider_payment_id d.provider_payment_id)

unfoldable pub insert_donation : Donation → Db → Result Error Db
unfolding find_donation
insert_donation d db =
    if not (is_target d.target_type && amount_checks d.amount)
    then err constraint
    else if exists (is_donation d.id) db.donations || exists (is_same_payment d) db.donations
    then err conflict
    else ok (record db { donations = d ∷ db.donations })

-- The columns that UPDATE sets.
abbrev pub set_donation : Donation → Donation → Donation
set_donation d o = record o {
  status = d.status;
  provider_payment_id = d.provider_payment_id;
  failure_reason = d.failure_reason;
  updated_at = d.updated_at;
}

-- The unique index holds of the row after the update, against the other rows.
abbrev pub clashes : Donation → Donation → Bool
clashes d o = not (text_eq o.id d.id) && is_same_payment d o

unfoldable pub update_donation : Donation → Db → Result Error Db
unfolding find_donation
update_donation d db =
    if not (exists (is_donation d.id) db.donations)
    then err not_found
    else if exists (clashes d) db.donations
    then err conflict
    else ok (record db { donations = update (is_donation d.id) (set_donation d) db.donations })

abbrev pub is_boost : Text → Boost → Bool
is_boost id b = text_eq b.id id

unfoldable pub find_boost : Text → Db → Option Boost
find_boost id db = find (is_boost id) db.boosts

-- REFERENCES donations, CHECK (expires_at > starts_at), PRIMARY KEY
unfoldable pub insert_boost : Boost → Db → Result Error Db
insert_boost b db =
    if not (exists (is_donation b.donation_id) db.donations && ltb b.starts_at b.expires_at)
    then err constraint
    else if exists (is_boost b.id) db.boosts
    then err conflict
    else ok (record db { boosts = b ∷ db.boosts })

abbrev pub set_boost : Boost → Boost → Boost
set_boost b o = record o {
  active = b.active;
  cancel_reason = b.cancel_reason;
  cancelled_at = b.cancelled_at;
}

unfoldable pub update_boost : Boost → Db → Result Error Db
update_boost b db =
    if not (exists (is_boost b.id) db.boosts)
    then err not_found
    else ok (record db { boosts = update (is_boost b.id) (set_boost b) db.boosts })

abbrev pub is_entitlement : Text → Entitlement → Bool
is_entitlement id e = text_eq e.id id

unfoldable pub insert_entitlement : Entitlement → Db → Result Error Db
insert_entitlement e db =
    if not (is_known e.type && ltb e.starts_at e.expires_at)
    then err constraint
    else if exists (is_entitlement e.id) db.entitlements
    then err conflict
    else ok (record db { entitlements = e ∷ db.entitlements })

-- WHERE owner_profile_id = $1 AND active = true AND expires_at > now(), for a filter that names an
-- owner alone. The order of the rows, which that caller does not use, is left out.
unfoldable pub live_entitlements : Text → ℕ → Db → List Entitlement
live_entitlements owner now db =
    keep (λ e. text_eq e.owner_profile_id owner && (e.active && ltb now e.expires_at))
      db.entitlements

abbrev pub is_entry : Text → LedgerEntry → Bool
is_entry id e = text_eq e.id id

-- ON CONFLICT(ledger_entry_id) DO NOTHING; the CHECKs come first
unfoldable pub insert_ledger_entry : LedgerEntry → Db → Result Error Db
insert_ledger_entry e db =
    if not (amount_checks e.amount)
    then err constraint
    else if exists (is_entry e.id) db.ledger
    then ok db
    else ok (record db { ledger = e ∷ db.ledger })

module _ (env : Env) where
  unfoldable pub get_idempotency : Text → Text → Action IdempotencyRecord
  unfolding call find_idempotency
  get_idempotency scope hash = do
    call env
    query (λ db. or_not_found (find_idempotency scope hash db))

  unfoldable pub save_idempotency : IdempotencyRecord → Action (Unit {0})
  unfolding call insert_idempotency
  save_idempotency r = do call env; exec (insert_idempotency r)

  unfoldable pub create_donation : Donation → Action (Unit {0})
  unfolding call insert_donation
  create_donation d = do call env; exec (insert_donation d)

  unfoldable pub get_donation : Text → Action Donation
  unfolding call find_donation
  get_donation id = do call env; query (λ db. or_not_found (find_donation id db))

  unfoldable pub save_donation : Donation → Action (Unit {0})
  unfolding call update_donation
  save_donation d = do call env; exec (update_donation d)

  unfoldable pub create_boost_row : Boost → Action (Unit {0})
  unfolding call insert_boost
  create_boost_row b = do call env; exec (insert_boost b)

  unfoldable pub get_boost : Text → Action Boost
  unfolding call find_boost
  get_boost id = do call env; query (λ db. or_not_found (find_boost id db))

  unfoldable pub save_boost : Boost → Action (Unit {0})
  unfolding call update_boost
  save_boost b = do call env; exec (update_boost b)

  unfoldable pub is_animal_archived : Text → Action Bool
  unfolding call
  is_animal_archived id = do call env; query (λ db. ok (exists (text_eq id) db.archived_animals))

  unfoldable pub create_entitlement : Entitlement → Action (Unit {0})
  unfolding call insert_entitlement
  create_entitlement e = do call env; exec (insert_entitlement e)

  unfoldable pub get_entitlements : Text → Action (List Entitlement)
  unfolding call live_entitlements
  get_entitlements owner = do
    now ← ask env.now
    call env
    query (λ db. ok (live_entitlements owner now db))

  unfoldable pub add_ledger_entry : LedgerEntry → Action (Unit {0})
  unfolding call insert_ledger_entry
  add_ledger_entry e = do call env; exec (insert_ledger_entry e)

  -- `WithinTx`. A context is whether it carries a transaction. Within one the body joins it.
  -- Otherwise: BEGIN, the body in the new transaction, then ROLLBACK, which brings the tables
  -- back, or COMMIT, which may take effect although its answer is an error.
  unfoldable pub within_tx : {A : Type 0} → Bool → (Bool → Action A) → Action A
  unfolding call
  within_tx true body w = body true w
  within_tx false body w =
      let (begun, w1) = call env w in
      elim begun [
        | err e ↦ (err e, w1)
        | ok _ ↦
            let (r, w2) = body true w1 in
            elim r [
              | err e ↦ (err e, record w2 { db = w.db })
              | ok a ↦
                  let (committed, w3) = call env w2 in
                  elim committed [
                    | err e ↦ (
                      err e,
                      elim (env.commit_lost w2.tick) [
                        | true ↦ w3
                        | false ↦ record w3 { db = w.db }
                      ],
                    )
                    | ok _ ↦ (ok a, w3)
                  ]
            ]
      ]
