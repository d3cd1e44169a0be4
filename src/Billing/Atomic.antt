-- ===== src/Billing/Atomic.antt =====
-- The tables after a call of `CreateDonationIntent` that fails.
use capibarco.Base.{ℕ, ◌≡◌, ◌⊎◌, true}
use capibarco.Base.Text.{Text}
use capibarco.Base.Result.{Result, ok}
use capibarco.Billing.Domain.{Donation}
use capibarco.Billing.Ports.{Env, Db, Action, IdempotencyRecord}
use capibarco.Billing.Store.{insert_donation, insert_idempotency}
use capibarco.Billing.Triple.{Holds}

abbrev Any : Db → Type 0
Any _ = Unit

-- The tables with a donation and the key of its request added to them, by the two statements.
pub record IsStored (base db : Db) : Type 0 where
  pub donation : Donation
  pub row : IdempotencyRecord
  pub between : Db
  pub added : insert_donation donation base ≡ ok between
  pub keyed : insert_idempotency row between ≡ ok db
  pub names : row.resource_id ≡ donation.id

-- The tables are as before, or a COMMIT whose answer was lost has stored the donation and its key.
abbrev pub IsAllOrNothing : Env → Db → Db → Type 0
IsAllOrNothing env base db = (db ≡ base) ⊎ ((n : ℕ) × (env.commit_lost n ≡ true) × IsStored base db)

module _ (env : Env) (base : Db) where
  -- An action that finds the tables at `base` and leaves all or nothing where it fails.
  Rolls : {A : Type 0} → Action A → Type 0
  Rolls m = Holds (λ db. db ≡ base) m (λ _. Any) (IsAllOrNothing env base)
