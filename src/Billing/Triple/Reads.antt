-- ===== src/Billing/Triple/Reads.antt =====
-- Rules for the queries of the store.
use capibarco.Base.Text.{Text}
use capibarco.Base.Result.{Result}
use capibarco.Billing.Domain.{Error}
use capibarco.Billing.Ports.{Env, Db, ◌>>◌, call}
use capibarco.Billing.Store.{
  get_idempotency, get_donation, get_boost, is_animal_archived, get_entitlements, query,
}
use capibarco.Billing.Triple.{Keeps, bind, conseq, call-Holds, query-Holds, ask-Holds}

module _ (env : Env) (P : Db → Type 0) where
  read_only : {A : Type 0} (f : Db → Result Error A) → Keeps P (call env >> query f)
  read_only f =
      bind (call-Holds env P) λ _. conseq (λ _ s. s) (λ _ _ s. s.0) (λ _ s. s) (query-Holds P f)

  pub get_idempotency-Holds : (scope hash : Text) → Keeps P (get_idempotency env scope hash)
  unfolding get_idempotency
  get_idempotency-Holds scope hash = read_only _

  pub get_donation-Holds : (id : Text) → Keeps P (get_donation env id)
  unfolding get_donation
  get_donation-Holds id = read_only _

  pub get_boost-Holds : (id : Text) → Keeps P (get_boost env id)
  unfolding get_boost
  get_boost-Holds id = read_only _

  pub is_animal_archived-Holds : (id : Text) → Keeps P (is_animal_archived env id)
  unfolding is_animal_archived
  is_animal_archived-Holds id = read_only _

  pub get_entitlements-Holds : (owner : Text) → Keeps P (get_entitlements env owner)
  unfolding get_entitlements
  get_entitlements-Holds owner = bind (ask-Holds _ _) λ _. read_only _
