-- ===== src/Billing/Paid/Statements.antt =====
-- The statements of the store, as triples over the invariant of the boosts and the donations that
-- were paid at the start.
use capibarco.Base.{◌≡◌, Option, none, some, arith}
use capibarco.Base.Text.{Text}
use capibarco.Base.Result.{Result, ok}
use capibarco.Billing.Domain.{Error, Boost, Donation, Entitlement, LedgerEntry, succeeded}
use capibarco.Billing.Ports.{Env, Db, IdempotencyRecord, ◌>>◌, call}
use capibarco.Billing.Store.{
  or_not_found, find_boost, find_donation, insert_donation, update_donation, insert_boost,
  update_boost, insert_idempotency, insert_ledger_entry, insert_entitlement, get_idempotency,
  save_idempotency, create_donation, get_donation, save_donation, create_boost_row, get_boost,
  save_boost, is_animal_archived, create_entitlement, get_entitlements, add_ledger_entry, query,
  exec,
}
use capibarco.Billing.Triple.{
  Holds, Keeps, bind, conseq, call-Holds, query-Holds, exec-Holds, ask-Holds,
}
use capibarco.Billing.Paid.{IsPaid, insert-IsPaid, update-IsPaid}
use capibarco.Billing.Paid.Boosts.{
  BoostsPaid, same-IsPaid, insert_boost-BoostsPaid, update_boost-BoostsPaid, keep-BoostsPaid,
}

-- What an operation that starts from `base` keeps.
pub record Sound (base db : Db) : Type 0 where
  pub boosts : BoostsPaid db
  pub kept : (id : Text) → IsPaid id base → IsPaid id db

-- Neither the boosts nor the donations change.
same-Sound :
    (base db db' : Db)
    → db'.boosts ≡ db.boosts
    → db'.donations ≡ db.donations
    → Sound base db
    → Sound base db'
unfolding find_boost
same-Sound base db db' b d s = record {
  boosts = keep-BoostsPaid db db' (λ id. rw b) (λ id p. same-IsPaid id db db' d p) s.boosts;
  kept = λ id p. same-IsPaid id db db' d (s.kept id p);
}

-- The boosts do not change, and no paid donation is lost.
grow-Sound :
    (base db db' : Db)
    → db'.boosts ≡ db.boosts
    → ((id : Text) → IsPaid id db → IsPaid id db')
    → Sound base db
    → Sound base db'
unfolding find_boost
grow-Sound base db db' b g s = record {
  boosts = keep-BoostsPaid db db' (λ id. rw b) g s.boosts;
  kept = λ id p. g id (s.kept id p);
}

insert_donation-boosts :
    (d : Donation) (db db' : Db) → insert_donation d db ≡ ok db' → db'.boosts ≡ db.boosts
unfolding insert_donation
insert_donation-boosts d db db' e = ground arith

update_donation-boosts :
    (d : Donation) (db db' : Db) → update_donation d db ≡ ok db' → db'.boosts ≡ db.boosts
unfolding update_donation
update_donation-boosts d db db' e = ground arith

insert_boost-donations :
    (b : Boost) (db db' : Db) → insert_boost b db ≡ ok db' → db'.donations ≡ db.donations
unfolding insert_boost
insert_boost-donations b db db' e = ground arith

update_boost-donations :
    (b : Boost) (db db' : Db) → update_boost b db ≡ ok db' → db'.donations ≡ db.donations
unfolding update_boost
update_boost-donations b db db' e = ground arith

found : {A : Type 0} (o : Option A) {a : A} → or_not_found o ≡ ok a → o ≡ some a
found none e = cc
found (some a) e = ground arith

module _ (env : Env) (base : Db) where
  -- A query after a call that may fail.
  read :
      {A : Type 0} (f : Db → Result Error A)
      → Holds
          (Sound base)
          (call env >> query f)
          (λ a db. Sound base db × (f db ≡ ok a))
          (Sound base)
  read f = bind (call-Holds env _) (λ _. query-Holds (Sound base) f)

  read_only : {A : Type 0} (f : Db → Result Error A) → Keeps (Sound base) (call env >> query f)
  read_only f = conseq (λ _ s. s) (λ _ _ s. s.0) (λ _ s. s) (read f)

  -- A statement after a call that may fail.
  write :
      (f : Db → Result Error Db)
      → ((db db' : Db) → Sound base db → f db ≡ ok db' → Sound base db')
      → Keeps (Sound base) (call env >> exec f)
  write f k = bind (call-Holds env _) (λ _. exec-Holds _ f k)

  pub get_idempotency-Sound :
      (scope hash : Text) → Keeps (Sound base) (get_idempotency env scope hash)
  unfolding get_idempotency
  get_idempotency-Sound scope hash = read_only _

  pub get_donation-Sound :
      (id : Text)
      → Holds
          (Sound base)
          (get_donation env id)
          (λ d db. Sound base db × (find_donation id db ≡ some d))
          (Sound base)
  unfolding get_donation
  get_donation-Sound id =
      conseq (λ _ s. s) (λ _ db s. (s.0, found (find_donation id db) s.1)) (λ _ s. s) (read _)

  pub get_boost-Sound : (id : Text) → Keeps (Sound base) (get_boost env id)
  unfolding get_boost
  get_boost-Sound id = read_only _

  pub is_animal_archived-Sound : (id : Text) → Keeps (Sound base) (is_animal_archived env id)
  unfolding is_animal_archived
  is_animal_archived-Sound id = read_only _

  pub get_entitlements-Sound : (owner : Text) → Keeps (Sound base) (get_entitlements env owner)
  unfolding get_entitlements
  get_entitlements-Sound owner = bind (ask-Holds _ _) (λ _. read_only _)

  pub save_idempotency-Sound : (r : IdempotencyRecord) → Keeps (Sound base) (save_idempotency env r)
  unfolding save_idempotency insert_idempotency
  save_idempotency-Sound r =
      write _ (λ db db' s e. same-Sound base db db' (ground arith) (ground arith) s)

  pub add_ledger_entry-Sound : (r : LedgerEntry) → Keeps (Sound base) (add_ledger_entry env r)
  unfolding add_ledger_entry insert_ledger_entry
  add_ledger_entry-Sound r =
      write _ (λ db db' s e. same-Sound base db db' (ground arith) (ground arith) s)

  pub create_entitlement-Sound : (r : Entitlement) → Keeps (Sound base) (create_entitlement env r)
  unfolding create_entitlement insert_entitlement
  create_entitlement-Sound r =
      write _ (λ db db' s e. same-Sound base db db' (ground arith) (ground arith) s)

  pub create_donation-Sound : (d : Donation) → Keeps (Sound base) (create_donation env d)
  unfolding create_donation
  create_donation-Sound d = write _ (λ db db' s e.
      grow-Sound base db db' (insert_donation-boosts d db db' e)
        (λ id p. insert-IsPaid d id db db' p e) s)

  -- The stored donation may not go back on a payment.
  pub save_donation-Sound :
      (d : Donation)
      → Holds
          (λ db.
            Sound base db
            × ((o : Donation)
                → find_donation d.id db ≡ some o
                → o.status ≡ succeeded
                → d.status ≡ succeeded))
          (save_donation env d)
          (λ _. Sound base)
          (Sound base)
  unfolding save_donation
  save_donation-Sound d =
      bind (conseq (λ _ s. s) (λ _ _ s. s) (λ _ s. s.0) (call-Holds env _)) (λ _.
        conseq (λ _ s. s) (λ _ _ s. s) (λ _ s. s.0)
          (exec-Holds _ _ (λ db db' s e.
            grow-Sound base db db' (update_donation-boosts d db db' e)
              (λ id p. update-IsPaid d id db db' p s.1 e) s.0)))

  -- The boost's donation must be paid.
  pub create_boost_row-Sound :
      (b : Boost)
      → Holds
          (λ db. Sound base db × IsPaid b.donation_id db)
          (create_boost_row env b)
          (λ _. Sound base)
          (Sound base)
  unfolding create_boost_row
  create_boost_row-Sound b =
      bind (conseq (λ _ s. s) (λ _ _ s. s) (λ _ s. s.0) (call-Holds env _)) (λ _.
        conseq (λ _ s. s) (λ _ _ s. s) (λ _ s. s.0)
          (exec-Holds _ _ (λ db db' s e. record {
            boosts = insert_boost-BoostsPaid b db db' s.0.boosts s.1 e;
            kept =
                λ id p. same-IsPaid id db db' (insert_boost-donations b db db' e) (s.0.kept id p);
          })))

  pub save_boost-Sound : (b : Boost) → Keeps (Sound base) (save_boost env b)
  unfolding save_boost
  save_boost-Sound b = write _ (λ db db' s e. record {
    boosts = update_boost-BoostsPaid b db db' s.boosts e;
    kept = λ id p. same-IsPaid id db db' (update_boost-donations b db db' e) (s.kept id p);
  })
