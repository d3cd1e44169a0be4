-- ===== src/Billing/Paid/Boosts.antt =====
-- Boosts and the donations that paid for them, in the tables of the billing service.
use mathlib.Core.Path.{subst}
use capibarco.Base.{◌≡◌, refl, Bool-cases, Option-cases, inl, inr, none, some, arith, if◌then◌else◌}
use capibarco.Base.Text.{Text, text_eq}
use capibarco.Base.Result.{ok}
use capibarco.Base.Table.{find-update}
use capibarco.Billing.Domain.{Boost}
use capibarco.Billing.Ports.{Db}
use capibarco.Billing.Store.{
  find_boost, insert_boost, update_boost, is_boost, set_boost, find_donation,
}
use capibarco.Billing.Paid.{IsPaid}

pub record BoostsPaid (db : Db) : Type 0 where
  pub paid : (id : Text) (b : Boost) → find_boost id db ≡ some b → IsPaid b.donation_id db

pub same-IsPaid :
    (id : Text) (db db' : Db) → db'.donations ≡ db.donations → IsPaid id db → IsPaid id db'
unfolding find_donation
same-IsPaid id db db' e h = record { donation = h.donation; stored = rw e h.stored; paid = h.paid }

insert_boost-find :
    (b : Boost) (id : Text) (db db' : Db)
    → insert_boost b db ≡ ok db'
    → (find_boost id db' ≡ (if text_eq b.id id then some b else find_boost id db))
      × (db'.donations ≡ db.donations)
unfolding insert_boost find_boost
insert_boost-find b id db db' k = ground arith

update_boost-find :
    (b : Boost) (id : Text) (db db' : Db)
    → update_boost b db ≡ ok db'
    → (find_boost id db' ≡ elim (find_boost id db) [
      | none ↦ none
      | some o ↦ some (if text_eq o.id b.id then set_boost b o else o)
    ])
      × (db'.donations ≡ db.donations)
unfolding update_boost find_boost
update_boost-find b id db db' k =
    ground (arith, find-update (is_boost id) (is_boost b.id) (set_boost b) db.boosts (λ x. refl))

-- The boost that a search finds after an insertion is the new one or an old one.
pub insert_boost-BoostsPaid :
    (b : Boost) (db db' : Db)
    → BoostsPaid db
    → IsPaid b.donation_id db
    → insert_boost b db ≡ ok db'
    → BoostsPaid db'
insert_boost-BoostsPaid b db db' h p k = record {
  paid = λ id o e. elim (Bool-cases (text_eq b.id id)) [
    | inl new ↦
        let (found, same) = insert_boost-find b id db db' k in
        let is_b : b ≡ o = ground (arith, found, new, e) in
        subst (λ (x : Boost). IsPaid x.donation_id db') is_b
          (same-IsPaid b.donation_id db db' same p)
    | inr old ↦
        let (found, same) = insert_boost-find b id db db' k in
        same-IsPaid o.donation_id db db' same (h.paid id o (ground (arith, found, old, e)))
  ];
}

update_boost-old :
    (b o : Boost) (id : Text) (db db' : Db)
    → update_boost b db ≡ ok db'
    → find_boost id db' ≡ some o
    → (x : Boost) × (find_boost id db ≡ some x) × (x.donation_id ≡ o.donation_id)
update_boost-old b o id db db' k e = elim (Option-cases (find_boost id db)) [
  | inl no_row ↦ absurd (ground (arith, update_boost-find b id db db' k, no_row, e))
  | inr (x, found) ↦ (x, found, ground (arith, update_boost-find b id db db' k, found, e))
]

pub update_boost-BoostsPaid :
    (b : Boost) (db db' : Db) → BoostsPaid db → update_boost b db ≡ ok db' → BoostsPaid db'
update_boost-BoostsPaid b db db' h k = record {
  paid = λ id o e.
      let (x, found, same_donation) = update_boost-old b o id db db' k e in
      let (_, same) = update_boost-find b id db db' k in
      subst (λ (t : Text). IsPaid t db') same_donation
        (same-IsPaid x.donation_id db db' same (h.paid id x found));
}

-- A change that keeps the boosts and every paid donation keeps the invariant.
pub keep-BoostsPaid :
    (db db' : Db)
    → ((id : Text) → find_boost id db' ≡ find_boost id db)
    → ((id : Text) → IsPaid id db → IsPaid id db')
    → BoostsPaid db
    → BoostsPaid db'
keep-BoostsPaid db db' same grow h = record {
  paid = λ id b e. grow b.donation_id (h.paid id b (rw (same id) at e));
}
