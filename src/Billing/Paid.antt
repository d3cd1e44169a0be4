-- ===== src/Billing/Paid.antt =====
-- Donations that have succeeded, in the tables of the billing service.
pub mod Boosts
pub mod Statements
pub mod Service
use mathlib.Core.Path.{subst}
use capibarco.Base.{
  ℕ, ◌≡◌, ◌≢◌, refl, sym, ◌∙◌, ap, Bool, true, false, Option, none, some, List, [], ◌∷◌, exists,
  arith, if◌then◌else◌, not, ◌&&◌, ◌||◌,
}
use capibarco.Base.Text.{Text, text_eq, text_eq_iff, text_eq_refl}
use capibarco.Base.Result.{Result, ok, err}
use capibarco.Base.Table.{find, update, find_sound, find-update, exists-find}
use capibarco.Billing.Domain.{Error, succeeded, Donation}
use capibarco.Billing.Ports.{Db}
use capibarco.Billing.Store.{
  find_donation, insert_donation, update_donation, is_donation, set_donation,
}

-- The donation `id` is stored and has succeeded.
pub record IsPaid (id : Text) (db : Db) : Type 0 where
  pub donation : Donation
  pub stored : find_donation id db ≡ some donation
  pub paid : donation.status ≡ succeeded

pub find_donation-id :
    (id : Text) (db : Db) {d : Donation} → find_donation id db ≡ some d → d.id ≡ id
unfolding find_donation
find_donation-id id db {d} h = (text_eq_iff d.id id).0 (find_sound (is_donation id) db.donations h)

pub find_donation_self :
    (id : Text) (db : Db) {d : Donation}
    → find_donation id db ≡ some d
    → find_donation d.id db ≡ some d
find_donation_self id db {d} h =
    subst (λ (t : Text). find_donation t db ≡ some d) (sym (find_donation-id id db h)) h

-- A new donation never hides a stored one: its identifier is new.
pub insert_donation-keeps :
    (d o : Donation) (id : Text) (db db' : Db)
    → find_donation id db ≡ some o
    → insert_donation d db ≡ ok db'
    → find_donation id db' ≡ some o
unfolding insert_donation
insert_donation-keeps d o id db db' h k =
    ground (arith, text_eq_iff d.id id, exists-find (is_donation id) db.donations {x = o})

-- An update rewrites the columns of the row with the donation's identifier, and of no other.
pub update_donation-find :
    (d o : Donation) (id : Text) (db db' : Db)
    → find_donation id db ≡ some o
    → update_donation d db ≡ ok db'
    → find_donation id db' ≡ some (if text_eq o.id d.id then set_donation d o else o)
unfolding update_donation
update_donation-find d o id db db' h k = ground (
  arith,
  find-update (is_donation id) (is_donation d.id) (set_donation d) db.donations (λ x. refl),
)

pub insert-IsPaid :
    (d : Donation) (id : Text) (db db' : Db)
    → IsPaid id db
    → insert_donation d db ≡ ok db'
    → IsPaid id db'
insert-IsPaid d id db db' h k = record {
  donation = h.donation;
  stored = insert_donation-keeps d h.donation id db db' h.stored k;
  paid = h.paid;
}

-- An update keeps a paid donation paid if it does not take the status of that one back.
pub update-IsPaid :
    (d : Donation) (id : Text) (db db' : Db)
    → IsPaid id db
    → ((o : Donation)
        → find_donation d.id db ≡ some o
        → o.status ≡ succeeded
        → d.status ≡ succeeded)
    → update_donation d db ≡ ok db'
    → IsPaid id db'
update-IsPaid d id db db' h keep k = record {
  donation = if text_eq h.donation.id d.id then set_donation d h.donation else h.donation;
  stored = update_donation-find d h.donation id db db' h.stored k;
  paid = ground (
    arith,
    text_eq_iff h.donation.id d.id,
    find_donation-id id db h.stored,
    keep h.donation,
    h.paid,
  );
}
