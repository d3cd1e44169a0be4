-- ===== src/Billing/Session.antt =====
-- Sequences of requests to the billing service, each with answers of its environment of its own.
use capibarco.Base.{List, [], ◌∷◌}
use capibarco.Base.Text.{Text}
use capibarco.Base.Result.{Result, ok, err}
use capibarco.Billing.Domain.{Error}
use capibarco.Billing.Ports.{Env, Db, World, Action}
use capibarco.Billing.Service.{
  CreateDonationIntentInput, ConfirmDonationInput, CreateBoostInput, PurchaseEntitlementInput,
  create_donation_intent, confirm_donation, create_boost, cancel_boost, purchase_entitlement,
}
use capibarco.Billing.Triple.{Post, Keeps}
use capibarco.Billing.Paid.{IsPaid}
use capibarco.Billing.Paid.Boosts.{BoostsPaid}
use capibarco.Billing.Paid.Statements.{Sound}
use capibarco.Billing.Paid.Service.{
  create_donation_intent-Sound, confirm_donation-Sound, create_boost-Sound, cancel_boost-Sound,
  purchase_entitlement-Sound,
}

-- The methods of the service that change its tables.
pub data Request : Type 0 where
  donate : CreateDonationIntentInput → Request
  confirm : ConfirmDonationInput → Request
  boost : CreateBoostInput → Request
  cancel : Text → Text → Request
  purchase : PurchaseEntitlementInput → Request

pub serve : Env → Request → World → World
serve env (donate input) w = (create_donation_intent env input w).1
serve env (confirm input) w = (confirm_donation env input w).1
serve env (boost input) w = (create_boost env input w).1
serve env (cancel id reason) w = (cancel_boost env id reason w).1
serve env (purchase input) w = (purchase_entitlement env input w).1

pub run : List (Env × Request) → World → World
run [] w = w
run ((env, r) ∷ rs) w = run rs (serve env r w)

kept_world :
    {A : Type 0} (P : Db → Type 0) (r : Result Error A × World) → Post (λ _. P) P r → P r.1.db
kept_world P (ok a, w) p = p
kept_world P (err e, w) p = p

after :
    {A : Type 0} (P : Db → Type 0) (m : Action A) (w : World) → Keeps P m → P w.db → P (m w).1.db
after P m w h p = kept_world P (m w) (h.run w p)

serve-Sound :
    (env : Env) (r : Request) (base : Db) (w : World)
    → Sound base w.db
    → Sound base (serve env r w).db
unfolding serve
serve-Sound env (donate input) base w = after _ _ w (create_donation_intent-Sound env base input)
serve-Sound env (confirm input) base w = after _ _ w (confirm_donation-Sound env base input)
serve-Sound env (boost input) base w = after _ _ w (create_boost-Sound env base input)
serve-Sound env (cancel id reason) base w = after _ _ w (cancel_boost-Sound env base id reason)
serve-Sound env (purchase input) base w = after _ _ w (purchase_entitlement-Sound env base input)

run-Sound :
    (rs : List (Env × Request)) (base : Db) (w : World) → Sound base w.db → Sound base (run rs w).db
unfolding run
run-Sound [] base w s = s
run-Sound ((env, r) ∷ rs) base w s = run-Sound rs base (serve env r w) (serve-Sound env r base w s)

-- Where every stored boost belongs to a donation that has succeeded, that is still so after any
-- sequence of requests, whatever fails on the way.
pub run-BoostsPaid :
    (rs : List (Env × Request)) (w : World) → BoostsPaid w.db → BoostsPaid (run rs w).db
run-BoostsPaid rs w h = (run-Sound rs w.db w (record { boosts = h; kept = λ id p. p })).boosts

-- Where every stored boost belongs to a donation that has succeeded, a donation that is stored as
-- succeeded is still so after any sequence of requests.
pub run-IsPaid :
    (rs : List (Env × Request)) (w : World) (id : Text)
    → BoostsPaid w.db
    → IsPaid id w.db
    → IsPaid id (run rs w).db
run-IsPaid rs w id h p = (run-Sound rs w.db w (record { boosts = h; kept = λ i q. q })).kept id p
