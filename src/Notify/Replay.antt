-- ===== src/Notify/Replay.antt =====
-- Sessions of backend/notification-service: calls of its operations and handlers one after another,
-- each with its faults, and a key that comes back.
use capibarco.Base.{
  ◌⊎◌, inl, inr, Bool, Bool-cases, ℕ, ◌≡◌, refl, true, false, Option, some, List, [], ◌∷◌, arith,
  exists,
}
use capibarco.Base.Text.{Text, is_blank}
use capibarco.Base.Table.{find}
use capibarco.Base.Result.{ok, err}
use capibarco.Base.Action.{◌>>=◌}
use capibarco.Base.Action.Ports.{outcome_of, Fate, answered, refused, unheard}
use capibarco.Notify.Domain.{Notification, outside}
use capibarco.Notify.Outside.{Env, World, after, request}
use capibarco.Notify.Store.{has_key, find_notification_by_idempotency_key}
use capibarco.Notify.Service.{
  register_device, unregister_device, create_notification, create_keyed, validate_notification,
  mark_notification_read,
}
use capibarco.Notify.Handlers.{
  Envelope, MatchMessage, ChatMessage, DonationMessage, BoostMessage, ReviewMessage,
  handle_match_created, handle_message_sent, handle_donation_succeeded, handle_boost_activated,
  handle_review_created,
}
use capibarco.Notify.Once.{IsStored, requests_for}
use capibarco.Notify.Session

pub data Call : Type 0 where
  register_call : Text → Text → Text → Text → Call
  unregister_call : Text → Call
  create_call : Notification → Call
  read_call : Text → Text → Call
  match_call : Envelope → Option MatchMessage → Call
  message_call : Envelope → Option ChatMessage → Call
  donation_call : Envelope → Text → Option DonationMessage → Call
  boost_call : Envelope → Option BoostMessage → Call
  review_call : Envelope → Option ReviewMessage → Call

unfoldable pub serve : Env → Call → World → World
serve env (register_call p t f l) w = (register_device env p t f l w).1
serve env (unregister_call d) w = (unregister_device env d w).1
serve env (create_call n) w = (create_notification env n w).1
serve env (read_call id recipient) w = (mark_notification_read env id recipient w).1
serve env (match_call e m) w = (handle_match_created env e m w).1
serve env (message_call e m) w = (handle_message_sent env e m w).1
serve env (donation_call e p d) w = (handle_donation_succeeded env e p d w).1
serve env (boost_call e b) w = (handle_boost_activated env e b w).1
serve env (review_call e v) w = (handle_review_created env e v w).1

unfoldable pub run : Env → List Call → World → World
run env [] w = w
run env (c ∷ calls) w = run env calls (serve env c w)

serve-IsStored :
    (env : Env) (c : Call) (r k : Text) (count : ℕ) (w : World)
    → IsStored r k count w
    → IsStored r k count (serve env c w)
unfolding serve
serve-IsStored env (register_call p t f l) r k count w h =
    (Session.Keeps-register env p t f l).at w h
serve-IsStored env (unregister_call d) r k count w h = (Session.Keeps-unregister env d).at w h
serve-IsStored env (create_call n) r k count w h = (Session.Keeps-create env n).at w h
serve-IsStored env (read_call id t) r k count w h = (Session.Keeps-read env id t).at w h
serve-IsStored env (match_call e m) r k count w h = (Session.Keeps-match env e m).at w h
serve-IsStored env (message_call e m) r k count w h = (Session.Keeps-message env e m).at w h
serve-IsStored env (donation_call e p d) r k count w h = (Session.Keeps-donation env e p d).at w h
serve-IsStored env (boost_call e b) r k count w h = (Session.Keeps-boost env e b).at w h
serve-IsStored env (review_call e v) r k count w h = (Session.Keeps-review env e v).at w h

run-IsStored :
    (env : Env) (calls : List Call) (r k : Text) (count : ℕ) (w : World)
    → IsStored r k count w
    → IsStored r k count (run env calls w)
unfolding run
run-IsStored env [] r k count w h = h
run-IsStored env (c ∷ calls) r k count w h =
    run-IsStored env calls r k count (serve env c w) (serve-IsStored env c r k count w h)

-- Once a notification is stored for a recipient and a key, it stays stored, and no later call, of the
-- service or of a handler, with whatever faults, publishes another request event for them.
pub requested_once :
    (env : Env) (calls : List Call) (r k : Text) (w : World)
    → exists (has_key r k) w.notifications ≡ true
    → (exists (has_key r k) (run env calls w).notifications ≡ true)
      × (requests_for r k (run env calls w).published ≡ requests_for r k w.published)
requested_once env calls r k w there =
    let later =
      run-IsStored env calls r k (requests_for r k w.published) w
        (record { stored = there; counted = refl }) in
    (later.stored, later.counted)

found_key :
    (p : Notification → Bool) (xs : List Notification)
    → exists p xs ≡ true
    → (x : Notification) × (find p xs ≡ some x)
found_key p [] h = cc
found_key p (x ∷ xs) h = elim (Bool-cases (p x)) [
  | inl e ↦ (x, rw e refl)
  | inr e ↦ let (y, f) = found_key p xs (ground arith) in (y, rw e f)
]

-- The answer to a valid notification whose key is stored, on every fate of the look-up.
create-found :
    (env : Env) (n : Notification) (w : World) {existing : Notification}
    → validate_notification n ≡ ok tt
    → is_blank n.idempotency_key ≡ false
    → find (has_key n.recipient_profile_id n.idempotency_key) w.notifications ≡ some existing
    → (((create_notification env n w).0 ≡ ok existing)
        ⊎ ((create_notification env n w).0 ≡ err outside))
      × ((create_notification env n w).1 ≡ after w)
unfolding create_notification create_keyed request find_notification_by_idempotency_key outcome_of
    ◌>>=◌
create-found env n w {existing} valid given found = go (env.fate w.tick) refl
  where
    go :
        (f : Fate)
        → env.fate w.tick ≡ f
        → (((create_notification env n w).0 ≡ ok existing)
            ⊎ ((create_notification env n w).0 ≡ err outside))
          × ((create_notification env n w).1 ≡ after w)
    go answered e = (inl (ground (arith, e)), ground (arith, e))
    go refused e = (inr (ground (arith, e)), ground (arith, e))
    go unheard e = (inr (ground (arith, e)), ground (arith, e))

-- Once a notification is stored for a recipient and a key, then after any later calls, with whatever
-- faults, a valid notification for this recipient with this key creates nothing: the tables, the
-- events and the streams are as before it, whatever its look-up meets, and the answer is a
-- notification that is stored for the recipient and the key then, whatever its status, or the error
-- of a call outside.
pub create_replays :
    (env : Env) (calls : List Call) (n : Notification) (w : World)
    → validate_notification n ≡ ok tt
    → is_blank n.idempotency_key ≡ false
    → exists (has_key n.recipient_profile_id n.idempotency_key) w.notifications ≡ true
    → let w' = run env calls w in
      let (r, w₁) = create_notification env n w' in
      (w₁ ≡ after w')
      × (existing : Notification) × (find
            (has_key n.recipient_profile_id n.idempotency_key)
            w'.notifications
          ≡ some existing)
      × ((r ≡ ok existing) ⊎ (r ≡ err outside))
create_replays env calls n w valid given there =
    let (kept, counted) =
      requested_once env calls n.recipient_profile_id n.idempotency_key w there in
    let (existing, found) =
      found_key (has_key n.recipient_profile_id n.idempotency_key) (run env calls w).notifications
        kept in
    let (said, same) = create-found env n (run env calls w) valid given found in
    (same, existing, found, said)
