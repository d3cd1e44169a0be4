-- ===== src/Notify/Session.antt =====
-- Sessions of backend/notification-service: its operations and handlers, each with its faults, and the
-- notification that they do not request again.
use capibarco.Base.{
  ℕ, ◌≡◌, refl, ap, ◌∙◌, inl, inr, true, false, Bool-cases, Option, none, some, List, is_empty, [],
  ◌∷◌, arith, if◌then◌else◌, exists,
}
use capibarco.Base.Text.{Text, text_eq, text_eq_iff}
use capibarco.Base.Table.{exists-or}
use capibarco.Base.Result.{Result, ok, err}
use capibarco.Base.Action.{◌>>◌}
use capibarco.Base.Action.Keeps.{Keeps, Keeps-bind, Keeps-bind-given, keeps_rules}
use capibarco.Notify.Domain.{
  NotificationError, outside, not_found, invalid_argument, Channel, Notification,
}
use capibarco.Notify.Outside.{Payload, Env, World, request}
use capibarco.Notify.Store
use capibarco.Notify.Store.{
  has_key, has_id, is_for, with_status, as_read, stored_row, nullable, notification_clashes,
}
use capibarco.Notify.Service.{
  register_device, unregister_device, send, publish_requested, publish_delivered, publish_failed,
  publish_read, deliver, give_up, create_new, create_after, create_keyed, create_notification,
  mark_notification_read,
}
use capibarco.Notify.Once.{IsStored, requests, statement_rules}
use capibarco.Notify.Handlers.{
  Envelope, MatchMessage, ChatMessage, DonationMessage, BoostMessage, ReviewMessage, key_of,
  notify_one, handle_match_created, notify_recipient, notify_of_donation, notify_recipients,
  handle_message_sent, notify_donation, handle_donation_succeeded, handle_boost_activated,
  handle_review_created,
}

-- A row that goes into the table has not the recipient and the key of a row that stands there.
inserted_other :
    (r k : Text) (n : Notification) (rows : List Notification)
    → exists (has_key r k) rows ≡ true
    → exists (notification_clashes n) rows ≡ false
    → has_key r k (stored_row n) ≡ false
inserted_other r k n rows there unique =
    let (_, new) =
      exists-or (λ m. text_eq m.id n.id)
        (has_key n.recipient_profile_id (nullable n.idempotency_key)) rows unique in
    elim (Bool-cases (has_key r k (stored_row n))) [
      | inl e ↦
          let recipient : n.recipient_profile_id ≡ r =
            (text_eq_iff n.recipient_profile_id r).0 (ground (arith, e)) in
          let key : nullable n.idempotency_key ≡ k =
            (text_eq_iff (nullable n.idempotency_key) k).0 (ground (arith, e)) in
          absurd (ground (arith, there, new, recipient, key))
      | inr e ↦ e
    ]

module _ (env : Env) {r k : Text} {count : ℕ} where
  Keeps-send :
      (t c i p : Text) (payload : Payload)
      → requests r k payload ≡ false
      → Keeps (IsStored r k count) (send env t c i p payload)
  unfolding send
  Keeps-send t c i p payload other = search statement_rules

  Keeps-publish_delivered :
      (n : Notification) → Keeps (IsStored r k count) (publish_delivered env n)
  unfolding publish_delivered
  Keeps-publish_delivered n = Keeps-send _ _ _ _ _ refl

  Keeps-publish_failed :
      (n : Notification) (c : Channel) (reason : Text)
      → Keeps (IsStored r k count) (publish_failed env n c reason)
  unfolding publish_failed
  Keeps-publish_failed n c reason = Keeps-send _ _ _ _ _ refl

  Keeps-publish_requested :
      (n : Notification)
      → has_key r k n ≡ false
      → Keeps (IsStored r k count) (publish_requested env n)
  unfolding publish_requested
  Keeps-publish_requested n other = Keeps-send _ _ _ _ _ other

  Keeps-publish_read :
      (n : Notification) (at : ℕ) → Keeps (IsStored r k count) (publish_read env n at)
  unfolding publish_read
  Keeps-publish_read n at = search statement_rules

  Keeps-deliver : (n : Notification) → Keeps (IsStored r k count) (deliver env n)
  unfolding deliver
  Keeps-deliver n = search (statement_rules, Keeps-publish_delivered)

  Keeps-give_up : (n : Notification) → Keeps (IsStored r k count) (give_up env n)
  unfolding give_up
  Keeps-give_up n = search (statement_rules, Keeps-publish_failed)

  -- What the service does with a row that it inserted.
  Keeps-inserted :
      (stored : Notification)
      → has_key r k stored ≡ false
      → Keeps (IsStored r k count) (
          publish_requested env stored
          >> (if is_empty stored.channels then give_up env stored else deliver env stored))
  Keeps-inserted stored other =
      search (keeps_rules, Keeps-publish_requested, Keeps-give_up, Keeps-deliver)

  inserted-other :
      (n : Notification) (w : World) {stored : Notification}
      → IsStored r k count w
      → (request env (Store.insert_notification n) w).0 ≡ ok stored
      → has_key r k stored ≡ false
  unfolding request Store.insert_notification
  inserted-other n w {stored} h e =
      elim (Bool-cases (exists (notification_clashes n) w.notifications)) [
        | inl clash ↦ absurd (ground (arith, e))
        | inr unique ↦
            let other = inserted_other r k n w.notifications h.stored unique in
            let same : stored ≡ stored_row n = ground (arith, e) in ap (has_key r k) same ∙ other
      ]

  Keeps-create_new : (n : Notification) → Keeps (IsStored r k count) (create_new env n)
  unfolding create_new
  Keeps-create_new n = Keeps-bind _ _ (search statement_rules) λ pref.
      Keeps-bind _ _ (search statement_rules) λ at. Keeps-bind _ _ (search statement_rules) λ id.
        Keeps-bind-given _ _ (search statement_rules)
          λ stored w h e. Keeps-inserted stored (inserted-other _ w h e)

  Keeps-create_after :
      (n : Notification) (found : Result NotificationError Notification)
      → Keeps (IsStored r k count) (create_after env n found)
  Keeps-create_after n (ok existing) = search keeps_rules
  Keeps-create_after n (err not_found) = Keeps-create_new n
  Keeps-create_after n (err invalid_argument) = search keeps_rules
  Keeps-create_after n (err outside) = search keeps_rules

  Keeps-create_keyed : (n : Notification) → Keeps (IsStored r k count) (create_keyed env n)
  unfolding create_keyed
  Keeps-create_keyed n = search (statement_rules, Keeps-create_after)

  pub Keeps-create : (n : Notification) → Keeps (IsStored r k count) (create_notification env n)
  unfolding create_notification
  Keeps-create n = search (statement_rules, Keeps-create_new, Keeps-create_keyed)

  Keeps-notify_one : (n : Notification) → Keeps (IsStored r k count) (notify_one env n)
  unfolding notify_one
  Keeps-notify_one n = search (keeps_rules, Keeps-create)

  Keeps-key_of : (e : Envelope) → Keeps (IsStored r k count) (key_of env e)
  unfolding key_of
  Keeps-key_of e = search statement_rules

  ruleset handler_rules = (keeps_rules, Keeps-notify_one, Keeps-key_of)

  pub Keeps-match :
      (e : Envelope) (m : Option MatchMessage)
      → Keeps (IsStored r k count) (handle_match_created env e m)
  unfolding handle_match_created
  Keeps-match e none = search handler_rules
  Keeps-match e (some m) = search handler_rules

  Keeps-recipient :
      (e : Envelope) (m : ChatMessage) (x : Text)
      → Keeps (IsStored r k count) (notify_recipient env e m x)
  unfolding notify_recipient
  Keeps-recipient e m x = search handler_rules

  Keeps-recipients :
      (e : Envelope) (m : ChatMessage) (rs : List Text)
      → Keeps (IsStored r k count) (notify_recipients env e m rs)
  unfolding notify_recipients
  Keeps-recipients e m [] = search handler_rules
  Keeps-recipients e m (x ∷ rs) =
      Keeps-bind _ _ (Keeps-recipient e m x) λ _. Keeps-recipients e m rs

  pub Keeps-message :
      (e : Envelope) (m : Option ChatMessage)
      → Keeps (IsStored r k count) (handle_message_sent env e m)
  unfolding handle_message_sent
  Keeps-message e none = search handler_rules
  Keeps-message e (some m) = Keeps-recipients e m _

  Keeps-of_donation :
      (e : Envelope) (d : DonationMessage) (x : Text)
      → Keeps (IsStored r k count) (notify_of_donation env e d x)
  unfolding notify_of_donation
  Keeps-of_donation e d x = search handler_rules

  Keeps-donations :
      (e : Envelope) (d : DonationMessage) (rs : List Text)
      → Keeps (IsStored r k count) (notify_donation env e d rs)
  unfolding notify_donation
  Keeps-donations e d [] = search handler_rules
  Keeps-donations e d (x ∷ rs) =
      Keeps-bind _ _ (Keeps-of_donation e d x) λ _. Keeps-donations e d rs

  pub Keeps-donation :
      (e : Envelope) (p : Text) (d : Option DonationMessage)
      → Keeps (IsStored r k count) (handle_donation_succeeded env e p d)
  unfolding handle_donation_succeeded
  Keeps-donation e p none = search handler_rules
  Keeps-donation e p (some d) = Keeps-donations e d _

  pub Keeps-boost :
      (e : Envelope) (b : Option BoostMessage)
      → Keeps (IsStored r k count) (handle_boost_activated env e b)
  unfolding handle_boost_activated
  Keeps-boost e none = search handler_rules
  Keeps-boost e (some b) = search handler_rules

  pub Keeps-review :
      (e : Envelope) (v : Option ReviewMessage)
      → Keeps (IsStored r k count) (handle_review_created env e v)
  unfolding handle_review_created
  Keeps-review e none = search handler_rules
  Keeps-review e (some v) = search handler_rules

  pub Keeps-read : (id t : Text) → Keeps (IsStored r k count) (mark_notification_read env id t)
  unfolding mark_notification_read
  Keeps-read id t = search (statement_rules, Keeps-publish_read) depth 14

  pub Keeps-register : (p t f l : Text) → Keeps (IsStored r k count) (register_device env p t f l)
  unfolding register_device
  Keeps-register p t f l = search statement_rules

  pub Keeps-unregister : (d : Text) → Keeps (IsStored r k count) (unregister_device env d)
  unfolding unregister_device
  Keeps-unregister d = search statement_rules
