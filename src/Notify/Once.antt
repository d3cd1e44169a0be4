-- ===== src/Notify/Once.antt =====
-- A stored notification of backend/notification-service is not requested again: what each operation
-- keeps of the notification that has a recipient and a key.
use capibarco.Base.{
  ℕ, suc, ◌≡◌, refl, ◌∙◌, inl, inr, Bool, true, false, Bool-cases, List, [], ◌∷◌, ◌++◌, arith,
  if◌then◌else◌, exists,
}
use capibarco.Base.Text.{Text}
use capibarco.Base.Table.{exists-append, exists-update}
use capibarco.Base.Action.Keeps.{Keeps, Keeps-bind, Keeps-bind-given, keeps_rules}
use capibarco.Base.Action.Ports.{met-kept, outcome_of, Keeps-outcome_of}
use capibarco.Notify.Domain.{outside, Status, DeviceToken, Notification}
use capibarco.Notify.Outside.{
  Payload, requested, delivered_event, failed_event, read_event, Event, Env, World, Notify, after,
  draw, request,
}
use capibarco.Notify.Store
use capibarco.Notify.Store.{
  has_key, has_id, is_for, with_status, as_read, stored_row, nullable, notification_clashes,
}
use capibarco.Notify.Service.{now, new_id, broadcast}

-- The event requests the notification with the recipient and the key.
abbrev pub requests : Text → Text → Payload → Bool
requests r k (requested n) = has_key r k n
requests r k (delivered_event id channels) = false
requests r k (failed_event id channel reason) = false
requests r k (read_event id recipient at) = false

-- How many published events request it.
unfoldable pub requests_for : Text → Text → List Event → ℕ
requests_for r k [] = 0
requests_for r k (e ∷ es) =
    if requests r k e.payload then suc (requests_for r k es) else requests_for r k es

-- The notification is stored, and `count` events request it.
pub record IsStored (r k : Text) (count : ℕ) (w : World) : Type 0 where
  pub stored : exists (has_key r k) w.notifications ≡ true
  pub counted : requests_for r k w.published ≡ count

requests_for-append :
    (r k : Text) (es : List Event) (e : Event)
    → requests r k e.payload ≡ false
    → requests_for r k (es ++ (e ∷ [])) ≡ requests_for r k es
unfolding requests_for
requests_for-append r k [] e other = ground arith
requests_for-append r k (x ∷ es) e other = ground (arith, requests_for-append r k es e other)

module _ {r k : Text} {count : ℕ} where
  pub Keeps-draw : {A : Type 0} (f : ℕ → A) → Keeps (IsStored r k count) (draw f)
  unfolding draw
  Keeps-draw f = record { at = λ w h. record { stored = h.stored; counted = h.counted } }

  pub Keeps-request :
      (env : Env) {A : Type 0} (m : Notify A)
      → Keeps (IsStored r k count) m
      → Keeps (IsStored r k count) (request env m)
  unfolding request
  Keeps-request env m km = record {
    at = λ w h.
        let h₁ : IsStored r k count (after w) = record { stored = h.stored; counted = h.counted } in
        met-kept outside (IsStored r k count) (env.fate w.tick) (m (after w)) (after w)
          (km.at (after w) h₁) h₁;
  }

  pub Keeps-now : (env : Env) → Keeps (IsStored r k count) (now env)
  unfolding now
  Keeps-now env = Keeps-draw env.clock

  pub Keeps-new_id : (env : Env) → Keeps (IsStored r k count) (new_id env)
  unfolding new_id
  Keeps-new_id env = Keeps-draw env.fresh

  pub Keeps-find :
      (t u : Text) → Keeps (IsStored r k count) (Store.find_notification_by_idempotency_key t u)
  unfolding Store.find_notification_by_idempotency_key
  Keeps-find t u = record { at = λ w h. h }

  pub Keeps-preference : (t : Text) → Keeps (IsStored r k count) (Store.get_preference t)
  unfolding Store.get_preference
  Keeps-preference t = record { at = λ w h. h }

  pub Keeps-insert : (n : Notification) → Keeps (IsStored r k count) (Store.insert_notification n)
  unfolding Store.insert_notification
  Keeps-insert n = record {
    at = λ w h. elim (Bool-cases (exists (notification_clashes n) w.notifications)) [
      | inl e ↦ rw e h
      | inr e ↦ rw e (record {
        stored = exists-append (has_key r k) w.notifications (stored_row n ∷ []) h.stored;
        counted = h.counted;
      })
    ];
  }

  pub Keeps-status :
      (id : Text) (s : Status) → Keeps (IsStored r k count) (Store.update_notification_status id s)
  unfolding Store.update_notification_status
  Keeps-status id s = record {
    at = λ w h. record {
      stored =
          exists-update (has_key r k) (has_id id) (with_status s) w.notifications (λ x. refl)
          ∙ h.stored;
      counted = h.counted;
    };
  }

  pub Keeps-mark_read :
      (id t : Text) (at : ℕ) → Keeps (IsStored r k count) (Store.mark_read id t at)
  unfolding Store.mark_read
  Keeps-mark_read id t at = record {
    at = λ w h. record {
      stored =
          exists-update (has_key r k) (is_for id t) (as_read at) w.notifications (λ x. refl)
          ∙ h.stored;
      counted = h.counted;
    };
  }

  pub Keeps-save_device : (d : DeviceToken) → Keeps (IsStored r k count) (Store.save_device d)
  unfolding Store.save_device
  Keeps-save_device d = record {
    at = λ w h. record { stored = ground (arith, h.stored); counted = ground (arith, h.counted) };
  }

  pub Keeps-deactivate :
      (id : Text) (at : ℕ) → Keeps (IsStored r k count) (Store.deactivate_device id at)
  unfolding Store.deactivate_device
  Keeps-deactivate id at = record { at = λ w h. record { stored = h.stored; counted = h.counted } }

  pub Keeps-publish_event :
      (e : Event)
      → requests r k e.payload ≡ false
      → Keeps (IsStored r k count) (Store.publish_event e)
  unfolding Store.publish_event
  Keeps-publish_event e other = record {
    at = λ w h. record {
      stored = h.stored;
      counted = requests_for-append r k w.published e other ∙ h.counted;
    };
  }

  pub Keeps-broadcast : (n : Notification) → Keeps (IsStored r k count) (broadcast n)
  unfolding broadcast
  Keeps-broadcast n = record { at = λ w h. record { stored = h.stored; counted = h.counted } }

  pub ruleset statement_rules = (
    keeps_rules, Keeps-draw, Keeps-request, Keeps-now, Keeps-new_id, Keeps-find, Keeps-preference,
    Keeps-insert, Keeps-status, Keeps-mark_read, Keeps-save_device, Keeps-deactivate,
    Keeps-publish_event, Keeps-broadcast, Keeps-outcome_of,
  )
