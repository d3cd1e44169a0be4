-- ===== src/Notify/Store.antt =====
-- backend/notification-service/internal/infra/postgres/repository.go with the constraints of the
-- migrations: each statement of the repository on the tables.
use capibarco.Base.{
  ℕ, Bool, true, false, not, ◌||◌, ◌&&◌, Option, none, some, [], ◌∷◌, ◌++◌, if◌then◌else◌, exists,
}
use capibarco.Base.Text.{Text, text_eq, is_blank}
use capibarco.Base.Table.{find, update}
use capibarco.Base.Result.{Result, ok, err}
use capibarco.Notify.Domain.{
  NotificationError, not_found, outside, DeviceToken, Notification, Preference, default_preference,
  Status, read,
}
use capibarco.Notify.Outside.{Notify, Event}

abbrev or_not_found : {A : Type 0} → Option A → Result NotificationError A
or_not_found none = err not_found
or_not_found (some a) = ok a

-- `recipient_profile_id = $1 AND idempotency_key = $2`, where an empty key stands for NULL
abbrev pub has_key : Text → Text → Notification → Bool
has_key recipient key n =
    not (is_blank key)
    && (text_eq n.recipient_profile_id recipient && text_eq n.idempotency_key key)

unfoldable pub find_notification_by_idempotency_key : Text → Text → Notify Notification
find_notification_by_idempotency_key recipient key w =
    (or_not_found (find (has_key recipient key) w.notifications), w)

unfoldable pub nullable : Text → Text
nullable value = if is_blank value then [] else value

-- The row that is written, as `RETURNING` reads it.
abbrev pub stored_row : Notification → Notification
stored_row n = record n { idempotency_key = nullable n.idempotency_key }

abbrev pub notification_clashes : Notification → Notification → Bool
notification_clashes n m =
    text_eq m.id n.id || has_key n.recipient_profile_id (nullable n.idempotency_key) m

unfoldable pub insert_notification : Notification → Notify Notification
insert_notification n w =
    if exists (notification_clashes n) w.notifications
    then (err outside, w)
    else (ok (stored_row n), record w { notifications = w.notifications ++ (stored_row n ∷ []) })

abbrev pub has_id : Text → Notification → Bool
has_id id n = text_eq n.id id

abbrev pub with_status : Status → Notification → Notification
with_status status n = record n { status = status }

unfoldable pub update_notification_status : Text → Status → Notify (Unit {0})
update_notification_status id status w =
    (ok tt, record w { notifications = update (has_id id) (with_status status) w.notifications })

abbrev pub is_for : Text → Text → Notification → Bool
is_for id recipient n = text_eq n.id id && text_eq n.recipient_profile_id recipient

abbrev pub as_read : ℕ → Notification → Notification
as_read at n = record n { status = read; read_at = some at }

unfoldable pub mark_read : Text → Text → ℕ → Notify Notification
mark_read id recipient at w = (
  or_not_found
      (find (is_for id recipient) (update (is_for id recipient) (as_read at) w.notifications)),
  record w { notifications = update (is_for id recipient) (as_read at) w.notifications },
)

abbrev or_default : Text → Option Preference → Preference
or_default recipient none = default_preference recipient
or_default recipient (some p) = p

unfoldable pub get_preference : Text → Notify Preference
get_preference recipient w = (
  ok (
      or_default recipient
        (find (λ (p : Preference). text_eq p.recipient_profile_id recipient) w.preferences)),
  w,
)

abbrev pub is_device : Text → Text → DeviceToken → Bool
is_device profile_id token d = text_eq d.profile_id profile_id && text_eq d.token token

-- `ON CONFLICT (profile_id, token) DO UPDATE`
abbrev pub refreshed : DeviceToken → DeviceToken → DeviceToken
refreshed new old = record old {
  platform = new.platform;
  locale = new.locale;
  active = true;
  updated_at = new.updated_at;
}

abbrev pub has_device_id : Text → DeviceToken → Bool
has_device_id id d = text_eq d.id id

unfoldable pub save_device : DeviceToken → Notify DeviceToken
save_device d w =
    if exists (is_device d.profile_id d.token) w.devices
    then (
      or_not_found (
          find (is_device d.profile_id d.token)
            (update (is_device d.profile_id d.token) (refreshed d) w.devices)),
      record w { devices = update (is_device d.profile_id d.token) (refreshed d) w.devices },
    )
    else if exists (has_device_id d.id) w.devices
    then (err outside, w)
    else (ok d, record w { devices = w.devices ++ (d ∷ []) })

unfoldable pub deactivate_device : Text → ℕ → Notify Bool
deactivate_device id at w = (
  ok (exists (has_device_id id) w.devices),
  record w {
    devices =
        update (has_device_id id) (λ d. record d { active = false; updated_at = at }) w.devices;
  },
)

-- `EventPublisher.Publish`
unfoldable pub publish_event : Event → Notify (Unit {0})
publish_event event w = (ok tt, record w { published = w.published ++ (event ∷ []) })
