-- ===== src/Notify/Service.antt =====
-- backend/notification-service/internal/app/notification/service.go: devices, the creation of a
-- notification and its reading.
use capibarco.Base.{ℕ, Bool, true, false, ◌||◌, List, [], ◌∷◌, if◌then◌else◌, is_empty}
use capibarco.Base.Text.{Text, lit, is_blank}
use capibarco.Base.Result.{Result, ok, err}
use capibarco.Base.Action.{pure, fail, lift, guard, ◌>>=◌, ◌>>◌}
use capibarco.Base.Action.Ports.{outcome_of}
use capibarco.Notify.Domain.{
  NotificationError, not_found, invalid_argument, outside, Channel, unspecified, NotificationType,
  unspecified_type, pending, delivered, failed, DeviceToken, Notification, Preference,
}
use capibarco.Notify.Channels.{apply_preference}
use capibarco.Notify.Wording.{topic_name}
use capibarco.Notify.Hub
use capibarco.Notify.Outside.{
  Payload, requested, delivered_event, failed_event, read_event, Event, Env, Notify, draw, request,
}
use capibarco.Notify.Store.{
  find_notification_by_idempotency_key, insert_notification, update_notification_status, mark_read,
  get_preference, save_device, deactivate_device, publish_event,
}

unfoldable pub now : Env → Notify ℕ
now env = draw env.clock

unfoldable pub new_id : Env → Notify Text
new_id env = draw env.fresh

unfoldable pub register_device : Env → Text → Text → Text → Text → Notify DeviceToken
register_device env profile_id token platform locale = do
  guard (is_blank profile_id || is_blank token || is_blank platform) invalid_argument
  at ← now env
  id ← new_id env
  request env (
      save_device (record {
        id = id;
        profile_id = profile_id;
        token = token;
        platform = platform;
        locale = locale;
        active = true;
        created_at = at;
        updated_at = at;
      }))

unfoldable pub unregister_device : Env → Text → Notify Bool
unregister_device env device_token_id = do
  guard (is_blank device_token_id) invalid_argument
  at ← now env
  request env (deactivate_device device_token_id at)

abbrev is_unspecified : Channel → Bool
is_unspecified unspecified = true
is_unspecified _ = false

abbrev is_unspecified_type : NotificationType → Bool
is_unspecified_type unspecified_type = true
is_unspecified_type _ = false

-- The loop over the channels.
abbrev any_unspecified : List Channel → Bool
any_unspecified [] = false
any_unspecified (c ∷ cs) = is_unspecified c || any_unspecified cs

unfoldable pub validate_notification : Notification → Result NotificationError (Unit {0})
validate_notification n =
    if is_blank n.recipient_profile_id
      || is_blank n.title
      || is_blank n.body
      || is_unspecified_type n.kind
    then err invalid_argument
    else if any_unspecified n.channels
    then err invalid_argument
    else ok tt

-- An event with its envelope, published under its topic.
unfoldable pub send : Env → Text → Text → Text → Text → Payload → Notify (Unit {0})
send env topic correlation_id idempotency_key partition_key payload = do
  event_id ← new_id env
  at ← now env
  let event : Event = record {
    topic = topic_name env.topic_prefix topic;
    partition_key = partition_key;
    event_id = event_id;
    occurred_at = at;
    correlation_id = correlation_id;
    idempotency_key = idempotency_key;
    payload = payload;
  }
  request env (publish_event event)

unfoldable pub publish_requested : Env → Notification → Notify (Unit {0})
publish_requested env n =
    send env (lit "notification.requested") n.id n.idempotency_key n.recipient_profile_id
      (requested n)

unfoldable pub publish_delivered : Env → Notification → Notify (Unit {0})
publish_delivered env n =
    send env (lit "notification.delivered") n.id n.idempotency_key n.id
      (delivered_event n.id n.channels)

unfoldable pub publish_failed : Env → Notification → Channel → Text → Notify (Unit {0})
publish_failed env n channel reason =
    send env (lit "notification.failed") n.id n.idempotency_key n.id
      (failed_event n.id channel reason)

unfoldable pub publish_read : Env → Notification → ℕ → Notify (Unit {0})
publish_read env n read_at = do
  event_id ← new_id env
  let event : Event = record {
    topic = topic_name env.topic_prefix (lit "notification.read");
    partition_key = n.recipient_profile_id;
    event_id = event_id;
    occurred_at = read_at;
    correlation_id = n.id;
    idempotency_key = n.idempotency_key;
    payload = read_event n.id n.recipient_profile_id read_at;
  }
  request env (publish_event event)

unfoldable pub broadcast : Notification → Notify (Unit {0})
broadcast n w = (ok tt, record w { streams = Hub.broadcast n.recipient_profile_id n w.streams })

-- `CreateNotification` for a stored notification that has channels.
unfoldable pub deliver : Env → Notification → Notify Notification
deliver env stored = do
  request env (update_notification_status stored.id delivered)
  let sent : Notification = record stored { status = delivered }
  publish_delivered env sent
  broadcast sent
  pure sent

-- `CreateNotification` for a stored notification that no channel is left for.
unfoldable pub give_up : Env → Notification → Notify Notification
give_up env stored = do
  publish_failed env stored unspecified (lit "no enabled channels after preferences")
  broadcast stored
  pure stored

-- The notification as it is stored.
abbrev pub prepared : Env → Notification → Preference → Text → ℕ → Notification
prepared env n pref id at =
    let channels = apply_preference env.parse_clock pref n.channels (env.minute_of_day at) in
    record n {
      id = id;
      created_at = at;
      channels = channels;
      status = if is_empty channels then failed else pending;
    }

-- `CreateNotification` once no notification with the key is found.
unfoldable pub create_new : Env → Notification → Notify Notification
create_new env n = do
  pref ← request env (get_preference n.recipient_profile_id)
  at ← now env
  id ← new_id env
  stored ← request env (insert_notification (prepared env n pref id at))
  publish_requested env stored
  if is_empty stored.channels then give_up env stored else deliver env stored

-- `CreateNotification` after the search for the key.
abbrev pub create_after :
    Env → Notification → Result NotificationError Notification → Notify Notification
create_after env n (ok existing) = pure existing
create_after env n (err not_found) = create_new env n
create_after env n (err invalid_argument) = fail invalid_argument
create_after env n (err outside) = fail outside

unfoldable pub create_keyed : Env → Notification → Notify Notification
create_keyed env n = do
  found ←
      outcome_of (
        request env (find_notification_by_idempotency_key n.recipient_profile_id n.idempotency_key))
  create_after env n found

unfoldable pub create_notification : Env → Notification → Notify Notification
create_notification env n = do
  lift (validate_notification n)
  if is_blank n.idempotency_key then create_new env n else create_keyed env n

unfoldable pub mark_notification_read : Env → Text → Text → Notify Notification
mark_notification_read env notification_id recipient = do
  guard (is_blank notification_id || is_blank recipient) invalid_argument
  at ← now env
  n ← request env (mark_read notification_id recipient at)
  publish_read env n at
  broadcast n
  pure n
