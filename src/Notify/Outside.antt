-- ===== src/Notify/Outside.antt =====
-- What backend/notification-service reaches: the ports as an environment whose calls are numbered, and
-- the world that they change.
use capibarco.Base.{ℕ, suc, Option, List}
use capibarco.Base.Text.{Text}
use capibarco.Base.Result.{ok}
use capibarco.Base.Action.{Action}
use capibarco.Base.Action.Ports.{Fate, met}
use capibarco.Notify.Domain.{
  NotificationError, outside, Channel, DeviceToken, Notification, Preference,
}
use capibarco.Notify.Hub.{Subscription}

-- The payload of a published event, without the envelope.
pub data Payload : Type 0 where
  requested : Notification → Payload
  delivered_event : Text → List Channel → Payload
  failed_event : Text → Channel → Text → Payload
  read_event : Text → Text → ℕ → Payload

pub record Event : Type 0 where
  pub topic : Text
  pub partition_key : Text
  pub event_id : Text
  pub occurred_at : ℕ
  pub correlation_id : Text
  pub idempotency_key : Text
  pub payload : Payload

pub record Env : Type 0 where
  -- what becomes of the call of a port with a number
  pub fate : ℕ → Fate
  -- the clock and `uuid.NewString` at a call
  pub clock : ℕ → ℕ
  pub fresh : ℕ → Text
  -- the minute of the day of a time, in UTC
  pub minute_of_day : ℕ → ℕ
  -- `time.Parse("15:04", …)`, as minutes
  pub parse_clock : Text → Option ℕ
  pub topic_prefix : Text

pub record World : Type 0 where
  -- the number of the next call
  pub tick : ℕ
  pub devices : List DeviceToken
  pub notifications : List Notification
  pub preferences : List Preference
  pub published : List Event
  pub streams : List Subscription

abbrev pub Notify : Type 0 → Type 0
Notify A = Action World NotificationError A

abbrev pub after : World → World
after w = record w { tick = suc w.tick }

-- A call that reads what the environment has at its number.
unfoldable pub draw : {A : Type 0} → (ℕ → A) → Notify A
draw f w = (ok (f w.tick), after w)

-- A call of a port that may fail on its way.
unfoldable pub request : {A : Type 0} → Env → Notify A → Notify A
request env m w = met outside (env.fate w.tick) (m (after w)) (after w)
