-- ===== src/Notify/Domain.antt =====
-- backend/notification-service/internal/domain/notification: model.go and errors.go.
use capibarco.Base.{ℕ, Bool, true, false, Option, List, []}
use capibarco.Base.Text.{Text}

-- `outside` is an error of a port, which the domain does not name.
pub data NotificationError : Type 0 where
  not_found invalid_argument outside : NotificationError

pub data Channel : Type 0 where
  unspecified push in_app email : Channel

pub data NotificationType : Type 0 where
  unspecified_type match_created chat_message donation_succeeded boost_activated review_created :
      NotificationType

pub data Status : Type 0 where
  unspecified_status pending delivered failed read : Status

pub record DeviceToken : Type 0 where
  pub id : Text
  pub profile_id : Text
  pub token : Text
  pub platform : Text
  pub locale : Text
  pub active : Bool
  pub created_at : ℕ
  pub updated_at : ℕ

pub record Notification : Type 0 where
  pub id : Text
  pub recipient_profile_id : Text
  pub kind : NotificationType
  pub channels : List Channel
  pub title : Text
  pub body : Text
  pub fields : List (Text × Text)
  pub status : Status
  pub read_at : Option ℕ
  pub created_at : ℕ
  pub idempotency_key : Text

pub record Preference : Type 0 where
  pub recipient_profile_id : Text
  pub push_enabled : Bool
  pub in_app_enabled : Bool
  pub email_enabled : Bool
  pub quiet_hours_enabled : Bool
  pub quiet_hours_start : Text
  pub quiet_hours_end : Text
  pub muted : Bool

abbrev pub default_preference : Text → Preference
default_preference recipient = record {
  recipient_profile_id = recipient;
  push_enabled = true;
  in_app_enabled = true;
  email_enabled = true;
  quiet_hours_enabled = false;
  quiet_hours_start = [];
  quiet_hours_end = [];
  muted = false;
}
