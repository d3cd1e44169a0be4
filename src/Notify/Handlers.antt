-- ===== src/Notify/Handlers.antt =====
-- backend/notification-service/internal/app/notification/service.go: the handlers of the events of
-- the other services. A protobuf message is the fields that the handlers read, and an event is the
-- key and the event id of its envelope, with its message if it has one.
use capibarco.Base.{
  not, ◌&&◌, ◌||◌, Option, none, some, List, [], ◌∷◌, ◌++◌, if◌then◌else◌, is_empty,
}
use capibarco.Base.Text.{Text, lit, text_eq, is_blank, trim_space}
use capibarco.Base.Action.{pure, fail, guard, ◌>>=◌, ◌>>◌}
use capibarco.Notify.Domain.{
  invalid_argument, Channel, push, in_app, email, NotificationType, match_created, chat_message,
  donation_succeeded, boost_activated, review_created, unspecified_status, Notification,
}
use capibarco.Notify.Wording.{recipients_from_message, summarize_text, envelope_key}
use capibarco.Notify.Outside.{Env, Notify}
use capibarco.Notify.Service.{new_id, create_notification}

-- The idempotency key and the event id of an envelope, if there is one.
abbrev pub Envelope : Type 0
Envelope = Option (Text × Text)

pub record MatchMessage : Type 0 where
  pub match_id : Text
  pub animal_id : Text
  pub adopter_profile_id : Text
  pub owner_profile_id : Text
  pub conversation_id : Text

pub record ChatMessage : Type 0 where
  pub message_id : Text
  pub conversation_id : Text
  pub sender_profile_id : Text
  pub text : Text
  pub metadata : List (Text × Text)

pub record DonationMessage : Type 0 where
  pub donation_id : Text
  pub target_id : Text
  pub payer_profile_id : Text

pub record BoostMessage : Type 0 where
  pub boost_id : Text
  pub animal_id : Text
  pub owner_profile_id : Text

pub record ReviewMessage : Type 0 where
  pub review_id : Text
  pub author_profile_id : Text
  pub match_id : Text
  pub target_profile_id : Text

-- `envelopeKey`: the identifier is drawn whether or not the envelope has a key.
unfoldable pub key_of : Env → Envelope → Notify Text
key_of env envelope = do drawn ← new_id env; pure (envelope_key envelope drawn)

-- The notification that a handler builds.
abbrev pub notice :
    Text → NotificationType → List Channel → Text → Text → List (Text × Text) → Text → Notification
notice recipient kind channels title body fields key = record {
  id = [];
  recipient_profile_id = recipient;
  kind = kind;
  channels = channels;
  title = title;
  body = body;
  fields = fields;
  status = unspecified_status;
  read_at = none;
  created_at = 0;
  idempotency_key = key;
}

-- `_, err := s.CreateNotification(…)`
unfoldable pub notify_one : Env → Notification → Notify (Unit {0})
notify_one env n = do created ← create_notification env n; pure tt

unfoldable pub handle_match_created : Env → Envelope → Option MatchMessage → Notify (Unit {0})
handle_match_created env envelope none = fail invalid_argument
handle_match_created env envelope (some m) = do
  guard (is_blank m.owner_profile_id) invalid_argument
  key ← key_of env envelope
  notify_one env (
      notice m.owner_profile_id match_created (push ∷ in_app ∷ []) (lit "New adoption response")
        (lit "A user responded to one of your animals. Open this notification to start a chat.")
        ((lit "match_id", m.match_id)
          ∷ (lit "animal_id", m.animal_id)
          ∷ (lit "adopter_profile_id", m.adopter_profile_id)
          ∷ (lit "conversation_id", m.conversation_id)
          ∷ [])
        key)

-- One turn of the loop over the recipients of a message.
unfoldable pub notify_recipient : Env → Envelope → ChatMessage → Text → Notify (Unit {0})
notify_recipient env envelope m r =
    if is_empty r || text_eq r m.sender_profile_id then pure tt else do
      key ← key_of env envelope
      notify_one env (
          notice r chat_message (push ∷ in_app ∷ []) (lit "New chat message")
            (summarize_text m.text (lit "You received a new message."))
            ((lit "conversation_id", m.conversation_id)
              ∷ (lit "message_id", m.message_id)
              ∷ (lit "sender_profile_id", m.sender_profile_id)
              ∷ [])
            (key ++ (lit ":" ++ r)))

unfoldable pub notify_recipients : Env → Envelope → ChatMessage → List Text → Notify (Unit {0})
notify_recipients env envelope m [] = pure tt
notify_recipients env envelope m (r ∷ rest) =
    notify_recipient env envelope m r >> notify_recipients env envelope m rest

unfoldable pub handle_message_sent : Env → Envelope → Option ChatMessage → Notify (Unit {0})
handle_message_sent env envelope none = fail invalid_argument
handle_message_sent env envelope (some m) =
    notify_recipients env envelope m (recipients_from_message m.metadata)

-- The payer, then the owner, unless it is the payer.
unfoldable pub donation_recipients : Text → Text → List Text
donation_recipients payer partition_key =
    let owner = trim_space partition_key in
    let owners = if not (is_empty owner) && not (text_eq owner payer) then owner ∷ [] else [] in
    if is_blank payer then owners else trim_space payer ∷ owners

-- One turn of the loop over the recipients of a donation.
unfoldable pub notify_of_donation : Env → Envelope → DonationMessage → Text → Notify (Unit {0})
notify_of_donation env envelope d r = do
  key ← key_of env envelope
  notify_one env (
      notice r donation_succeeded (push ∷ in_app ∷ email ∷ []) (lit "Donation processed")
        (lit "A donation payment has succeeded.")
        ((lit "donation_id", d.donation_id)
          ∷ (lit "target_id", d.target_id)
          ∷ (lit "payer_profile_id", d.payer_profile_id)
          ∷ [])
        (key ++ (lit ":" ++ r)))

unfoldable pub notify_donation : Env → Envelope → DonationMessage → List Text → Notify (Unit {0})
notify_donation env envelope d [] = pure tt
notify_donation env envelope d (r ∷ rest) =
    notify_of_donation env envelope d r >> notify_donation env envelope d rest

-- The text is the partition key of the envelope, empty where there is none.
unfoldable pub handle_donation_succeeded :
    Env → Envelope → Text → Option DonationMessage → Notify (Unit {0})
handle_donation_succeeded env envelope partition_key none = fail invalid_argument
handle_donation_succeeded env envelope partition_key (some d) =
    notify_donation env envelope d (donation_recipients d.payer_profile_id partition_key)

unfoldable pub handle_boost_activated : Env → Envelope → Option BoostMessage → Notify (Unit {0})
handle_boost_activated env envelope none = fail invalid_argument
handle_boost_activated env envelope (some b) = do
  guard (is_blank b.owner_profile_id) invalid_argument
  key ← key_of env envelope
  notify_one env (
      notice b.owner_profile_id boost_activated (push ∷ in_app ∷ []) (lit "Boost is active")
        (lit "Your boost is now active.")
        ((lit "boost_id", b.boost_id) ∷ (lit "animal_id", b.animal_id) ∷ []) key)

unfoldable pub handle_review_created : Env → Envelope → Option ReviewMessage → Notify (Unit {0})
handle_review_created env envelope none = fail invalid_argument
handle_review_created env envelope (some r) = do
  guard (is_blank r.target_profile_id) invalid_argument
  key ← key_of env envelope
  notify_one env (
      notice r.target_profile_id review_created (push ∷ in_app ∷ []) (lit "New review received")
        (lit "Someone left a new review on your profile.")
        ((lit "review_id", r.review_id)
          ∷ (lit "author_profile_id", r.author_profile_id)
          ∷ (lit "match_id", r.match_id)
          ∷ [])
        key)
