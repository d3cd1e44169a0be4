-- ===== src/Chat/Domain.antt =====
-- backend/chat-service/internal/domain/chat/model.go. An error is its sentinel; a metadata map is the
-- list of its entries. The argument `wall_clock` is what `time.Now().UTC()` returns.
use capibarco.Base.{
  ℕ, Bool, true, false, not, ◌&&◌, ◌||◌, Option, none, some, List, [], ◌==◌, if◌then◌else◌,
  is_empty,
}
use capibarco.Base.Int.{ℤ, pos}
use capibarco.Base.Text.{Text, text_eq, trim_space, is_blank}
use capibarco.Base.Result.{Result, ok, ◌>>◌, fail_if}

pub data ChatError : Type 0 where
  missing_idempotency_key invalid_participant conversation_closed forbidden invalid_message :
      ChatError

pub data ConversationStatus : Type 0 where
  unspecified active archived blocked : ConversationStatus

pub data MessageType : Type 0 where
  unspecified text image system adoption_status : MessageType

pub record Photo : Type 0 where
  pub id : Text
  pub url : Text
  pub blurhash : Text
  pub width : ℤ
  pub height : ℤ
  pub content_type : Text
  pub sort_order : ℤ
  pub created_at : ℕ

pub record Message : Type 0 where
  pub id : Text
  pub conversation_id : Text
  pub sender_profile_id : Text
  pub type : MessageType
  pub text : Text
  pub attachments : List Photo
  pub metadata : List (Text × Text)
  pub client_message_id : Text
  pub idempotency_key : Text
  pub sent_at : ℕ
  pub edited_at : Option ℕ
  pub deleted_at : Option ℕ

pub record Conversation : Type 0 where
  pub id : Text
  pub match_id : Text
  pub animal_id : Text
  pub adopter_profile_id : Text
  pub owner_profile_id : Text
  pub status : ConversationStatus
  pub last_message : Option Message
  pub unread_count : ℤ
  pub idempotency_key : Text
  pub created_at : ℕ
  pub updated_at : ℕ

pub record CreateConversationCommand : Type 0 where
  pub id : Text
  pub match_id : Text
  pub animal_id : Text
  pub adopter_profile_id : Text
  pub owner_profile_id : Text
  pub idempotency_key : Text
  pub now : ℕ

pub record SendMessageCommand : Type 0 where
  pub id : Text
  pub conversation : Conversation
  pub sender_profile_id : Text
  pub type : MessageType
  pub text : Text
  pub attachments : List Photo
  pub metadata : List (Text × Text)
  pub client_message_id : Text
  pub idempotency_key : Text
  pub now : ℕ

-- `if cmd.Now.IsZero() { cmd.Now = time.Now().UTC() }`
abbrev pub now_or : ℕ → ℕ → ℕ
now_or wall_clock now = if now == 0 then wall_clock else now

unfoldable pub new_conversation : ℕ → CreateConversationCommand → Result ChatError Conversation
new_conversation wall_clock cmd = do
  fail_if (is_blank cmd.idempotency_key) missing_idempotency_key
  fail_if (is_blank cmd.id || (is_blank cmd.adopter_profile_id || is_blank cmd.owner_profile_id))
      invalid_participant
  fail_if (text_eq cmd.adopter_profile_id cmd.owner_profile_id) invalid_participant
  ok (record {
    id = trim_space cmd.id;
    match_id = trim_space cmd.match_id;
    animal_id = trim_space cmd.animal_id;
    adopter_profile_id = trim_space cmd.adopter_profile_id;
    owner_profile_id = trim_space cmd.owner_profile_id;
    status = active;
    last_message = none;
    unread_count = pos 0;
    idempotency_key = trim_space cmd.idempotency_key;
    created_at = now_or wall_clock cmd.now;
    updated_at = now_or wall_clock cmd.now;
  })

unfoldable pub has_participant : Conversation → Text → Bool
has_participant c profile_id =
    not (is_empty profile_id)
    && (text_eq profile_id c.adopter_profile_id || text_eq profile_id c.owner_profile_id)

unfoldable pub counterpart_profile_id : Conversation → Text → Text
counterpart_profile_id c profile_id =
    if is_empty profile_id
    then []
    else if text_eq profile_id c.adopter_profile_id
    then c.owner_profile_id
    else if text_eq profile_id c.owner_profile_id
    then c.adopter_profile_id
    else []

abbrev pub is_active : ConversationStatus → Bool
is_active active = true
is_active _ = false

abbrev pub is_no_type : MessageType → Bool
is_no_type MessageType.unspecified = true
is_no_type _ = false

abbrev pub is_text : MessageType → Bool
is_text MessageType.text = true
is_text _ = false

abbrev pub is_image : MessageType → Bool
is_image image = true
is_image _ = false

unfoldable pub new_message : ℕ → SendMessageCommand → Result ChatError Message
new_message wall_clock cmd = do
  fail_if (is_blank cmd.idempotency_key) missing_idempotency_key
  fail_if (not (is_active cmd.conversation.status)) conversation_closed
  fail_if (not (has_participant cmd.conversation cmd.sender_profile_id)) forbidden
  fail_if (is_blank cmd.id || is_blank cmd.client_message_id) invalid_message
  fail_if (is_no_type cmd.type) invalid_message
  fail_if (is_text cmd.type && is_blank cmd.text) invalid_message
  fail_if (is_empty cmd.attachments && is_image cmd.type) invalid_message
  ok (record {
    id = trim_space cmd.id;
    conversation_id = cmd.conversation.id;
    sender_profile_id = trim_space cmd.sender_profile_id;
    type = cmd.type;
    text = trim_space cmd.text;
    attachments = cmd.attachments;
    metadata = cmd.metadata;
    client_message_id = trim_space cmd.client_message_id;
    idempotency_key = trim_space cmd.idempotency_key;
    sent_at = now_or wall_clock cmd.now;
    edited_at = none;
    deleted_at = none;
  })

unfoldable pub update_text : Text → ℕ → Message → Result ChatError Message
update_text new_text now m = do
  fail_if (is_blank new_text) invalid_message
  ok (record m { text = trim_space new_text; edited_at = some now })
