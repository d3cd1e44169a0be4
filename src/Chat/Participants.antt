-- ===== src/Chat/Participants.antt =====
-- The participants of a conversation (backend/chat-service/internal/domain/chat/model.go).
use capibarco.Base.{ℕ, ◌≡◌, refl, ◌∙◌, sym, true, false, ◌&&◌, arith, is_empty}
use capibarco.Base.Text.{
  Text, text_eq, text_eq_refl, text_eq_iff, trim_space, trim_space_idem, is_blank,
}
use capibarco.Base.Result.{Result, ok, err}
use capibarco.Chat.Domain.{
  ChatError, Conversation, Message, CreateConversationCommand, SendMessageCommand,
  ConversationStatus, active, new_conversation, has_participant, counterpart_profile_id,
  new_message, is_active, is_no_type, is_text, is_image,
}

-- Both participants are named, and neither name has a space around it.
abbrev pub IsNamed : Conversation → Type 0
IsNamed c =
    (is_empty c.adopter_profile_id ≡ false)
    × (is_empty c.owner_profile_id ≡ false)
    × (trim_space c.adopter_profile_id ≡ c.adopter_profile_id)
    × (trim_space c.owner_profile_id ≡ c.owner_profile_id)

pub new_conversation-IsNamed :
    (wall_clock : ℕ) (cmd : CreateConversationCommand) {c : Conversation}
    → new_conversation wall_clock cmd ≡ ok c
    → IsNamed c
unfolding new_conversation is_blank
new_conversation-IsNamed wall_clock cmd h =
    ground (arith, trim_space_idem cmd.adopter_profile_id, trim_space_idem cmd.owner_profile_id)

text_eq_sym : (s t : Text) → text_eq s t ≡ text_eq t s
text_eq_sym s t = ground (arith, text_eq_iff s t, text_eq_iff t s, text_eq_refl s, text_eq_refl t)

counterpart-other :
    (c : Conversation) (p : Text)
    → is_empty c.adopter_profile_id ≡ false
    → is_empty c.owner_profile_id ≡ false
    → text_eq c.adopter_profile_id c.owner_profile_id ≡ false
    → has_participant c p ≡ true
    → (counterpart_profile_id c (counterpart_profile_id c p) ≡ p)
      × (has_participant c (counterpart_profile_id c p) ≡ true)
      × (text_eq (counterpart_profile_id c p) p ≡ false)
unfolding has_participant counterpart_profile_id
counterpart-other c p a o d h = ground (
  arith,
  text_eq_iff p c.adopter_profile_id,
  text_eq_iff p c.owner_profile_id,
  text_eq_sym c.owner_profile_id c.adopter_profile_id,
  text_eq_refl c.owner_profile_id,
  text_eq_refl c.adopter_profile_id,
)

participants :
    (wall_clock : ℕ) (cmd : CreateConversationCommand) {c : Conversation}
    → new_conversation wall_clock cmd ≡ ok c
    → (c.adopter_profile_id ≡ trim_space cmd.adopter_profile_id)
      × (c.owner_profile_id ≡ trim_space cmd.owner_profile_id)
unfolding new_conversation
participants wall_clock cmd h = ground arith

is_active-active : (s : ConversationStatus) → is_active s ≡ true → s ≡ active
is_active-active active h = refl
is_active-active ConversationStatus.unspecified h = absurd (ground arith)
is_active-active ConversationStatus.archived h = absurd (ground arith)
is_active-active ConversationStatus.blocked h = absurd (ground arith)

sent :
    (wall_clock : ℕ) (cmd : SendMessageCommand) {m : Message}
    → new_message wall_clock cmd ≡ ok m
    → (is_active cmd.conversation.status ≡ true)
      × (m.conversation_id ≡ cmd.conversation.id)
      × (has_participant cmd.conversation cmd.sender_profile_id ≡ true)
      × (is_no_type m.type ≡ false)
      × (is_text m.type && is_empty m.text ≡ false)
      × (is_image m.type && is_empty m.attachments ≡ false)
unfolding new_message is_blank
sent wall_clock cmd h = ground arith

-- In a conversation that `NewConversation` made, between two different profiles, each participant is
-- the counterpart of its counterpart, the counterpart participates too and is another profile.
pub counterpart_profile_id_invol :
    (wall_clock : ℕ) (cmd : CreateConversationCommand) (profile_id : Text) {c : Conversation}
    → new_conversation wall_clock cmd ≡ ok c
    → text_eq c.adopter_profile_id c.owner_profile_id ≡ false
    → has_participant c profile_id ≡ true
    → (counterpart_profile_id c (counterpart_profile_id c profile_id) ≡ profile_id)
      × (has_participant c (counterpart_profile_id c profile_id) ≡ true)
      × (text_eq (counterpart_profile_id c profile_id) profile_id ≡ false)
counterpart_profile_id_invol wall_clock cmd profile_id {c} h d p =
    let (a, o, _, _) = new_conversation-IsNamed wall_clock cmd h in
    counterpart-other c profile_id a o d p

made :
    (wall_clock : ℕ) (cmd : CreateConversationCommand)
    → is_blank cmd.idempotency_key ≡ false
    → is_blank cmd.id ≡ false
    → is_blank cmd.adopter_profile_id ≡ false
    → is_blank cmd.owner_profile_id ≡ false
    → text_eq cmd.adopter_profile_id cmd.owner_profile_id ≡ false
    → (c : Conversation) × (new_conversation wall_clock cmd ≡ ok c)
unfolding new_conversation
made wall_clock cmd k i a o d = go (new_conversation wall_clock cmd) refl
  where
    go :
        (r : Result ChatError Conversation)
        → new_conversation wall_clock cmd ≡ r
        → (c : Conversation) × (r ≡ ok c)
    go (ok c) e = (c, refl)
    go (err x) e = absurd (ground (arith, e, k, i, a, o, d))

-- Two participants whose identifiers differ, but only in the space around them, pass the test for
-- different participants: with a key, an identifier and participants that are not blank,
-- `NewConversation` makes a conversation, which has the same profile on both sides, who is their own
-- counterpart.
pub new_conversation-same :
    (wall_clock : ℕ) (cmd : CreateConversationCommand)
    → is_blank cmd.idempotency_key ≡ false
    → is_blank cmd.id ≡ false
    → is_blank cmd.adopter_profile_id ≡ false
    → text_eq cmd.adopter_profile_id cmd.owner_profile_id ≡ false
    → trim_space cmd.adopter_profile_id ≡ trim_space cmd.owner_profile_id
    → (c : Conversation) × (new_conversation wall_clock cmd ≡ ok c)
      × (c.adopter_profile_id ≡ c.owner_profile_id)
      × (counterpart_profile_id c c.adopter_profile_id ≡ c.adopter_profile_id)
unfolding counterpart_profile_id is_blank
new_conversation-same wall_clock cmd k i a d e =
    let (c, h) = made wall_clock cmd k i a (rw (sym e) a) d in
    let (adopter, owner) = participants wall_clock cmd h in
    let same : c.adopter_profile_id ≡ c.owner_profile_id = adopter ∙ e ∙ sym owner in
    (c, h, same, ground (arith, same, text_eq_refl c.adopter_profile_id))

-- A message that `NewMessage` makes is in the command's conversation, which is active, its sender is
-- a participant of it, and its content fits its type, which is specified: a text message is not
-- blank, an image message has an attachment.
pub new_message_sound :
    (wall_clock : ℕ) (cmd : SendMessageCommand) {m : Message}
    → new_message wall_clock cmd ≡ ok m
    → (cmd.conversation.status ≡ active)
      × (m.conversation_id ≡ cmd.conversation.id)
      × (has_participant cmd.conversation cmd.sender_profile_id ≡ true)
      × (is_no_type m.type ≡ false)
      × (is_text m.type && is_empty m.text ≡ false)
      × (is_image m.type && is_empty m.attachments ≡ false)
new_message_sound wall_clock cmd h =
    let (s, i, p, t, x, y) = sent wall_clock cmd h in (is_active-active _ s, i, p, t, x, y)
