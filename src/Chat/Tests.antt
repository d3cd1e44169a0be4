-- ===== src/Chat/Tests.antt =====
-- The theorems on conversations, at concrete conversations.
use capibarco.Base.{◌≡◌, refl}
use capibarco.Base.Result.{ok}
use capibarco.Base.Text.{Text, lit, text_eq, trim_space, is_blank}
use capibarco.Chat.Domain.{
  Conversation, active, has_participant, CreateConversationCommand, new_conversation,
  counterpart_profile_id,
}
use capibarco.Chat.Participants.{new_conversation-same, counterpart_profile_id_invol}
use capibarco.Base.Int.{pos}
use capibarco.Base.{none, true, false}

abbrev create : Text → Text → CreateConversationCommand
create adopter owner = record {
  id = lit "c1";
  match_id = lit "m1";
  animal_id = lit "a1";
  adopter_profile_id = adopter;
  owner_profile_id = owner;
  idempotency_key = lit "k";
  now = 5;
}

new_conversation-same_example :
    (c : Conversation) × (new_conversation 9 (create (lit " ann") (lit "ann")) ≡ ok c)
    × (c.adopter_profile_id ≡ c.owner_profile_id)
    × (counterpart_profile_id c c.adopter_profile_id ≡ c.adopter_profile_id)
unfolding new_conversation text_eq trim_space is_blank
new_conversation-same_example =
    new_conversation-same 9 (create (lit " ann") (lit "ann")) refl refl refl refl refl

-- What a conversation of two profiles has.
abbrev between : Text → Text → Conversation
between adopter owner = record {
  id = lit "c1";
  match_id = lit "m1";
  animal_id = lit "a1";
  adopter_profile_id = adopter;
  owner_profile_id = owner;
  status = active;
  last_message = none;
  unread_count = pos 0;
  idempotency_key = lit "k";
  created_at = 5;
  updated_at = 5;
}

counterpart_profile_id_invol_example :
    (counterpart_profile_id
        (between (lit "ann") (lit "bob"))
        (counterpart_profile_id (between (lit "ann") (lit "bob")) (lit "ann"))
      ≡ lit "ann")
    × (has_participant
          (between (lit "ann") (lit "bob"))
          (counterpart_profile_id (between (lit "ann") (lit "bob")) (lit "ann"))
        ≡ true)
    × (text_eq (counterpart_profile_id (between (lit "ann") (lit "bob")) (lit "ann")) (lit "ann")
        ≡ false)
unfolding new_conversation has_participant text_eq trim_space is_blank
counterpart_profile_id_invol_example =
    counterpart_profile_id_invol 9 (create (lit " ann") (lit "bob")) (lit "ann")
      {c = between (lit "ann") (lit "bob")} refl refl refl
