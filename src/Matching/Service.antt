-- ===== src/Matching/Service.antt =====
-- backend/matching-service/internal/app/matching/service.go, over the store.
use capibarco.Base.{ℕ, Bool, true, Option, none, some, List, [], ◌∷◌, if◌then◌else◌, is_empty}
use capibarco.Base.Text.{Text, lit, trim_space, is_blank}
use capibarco.Base.Result.{Result, ok, err}
use capibarco.Matching.Domain.{
  MatchingError, invalid_argument, not_found, RecordSwipeCommand, Swipe, Match, new_swipe,
}
use capibarco.Matching.Store
use capibarco.Matching.Store.{Db, Draw, RecordSwipeResult, swipe_by_id, match_by_id}
use capibarco.Matching.Store.Lifecycle.{
  update_match_conversation, set_animal_availability, archive_matches_by_animal,
}

unfoldable pub validate_record_swipe_input : ℕ → RecordSwipeCommand → Result MatchingError Swipe
validate_record_swipe_input system_now cmd = new_swipe (lit "validation-swipe-id") cmd system_now

unfoldable pub normalize_record_swipe_command : RecordSwipeCommand → RecordSwipeCommand
normalize_record_swipe_command cmd = record cmd {
  actor_id = trim_space cmd.actor_id;
  animal_id = trim_space cmd.animal_id;
  owner_profile_id = trim_space cmd.owner_profile_id;
  feed_card_id = trim_space cmd.feed_card_id;
  feed_session_id = trim_space cmd.feed_session_id;
  idempotency_key = trim_space cmd.idempotency_key;
}

-- What the service adds to the store's result.
abbrev pub with_chat : RecordSwipeResult → RecordSwipeResult
with_chat result = elim result.found [
  | none ↦ result
  | some m ↦
      if is_empty m.conversation_id
      then result
      else record result { chat_created = true; conversation_id = m.conversation_id }
]

abbrev pub map_result :
    {A B : Type 0} → (A → B) → Result MatchingError A × Db → Result MatchingError B × Db
map_result f (ok a, db) = (ok (f a), db)
map_result f (err e, db) = (err e, db)

-- `if err := check; err != nil { return err }`
abbrev pub checked :
    {A B : Type 0}
    → Result MatchingError A
    → Db
    → Result MatchingError B × Db
    → Result MatchingError B × Db
checked (ok a) db next = next
checked (err e) db next = (err e, db)

unfoldable pub record_swipe :
    ℕ → Draw → RecordSwipeCommand → Db → Result MatchingError RecordSwipeResult × Db
record_swipe system_now draw cmd db =
    checked (validate_record_swipe_input system_now cmd) db
      (map_result with_chat (Store.record_swipe draw (normalize_record_swipe_command cmd) db))

abbrev or_not_found : {A : Type 0} → Option A → Result MatchingError A
or_not_found none = err not_found
or_not_found (some a) = ok a

unfoldable pub get_swipe : Text → Db → Result MatchingError Swipe
get_swipe swipe_id db =
    if is_blank swipe_id
    then err invalid_argument
    else or_not_found (swipe_by_id (trim_space swipe_id) db.swipes)

unfoldable pub get_match : Text → Db → Result MatchingError Match
get_match match_id db =
    if is_blank match_id
    then err invalid_argument
    else or_not_found (match_by_id (trim_space match_id) db.matches)

unfoldable pub handle_animal_archived :
    Draw → Text → Text → Db → Result MatchingError (List Match) × Db
handle_animal_archived draw animal_id reason db =
    if is_blank animal_id
    then (err invalid_argument, db)
    else archive_matches_by_animal draw (trim_space animal_id) (trim_space reason) db

abbrev pub after_availability :
    {A : Type 0}
    → Result MatchingError A × Db
    → (Db → Result MatchingError (List Match) × Db)
    → Result MatchingError (List Match) × Db
after_availability (ok a, db) next = next db
after_availability (err e, db) next = (err e, db)

unfoldable pub handle_animal_status_changed :
    Draw → Text → Text → Bool → Text → Db → Result MatchingError (List Match) × Db
handle_animal_status_changed draw animal_id owner_profile_id available reason db =
    if is_blank animal_id
    then (err invalid_argument, db)
    else after_availability
        (set_animal_availability draw (trim_space animal_id) (trim_space owner_profile_id) available
          db)
        (λ db₁.
          if available then (ok [], db₁) else handle_animal_archived draw animal_id reason db₁)

unfoldable pub handle_conversation_created :
    Draw → Text → Text → Db → Result MatchingError (Unit {0}) × Db
handle_conversation_created draw match_id conversation_id db =
    if is_blank match_id
    then (err invalid_argument, db)
    else if is_blank conversation_id
    then (err invalid_argument, db)
    else update_match_conversation draw (trim_space match_id) (trim_space conversation_id) db

-- A call of the service that changes the tables, with what it draws from outside.
pub data Call : Type 0 where
  swipe_call : ℕ → Draw → RecordSwipeCommand → Call
  archived_call : Draw → Text → Text → Call
  status_call : Draw → Text → Text → Bool → Text → Call
  conversation_call : Draw → Text → Text → Call

unfoldable pub serve : Call → Db → Db
serve (swipe_call system_now draw cmd) db = (record_swipe system_now draw cmd db).1
serve (archived_call draw animal_id reason) db = (handle_animal_archived draw animal_id reason db).1
serve (status_call draw animal_id owner available reason) db =
    (handle_animal_status_changed draw animal_id owner available reason db).1
serve (conversation_call draw match_id conversation_id) db =
    (handle_conversation_created draw match_id conversation_id db).1

unfoldable pub serve_all : Db → List Call → Db
serve_all db [] = db
serve_all db (c ∷ cs) = serve_all (serve c db) cs

abbrev pub empty : Db
empty = record {
  availability = [];
  swipes = [];
  matches = [];
  idempotency_keys = [];
  outbox_events = [];
}
