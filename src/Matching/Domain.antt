-- ===== src/Matching/Domain.antt =====
-- backend/matching-service/internal/domain/matching/model.go. An error is its sentinel. A time is the
-- number of nanoseconds since Go's zero time, in UTC.
use capibarco.Base.{ℕ, Bool, true, false, not, ◌||◌, [], ◌==◌}
use capibarco.Base.Text.{Text, trim_space, is_blank}
use capibarco.Base.Result.{Result, ok, ◌>>◌, fail_if}

-- The sentinels of errors.go, and a failure of the database: a lost connection or a violated
-- constraint that the code does not look for.
pub data MatchingError : Type 0 where
  invalid_argument not_found duplicate_swipe unavailable_animal conflict database : MatchingError

pub data SwipeDirection : Type 0 where
  unspecified left right : SwipeDirection

pub data MatchStatus : Type 0 where
  unspecified active archived blocked : MatchStatus

pub record RecordSwipeCommand : Type 0 where
  pub actor_id : Text
  pub actor_is_guest : Bool
  pub animal_id : Text
  pub owner_profile_id : Text
  pub direction : SwipeDirection
  pub feed_card_id : Text
  pub feed_session_id : Text
  pub idempotency_key : Text

pub record Swipe : Type 0 where
  pub id : Text
  pub actor_id : Text
  pub actor_is_guest : Bool
  pub animal_id : Text
  pub owner_profile_id : Text
  pub direction : SwipeDirection
  pub feed_card_id : Text
  pub feed_session_id : Text
  pub swiped_at : ℕ

pub record Match : Type 0 where
  pub id : Text
  pub animal_id : Text
  pub adopter_profile_id : Text
  pub owner_profile_id : Text
  pub conversation_id : Text
  pub status : MatchStatus
  pub created_at : ℕ
  pub updated_at : ℕ

abbrev pub is_direction : SwipeDirection → Bool
is_direction SwipeDirection.unspecified = false
is_direction left = true
is_direction right = true

abbrev pub is_right : SwipeDirection → Bool
is_right right = true
is_right _ = false

abbrev pub is_active : MatchStatus → Bool
is_active active = true
is_active _ = false

unfoldable pub validate_record_swipe_command : RecordSwipeCommand → Result MatchingError (Unit {0})
validate_record_swipe_command cmd = do
  fail_if (is_blank cmd.actor_id) invalid_argument
  fail_if (is_blank cmd.animal_id) invalid_argument
  fail_if (is_blank cmd.owner_profile_id) invalid_argument
  fail_if (not (is_direction cmd.direction)) invalid_argument
  fail_if (is_blank cmd.idempotency_key) invalid_argument
  ok tt

unfoldable pub new_swipe : Text → RecordSwipeCommand → ℕ → Result MatchingError Swipe
new_swipe id cmd now = do
  fail_if (is_blank id) invalid_argument
  validate_record_swipe_command cmd
  fail_if (now == 0) invalid_argument
  ok (record {
    id = trim_space id;
    actor_id = trim_space cmd.actor_id;
    actor_is_guest = cmd.actor_is_guest;
    animal_id = trim_space cmd.animal_id;
    owner_profile_id = trim_space cmd.owner_profile_id;
    direction = cmd.direction;
    feed_card_id = trim_space cmd.feed_card_id;
    feed_session_id = trim_space cmd.feed_session_id;
    swiped_at = now;
  })

unfoldable pub new_match_from_swipe : Text → Swipe → Result MatchingError Match
new_match_from_swipe id swipe = do
  fail_if (is_blank id) invalid_argument
  fail_if (not (is_right swipe.direction)) invalid_argument
  fail_if (is_blank swipe.actor_id || (is_blank swipe.animal_id || is_blank swipe.owner_profile_id))
      invalid_argument
  fail_if (swipe.swiped_at == 0) invalid_argument
  ok (record {
    id = trim_space id;
    animal_id = trim_space swipe.animal_id;
    adopter_profile_id = trim_space swipe.actor_id;
    owner_profile_id = trim_space swipe.owner_profile_id;
    conversation_id = [];
    status = active;
    created_at = swipe.swiped_at;
    updated_at = swipe.swiped_at;
  })

unfoldable pub with_conversation : Text → ℕ → Match → Result MatchingError Match
with_conversation conversation_id now m = do
  fail_if (is_blank m.id) invalid_argument
  fail_if (is_blank conversation_id) invalid_argument
  fail_if (now == 0) invalid_argument
  ok (record m { conversation_id = trim_space conversation_id; updated_at = now })

unfoldable pub archive_match : ℕ → Match → Result MatchingError Match
archive_match now m = do
  fail_if (is_blank m.id) invalid_argument
  fail_if (now == 0) invalid_argument
  ok (record m { status = archived; updated_at = now })
