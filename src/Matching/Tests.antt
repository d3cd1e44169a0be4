-- ===== src/Matching/Tests.antt =====
-- The theorems on matching, at concrete swipes.
use capibarco.Base.{ℕ, ◌+◌, ◌≡◌, refl, true, false, List, [], ◌∷◌, ◌++◌, some, exists}
use capibarco.Base.Text.{Text, lit, text_eq, trim_space, is_blank}
use capibarco.Base.Result.{ok}
use capibarco.Matching.Domain.{
  RecordSwipeCommand, Swipe, Match, SwipeDirection, MatchStatus, new_swipe, new_match_from_swipe,
  validate_record_swipe_command, archive_match,
}
use capibarco.Matching.Store.{
  Db, Draw, RecordSwipeResult, record_swipe, replayed, commit, find_idempotency,
  ensure_animal_available, new_key, store_swipe, store_match, insert_swipe, insert_match,
  insert_idempotency, insert_outbox, insert_swipe_recorded_event, insert_match_created_event,
  insert_match_archived_event, swipe_event, match_event, archived_event,
}
use capibarco.Matching.Store.Lifecycle.{archive_matches_by_animal, archive_all, is_active_of}
use capibarco.Matching.Service.{
  Call, swipe_call, archived_call, conversation_call, serve_all, empty,
}
use capibarco.Matching.Outbox.{IsConsistent}
use capibarco.Matching.Outbox.Session.{serve_all-IsConsistent}
use capibarco.Matching.Replay.{record_swipe-replay}
use capibarco.Matching.Archive.{archive_matches_by_animal_lem}

abbrev draw_of : Text → Text → ℕ → Draw
draw_of swipe_id match_id n = record {
  swipe_id = swipe_id;
  match_id = match_id;
  event_id = λ k. (n + k) ∷ [];
  now = 5;
  db_now = 6;
  healthy = true;
}

abbrev right_on : Text → Text → RecordSwipeCommand
right_on animal key = record {
  actor_id = lit "ann";
  actor_is_guest = false;
  animal_id = animal;
  owner_profile_id = lit "bob";
  direction = SwipeDirection.right;
  feed_card_id = [];
  feed_session_id = [];
  idempotency_key = key;
}

abbrev calls : List Call
calls =
    swipe_call 1 (draw_of (lit "s1") (lit "m1") 1) (right_on (lit "rex") (lit "k1"))
    ∷ swipe_call 1 (draw_of (lit "s2") (lit "m2") 3) (right_on (lit " tom ") (lit "k2"))
    ∷ conversation_call (draw_of [] [] 5) (lit "m1") (lit "c1")
    ∷ archived_call (draw_of [] [] 6) (lit "rex") (lit "adopted")
    ∷ []

serve_all-IsConsistent_example : IsConsistent (serve_all empty calls)
serve_all-IsConsistent_example = serve_all-IsConsistent calls

abbrev swipe : Swipe
swipe = record {
  id = lit "s1";
  actor_id = lit "ann";
  actor_is_guest = false;
  animal_id = lit "rex";
  owner_profile_id = lit "bob";
  direction = SwipeDirection.right;
  feed_card_id = [];
  feed_session_id = [];
  swiped_at = 5;
}

abbrev match_of : MatchStatus → Match
match_of status = record {
  id = lit "m1";
  animal_id = lit "rex";
  adopter_profile_id = lit "ann";
  owner_profile_id = lit "bob";
  conversation_id = [];
  status = status;
  created_at = 5;
  updated_at = 5;
}

abbrev stored : Db
stored = record {
  availability = [];
  swipes = swipe ∷ [];
  matches = match_of MatchStatus.active ∷ [];
  idempotency_keys =
      record { key = lit "k1"; actor_id = lit "ann"; swipe_id = lit "s1"; match_id = lit "m1" }
      ∷ [];
  outbox_events =
      swipe_event (1 ∷ []) swipe (lit "k1")
      ∷ match_event (2 ∷ []) (match_of MatchStatus.active) swipe (lit "k1")
      ∷ [];
}

abbrev outcome : RecordSwipeResult
outcome = record {
  swipe = swipe;
  found = some (match_of MatchStatus.active);
  created_match = true;
  idempotent = false;
  chat_created = false;
  conversation_id = [];
}

record_swipe-replay_example :
    record_swipe (draw_of (lit "s9") (lit "m9") 9) (right_on (lit "tom") (lit "k1")) stored
    ≡ (ok (replayed swipe (some (match_of MatchStatus.active))), stored)
unfolding record_swipe commit find_idempotency ensure_animal_available new_key store_swipe
    store_match insert_swipe insert_match insert_idempotency insert_outbox
    insert_swipe_recorded_event insert_match_created_event new_swipe new_match_from_swipe
    validate_record_swipe_command trim_space is_blank text_eq
record_swipe-replay_example =
    record_swipe-replay (draw_of (lit "s1") (lit "m1") 1) (draw_of (lit "s9") (lit "m9") 9)
      (right_on (lit "rex") (lit "k1")) (right_on (lit "tom") (lit "k1")) empty {r = outcome}
      {db' = stored} refl refl refl

abbrev emptied : Db
emptied = record stored {
  matches = match_of MatchStatus.archived ∷ [];
  outbox_events = stored.outbox_events ++ (archived_event (7 ∷ []) (lit "m1") (lit "gone") ∷ []);
}

archive_matches_by_animal_lem_example : exists (is_active_of (lit "rex")) emptied.matches ≡ false
unfolding archive_matches_by_animal archive_all commit archive_match insert_match_archived_event
    insert_outbox text_eq is_blank trim_space
archive_matches_by_animal_lem_example =
    archive_matches_by_animal_lem (draw_of [] [] 7) (lit "rex") (lit "gone") stored
      {ms = match_of MatchStatus.archived ∷ []} {db' = emptied} refl
