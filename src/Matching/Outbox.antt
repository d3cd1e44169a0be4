-- ===== src/Matching/Outbox.antt =====
-- What the outbox of the matching service (backend/matching-service/internal/infra/postgres/store.go)
-- announces, next to what its tables hold.
pub mod Recording
pub mod Session
use mathlib.Core.Path.{subst}
use capibarco.Base.{
  ℕ, suc, ◌+◌, ◌≡◌, refl, ◌∙◌, ap, sym, Bool, true, false, not, ◌||◌, ◌&&◌, Option, none, some,
  List, [], ◌∷◌, ◌++◌, map, arith, inl, inr, ◌==◌, if◌then◌else◌, is_empty, exists, keep,
  Bool-cases,
}
use capibarco.Base.Text.{Text, text_eq, trim_space, trim_space_idem, is_blank}
use capibarco.Base.Table.{find, update}
use capibarco.Base.Result.{Result, ok, err, ◌>>=◌, bind-ok, Result-cases}
use capibarco.Matching.Domain.{
  MatchingError, Swipe, Match, is_right, RecordSwipeCommand, new_swipe, new_match_from_swipe,
  archive_match, SwipeDirection, right, is_direction, validate_record_swipe_command,
}
use capibarco.Matching.Store
use capibarco.Matching.Store.{
  Db, Draw, Tx, Payload, swipe_recorded, match_created, match_archived, OutboxEvent,
  RecordSwipeResult, insert_swipe, insert_match, insert_outbox, insert_idempotency,
  insert_swipe_recorded_event, insert_match_created_event, insert_match_archived_event, store_match,
  store_swipe, new_key, or_replay, commit, find_idempotency, IdempotencyKey, id_of,
}
use capibarco.Matching.Store.Lifecycle.{
  update_match_conversation, set_animal_availability, archive_matches_by_animal, archive_all,
  takes_conversation, write_match, is_active_of,
}
use capibarco.Matching.Service.{
  Call, swipe_call, archived_call, status_call, conversation_call, serve, serve_all, empty,
  record_swipe, handle_animal_archived, handle_animal_status_changed, handle_conversation_created,
  checked, map_result, after_availability, with_chat, normalize_record_swipe_command,
  validate_record_swipe_input,
}

-- The swipes that the outbox announces.
abbrev pub recorded : List OutboxEvent → List Swipe
recorded [] = []
recorded (e ∷ es) =
    let rest = recorded es in
    elim e.payload [
      | swipe_recorded s ↦ s ∷ rest
      | match_created m s ↦ rest
      | match_archived i r ↦ rest
    ]

-- The identifiers of the matches whose creation the outbox announces.
abbrev pub created : List OutboxEvent → List Text
created [] = []
created (e ∷ es) =
    let rest = created es in
    elim e.payload [
      | swipe_recorded s ↦ rest
      | match_created m s ↦ m.id ∷ rest
      | match_archived i r ↦ rest
    ]

-- The animal and the adopter of a match, and those of the right swipes, in order.
abbrev pub pairs : List Match → List (Text × Text)
pairs [] = []
pairs (m ∷ ms) = (m.animal_id, m.adopter_profile_id) ∷ pairs ms

abbrev pub right_pairs : List Swipe → List (Text × Text)
right_pairs [] = []
right_pairs (s ∷ ss) =
    let rest = right_pairs ss in
    if is_right s.direction then (s.animal_id, s.actor_id) ∷ rest else rest

abbrev pub ids : List Match → List Text
ids [] = []
ids (m ∷ ms) = m.id ∷ ids ms

-- Each right swipe has its match and each match its right swipe, in the same order; the outbox
-- announces each swipe and each match once.
unfoldable pub IsConsistent : Db → Type 0
IsConsistent db =
    (pairs db.matches ≡ right_pairs db.swipes)
    × (recorded db.outbox_events ≡ db.swipes)
    × (created db.outbox_events ≡ ids db.matches)

pub recorded-append : (xs ys : List OutboxEvent) → recorded (xs ++ ys) ≡ recorded xs ++ recorded ys
recorded-append [] ys = refl
recorded-append (e ∷ es) ys = ground (arith, recorded-append es ys)

pub created-append : (xs ys : List OutboxEvent) → created (xs ++ ys) ≡ created xs ++ created ys
created-append [] ys = refl
created-append (e ∷ es) ys = ground (arith, created-append es ys)

pub pairs-append : (xs ys : List Match) → pairs (xs ++ ys) ≡ pairs xs ++ pairs ys
pairs-append [] ys = refl
pairs-append (x ∷ xs) ys = rw (pairs-append xs ys) refl

pub right_pairs-append :
    (xs ys : List Swipe) → right_pairs (xs ++ ys) ≡ right_pairs xs ++ right_pairs ys
right_pairs-append [] ys = refl
right_pairs-append (x ∷ xs) ys = ground (arith, right_pairs-append xs ys)

pub ids-append : (xs ys : List Match) → ids (xs ++ ys) ≡ ids xs ++ ids ys
ids-append [] ys = refl
ids-append (x ∷ xs) ys = rw (ids-append xs ys) refl

pub append-nil : {A : Type 0} (xs : List A) → xs ++ [] ≡ xs
append-nil [] = refl
append-nil (x ∷ xs) = rw (append-nil xs) refl

-- An update of columns other than the identifier and the participants.
pub pairs-update :
    (p : Match → Bool) (f : Match → Match) (ms : List Match)
    → ((m : Match) → (f m).animal_id ≡ m.animal_id)
    → ((m : Match) → (f m).adopter_profile_id ≡ m.adopter_profile_id)
    → pairs (update p f ms) ≡ pairs ms
pairs-update p f [] a b = refl
pairs-update p f (m ∷ ms) a b = ground (arith, a m, b m, pairs-update p f ms a b)

pub ids-update :
    (p : Match → Bool) (f : Match → Match) (ms : List Match)
    → ((m : Match) → (f m).id ≡ m.id)
    → ids (update p f ms) ≡ ids ms
ids-update p f [] a = refl
ids-update p f (m ∷ ms) a = ground (arith, a m, ids-update p f ms a)
