-- ===== src/Matching/Store.antt =====
-- backend/matching-service/internal/infra/postgres/store.go with the constraints of
-- backend/migrations/matching-service/000001_init.up.sql. A table is the list of its rows in the order
-- of insertion; a transaction that fails leaves the tables alone. The envelope of an event is
-- its identifier, its topic, its partition key and its idempotency key: what tracing and clocks add is
-- left out.
pub mod Lifecycle
use Prim.Native.String.{String}
use capibarco.Base.{
  ℕ, suc, ◌≡◌, Bool, true, false, not, ◌||◌, ◌&&◌, Option, none, some, List, [], ◌∷◌, ◌++◌, ◌==◌,
  if◌then◌else◌, is_empty, exists, keep,
}
use capibarco.Base.Text.{Text, lit, text_eq}
use capibarco.Base.Table.{find, update}
use capibarco.Base.Result.{Result, ok, err, ◌>>=◌, ◌>>◌, fail_if}
use capibarco.Matching.Domain.{
  MatchingError, invalid_argument, not_found, duplicate_swipe, unavailable_animal, conflict,
  database, RecordSwipeCommand, Swipe, Match, SwipeDirection, MatchStatus, is_right, is_active,
  is_direction, new_swipe, new_match_from_swipe, archive_match,
}

pub record AnimalAvailability : Type 0 where
  pub animal_id : Text
  pub owner_profile_id : Text
  pub available : Bool

-- A row of idempotency_keys; `match_id` is empty for a left swipe.
pub record IdempotencyKey : Type 0 where
  pub key : Text
  pub actor_id : Text
  pub swipe_id : Text
  pub match_id : Text

pub data Payload : Type 0 where
  swipe_recorded : Swipe → Payload
  match_created : Match → Swipe → Payload
  match_archived : Text → Text → Payload

pub record OutboxEvent : Type 0 where
  pub id : Text
  pub topic : Text
  pub partition_key : Text
  pub idempotency_key : Text
  pub payload : Payload

pub record Db : Type 0 where
  pub availability : List AnimalAvailability
  pub swipes : List Swipe
  pub matches : List Match
  pub idempotency_keys : List IdempotencyKey
  pub outbox_events : List OutboxEvent

-- What a call takes from outside: the identifiers of `uuid.NewString` (those of the events by their
-- place in the transaction), the service's clock, PostgreSQL's `now()`, and whether the database answers.
pub record Draw : Type 0 where
  pub swipe_id : Text
  pub match_id : Text
  pub event_id : ℕ → Text
  pub now : ℕ
  pub db_now : ℕ
  pub healthy : Bool

pub record RecordSwipeResult : Type 0 where
  pub swipe : Swipe
  pub found : Option Match
  pub created_match : Bool
  pub idempotent : Bool
  pub chat_created : Bool
  pub conversation_id : Text

-- A transaction, as its result and the tables that it would commit.
abbrev pub Tx : Type 0 → Type 0
Tx A = Result MatchingError (A × Db)

-- `Begin` … `Commit`, with the deferred rollback.
unfoldable pub commit : {A : Type 0} → Draw → Db → Tx A → Result MatchingError A × Db
commit draw db (ok (a, db')) = if draw.healthy then (ok a, db') else (err database, db)
commit draw db (err e) = (err e, db)

abbrev pub found_row : {A : Type 0} → Option A → Result MatchingError A
found_row none = err database
found_row (some a) = ok a

abbrev pub swipe_by_id : Text → List Swipe → Option Swipe
swipe_by_id id = find (λ s. text_eq s.id id)

abbrev pub match_by_id : Text → List Match → Option Match
match_by_id id = find (λ m. text_eq m.id id)

-- The answer to a key that has been used.
unfoldable pub replayed : Swipe → Option Match → RecordSwipeResult
replayed swipe m = record {
  swipe = swipe;
  found = m;
  created_match = false;
  idempotent = true;
  chat_created = elim m [ none ↦ false | some x ↦ not (is_empty x.conversation_id) ];
  conversation_id = elim m [ none ↦ [] | some x ↦ x.conversation_id ];
}

abbrev pub match_of_key : Db → IdempotencyKey → Result MatchingError (Option Match)
match_of_key db row =
    let looked = match_by_id row.match_id db.matches in
    if is_empty row.match_id then ok none else found_row looked >>= λ m. ok (some m)

abbrev pub key_row : Text → Db → Option IdempotencyKey
key_row key db = find (λ row. text_eq row.key key) db.idempotency_keys

-- Behind the SELECT on idempotency_keys.
abbrev pub answer_of : Db → Option IdempotencyKey → Result MatchingError (Option RecordSwipeResult)
answer_of db none = ok none
answer_of db (some row) = do
  swipe ← found_row (swipe_by_id row.swipe_id db.swipes)
  m ← match_of_key db row
  ok (some (replayed swipe m))

unfoldable pub find_idempotency : Text → Db → Result MatchingError (Option RecordSwipeResult)
find_idempotency key db = answer_of db (key_row key db)

unfoldable pub ensure_animal_available : Text → Db → Result MatchingError (Unit {0})
ensure_animal_available animal_id db =
    elim (find (λ row. text_eq row.animal_id animal_id) db.availability) [
      | none ↦ ok tt
      | some row ↦ fail_if (not row.available) unavailable_animal
    ]

abbrev pub same_pair : Swipe → Swipe → Bool
same_pair s t = text_eq t.actor_id s.actor_id && text_eq t.animal_id s.animal_id

-- The primary key, the unique index swipes_actor_animal_key and the CHECK on the direction.
unfoldable pub insert_swipe : Swipe → Db → Result MatchingError Db
insert_swipe s db = do
  fail_if (not (is_direction s.direction)) database
  fail_if (exists (λ t. text_eq t.id s.id) db.swipes) database
  fail_if (exists (same_pair s) db.swipes) duplicate_swipe
  ok (record db { swipes = db.swipes ++ (s ∷ []) })

abbrev pub active_pair : Match → Match → Bool
active_pair m n =
    is_active m.status
    && (is_active n.status
        && (text_eq n.animal_id m.animal_id && text_eq n.adopter_profile_id m.adopter_profile_id))

-- The primary key and the unique index matches_active_adopter_animal_key.
unfoldable pub insert_match : Match → Db → Result MatchingError Db
insert_match m db = do
  fail_if (exists (λ n. text_eq n.id m.id) db.matches) database
  fail_if (exists (active_pair m) db.matches) database
  ok (record db { matches = db.matches ++ (m ∷ []) })

unfoldable pub insert_idempotency : IdempotencyKey → Db → Result MatchingError Db
insert_idempotency row db = do
  fail_if (exists (λ r. text_eq r.key row.key) db.idempotency_keys) conflict
  fail_if (not (exists (λ s. text_eq s.id row.swipe_id) db.swipes)) database
  ok (record db { idempotency_keys = db.idempotency_keys ++ (row ∷ []) })

unfoldable pub insert_outbox : OutboxEvent → Db → Result MatchingError Db
insert_outbox event db = do
  fail_if (exists (λ e. text_eq e.id event.id) db.outbox_events) database
  ok (record db { outbox_events = db.outbox_events ++ (event ∷ []) })

abbrev pub swipe_event : Text → Swipe → Text → OutboxEvent
swipe_event event_id swipe idempotency_key = record {
  id = event_id;
  topic = lit "matching.swipe_recorded";
  partition_key = swipe.actor_id;
  idempotency_key = idempotency_key;
  payload = swipe_recorded swipe;
}

unfoldable pub insert_swipe_recorded_event : Text → Swipe → Text → Db → Result MatchingError Db
insert_swipe_recorded_event event_id swipe idempotency_key =
    insert_outbox (swipe_event event_id swipe idempotency_key)

abbrev pub match_event : Text → Match → Swipe → Text → OutboxEvent
match_event event_id m swipe idempotency_key = record {
  id = event_id;
  topic = lit "matching.match_created";
  partition_key = m.id;
  idempotency_key = idempotency_key;
  payload = match_created m swipe;
}

unfoldable pub insert_match_created_event :
    Text → Match → Swipe → Text → Db → Result MatchingError Db
insert_match_created_event event_id m swipe idempotency_key =
    insert_outbox (match_event event_id m swipe idempotency_key)

abbrev pub archived_event : Text → Text → Text → OutboxEvent
archived_event event_id match_id reason = record {
  id = event_id;
  topic = lit "matching.match_archived";
  partition_key = match_id;
  idempotency_key = match_id;
  payload = match_archived match_id reason;
}

unfoldable pub insert_match_archived_event : Text → Text → Text → Db → Result MatchingError Db
insert_match_archived_event event_id match_id reason =
    insert_outbox (archived_event event_id match_id reason)

-- The match of a right swipe.
unfoldable pub store_match : Draw → Swipe → Text → Db → Tx (Option Match)
store_match draw swipe key db = do
  m ← new_match_from_swipe draw.match_id swipe
  db₁ ← insert_match m db
  db₂ ← insert_match_created_event (draw.event_id 1) m swipe key db₁
  ok (some m, db₂)

abbrev pub id_of : Option Match → Text
id_of none = []
id_of (some m) = m.id

abbrev pub is_some : {A : Type 0} → Option A → Bool
is_some none = false
is_some (some a) = true

-- `RecordSwipe` for a key that is new, behind the swipe.
unfoldable pub store_swipe : Draw → RecordSwipeCommand → Swipe → Db → Tx RecordSwipeResult
store_swipe draw cmd swipe db = do
  db₁ ← insert_swipe swipe db
  db₂ ← insert_swipe_recorded_event (draw.event_id 0) swipe cmd.idempotency_key db₁
  (m, db₃) ←
      if is_right swipe.direction
      then store_match draw swipe cmd.idempotency_key db₂
      else ok (none, db₂)
  db₄ ←
      insert_idempotency
        (record {
          key = cmd.idempotency_key;
          actor_id = cmd.actor_id;
          swipe_id = swipe.id;
          match_id = id_of m;
        })
        db₃
  ok (
    record {
      swipe = swipe;
      found = m;
      created_match = is_some m;
      idempotent = false;
      chat_created = false;
      conversation_id = [];
    },
    db₄,
  )

unfoldable pub new_key : Draw → RecordSwipeCommand → Db → Tx RecordSwipeResult
new_key draw cmd db = do
  ensure_animal_available cmd.animal_id db
  swipe ← new_swipe draw.swipe_id cmd draw.now
  store_swipe draw cmd swipe db

abbrev pub or_replay : Db → Tx RecordSwipeResult → Option RecordSwipeResult → Tx RecordSwipeResult
or_replay db miss none = miss
or_replay db miss (some result) = ok (result, db)

unfoldable pub record_swipe :
    Draw → RecordSwipeCommand → Db → Result MatchingError RecordSwipeResult × Db
record_swipe draw cmd db =
    commit draw db (find_idempotency cmd.idempotency_key db >>= or_replay db (new_key draw cmd db))
