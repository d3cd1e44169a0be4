-- ===== src/Matching/Store/Lifecycle.antt =====
-- What happens to a match once it has been stored: `UpdateMatchConversation`,
-- `ArchiveMatchesByAnimal` and `SetAnimalAvailability` of
-- backend/matching-service/internal/infra/postgres/store.go.
use capibarco.Base.{
  ℕ, suc, Bool, not, ◌||◌, ◌&&◌, List, [], ◌∷◌, ◌++◌, if◌then◌else◌, is_empty, exists, keep,
}
use capibarco.Base.Text.{Text, text_eq}
use capibarco.Base.Table.{update}
use capibarco.Base.Result.{Result, ok, err, ◌>>=◌}
use capibarco.Matching.Domain.{MatchingError, not_found, database, Match, is_active, archive_match}
use capibarco.Matching.Store.{Db, Draw, Tx, AnimalAvailability, commit, insert_match_archived_event}

abbrev pub takes_conversation : Text → Text → Match → Bool
takes_conversation match_id conversation_id m =
    text_eq m.id match_id
    && (is_empty m.conversation_id || text_eq m.conversation_id conversation_id)

abbrev pub set_conversation : Text → ℕ → Match → Match
set_conversation conversation_id now m = record m {
  conversation_id = conversation_id;
  updated_at = now;
}

-- One UPDATE; no row affected is `ErrNotFound`.
unfoldable pub update_match_conversation :
    Draw → Text → Text → Db → Result MatchingError (Unit {0}) × Db
update_match_conversation draw match_id conversation_id db =
    let rows =
      update (takes_conversation match_id conversation_id)
        (set_conversation conversation_id draw.db_now) db.matches in
    if not draw.healthy
    then (err database, db)
    else if exists (takes_conversation match_id conversation_id) db.matches
    then (ok tt, record db { matches = rows })
    else (err not_found, db)

unfoldable pub set_animal_availability :
    Draw → Text → Text → Bool → Db → Result MatchingError (Unit {0}) × Db
set_animal_availability draw animal_id owner_profile_id available db =
    let row : AnimalAvailability = record {
      animal_id = animal_id;
      owner_profile_id = owner_profile_id;
      available = available;
    } in
    let of_animal : AnimalAvailability → Bool = λ r. text_eq r.animal_id animal_id in
    if not draw.healthy
    then (err database, db)
    else if exists of_animal db.availability
    then (ok tt, record db { availability = update of_animal (λ r. row) db.availability })
    else (ok tt, record db { availability = db.availability ++ (row ∷ []) })

abbrev pub is_active_of : Text → Match → Bool
is_active_of animal_id m = is_active m.status && text_eq m.animal_id animal_id

-- `UPDATE matches SET status = $2, updated_at = $3 WHERE match_id = $1`
abbrev pub set_status : Match → Match → Match
set_status next m = record m { status = next.status; updated_at = next.updated_at }

abbrev pub write_match : Match → List Match → List Match
write_match next = update (λ m. text_eq m.id next.id) (set_status next)

-- The loop over the selected matches; `n` counts the events.
unfoldable pub archive_all : Draw → Text → ℕ → List Match → Db → Tx (List Match)
archive_all draw reason n [] db = ok ([], db)
archive_all draw reason n (m ∷ ms) db = do
  next ← archive_match draw.now m
  db₁ ←
      insert_match_archived_event (draw.event_id n) next.id reason
        (record db { matches = write_match next db.matches })
  (archived, db₂) ← archive_all draw reason (suc n) ms db₁
  ok (next ∷ archived, db₂)

unfoldable pub archive_matches_by_animal :
    Draw → Text → Text → Db → Result MatchingError (List Match) × Db
archive_matches_by_animal draw animal_id reason db =
    commit draw db (archive_all draw reason 0 (keep (is_active_of animal_id) db.matches) db)
