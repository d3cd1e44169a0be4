-- ===== src/Matching/Outbox/Session.antt =====
-- Sequences of calls of the matching service (backend/matching-service/internal/app/matching/service.go),
-- their tables and their outbox.
use mathlib.Core.Path.{subst}
use capibarco.Base.{
  ℕ, suc, ◌≡◌, refl, ◌∙◌, sym, Bool, true, false, not, Option, none, some, List, [], ◌∷◌, inl, inr,
  if◌then◌else◌, exists, Bool-cases,
}
use capibarco.Base.Text.{Text, text_eq, is_blank}
use capibarco.Base.Table.{update}
use capibarco.Base.Result.{Result, ok, err, bind-ok, ok-inj}
use capibarco.Matching.Domain.{MatchingError, Match, RecordSwipeCommand, new_swipe, archive_match}
use capibarco.Matching.Store
use capibarco.Matching.Store.{
  Db, Draw, Tx, Payload, swipe_recorded, match_created, match_archived, OutboxEvent,
  RecordSwipeResult, swipe_event, match_event, archived_event, insert_swipe, insert_match,
  insert_outbox, insert_idempotency, insert_swipe_recorded_event, insert_match_created_event,
  insert_match_archived_event, store_match, store_swipe, new_key, or_replay, commit,
  find_idempotency, IdempotencyKey, id_of,
}
use capibarco.Matching.Store.Lifecycle.{
  update_match_conversation, set_animal_availability, archive_matches_by_animal, archive_all,
  takes_conversation, set_conversation, set_status,
}
use capibarco.Matching.Service.{
  Call, swipe_call, archived_call, status_call, conversation_call, serve, serve_all, empty,
  record_swipe, handle_animal_archived, handle_animal_status_changed, handle_conversation_created,
  checked, map_result, after_availability, with_chat, validate_record_swipe_input,
}
use capibarco.Matching.Outbox.{
  recorded, created, IsConsistent, recorded-append, created-append, append-nil, pairs-update,
  ids-update,
}
use capibarco.Matching.Outbox.Recording.{
  store_swipe-IsConsistent, insert_outbox-record, new_swipe-trimmed,
}

commit-IsConsistent :
    {A : Type 0} (draw : Draw) (db : Db) (tx : Tx A)
    → IsConsistent db
    → ((out : A × Db) → tx ≡ ok out → IsConsistent out.1)
    → IsConsistent (commit draw db tx).1
unfolding commit
commit-IsConsistent draw db (ok (a, db')) w h = elim (Bool-cases draw.healthy) [
  | inl e ↦ rw e (h (a, db') refl)
  | inr e ↦ rw e w
]
commit-IsConsistent draw db (err e) w h = w

or_replay-IsConsistent :
    (db : Db) (miss : Tx RecordSwipeResult) (o : Option RecordSwipeResult)
    {out : RecordSwipeResult × Db}
    → IsConsistent db
    → ((out : RecordSwipeResult × Db) → miss ≡ ok out → IsConsistent out.1)
    → or_replay db miss o ≡ ok out
    → IsConsistent out.1
or_replay-IsConsistent db miss none {out} w k h = k out h
or_replay-IsConsistent db miss (some r) w k h = subst (λ x. IsConsistent x.1) (ok-inj h) w

new_key-IsConsistent :
    (draw : Draw) (cmd : RecordSwipeCommand) (db : Db) (out : RecordSwipeResult × Db)
    → IsConsistent db
    → new_key draw cmd db ≡ ok out
    → IsConsistent out.1
unfolding new_key
new_key-IsConsistent draw cmd db out w h =
    let (u, a, h₁) = bind-ok (Store.ensure_animal_available cmd.animal_id db) _ h in
    let (s, e, h₂) = bind-ok (new_swipe draw.swipe_id cmd draw.now) _ h₁ in
    let (ta, tb) = new_swipe-trimmed draw.swipe_id cmd draw.now e in
    store_swipe-IsConsistent draw cmd s db w ta tb h₂

store-IsConsistent :
    (draw : Draw) (cmd : RecordSwipeCommand) (db : Db)
    → IsConsistent db
    → IsConsistent (Store.record_swipe draw cmd db).1
unfolding Store.record_swipe
store-IsConsistent draw cmd db w = commit-IsConsistent draw db _ w (λ out h.
    let (o, e, h₁) = bind-ok (find_idempotency cmd.idempotency_key db) _ h in
    or_replay-IsConsistent db _ o w (λ x k. new_key-IsConsistent draw cmd db x w k) h₁)

archive_all-IsConsistent :
    (draw : Draw) (reason : Text) (n : ℕ) (ms : List Match) (db : Db) (out : List Match × Db)
    → IsConsistent db
    → archive_all draw reason n ms db ≡ ok out
    → IsConsistent out.1
unfolding archive_all insert_match_archived_event IsConsistent
archive_all-IsConsistent draw reason n [] db out w h = subst (λ x. IsConsistent x.1) (ok-inj h) w
archive_all-IsConsistent draw reason n (m ∷ ms) db out (p, r, c) h =
    let (next, e, h₁) = bind-ok (archive_match draw.now m) _ h in
    let (db₁, a, h₂) =
      bind-ok (insert_outbox (archived_event (draw.event_id n) next.id reason) _) _ h₁ in
    let (o, k, h₃) = bind-ok (archive_all draw reason (suc n) ms db₁) _ h₂ in
    let w₁ : IsConsistent db₁ = subst IsConsistent (insert_outbox-record _ _ a) (
      pairs-update (λ x. text_eq x.id next.id) (set_status next) db.matches (λ x. refl) (λ x. refl)
          ∙ p,
      recorded-append db.outbox_events _ ∙ append-nil (recorded db.outbox_events) ∙ r,
      created-append db.outbox_events _
          ∙ append-nil (created db.outbox_events)
          ∙ c
          ∙ sym (ids-update (λ x. text_eq x.id next.id) (set_status next) db.matches (λ x. refl)),
    ) in
    subst (λ x. IsConsistent x.1) (ok-inj h₃)
      (archive_all-IsConsistent draw reason (suc n) ms db₁ o w₁ k)

archive-IsConsistent :
    (draw : Draw) (animal_id reason : Text) (db : Db)
    → IsConsistent db
    → IsConsistent (archive_matches_by_animal draw animal_id reason db).1
unfolding archive_matches_by_animal
archive-IsConsistent draw animal_id reason db w =
    commit-IsConsistent draw db _ w (λ out h. archive_all-IsConsistent draw reason 0 _ db out w h)

if-IsConsistent :
    {A : Type 0} (b : Bool) (x y : Result MatchingError A × Db)
    → IsConsistent x.1
    → IsConsistent y.1
    → IsConsistent (if b then x else y).1
if-IsConsistent true x y h k = h
if-IsConsistent false x y h k = k

renamed-IsConsistent :
    (draw : Draw) (i j : Text) (db : Db)
    → IsConsistent db
    → IsConsistent (record db {
      matches = update (takes_conversation i j) (set_conversation j draw.db_now) db.matches;
    })
unfolding IsConsistent
renamed-IsConsistent draw i j db w =
    let q = takes_conversation i j in
    let f = set_conversation j draw.db_now in
    (
      pairs-update q f db.matches (λ x. refl) (λ x. refl) ∙ w.0,
      w.1,
      w.2 ∙ sym (ids-update q f db.matches (λ x. refl)),
    )

conversation-IsConsistent :
    (draw : Draw) (i j : Text) (db : Db)
    → IsConsistent db
    → IsConsistent (update_match_conversation draw i j db).1
unfolding update_match_conversation
conversation-IsConsistent draw i j db w = if-IsConsistent (not draw.healthy) _ _ w (
    if-IsConsistent (exists (takes_conversation i j) db.matches) _ _
      (renamed-IsConsistent draw i j db w) w)

other_rows-IsConsistent :
    (db : Db) (rows : List Store.AnimalAvailability)
    → IsConsistent db
    → IsConsistent (record db { availability = rows })
unfolding IsConsistent
other_rows-IsConsistent db rows w = w

availability-IsConsistent :
    (draw : Draw) (i j : Text) (b : Bool) (db : Db)
    → IsConsistent db
    → IsConsistent (set_animal_availability draw i j b db).1
unfolding set_animal_availability
availability-IsConsistent draw i j b db w = if-IsConsistent (not draw.healthy) _ _ w (
    if-IsConsistent (exists (λ r. text_eq r.animal_id i) db.availability) _ _
      (other_rows-IsConsistent db _ w) (other_rows-IsConsistent db _ w))

checked-IsConsistent :
    {A B : Type 0} (r : Result MatchingError A) (db : Db) (next : Result MatchingError B × Db)
    → IsConsistent db
    → IsConsistent next.1
    → IsConsistent (checked r db next).1
checked-IsConsistent (ok a) db next w h = h
checked-IsConsistent (err e) db next w h = w

map_result-IsConsistent :
    {A B : Type 0} (f : A → B) (r : Result MatchingError A × Db)
    → IsConsistent r.1
    → IsConsistent (map_result f r).1
map_result-IsConsistent f (ok a, db) h = h
map_result-IsConsistent f (err e, db) h = h

after_availability-IsConsistent :
    {A : Type 0} (r : Result MatchingError A × Db)
    (next : Db → Result MatchingError (List Match) × Db)
    → IsConsistent r.1
    → ((db : Db) → IsConsistent db → IsConsistent (next db).1)
    → IsConsistent (after_availability r next).1
after_availability-IsConsistent (ok a, db) next h k = k db h
after_availability-IsConsistent (err e, db) next h k = h

archived-IsConsistent :
    (draw : Draw) (animal_id reason : Text) (db : Db)
    → IsConsistent db
    → IsConsistent (handle_animal_archived draw animal_id reason db).1
unfolding handle_animal_archived
archived-IsConsistent draw animal_id reason db w =
    if-IsConsistent (is_blank animal_id) _ _ w (archive-IsConsistent draw _ _ db w)

serve-IsConsistent : (c : Call) (db : Db) → IsConsistent db → IsConsistent (serve c db)
unfolding serve record_swipe handle_animal_status_changed handle_conversation_created
serve-IsConsistent (swipe_call system_now draw cmd) db w =
    checked-IsConsistent (validate_record_swipe_input system_now cmd) db _ w
      (map_result-IsConsistent with_chat _ (store-IsConsistent draw _ db w))
serve-IsConsistent (archived_call draw animal_id reason) db w =
    archived-IsConsistent draw animal_id reason db w
serve-IsConsistent (status_call draw animal_id owner available reason) db w =
    if-IsConsistent (is_blank animal_id) _ _ w (
      after_availability-IsConsistent (set_animal_availability draw _ _ available db) _
        (availability-IsConsistent draw _ _ available db w)
        (λ db₁ w₁.
          if-IsConsistent available _ _ w₁ (archived-IsConsistent draw animal_id reason db₁ w₁)))
serve-IsConsistent (conversation_call draw match_id conversation_id) db w =
    if-IsConsistent (is_blank match_id) _ _ w
      (if-IsConsistent (is_blank conversation_id) _ _ w (conversation-IsConsistent draw _ _ db w))

serve_all-keeps : (cs : List Call) (db : Db) → IsConsistent db → IsConsistent (serve_all db cs)
unfolding serve_all
serve_all-keeps [] db w = w
serve_all-keeps (c ∷ cs) db w = serve_all-keeps cs (serve c db) (serve-IsConsistent c db w)

-- Whatever calls the matching service has served since its tables were empty, with whatever
-- failures: the right swipes and the matches stand for the same animals and adopters in
-- the same order, and the outbox announces exactly the stored swipes and the stored matches.
pub serve_all-IsConsistent : (cs : List Call) → IsConsistent (serve_all empty cs)
unfolding IsConsistent
serve_all-IsConsistent cs = serve_all-keeps cs empty (refl, refl, refl)
