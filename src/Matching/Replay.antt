-- ===== src/Matching/Replay.antt =====
-- Idempotency of `RecordSwipe` of backend/matching-service/internal/infra/postgres/store.go.
use mathlib.Core.Path.{subst}
use capibarco.Base.{
  ◌≡◌, refl, ◌∙◌, ap, sym, Bool, true, false, Option, none, some, [], ◌∷◌, ◌++◌, arith,
  if◌then◌else◌, is_empty, exists,
}
use capibarco.Base.Text.{Text, text_eq, text_eq_refl, is_blank}
use capibarco.Base.Table.{find, find-append_new, find-exists}
use capibarco.Base.Result.{ok, bind-ok, ok-inj}
use capibarco.Matching.Domain.{
  Swipe, Match, is_right, RecordSwipeCommand, new_swipe, new_match_from_swipe,
}
use capibarco.Matching.Store.{
  Db, Draw, Tx, RecordSwipeResult, IdempotencyKey, insert_swipe, insert_match, insert_outbox,
  insert_idempotency, insert_swipe_recorded_event, insert_match_created_event, swipe_event,
  match_event, store_match, store_swipe, new_key, or_replay, commit, find_idempotency, key_row,
  swipe_by_id, match_by_id, match_of_key, answer_of, found_row, replayed, record_swipe, id_of,
  ensure_animal_available,
}
use capibarco.Matching.Outbox.Recording.{
  insert_swipe-record, insert_match-record, insert_idempotency-record, insert_outbox-record,
}

-- What the tables must hold for the key to be answered with this swipe and this match.
abbrev Answers : Text → Swipe → Option Match → Db → Type 0
Answers key s m db =
    (row : IdempotencyKey) × (key_row key db ≡ some row)
    × (swipe_by_id row.swipe_id db.swipes ≡ some s)
    × (match_of_key db row ≡ ok m)

Answers-find :
    (key : Text) (s : Swipe) (m : Option Match) (db : Db)
    → Answers key s m db
    → find_idempotency key db ≡ ok (some (replayed s m))
unfolding find_idempotency
Answers-find key s m db (row, k, f, g) = ground (arith, k, f, g)

insert_swipe-fresh :
    (s : Swipe) (db : Db) {db' : Db}
    → insert_swipe s db ≡ ok db'
    → exists (λ t. text_eq t.id s.id) db.swipes ≡ false
unfolding insert_swipe
insert_swipe-fresh s db h = ground arith

insert_match-fresh :
    (m : Match) (db : Db) {db' : Db}
    → insert_match m db ≡ ok db'
    → exists (λ t. text_eq t.id m.id) db.matches ≡ false
unfolding insert_match
insert_match-fresh m db h = ground arith

insert_idempotency-fresh :
    (row : IdempotencyKey) (db : Db) {db' : Db}
    → insert_idempotency row db ≡ ok db'
    → exists (λ r. text_eq r.key row.key) db.idempotency_keys ≡ false
unfolding insert_idempotency
insert_idempotency-fresh row db h = ground arith

new_match-id :
    (id : Text) (s : Swipe) {m : Match} → new_match_from_swipe id s ≡ ok m → is_empty m.id ≡ false
unfolding new_match_from_swipe is_blank
new_match-id id s h = ground arith

-- The match that has been stored is the one that its identifier finds.
abbrev Stored : Option Match → Db → Type 0
Stored none db = Unit {0}
Stored (some m) db = (is_empty m.id ≡ false) × (match_by_id m.id db.matches ≡ some m)

store_match-Stored :
    (draw : Draw) (s : Swipe) (key : Text) (db : Db) {out : Option Match × Db}
    → store_match draw s key db ≡ ok out
    → Stored out.0 out.1 × (out.1.swipes ≡ db.swipes)
unfolding store_match insert_match_created_event
store_match-Stored draw s key db h =
    let (m, e, h₁) = bind-ok (new_match_from_swipe draw.match_id s) _ h in
    let (db₁, i, h₂) = bind-ok (insert_match m db) _ h₁ in
    let (db₂, a, h₃) = bind-ok (insert_outbox (match_event (draw.event_id 1) m s key) db₁) _ h₂ in
    let found : match_by_id m.id (db.matches ++ (m ∷ [])) ≡ some m =
      find-append_new _ db.matches (m ∷ []) (find-exists _ db.matches (insert_match-fresh m db i))
      ∙ rw (text_eq_refl m.id) refl in
    subst (λ o. Stored o.0 o.1 × (o.1.swipes ≡ db.swipes)) (ok-inj h₃)
      (subst (λ d. Stored (some m) d × (d.swipes ≡ db.swipes)) (insert_outbox-record _ db₁ a)
        (subst (λ d. Stored (some m) d × (d.swipes ≡ db.swipes)) (insert_match-record m db i)
          ((new_match-id draw.match_id s e, found), refl)))

chosen-Stored :
    (draw : Draw) (s : Swipe) (key : Text) (db : Db) (b : Bool) {out : Option Match × Db}
    → (if b then store_match draw s key db else ok (none, db)) ≡ ok out
    → Stored out.0 out.1 × (out.1.swipes ≡ db.swipes)
chosen-Stored draw s key db true h = store_match-Stored draw s key db h
chosen-Stored draw s key db false h =
    subst (λ o. Stored o.0 o.1 × (o.1.swipes ≡ db.swipes)) (ok-inj h) (tt, refl)

match_of_key-Stored :
    (m : Option Match) (db : Db) (row : IdempotencyKey)
    → Stored m db
    → row.match_id ≡ id_of m
    → match_of_key db row ≡ ok m
match_of_key-Stored none db row w e = rw e refl
match_of_key-Stored (some m) db row (w, f) e = rw (e, w, f) refl

key-Stored :
    (row : IdempotencyKey) (db : Db)
    → exists (λ r. text_eq r.key row.key) db.idempotency_keys ≡ false
    → find (λ r. text_eq r.key row.key) (db.idempotency_keys ++ (row ∷ [])) ≡ some row
key-Stored row db h =
    find-append_new _ db.idempotency_keys (row ∷ []) (find-exists _ db.idempotency_keys h)
    ∙ rw (text_eq_refl row.key) refl

-- A swipe that has been recorded under a key answers that key.
store_swipe-Answers :
    (draw : Draw) (cmd : RecordSwipeCommand) (s : Swipe) (db : Db) {out : RecordSwipeResult × Db}
    → store_swipe draw cmd s db ≡ ok out
    → Answers cmd.idempotency_key out.0.swipe out.0.found out.1
unfolding store_swipe insert_swipe_recorded_event
store_swipe-Answers draw cmd s db h =
    let key = cmd.idempotency_key in
    let (db₁, i, h₁) = bind-ok (insert_swipe s db) _ h in
    let (db₂, a, h₂) = bind-ok (insert_outbox (swipe_event (draw.event_id 0) s key) db₁) _ h₁ in
    let (o, r, h₃) =
      bind-ok (if is_right s.direction then store_match draw s key db₂ else ok (none, db₂)) _ h₂ in
    let row : IdempotencyKey = record {
      key = key;
      actor_id = cmd.actor_id;
      swipe_id = s.id;
      match_id = id_of o.0;
    } in
    let (db₄, k, h₄) = bind-ok (insert_idempotency row o.1) _ h₃ in
    let (st, sw) = chosen-Stored draw s key db₂ (is_right s.direction) r in
    let swipes : o.1.swipes ≡ db.swipes ++ (s ∷ []) =
      sw
      ∙ sym (ap (λ d. d.swipes) (insert_outbox-record _ db₁ a))
      ∙ sym (ap (λ d. d.swipes) (insert_swipe-record s db i)) in
    let found : swipe_by_id s.id o.1.swipes ≡ some s =
      ap (swipe_by_id s.id) swipes
      ∙ find-append_new _ db.swipes (s ∷ []) (find-exists _ db.swipes (insert_swipe-fresh s db i))
      ∙ rw (text_eq_refl s.id) refl in
    subst (λ x. Answers key x.0.swipe x.0.found x.1) (ok-inj h₄)
      (subst (λ d. Answers key s o.0 d) (insert_idempotency-record row o.1 k)
        (
          row,
          key-Stored row o.1 (insert_idempotency-fresh row o.1 k),
          found,
          match_of_key-Stored o.0 o.1 row st refl,
        ))

pub commit-ok :
    {A : Type 0} (draw : Draw) (db : Db) (tx : Tx A) {a : A} {db' : Db}
    → commit draw db tx ≡ (ok a, db')
    → tx ≡ ok (a, db')
unfolding commit
commit-ok draw db tx h = ground arith

new_key-Answers :
    (draw : Draw) (cmd : RecordSwipeCommand) (db : Db) {out : RecordSwipeResult × Db}
    → new_key draw cmd db ≡ ok out
    → Answers cmd.idempotency_key out.0.swipe out.0.found out.1
unfolding new_key
new_key-Answers draw cmd db h =
    let (u, a, h₁) = bind-ok (ensure_animal_available cmd.animal_id db) _ h in
    let (s, e, h₂) = bind-ok (new_swipe draw.swipe_id cmd draw.now) _ h₁ in
    store_swipe-Answers draw cmd s db h₂

some-inj : {A : Type 0} {a b : A} → ◌≡◌ {A = Option A} (some a) (some b) → a ≡ b
some-inj h = cc

answer_of-replayed :
    (db : Db) (o : Option IdempotencyKey) {r : RecordSwipeResult}
    → answer_of db o ≡ ok (some r)
    → r ≡ replayed r.swipe r.found
unfolding replayed
answer_of-replayed db none h = absurd cc
answer_of-replayed db (some row) {r} h =
    let (s, f, h₁) = bind-ok (found_row (swipe_by_id row.swipe_id db.swipes)) _ h in
    let (m, g, h₂) = bind-ok (match_of_key db row) _ h₁ in
    let e : some (replayed s m) ≡ some r = ok-inj h₂ in
    let e' : replayed s m ≡ r = some-inj e in subst (λ x. x ≡ replayed x.swipe x.found) e' refl

or_replay-find :
    (draw : Draw) (cmd : RecordSwipeCommand) (db : Db) (o : Option RecordSwipeResult)
    {r : RecordSwipeResult} {db' : Db}
    → find_idempotency cmd.idempotency_key db ≡ ok o
    → or_replay db (new_key draw cmd db) o ≡ ok (r, db')
    → find_idempotency cmd.idempotency_key db' ≡ ok (some (replayed r.swipe r.found))
unfolding find_idempotency
or_replay-find draw cmd db none {r} {db'} f h =
    Answers-find cmd.idempotency_key r.swipe r.found db' (new_key-Answers draw cmd db h)
or_replay-find draw cmd db (some x) {r} {db'} f h =
    let e = ok-inj h in
    subst (λ o. find_idempotency cmd.idempotency_key o.1 ≡ ok (some (replayed o.0.swipe o.0.found)))
      e (f ∙ ap (λ y. ok (some y)) (answer_of-replayed db (key_row cmd.idempotency_key db) f))

-- A call that comes directly after a call that has succeeded, with the same key and on a database that
-- answers, gives the same swipe and the same match, whatever else it asks for, flagged as a
-- repetition, and changes no table.
pub record_swipe-replay :
    (draw draw' : Draw) (cmd cmd' : RecordSwipeCommand) (db : Db) {r : RecordSwipeResult} {db' : Db}
    → record_swipe draw cmd db ≡ (ok r, db')
    → cmd'.idempotency_key ≡ cmd.idempotency_key
    → draw'.healthy ≡ true
    → record_swipe draw' cmd' db' ≡ (ok (replayed r.swipe r.found), db')
unfolding record_swipe commit
record_swipe-replay draw draw' cmd cmd' db {r} {db'} h e v =
    let (o, f, k) = bind-ok (find_idempotency cmd.idempotency_key db) _ (commit-ok draw db _ h) in
    let g = or_replay-find draw cmd db o f k in rw (e, g, v) refl
