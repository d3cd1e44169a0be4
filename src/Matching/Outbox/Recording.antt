-- ===== src/Matching/Outbox/Recording.antt =====
-- The statements of `RecordSwipe` of backend/matching-service/internal/infra/postgres/store.go, next to
-- the events that they announce.
use mathlib.Core.Path.{subst}
use capibarco.Base.{
  ℕ, ◌≡◌, refl, ◌∙◌, ap, sym, Bool, true, false, Option, none, [], ◌∷◌, ◌++◌, arith, inl, inr,
  if◌then◌else◌, Bool-cases,
}
use capibarco.Base.Text.{Text, trim_space, trim_space_idem}
use capibarco.Base.Result.{ok, bind-ok, ok-inj}
use capibarco.Matching.Domain.{
  Swipe, Match, is_right, RecordSwipeCommand, new_swipe, new_match_from_swipe,
  validate_record_swipe_command,
}
use capibarco.Matching.Store.{
  Db, Draw, OutboxEvent, RecordSwipeResult, swipe_event, match_event, insert_swipe, insert_match,
  insert_outbox, insert_idempotency, insert_swipe_recorded_event, insert_match_created_event,
  store_match, store_swipe, IdempotencyKey,
}
use capibarco.Matching.Outbox.{
  recorded, created, pairs, right_pairs, ids, IsConsistent, recorded-append, created-append,
  pairs-append, right_pairs-append, ids-append, append-nil,
}

pub insert_swipe-record :
    (s : Swipe) (db : Db) {db' : Db}
    → insert_swipe s db ≡ ok db'
    → record db { swipes = db.swipes ++ (s ∷ []) } ≡ db'
unfolding insert_swipe
insert_swipe-record s db h = ground arith

pub insert_match-record :
    (m : Match) (db : Db) {db' : Db}
    → insert_match m db ≡ ok db'
    → record db { matches = db.matches ++ (m ∷ []) } ≡ db'
unfolding insert_match
insert_match-record m db h = ground arith

pub insert_idempotency-record :
    (row : IdempotencyKey) (db : Db) {db' : Db}
    → insert_idempotency row db ≡ ok db'
    → record db { idempotency_keys = db.idempotency_keys ++ (row ∷ []) } ≡ db'
unfolding insert_idempotency
insert_idempotency-record row db h = ground arith

pub insert_outbox-record :
    (e : OutboxEvent) (db : Db) {db' : Db}
    → insert_outbox e db ≡ ok db'
    → record db { outbox_events = db.outbox_events ++ (e ∷ []) } ≡ db'
unfolding insert_outbox
insert_outbox-record e db h = ground arith

pub new_swipe-trimmed :
    (id : Text) (cmd : RecordSwipeCommand) (now : ℕ) {s : Swipe}
    → new_swipe id cmd now ≡ ok s
    → (trim_space s.animal_id ≡ s.animal_id) × (trim_space s.actor_id ≡ s.actor_id)
unfolding new_swipe validate_record_swipe_command
new_swipe-trimmed id cmd now h =
    ground (arith, trim_space_idem cmd.animal_id, trim_space_idem cmd.actor_id)

new_match-pair :
    (id : Text) (s : Swipe) {m : Match}
    → new_match_from_swipe id s ≡ ok m
    → (m.animal_id ≡ trim_space s.animal_id) × (m.adopter_profile_id ≡ trim_space s.actor_id)
unfolding new_match_from_swipe
new_match-pair id s h = ground arith

-- The swipe is stored and announced, and its match, if it is to have one, is not.
abbrev Pending : Swipe → Db → Type 0
Pending s db =
    (pairs db.matches ++ right_pairs (s ∷ []) ≡ right_pairs db.swipes)
    × (recorded db.outbox_events ≡ db.swipes)
    × (created db.outbox_events ≡ ids db.matches)

announce-swipe :
    (s : Swipe) (i key : Text) (db db₁ db₂ : Db)
    → IsConsistent db
    → insert_swipe s db ≡ ok db₁
    → insert_swipe_recorded_event i s key db₁ ≡ ok db₂
    → Pending s db₂
unfolding insert_swipe_recorded_event IsConsistent
announce-swipe s i key db db₁ db₂ (p, r, c) h k = subst (Pending s) (insert_outbox-record _ db₁ k) (
    subst
      (λ d. Pending s (record d { outbox_events = d.outbox_events ++ (swipe_event i s key ∷ []) }))
      (insert_swipe-record s db h)
      (
        ap (λ xs. xs ++ right_pairs (s ∷ [])) p ∙ sym (right_pairs-append db.swipes (s ∷ [])),
        recorded-append db.outbox_events _ ∙ ap (λ xs. xs ++ (s ∷ [])) r,
        created-append db.outbox_events _ ∙ append-nil (created db.outbox_events) ∙ c,
      ))

announce-match :
    (s : Swipe) (m : Match) (i key : Text) (db db₁ db₂ : Db)
    → Pending s db
    → (m.animal_id, m.adopter_profile_id) ∷ [] ≡ right_pairs (s ∷ [])
    → insert_match m db ≡ ok db₁
    → insert_match_created_event i m s key db₁ ≡ ok db₂
    → IsConsistent db₂
unfolding insert_match_created_event IsConsistent
announce-match s m i key db db₁ db₂ (p, r, c) e h k =
    subst IsConsistent (insert_outbox-record _ db₁ k) (
      subst
        (λ d.
          IsConsistent
            (record d { outbox_events = d.outbox_events ++ (match_event i m s key ∷ []) }))
        (insert_match-record m db h)
        (
          pairs-append db.matches (m ∷ []) ∙ ap (λ xs. pairs db.matches ++ xs) e ∙ p,
          recorded-append db.outbox_events _ ∙ append-nil (recorded db.outbox_events) ∙ r,
          created-append db.outbox_events _
              ∙ ap (λ xs. xs ++ (m.id ∷ [])) c
              ∙ sym (ids-append db.matches (m ∷ [])),
        ))

store_match-IsConsistent :
    (draw : Draw) (s : Swipe) (key : Text) (db : Db) {out : Option Match × Db}
    → Pending s db
    → is_right s.direction ≡ true
    → trim_space s.animal_id ≡ s.animal_id
    → trim_space s.actor_id ≡ s.actor_id
    → store_match draw s key db ≡ ok out
    → IsConsistent out.1
unfolding store_match
store_match-IsConsistent draw s key db w d ta tb h =
    let (m, e, h₁) = bind-ok (new_match_from_swipe draw.match_id s) _ h in
    let (db₁, i, h₂) = bind-ok (insert_match m db) _ h₁ in
    let (db₂, a, h₃) = bind-ok (insert_match_created_event (draw.event_id 1) m s key db₁) _ h₂ in
    let (an, ad) = new_match-pair draw.match_id s e in
    let same : (m.animal_id, m.adopter_profile_id) ∷ [] ≡ right_pairs (s ∷ []) =
      rw (d, an, ad, ta, tb) refl in
    subst (λ o. IsConsistent o.1) (ok-inj h₃)
      (announce-match s m (draw.event_id 1) key db db₁ db₂ w same i a)

if_true : {A : Type 0} {b : Bool} (x y : A) → b ≡ true → (if b then x else y) ≡ x
if_true x y d = rw d refl

if_false : {A : Type 0} {b : Bool} (x y : A) → b ≡ false → (if b then x else y) ≡ y
if_false x y d = rw d refl

no_right_pair : (s : Swipe) → is_right s.direction ≡ false → right_pairs (s ∷ []) ≡ []
no_right_pair s d = rw d refl

-- Behind the announcement of the swipe: its match if it is a right swipe, and nothing else.
store_right-IsConsistent :
    (draw : Draw) (s : Swipe) (key : Text) (db : Db) {out : Option Match × Db}
    → Pending s db
    → trim_space s.animal_id ≡ s.animal_id
    → trim_space s.actor_id ≡ s.actor_id
    → (if is_right s.direction then store_match draw s key db else ok (none, db)) ≡ ok out
    → IsConsistent out.1
unfolding IsConsistent
store_right-IsConsistent draw s key db w ta tb h = elim (Bool-cases (is_right s.direction)) [
  | inl d ↦ store_match-IsConsistent draw s key db w d ta tb (sym (if_true _ _ d) ∙ h)
  | inr d ↦
      subst (λ o. IsConsistent o.1) (ok-inj (sym (if_false (store_match draw s key db) _ d) ∙ h))
        (
          sym (append-nil (pairs db.matches))
              ∙ ap (λ xs. pairs db.matches ++ xs) (sym (no_right_pair s d))
              ∙ w.0,
          w.1,
          w.2,
        )
]

pub store_swipe-IsConsistent :
    (draw : Draw) (cmd : RecordSwipeCommand) (s : Swipe) (db : Db) {out : RecordSwipeResult × Db}
    → IsConsistent db
    → trim_space s.animal_id ≡ s.animal_id
    → trim_space s.actor_id ≡ s.actor_id
    → store_swipe draw cmd s db ≡ ok out
    → IsConsistent out.1
unfolding store_swipe IsConsistent
store_swipe-IsConsistent draw cmd s db w ta tb h =
    let key = cmd.idempotency_key in
    let (db₁, i, h₁) = bind-ok (insert_swipe s db) _ h in
    let (db₂, a, h₂) = bind-ok (insert_swipe_recorded_event (draw.event_id 0) s key db₁) _ h₁ in
    let (o, r, h₃) =
      bind-ok (if is_right s.direction then store_match draw s key db₂ else ok (none, db₂)) _ h₂ in
    let (db₄, k, h₄) = bind-ok (insert_idempotency _ o.1) _ h₃ in
    let w₂ = announce-swipe s (draw.event_id 0) key db db₁ db₂ w i a in
    let w₃ = store_right-IsConsistent draw s key db₂ w₂ ta tb r in
    subst (λ x. IsConsistent x.1) (ok-inj h₄)
      (subst IsConsistent (insert_idempotency-record _ o.1 k) w₃)
