-- ===== src/Matching/Archive.antt =====
-- `ArchiveMatchesByAnimal` of backend/matching-service/internal/infra/postgres/store.go: its loop
-- over the matches of an animal.
use mathlib.Core.Path.{subst}
use capibarco.Base.{
  ℕ, suc, ◌≡◌, refl, Bool, true, false, not, ◌||◌, ◌&&◌, List, [], ◌∷◌, arith, exists, keep,
}
use capibarco.Base.Text.{Text, text_eq, text_eq_refl}
use capibarco.Base.Result.{ok, bind-ok, ok-inj}
use capibarco.Matching.Domain.{Match, archived, archive_match}
use capibarco.Matching.Store.{Db, Draw, insert_outbox, archived_event, insert_match_archived_event}
use capibarco.Matching.Store.Lifecycle.{
  is_active_of, write_match, archive_all, archive_matches_by_animal,
}
use capibarco.Matching.Replay.{commit-ok}
use capibarco.Matching.Outbox.Recording.{insert_outbox-record}

abbrev has_id : Text → List Match → Bool
has_id i = exists (λ m. text_eq i m.id)

-- Every active match of the animal is still to come in the loop.
abbrev covered : Text → List Match → List Match → Bool
covered a ms [] = true
covered a ms (r ∷ rows) =
    let rest = covered a ms rows in (not (is_active_of a r) || has_id r.id ms) && rest

covered-weaken :
    (a : Text) (m : Match) (ms rows : List Match)
    → covered a ms rows ≡ true
    → covered a (m ∷ ms) rows ≡ true
covered-weaken a m ms [] h = refl
covered-weaken a m ms (r ∷ rows) h = ground (arith, covered-weaken a m ms rows)

covered-keep : (a : Text) (rows : List Match) → covered a (keep (is_active_of a) rows) rows ≡ true
covered-keep a [] = refl
covered-keep a (r ∷ rows) = ground (
  arith,
  text_eq_refl r.id,
  covered-keep a rows,
  covered-weaken a r (keep (is_active_of a) rows) rows,
)

covered-write :
    (a : Text) (m next : Match) (ms rows : List Match)
    → next.id ≡ m.id
    → next.status ≡ archived
    → covered a (m ∷ ms) rows ≡ true
    → covered a ms (write_match next rows) ≡ true
covered-write a m next ms [] i s h = refl
covered-write a m next ms (r ∷ rows) i s h = ground (arith, covered-write a m next ms rows i s)

covered-nil :
    (a : Text) (rows : List Match) → covered a [] rows ≡ true → exists (is_active_of a) rows ≡ false
covered-nil a [] h = refl
covered-nil a (r ∷ rows) h = ground (arith, covered-nil a rows)

archive_match-archived :
    (now : ℕ) (m : Match) {next : Match}
    → archive_match now m ≡ ok next
    → (next.id ≡ m.id) × (next.status ≡ archived)
unfolding archive_match
archive_match-archived now m h = ground arith

archive_all-covered :
    (a reason : Text) (draw : Draw) (n : ℕ) (ms : List Match) (db : Db) {out : List Match × Db}
    → covered a ms db.matches ≡ true
    → archive_all draw reason n ms db ≡ ok out
    → exists (is_active_of a) out.1.matches ≡ false
unfolding archive_all insert_match_archived_event
archive_all-covered a reason draw n [] db c h =
    subst (λ o. exists (is_active_of a) o.1.matches ≡ false) (ok-inj h) (covered-nil a db.matches c)
archive_all-covered a reason draw n (m ∷ ms) db c h =
    let (next, e, h₁) = bind-ok (archive_match draw.now m) _ h in
    let (db₁, k, h₂) =
      bind-ok (insert_outbox (archived_event (draw.event_id n) next.id reason) _) _ h₁ in
    let (o, r, h₃) = bind-ok (archive_all draw reason (suc n) ms db₁) _ h₂ in
    let (i, s) = archive_match-archived draw.now m e in
    let c₁ : covered a ms db₁.matches ≡ true =
      subst (λ d. covered a ms d.matches ≡ true) (insert_outbox-record _ _ k)
        (covered-write a m next ms db.matches i s c) in
    subst (λ x. exists (is_active_of a) x.1.matches ≡ false) (ok-inj h₃)
      (archive_all-covered a reason draw (suc n) ms db₁ c₁ r)

-- Where `ArchiveMatchesByAnimal` succeeds, no match of the animal is active any longer.
pub archive_matches_by_animal_lem :
    (draw : Draw) (animal_id reason : Text) (db : Db) {ms : List Match} {db' : Db}
    → archive_matches_by_animal draw animal_id reason db ≡ (ok ms, db')
    → exists (is_active_of animal_id) db'.matches ≡ false
unfolding archive_matches_by_animal
archive_matches_by_animal_lem draw animal_id reason db h =
    archive_all-covered animal_id reason draw 0 (keep (is_active_of animal_id) db.matches) db
      (covered-keep animal_id db.matches) (commit-ok draw db _ h)
