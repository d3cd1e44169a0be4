-- ===== src/Animal/Reachable.antt =====
-- What holds of every profile that the calls of backend/animal-service/internal/domain/animal/model.go
-- can produce.
use mathlib.Core.Path.{subst}
use capibarco.Base.{ℕ, ◌≡◌, refl, ◌∙◌, true, Option, none, some, List, [], ◌∷◌, arith, inl, inr}
use capibarco.Base.Text.{Text}
use capibarco.Base.Result.{Result, ok, err, is_ok, Result-cases}
use capibarco.Animal.Domain.{
  AnimalError, Status, draft, archived, Visibility, private, Profile, Photo, Go, validate_base,
}
use capibarco.Animal.Profile.{
  is_draft, is_private, start_status, start_visibility, create, touch, normalize, new_profile,
  check_photos, publish, increment_donation_count, increment_interest_count,
}
use capibarco.Animal.Lifecycle.{
  Command, patch, publish_it, archive_it, add, remove, boost, donation, interest, apply,
  run_commands, stored, stored_patch, IsWellFormed, run_commands-keeps, check_photos-are_valid,
  hidden, added, removed, boosted-of,
}
use capibarco.Animal.Lifecycle.Frames.{Fixed, apply_patch-Fixed}

is_draft-start : (s : Status) → is_draft s ≡ true → s ≡ draft
is_draft-start draft h = refl
is_draft-start Status.unspecified h = absurd (ground arith)
is_draft-start Status.available h = absurd (ground arith)
is_draft-start Status.reserved h = absurd (ground arith)
is_draft-start Status.adopted h = absurd (ground arith)
is_draft-start archived h = absurd (ground arith)

is_private-start : (v : Visibility) → is_private v ≡ true → v ≡ private
is_private-start private h = refl
is_private-start Visibility.unspecified h = absurd (ground arith)
is_private-start Visibility.public h = absurd (ground arith)
is_private-start Visibility.unlisted h = absurd (ground arith)
is_private-start Visibility.suspended h = absurd (ground arith)

module _ (go : Go) (actor : Text) (now : ℕ) (p : Profile) where
  -- The tests that a new profile has passed.
  create-checks :
      {q : Profile}
      → create go actor now p ≡ ok q
      → (is_ok (validate_base p) ≡ true)
        × (is_draft (start_status p.status) ≡ true)
        × (is_private (start_visibility p.visibility) ≡ true)
        × (is_ok (check_photos go now p.photos) ≡ true)
  unfolding create
  create-checks h = ground arith

  create-record :
      {q : Profile} {photos : List Photo}
      → check_photos go now p.photos ≡ ok photos
      → create go actor now p ≡ ok q
      → record p {
        status = start_status p.status;
        visibility = start_visibility p.visibility;
        photos = photos;
        audit = record {
          created_at = now;
          updated_at = now;
          created_by = actor;
          updated_by = actor;
        };
      }
        ≡ q
  unfolding create
  create-record c h = ground arith

create-IsWellFormed :
    (go : Go) (actor : Text) (now : ℕ) (p : Profile) {q : Profile}
    → create go actor now p ≡ ok q
    → IsWellFormed go q
unfolding validate_base
create-IsWellFormed go actor now p h =
    let (b, d, v, k) = create-checks go actor now p h in
    elim (Result-cases (check_photos go now p.photos)) [
      | inl (photos, c) ↦
          subst (IsWellFormed go) (create-record go actor now p c h) (
            b,
            rw (is_draft-start _ d, is_private-start _ v) refl,
            check_photos-are_valid go now _ c,
          )
      | inr (x, c) ↦ absurd (ground arith)
    ]

-- Where the caller drops what a failing call leaves in memory, as the service does with a failing
-- ApplyPatch: every profile that `NewProfile` returns, after any sequence of calls, has its required
-- fields, is a private draft, publicly available or privately archived, and all of its photos are
-- valid.
pub run_commands-IsWellFormed :
    (go : Go) (seed : Profile) (actor : Text) (now : ℕ) (cs : List Command) {p : Profile}
    → new_profile go seed actor now ≡ ok p
    → IsWellFormed go (run_commands go p cs)
unfolding new_profile
run_commands-IsWellFormed go seed actor now cs {p} h =
    run_commands-keeps go cs p (create-IsWellFormed go actor now (normalize go seed) h)

-- Archived, and hidden.
abbrev pub IsHidden : Profile → Type 0
IsHidden p = (p.status ≡ archived) × (p.visibility ≡ private)

module _ (go : Go) where
  stored-IsHidden :
      (p : Profile) (r : Result AnimalError Profile)
      → IsHidden p
      → ((q : Profile) → r ≡ ok q → IsHidden q)
      → IsHidden (stored p r)
  stored-IsHidden p (ok q) w h = h q refl
  stored-IsHidden p (err e) w h = w

  patch-IsHidden :
      (p : Profile) (r : Profile × Option AnimalError)
      → IsHidden p
      → ((q : Profile) → r ≡ (q, none) → Fixed p q)
      → IsHidden (stored_patch p r)
  patch-IsHidden p (q, none) w h = let f = h q refl in (f.0 ∙ w.0, f.1 ∙ w.1)
  patch-IsHidden p (q, some e) w h = w

  never_published :
      (actor : Text) (now : ℕ) (p : Profile) {q : Profile}
      → p.status ≡ archived
      → publish actor now p ≡ ok q
      → ⊥
  unfolding publish
  never_published actor now p h e = ground arith

  apply-IsHidden : (c : Command) (p : Profile) → IsHidden p → IsHidden (apply go c p)
  unfolding apply increment_donation_count increment_interest_count touch
  apply-IsHidden (patch q mask actor now) p w =
      patch-IsHidden p _ w (λ r e. (apply_patch-Fixed go q mask actor now p e).0)
  apply-IsHidden (publish_it actor now) p w =
      stored-IsHidden p _ w (λ q e. absurd (never_published actor now p w.0 e))
  apply-IsHidden (archive_it reason actor now) p w =
      stored-IsHidden p _ w (λ q e. subst IsHidden (hidden go reason actor now p e) (refl, refl))
  apply-IsHidden (add photo actor now) p w =
      stored-IsHidden p _ w (λ q e. subst IsHidden (added go photo actor now p e).1 w)
  apply-IsHidden (remove i actor now) p w =
      stored-IsHidden p _ w (λ q e. subst IsHidden (removed go i actor now p e) w)
  apply-IsHidden (boost at actor now) p w =
      stored-IsHidden p _ w (λ q e. subst IsHidden (boosted-of go at actor now p e) w)
  apply-IsHidden (donation actor now) p w = w
  apply-IsHidden (interest actor now) p w = w

-- Archiving is final: a profile that is archived and private stays so under every sequence of calls.
pub run_commands-IsHidden :
    (go : Go) (cs : List Command) (p : Profile) → IsHidden p → IsHidden (run_commands go p cs)
unfolding run_commands
run_commands-IsHidden go [] p w = w
run_commands-IsHidden go (c ∷ cs) p w =
    run_commands-IsHidden go cs (apply go c p) (apply-IsHidden go c p w)
