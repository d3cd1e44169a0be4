-- ===== src/Animal/Service.antt =====
-- backend/animal-service/internal/app/animal/service.go: the calls that change a profile.
use capibarco.Base.{ℕ, not, Option, none, some, List, [], if◌then◌else◌, is_empty}
use capibarco.Base.Int.{pos}
use capibarco.Base.Text.{Text, lit, text_eq, trim_space, is_blank}
use capibarco.Base.Result.{Result, ok, err}
use capibarco.Base.Action.{pure, lift, guard, ◌>>=◌, ◌>>◌}
use capibarco.Animal.Domain.{AnimalError, invalid_argument, forbidden, Profile, Photo}
use capibarco.Animal.Profile as Aggregate
use capibarco.Animal.Outside.{
  ServiceError, domain, Event, Env, Animals, draw, request, get_row, update_row, create_row,
  register_idempotency, publish_event,
}

abbrev pub of_domain : {A : Type 0} → Result AnimalError A → Result ServiceError A
of_domain (ok a) = ok a
of_domain (err e) = err (domain e)

-- The profile that `ApplyPatch` changed, unless it failed.
abbrev pub patched : Profile × Option AnimalError → Result AnimalError Profile
patched (p, none) = ok p
patched (p, some e) = err e

unfoldable pub now : Env → Animals ℕ
now env = draw env.clock

unfoldable pub new_id : Env → Animals Text
new_id env = draw env.fresh

unfoldable pub get : Env → Text → Animals Profile
get env id = do guard (is_blank id) (domain invalid_argument); request env (get_row id)

unfoldable pub get_owned : Env → Text → Text → Animals Profile
get_owned env animal_id actor_id = do
  guard (is_blank actor_id) (domain invalid_argument)
  p ← get env animal_id
  guard (not (text_eq p.owner_profile_id (trim_space actor_id))) (domain forbidden)
  pure p

unfoldable pub new_event : Env → Text → Profile → Animals Event
new_event env event_type p = do
  id ← new_id env
  at ← now env
  pure (record {
    id = id;
    event_type = event_type;
    animal = p;
    photo = none;
    old_status = none;
    new_status = none;
    reason = [];
    idempotency_key = [];
    occurred_at = at;
  })

-- The steps that the calls of an owner share: the profile is loaded, changed and stored. The result
-- is the profile that was loaded with the one that is stored.
unfoldable pub change_owned :
    Env → Text → Text → (ℕ → Profile → Result AnimalError Profile) → Animals (Profile × Profile)
change_owned env animal_id actor_id change = do
  p ← get_owned env animal_id actor_id
  at ← now env
  q ← lift (of_domain (change at p))
  updated ← request env (update_row q)
  pure (p, updated)

-- A new event of the profile, with what the handler adds to it.
unfoldable pub announce : Env → Text → Profile → (Event → Event) → Animals (Unit {0})
announce env event_type p complete = do
  event ← new_event env event_type p
  request env (publish_event (complete event))

unfoldable pub update_animal : Env → Text → Text → Profile → List Text → Animals Profile
update_animal env actor_id animal_id patch update_mask = do
  both ←
      change_owned env animal_id actor_id
        λ at p. patched (Aggregate.apply_patch env.go patch update_mask actor_id at p)
  announce env (lit "animal.profile_updated") both.1 (λ e. e)
  pure both.1

-- The event of a change of the status.
abbrev pub status_changed : Profile → Profile → Text → Event → Event
status_changed old new reason e = record e {
  old_status = some old.status;
  new_status = some new.status;
  reason = reason;
}

unfoldable pub publish_animal : Env → Text → Text → Animals Profile
publish_animal env actor_id animal_id = do
  both ← change_owned env animal_id actor_id λ at p. Aggregate.publish actor_id at p
  announce env (lit "animal.status_changed") both.1 (status_changed both.0 both.1 (lit "published"))
  announce env (lit "animal.profile_published") both.1 (λ e. e)
  pure both.1

unfoldable pub archive_animal : Env → Text → Text → Text → Animals Profile
archive_animal env actor_id animal_id reason = do
  both ← change_owned env animal_id actor_id λ at p. Aggregate.archive reason actor_id at p
  announce env (lit "animal.status_changed") both.1 (status_changed both.0 both.1 reason)
  announce env (lit "animal.profile_archived") both.1
      λ e. record e { old_status = some both.0.status; reason = reason }
  pure both.1

unfoldable pub add_animal_photo : Env → Text → Text → Text → Photo → Animals Profile
add_animal_photo env actor_id animal_id key photo = do
  both ← change_owned env animal_id actor_id λ at p. Aggregate.add_photo env.go photo actor_id at p
  request env (register_idempotency key both.1.id)
  announce env (lit "animal.photo_added") both.1
      λ e. record e { photo = some photo; idempotency_key = key }
  pure both.1

unfoldable pub remove_animal_photo : Env → Text → Text → Text → Animals Profile
remove_animal_photo env actor_id animal_id photo_id = do
  both ← change_owned env animal_id actor_id λ at p. Aggregate.remove_photo photo_id actor_id at p
  announce env (lit "animal.profile_updated") both.1 (λ e. e)
  pure both.1

-- The steps that the handlers of events share.
unfoldable pub change_any :
    Env → Text → (ℕ → Profile → Result AnimalError Profile) → Animals Profile
change_any env animal_id change = do
  p ← request env (get_row animal_id)
  at ← now env
  q ← lift (of_domain (change at p))
  request env (update_row q)

unfoldable pub apply_boost_activated : Env → Text → Text → ℕ → Animals (Unit {0})
apply_boost_activated env actor_id animal_id expires_at = do
  q ← change_any env animal_id λ at p. Aggregate.mark_boosted expires_at actor_id at p
  announce env (lit "animal.status_changed") q λ e. record e { reason = lit "boost_activated" }

unfoldable pub apply_donation_succeeded : Env → Text → Text → Animals (Unit {0})
apply_donation_succeeded env actor_id animal_id = do
  q ← change_any env animal_id λ at p. ok (Aggregate.increment_donation_count actor_id at p)
  pure tt

unfoldable pub apply_match_created : Env → Text → Text → Animals (Unit {0})
apply_match_created env actor_id animal_id = do
  q ← change_any env animal_id λ at p. ok (Aggregate.increment_interest_count actor_id at p)
  pure tt

-- The photo that `Create` makes of the address in the command.
abbrev pub first_photo : Text → Text → Photo
first_photo id url = record {
  id = id;
  url = url;
  blurhash = [];
  width = pos 1;
  height = pos 1;
  content_type = lit "image/jpeg";
  sort_order = pos 0;
  created_at = 0;
}

unfoldable pub with_initial_photo : Env → Text → Text → ℕ → Profile → Animals Profile
with_initial_photo env url actor_id at p = if is_empty url then pure p else do
  id ← new_id env
  lift (of_domain (Aggregate.add_photo env.go (first_photo id url) actor_id at p))

-- `seed` is the profile with the fields of the command, and the others at their zero values.
unfoldable pub create_animal : Env → Text → Profile → Text → Text → Animals Profile
create_animal env actor_id seed initial_photo_url key = do
  guard (is_blank actor_id) (domain invalid_argument)
  at ← now env
  id ← new_id env
  drafted ← lift (of_domain (Aggregate.new_profile env.go (record seed { id = id }) actor_id at))
  p ← with_initial_photo env initial_photo_url actor_id at drafted
  created ← request env (create_row p key)
  if not (text_eq created.id p.id)
      then pure created
      else announce env (lit "animal.profile_created") created
          (λ e. record e { idempotency_key = key })
        >> pure created
