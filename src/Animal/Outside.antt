-- ===== src/Animal/Outside.antt =====
-- What backend/animal-service/internal/app/animal/service.go reaches: the ports as an environment whose
-- calls are numbered, and the world that they change, with the statements of
-- backend/animal-service/internal/infra/postgres/repository.go.
use capibarco.Base.{
  ℕ, suc, Bool, Option, none, some, List, [], ◌∷◌, ◌++◌, if◌then◌else◌, exists, is_empty,
}
use capibarco.Base.Text.{Text, text_eq, is_blank}
use capibarco.Base.Table.{find, update}
use capibarco.Base.Result.{Result, ok, err}
use capibarco.Base.Action.{Action}
use capibarco.Base.Action.Ports.{Fate, met}
use capibarco.Animal.Domain.{AnimalError, not_found, conflict, Status, Profile, Photo, Go}

-- An error of the domain, or of a port.
pub data ServiceError : Type 0 where
  domain : AnimalError → ServiceError
  outside : ServiceError

-- The fields of an event that its handler may leave empty are options.
pub record Event : Type 0 where
  pub id : Text
  pub event_type : Text
  pub animal : Profile
  pub photo : Option Photo
  pub old_status : Option Status
  pub new_status : Option Status
  pub reason : Text
  pub idempotency_key : Text
  pub occurred_at : ℕ

pub record Env : Type 0 where
  pub go : Go
  -- what becomes of the call of a port with a number
  pub fate : ℕ → Fate
  -- the clock and the identifier generator at a call
  pub clock : ℕ → ℕ
  pub fresh : ℕ → Text

pub record World : Type 0 where
  -- the number of the next call
  pub tick : ℕ
  pub animals : List Profile
  -- keys with the animals that they are linked to
  pub idempotency_keys : List (Text × Text)
  pub published : List Event

abbrev pub Animals : Type 0 → Type 0
Animals A = Action World ServiceError A

abbrev pub after : World → World
after w = record w { tick = suc w.tick }

-- A call that reads what the environment has at its number.
unfoldable pub draw : {A : Type 0} → (ℕ → A) → Animals A
draw f w = (ok (f w.tick), after w)

-- A call of a port that may fail on its way.
unfoldable pub request : {A : Type 0} → Env → Animals A → Animals A
request env m w = met outside (env.fate w.tick) (m (after w)) (after w)

abbrev pub has_id : Text → Profile → Bool
has_id id p = text_eq p.id id

abbrev pub or_not_found : {A : Type 0} → Option A → Result ServiceError A
or_not_found none = err (domain not_found)
or_not_found (some a) = ok a

unfoldable pub get_row : Text → Animals Profile
get_row id w = (or_not_found (find (has_id id) w.animals), w)

unfoldable pub update_row : Profile → Animals Profile
update_row p w =
    if exists (has_id p.id) w.animals
    then (ok p, record w { animals = update (has_id p.id) (λ old. p) w.animals })
    else (err (domain not_found), w)

abbrev key_is : Text → Text × Text → Bool
key_is key link = text_eq link.0 key

abbrev linked : List Profile → Option (Text × Text) → Option Profile
linked animals none = none
linked animals (some (key, id)) = find (has_id id) animals

-- `getByIdempotencyKey`
unfoldable pub get_by_idempotency_key : Text → World → Option Profile
get_by_idempotency_key key w = linked w.animals (find (key_is key) w.idempotency_keys)

-- The two insertions of `Create`, in one transaction.
abbrev insert_row : Profile → Text → Animals Profile
insert_row p key w =
    if exists (has_id p.id) w.animals
    then (err (domain conflict), w)
    else if is_empty key
    then (ok p, record w { animals = w.animals ++ (p ∷ []) })
    else if exists (key_is key) w.idempotency_keys
    then (err (domain conflict), w)
    else (
      ok p,
      record w {
        animals = w.animals ++ (p ∷ []);
        idempotency_keys = w.idempotency_keys ++ ((key, p.id) ∷ []);
      },
    )

abbrev create_unless : Option Profile → Profile → Text → Animals Profile
create_unless (some existing) p key w = (ok existing, w)
create_unless none p key w = insert_row p key w

unfoldable pub create_row : Profile → Text → Animals Profile
create_row p key w =
    create_unless (if is_empty key then none else get_by_idempotency_key key w) p key w

-- `ON CONFLICT (key) DO NOTHING`
unfoldable pub register_idempotency : Text → Text → Animals (Unit {0})
register_idempotency key id w =
    if is_blank key
    then (ok tt, w)
    else if exists (key_is key) w.idempotency_keys
    then (ok tt, w)
    else (ok tt, record w { idempotency_keys = w.idempotency_keys ++ ((key, id) ∷ []) })

-- `EventPublisher.Publish`
unfoldable pub publish_event : Event → Animals (Unit {0})
publish_event event w = (ok tt, record w { published = w.published ++ (event ∷ []) })
