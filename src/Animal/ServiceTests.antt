-- ===== src/Animal/ServiceTests.antt =====
-- The theorem on the calls of the animal service, at a concrete call.
use capibarco.Base.{◌≡◌, refl, true, [], ◌∷◌}
use capibarco.Base.Text.{lit, text_eq, trim_space, trim_left, trim_right, is_space, is_blank}
use capibarco.Base.Result.{ok, is_ok, value_of}
use capibarco.Base.Action.{guard, ◌>>=◌}
use capibarco.Base.Action.Ports.{answered}
use capibarco.Animal.Domain.{Status, Visibility, Profile}
use capibarco.Animal.Profile as Aggregate
use capibarco.Animal.Samples.{go, photo, profile}
use capibarco.Animal.Outside.{Env, World, draw, request, get_row, update_row, publish_event}
use capibarco.Animal.Service.{
  now, new_id, get, get_owned, new_event, change_owned, announce, publish_animal,
}
use capibarco.Animal.Owner.{IsOwnersChange}
use capibarco.Animal.Refinement.{publish_call, serve_owner, command_of, serve_owner-refines}

abbrev test_env : Env
test_env = record { go = go; fate = λ n. answered; clock = λ n. n; fresh = λ n. n ∷ [] }

abbrev start : World
start = record {
  tick = 0;
  animals = profile Status.draft Visibility.private 0 [] (photo (lit "p1") ∷ []) ∷ [];
  idempotency_keys = [];
  published = [];
}

publishes : is_ok (serve_owner test_env (lit "ann") (lit "a1") publish_call start).0 ≡ true
unfolding serve_owner publish_animal change_owned get_owned get now new_id new_event announce draw
    request get_row update_row publish_event Aggregate.publish guard text_eq is_blank trim_space
    trim_left trim_right is_space ◌>>=◌
publishes = refl

abbrev made :
    (q : Profile) × ((serve_owner test_env (lit "ann") (lit "a1") publish_call start).0 ≡ ok q)
made = value_of (serve_owner test_env (lit "ann") (lit "a1") publish_call start).0 publishes

serve_owner-refines_example :
    IsOwnersChange test_env
      (lit "ann")
      (lit "a1")
      (command_of (lit "ann") publish_call)
      start
      (serve_owner test_env (lit "ann") (lit "a1") publish_call start).1
      made.0
serve_owner-refines_example =
    serve_owner-refines test_env (lit "ann") (lit "a1") publish_call start made.1
