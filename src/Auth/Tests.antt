-- ===== src/Auth/Tests.antt =====
-- The theorems of the model of backend/auth-service, at concrete calls.
use capibarco.Base.{ℕ, ◌≡◌, ◌≢◌, refl, true, none, some, [], ◌∷◌, arith}
use capibarco.Base.Text.{lit, text_eq}
use capibarco.Base.Table.{find}
use capibarco.Base.Result.{ok, err, is_ok, value_of}
use capibarco.Base.Action.{◌>>=◌, guard, attempt_only}
use capibarco.Auth.Domain.{token_reused}
use capibarco.Auth.Outside.{World, draw, request, now, new_id, random_token}
use capibarco.Auth.Store
use capibarco.Auth.Store.{has_hash}
use capibarco.Auth.Tokens.{
  IssuedRefreshToken, or_error, issue, reject_reuse, replace_token, find_token,
  rotate_refresh_token,
}
use capibarco.Auth.Access.{log, try_publish, publish, issue_access_for_user}
use capibarco.Auth.Service.{refresh_token}
use capibarco.Auth.Session.{refresh_call, forgot_call, run, serve}
use capibarco.Auth.Reuse.{refresh_once}
use capibarco.Auth.Family.{is_dead}
use capibarco.Auth.Detection.{reuse_revokes_family, dead_forever}
use capibarco.Auth.Samples.{test_env, token_row, world_with}

-- A live token, and one that was rotated before.
abbrev start : World
start =
    world_with
      (token_row (lit "r0") (lit "old") (some 1) ∷ token_row (lit "r1") (lit "raw") none ∷ [])

refreshes : is_ok (refresh_token test_env (lit "raw") start).0 ≡ true
unfolding refresh_token rotate_refresh_token find_token or_error request draw now new_id
    random_token issue replace_token Store.get_refresh_token_by_hash Store.create_refresh_token
    Store.revoke_refresh_token Store.get_user_by_id Store.log_event Store.publish_event
    issue_access_for_user log publish try_publish guard attempt_only text_eq ◌>>=◌
refreshes = refl

refresh_once_example :
    (refresh_token test_env (lit "raw") (
      run test_env
        (refresh_call (lit "raw") ∷ forgot_call (lit "t") (lit "a@b") [] ∷ [])
        (refresh_token test_env (lit "raw") start).1)).0
    ≢ ok (value_of (refresh_token test_env (lit "raw") start).0 refreshes).0
refresh_once_example =
    refresh_once test_env (lit "raw") start
      (value_of (refresh_token test_env (lit "raw") start).0 refreshes).1
      (refresh_call (lit "raw") ∷ forgot_call (lit "t") (lit "a@b") [] ∷ [])
      (value_of (refresh_token test_env (lit "raw") start).0 refreshes).0

reused : (rotate_refresh_token test_env (lit "old") start).0 ≡ err token_reused
unfolding rotate_refresh_token find_token or_error request draw now reject_reuse
    Store.get_refresh_token_by_hash Store.revoke_refresh_token_family guard text_eq ◌>>=◌
reused = refl

found_old :
    find (has_hash (35 ∷ lit "old")) start.refresh_tokens
    ≡ some (token_row (lit "r0") (lit "old") (some 1))
unfolding text_eq
found_old = refl

reuse_revokes_family_example :
    is_dead (lit "fam") (rotate_refresh_token test_env (lit "old") start).1.refresh_tokens ≡ true
reuse_revokes_family_example =
    reuse_revokes_family test_env (lit "old") start (token_row (lit "r0") (lit "old") (some 1))
      found_old reused

-- A dead family beside a live one.
abbrev half_dead : World
half_dead = world_with (
    token_row (lit "r0") (lit "old") (some 1)
    ∷ record (token_row (lit "r1") (lit "raw") none) { family_id = lit "other" }
    ∷ [])

dead_half : is_dead (lit "fam") half_dead.refresh_tokens ≡ true
unfolding is_dead text_eq
dead_half = refl

rotates :
    is_ok
      (rotate_refresh_token test_env
        (lit "raw")
        (run test_env (refresh_call (lit "old") ∷ []) half_dead)).0
    ≡ true
unfolding run serve refresh_token rotate_refresh_token find_token or_error request draw now new_id
    random_token issue replace_token reject_reuse Store.get_refresh_token_by_hash
    Store.create_refresh_token Store.revoke_refresh_token Store.revoke_refresh_token_family
    Store.get_user_by_id Store.log_event Store.publish_event issue_access_for_user log publish
    try_publish guard attempt_only text_eq ◌>>=◌
rotates = refl

abbrev rotation :
    (r : IssuedRefreshToken) × ((rotate_refresh_token test_env
        (lit "raw")
        (run test_env (refresh_call (lit "old") ∷ []) half_dead)).0
      ≡ ok r)
rotation =
    value_of
      (rotate_refresh_token test_env (lit "raw")
        (run test_env (refresh_call (lit "old") ∷ []) half_dead)).0
      rotates

not_the_family : (n : ℕ) → some (n ∷ []) ≢ some (lit "fam")
not_the_family n h = ground arith

dead_forever_example : rotation.0.token.family_id ≢ lit "fam"
dead_forever_example =
    dead_forever test_env (lit "fam") not_the_family half_dead dead_half
      (refresh_call (lit "old") ∷ []) (lit "raw") rotation.0 rotation.1
