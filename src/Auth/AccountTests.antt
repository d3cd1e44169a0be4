-- ===== src/Auth/AccountTests.antt =====
-- The theorems on accounts of the model of backend/auth-service, at concrete calls.
use capibarco.Base.{◌≡◌, ◌≢◌, refl, true, [], ◌∷◌}
use capibarco.Base.Text.{lit, text_eq, is_blank, trim_space, trim_left, trim_right, is_space}
use capibarco.Base.Result.{ok, is_ok, value_of}
use capibarco.Base.Action.{◌>>=◌, guard, attempt_only}
use capibarco.Base.Action.Ports.{outcome_of}
use capibarco.Auth.Outside.{World, draw, request, now, new_id, random_token}
use capibarco.Auth.Store
use capibarco.Auth.Store.{has_hash}
use capibarco.Auth.Tokens.{
  or_error, issue, issue_refresh_token, replace_token, find_token, rotate_refresh_token,
}
use capibarco.Auth.Access.{
  AuthOutput, normalize_email, validate_tenant, validate_password, event_user, log, try_publish,
  publish, issue_access_for_user, issue_auth_output,
}
use capibarco.Auth.Service.{
  RegisterInput, LoginInput, register, login, welcome, refresh_token, validate_token, authorize,
}
use capibarco.Auth.Reset.{
  send_reset_mail, start_reset, forgot_password, complete_reset, find_reset, reset_password,
}
use capibarco.Auth.Session.{login_call, forgot_call, run, serve}
use capibarco.Auth.OneTime.{reset_once}
use capibarco.Auth.Login.{IsLogin, login_lem}
use capibarco.Auth.Registration.{IsRegistered, register_lem}
use capibarco.Auth.Owner.{session_user, authorize_lem}
use capibarco.Auth.Samples.{test_env, claims_of_alice, world_with}

abbrev start : World
start = world_with []

abbrev login_input : LoginInput
login_input = record {
  tenant_id = lit "t";
  email = lit " a@b ";
  password = lit "pw";
  ip = [];
  user_agent = [];
}

logs_in : is_ok (login test_env login_input start).0 ≡ true
unfolding login welcome normalize_email issue_auth_output issue_refresh_token or_error request draw
    now new_id random_token issue Store.get_user_by_email Store.create_refresh_token Store.log_event
    Store.publish_event issue_access_for_user log publish try_publish attempt_only text_eq
    trim_space trim_left trim_right is_space ◌>>=◌
logs_in = refl

abbrev logged : (out : AuthOutput) × ((login test_env login_input start).0 ≡ ok out)
logged = value_of (login test_env login_input start).0 logs_in

login_lem_example : IsLogin test_env login_input start (login test_env login_input start).1 logged.0
login_lem_example = login_lem test_env login_input start logged.1

refreshes :
    is_ok
      (refresh_token test_env logged.0.refresh_token (
        run test_env
          (forgot_call (lit "t") (lit "a@b") [] ∷ [])
          (login test_env login_input start).1)).0
    ≡ true
unfolding run serve forgot_password start_reset send_reset_mail outcome_of refresh_token
    rotate_refresh_token find_token replace_token guard login welcome normalize_email
    issue_auth_output issue_refresh_token or_error request draw now new_id random_token issue
    Store.get_user_by_email Store.get_user_by_id Store.create_refresh_token
    Store.get_refresh_token_by_hash Store.revoke_refresh_token Store.create_password_reset_token
    Store.send_password_reset Store.log_event Store.publish_event issue_access_for_user log publish
    try_publish attempt_only text_eq trim_space trim_left trim_right is_space ◌>>=◌
refreshes = refl

abbrev refreshed :
    (out : AuthOutput) × ((refresh_token test_env logged.0.refresh_token (
        run test_env
          (forgot_call (lit "t") (lit "a@b") [] ∷ [])
          (login test_env login_input start).1)).0
      ≡ ok out)
refreshed =
    value_of
      (refresh_token test_env logged.0.refresh_token (
        run test_env (forgot_call (lit "t") (lit "a@b") [] ∷ [])
          (login test_env login_input start).1)).0
      refreshes

session_user_example :
    (refreshed.0.user.tenant_id ≡ logged.0.user.tenant_id)
    × (refreshed.0.user.id ≡ logged.0.user.id)
session_user_example =
    session_user test_env login_input start logged.1 (forgot_call (lit "t") (lit "a@b") [] ∷ [])
      refreshed.1

abbrev register_input : RegisterInput
register_input = record {
  tenant_id = lit "t";
  email = lit " c@d ";
  password = lit "a long password";
  ip = [];
}

registers : is_ok (register test_env register_input start).0 ≡ true
unfolding register normalize_email validate_tenant validate_password is_blank Store.create_user
    issue_auth_output issue_refresh_token or_error request draw now new_id random_token issue
    Store.create_refresh_token Store.log_event Store.publish_event issue_access_for_user log publish
    try_publish event_user attempt_only text_eq trim_space trim_left trim_right is_space ◌>>=◌
registers = refl

abbrev joined : (out : AuthOutput) × ((register test_env register_input start).0 ≡ ok out)
joined = value_of (register test_env register_input start).0 registers

register_lem_example :
    IsRegistered test_env register_input start (register test_env register_input start).1 joined.0
register_lem_example = register_lem test_env register_input start joined.1

authorized : (authorize test_env (lit "access") (lit "a:b:c") start).0 ≡ ok (claims_of_alice, true)
unfolding authorize validate_token request draw ◌>>=◌
authorized = refl

authorize_lem_example :
    (test_env.validate_access_token 0 (lit "access") ≡ ok claims_of_alice)
    × (test_env.user_has_permission (lit "t") (lit "u1") (lit "a:b:c") ≡ ok true)
    × (true ≡ true)
authorize_lem_example = authorize_lem test_env (lit "access") (lit "a:b:c") start authorized

resets :
    is_ok (reset_password test_env (lit "t") (lit "reset") (lit "a new password") [] start).0 ≡ true
unfolding reset_password complete_reset find_reset validate_password
    Store.get_password_reset_token_by_hash Store.update_password Store.consume_password_reset_token
    Store.get_user_by_id or_error request draw now new_id Store.log_event Store.publish_event log
    publish try_publish guard attempt_only text_eq ◌>>=◌
resets = refl

reset_once_example :
    (reset_password test_env (lit "t") (lit "reset") (lit "another password") [] (
      run test_env
        (login_call login_input ∷ [])
        (reset_password test_env (lit "t") (lit "reset") (lit "a new password") [] start).1)).0
    ≢ ok tt
reset_once_example =
    reset_once test_env (lit "t") (lit "reset") (lit "a new password") [] start
      (value_of (reset_password test_env (lit "t") (lit "reset") (lit "a new password") [] start).0
        resets).1
      (login_call login_input ∷ []) (lit "t") (lit "another password") []
