-- ===== src/Auth/Session.antt =====
-- A session of backend/auth-service: calls of its usecases one after another, each with its faults.
use capibarco.Base.{List, [], ◌∷◌}
use capibarco.Base.Text.{Text}
use capibarco.Auth.Outside.{Env, World}
use capibarco.Auth.Service.{
  RegisterInput, LoginInput, register, login, refresh_token, validate_token, get_user_info,
  authorize,
}
use capibarco.Auth.Reset.{forgot_password, reset_password}
use capibarco.Auth.Stable.{Tables, Stable, On, Keeps-draw}
use capibarco.Auth.Usecases.{
  Keeps-register, Keeps-login, Keeps-refresh_token, Keeps-forgot_password, Keeps-reset_password,
  Keeps-get_user_info, Keeps-authorize,
}

pub data Call : Type 0 where
  register_call : RegisterInput → Call
  login_call : LoginInput → Call
  refresh_call : Text → Call
  forgot_call : Text → Text → Text → Call
  reset_call : Text → Text → Text → Text → Call
  validate_call : Text → Call
  user_info_call : Text → Call
  authorize_call : Text → Text → Call

unfoldable pub serve : Env → Call → World → World
serve env (register_call input) w = (register env input w).1
serve env (login_call input) w = (login env input w).1
serve env (refresh_call raw) w = (refresh_token env raw w).1
serve env (forgot_call tenant_id email ip) w = (forgot_password env tenant_id email ip w).1
serve env (reset_call tenant_id token password ip) w =
    (reset_password env tenant_id token password ip w).1
serve env (validate_call access) w = (validate_token env access w).1
serve env (user_info_call access) w = (get_user_info env access w).1
serve env (authorize_call access permission) w = (authorize env access permission w).1

unfoldable pub run : Env → List Call → World → World
run env [] w = w
run env (c ∷ calls) w = run env calls (serve env c w)

module _ {env : Env} {Q : Tables} {Admits : Text → Type 0} (stable : Stable env Q Admits) where
  On-serve : (c : Call) (w : World) → On Q w → On Q (serve env c w)
  unfolding serve
  On-serve (register_call input) w h = (Keeps-register stable input).at w h
  On-serve (login_call input) w h = (Keeps-login stable input).at w h
  On-serve (refresh_call raw) w h = (Keeps-refresh_token stable raw).at w h
  On-serve (forgot_call t e ip) w h = (Keeps-forgot_password stable t e ip).at w h
  On-serve (reset_call t r p ip) w h = (Keeps-reset_password stable t r p ip).at w h
  On-serve (validate_call a) w h = unfold validate_token in (Keeps-draw stable _).at w h
  On-serve (user_info_call a) w h = (Keeps-get_user_info stable a).at w h
  On-serve (authorize_call a p) w h = (Keeps-authorize stable a p).at w h

  pub On-run : (calls : List Call) (w : World) → On Q w → On Q (run env calls w)
  unfolding run
  On-run [] w h = h
  On-run (c ∷ calls) w h = On-run calls (serve env c w) (On-serve c w h)
