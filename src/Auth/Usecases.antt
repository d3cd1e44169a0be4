-- ===== src/Auth/Usecases.antt =====
-- Each usecase of backend/auth-service keeps a stable property of the token tables.
use capibarco.Base.{ℕ, ◌≡◌, refl, Option, none, some, List}
use capibarco.Base.Text.{Text}
use capibarco.Base.Result.{Result, ok, err}
use capibarco.Base.Action.Keeps.{Keeps, Keeps-bind, Keeps-bind-given, Keeps-guard, keeps_rules}
use capibarco.Auth.Domain.{AuthError, User, RefreshToken, PasswordResetToken, Payload, TokenClaims}
use capibarco.Auth.Outside.{Env, draw, or_outside-ok, new_id}
use capibarco.Auth.Tokens.{
  issue, issue_refresh_token, reject_reuse, replace_token, spend_token, find_token,
  rotate_refresh_token,
}
use capibarco.Auth.Access.{log, try_publish, publish, issue_access_for_user, issue_auth_output}
use capibarco.Auth.Service.{
  RegisterInput, LoginInput, register, login, welcome, refresh_token, validate_token, get_user_info,
  deny, authorize,
}
use capibarco.Auth.Reset.{
  send_reset_mail, start_reset, start_if_found, forgot_password, complete_reset, finish_reset,
  find_reset, reset_password,
}
use capibarco.Auth.Stable
use capibarco.Auth.Stable.{
  Tables, Stable, On, find_token-found, store_rules, Keeps-now, Keeps-new_id,
}

module _ {env : Env} {Q : Tables} {Admits : Text → Type 0} (stable : Stable env Q Admits) where
  pub Keeps-log :
      (t u a o ip : Text) (metadata : List (Text × Text))
      → Keeps (On Q) (log env t u a o ip metadata)
  unfolding log
  Keeps-log t u a o ip metadata = search store_rules

  pub Keeps-try_publish :
      (key : Text) (payload : Payload) → Keeps (On Q) (try_publish env key payload)
  unfolding try_publish
  Keeps-try_publish key payload = search store_rules

  pub Keeps-publish : (key : Text) (payload : Payload) → Keeps (On Q) (publish env key payload)
  unfolding publish
  Keeps-publish key payload = search (store_rules, Keeps-try_publish)

  pub Keeps-issue_access : (user : User) → Keeps (On Q) (issue_access_for_user env user)
  unfolding issue_access_for_user
  Keeps-issue_access user = search store_rules

  pub Keeps-issue : (t u f : Text) → Admits f → Keeps (On Q) (issue env t u f)
  unfolding issue
  Keeps-issue t u f admitted = search store_rules depth 14

  pub Keeps-issue_refresh_token : (user : User) → Keeps (On Q) (issue_refresh_token env user)
  unfolding issue_refresh_token new_id draw
  Keeps-issue_refresh_token user = Keeps-bind-given _ _ (Keeps-new_id stable) λ f w h e.
      Keeps-issue user.tenant_id user.id f
        (stable.first w.tick f (or_outside-ok (env.fresh w.tick) e))

  pub Keeps-issue_auth_output : (user : User) → Keeps (On Q) (issue_auth_output env user)
  unfolding issue_auth_output
  Keeps-issue_auth_output user = search (store_rules, Keeps-issue_access, Keeps-issue_refresh_token)

  pub ruleset access_rules =
      (store_rules, Keeps-log, Keeps-publish, Keeps-issue_access, Keeps-issue_auth_output)

  pub Keeps-register : (input : RegisterInput) → Keeps (On Q) (register env input)
  unfolding register
  Keeps-register input = search access_rules depth 14

  pub Keeps-welcome : (input : LoginInput) (user : User) → Keeps (On Q) (welcome env input user)
  unfolding welcome
  Keeps-welcome input user = search access_rules

  pub Keeps-login : (input : LoginInput) → Keeps (On Q) (login env input)
  unfolding login
  Keeps-login input = search (access_rules, Keeps-welcome) depth 14

  pub Keeps-reject_reuse : (t : RefreshToken) (at : ℕ) → Keeps (On Q) (reject_reuse env t at)
  unfolding reject_reuse
  Keeps-reject_reuse t at = search store_rules

  pub Keeps-replace_token :
      (t : RefreshToken) (at : ℕ) → Admits t.family_id → Keeps (On Q) (replace_token env t at)
  unfolding replace_token
  Keeps-replace_token t at admitted = search (store_rules, Keeps-issue)

  pub Keeps-spend_token :
      (t : RefreshToken) (at : ℕ) (c : Option ℕ)
      → (c ≡ none → Admits t.family_id)
      → Keeps (On Q) (spend_token env t at c)
  Keeps-spend_token t at none admitted = Keeps-replace_token t at (admitted refl)
  Keeps-spend_token t at (some c) admitted = Keeps-reject_reuse t at

  pub Keeps-find_token : (h : Text) → Keeps (On Q) (find_token env h)
  unfolding find_token
  Keeps-find_token h = search store_rules

  pub Keeps-rotate : (raw : Text) → Keeps (On Q) (rotate_refresh_token env raw)
  unfolding rotate_refresh_token On
  Keeps-rotate raw = Keeps-bind _ _ (Keeps-now stable) λ at.
      Keeps-bind-given _ _ (Keeps-find_token _) λ t w h e. Keeps-bind _ _ (Keeps-guard _ _) λ _.
        Keeps-spend_token t at t.revoked_at λ live.
          stable.rotation w.refresh_tokens w.reset_tokens _ t h (find_token-found env _ w e) live

  pub Keeps-refresh_token : (raw : Text) → Keeps (On Q) (refresh_token env raw)
  unfolding refresh_token
  Keeps-refresh_token raw = search (access_rules, Keeps-rotate) depth 14

  pub Keeps-send_reset_mail : (t e r : Text) → Keeps (On Q) (send_reset_mail env t e r)
  unfolding send_reset_mail
  Keeps-send_reset_mail t e r = search store_rules

  pub Keeps-start_reset : (t e ip : Text) (user : User) → Keeps (On Q) (start_reset env t e ip user)
  unfolding start_reset
  Keeps-start_reset t e ip user = search (access_rules, Keeps-send_reset_mail) depth 14

  pub Keeps-start_if_found :
      (t e ip : Text) (found : Result AuthError User)
      → Keeps (On Q) (start_if_found env t e ip found)
  Keeps-start_if_found t e ip (ok user) = Keeps-start_reset t e ip user
  Keeps-start_if_found t e ip (err _) = search keeps_rules

  pub Keeps-complete_reset :
      (t p ip : Text) (token : PasswordResetToken) (at : ℕ)
      → Keeps (On Q) (complete_reset env t p ip token at)
  unfolding complete_reset
  Keeps-complete_reset t p ip token at = search access_rules depth 14

  pub Keeps-forgot_password : (t e ip : Text) → Keeps (On Q) (forgot_password env t e ip)
  unfolding forgot_password
  Keeps-forgot_password t e ip = search (store_rules, Keeps-start_if_found)

  pub Keeps-finish_reset :
      (t p ip : Text) (token : PasswordResetToken) (at : ℕ) (c : Option ℕ)
      → Keeps (On Q) (finish_reset env t p ip token at c)
  Keeps-finish_reset t p ip token at none = search (keeps_rules, Keeps-complete_reset)
  Keeps-finish_reset t p ip token at (some c) = search keeps_rules

  pub Keeps-find_reset : (h : Text) → Keeps (On Q) (find_reset env h)
  unfolding find_reset
  Keeps-find_reset h = search store_rules

  pub Keeps-reset_password : (t r p ip : Text) → Keeps (On Q) (reset_password env t r p ip)
  unfolding reset_password
  Keeps-reset_password t r p ip =
      search (store_rules, Keeps-find_reset, Keeps-finish_reset) depth 14

  pub Keeps-get_user_info : (access : Text) → Keeps (On Q) (get_user_info env access)
  unfolding get_user_info validate_token
  Keeps-get_user_info access = search store_rules

  pub Keeps-deny : (claims : TokenClaims) (p : Text) → Keeps (On Q) (deny env claims p)
  unfolding deny
  Keeps-deny claims p = search access_rules

  pub Keeps-authorize : (access p : Text) → Keeps (On Q) (authorize env access p)
  unfolding authorize validate_token
  Keeps-authorize access p = search (store_rules, Keeps-deny)
