-- ===== src/Auth/Guard.antt =====
-- src/auth/guard.ts: `requireAuth`, the guard of the authenticated routes.
pub mod Admission
use Prim.Native.Char.{code}
use Prim.Native.String
use text.Mathlib.Text.{starts_with}
use stohr.Common.{
  ℕ, zero, suc, ◌+◌, ◌*◌, ◌≡◌, Bool, true, false, not, ◌&&◌, ◌||◌, Option, none, some, List, [],
  ◌∷◌, String, str_eq, ltb, leb, find, update_where, is_none, is_some, if◌then◌else◌, ◌==◌, or_else,
  opt_eq,
}
use stohr.Db.{UserRow}
use stohr.Oauth.Scopes.{parse_scope, includes, is_space}
use stohr.Oauth.State.{ClientRow}
use stohr.Auth.Sessions.{SessionRow, SessionStatus, is_session_active}
use stohr.Auth.Touch.{SessionState, touch_session}
use stohr.Auth.Credentials.{
  AppRow, AuthState, Payload, Env, Conn, Options, Refusal, missing_header, invalid_app_token,
  missing_user, invalid_token, account_deleted, account_suspended, no_oauth_allowed,
  insufficient_scope, session_revoked, Via, app, oauth, session, Auth, Verdict, halted, assigned,
  auth_of, skip, trim_start, trim_end, trim, bearer, required_scope, account_error, user_of,
  use_app, app_used, has_token_hash,
}

pub admit_app : Env → AppRow → AuthState → AuthState × Verdict
admit_app env a st = elim (user_of st a.user_id) [
  | none ↦ (st, halted 401 missing_user)
  | some u ↦
      if not (u.team_id == env.host_team)
      then (st, halted 401 invalid_app_token)
      else elim (account_error u) [
        | some e ↦ (st, e)
        | none ↦ (app_used env a st, auth_of env u (app a.id))
      ]
]

-- A token that begins with `stohr_pat_`.
pub require_app : Env → String → AuthState → AuthState × Verdict
unfolding admit_app
require_app env token st = elim (find (has_token_hash (env.hash_token token)) st.apps) [
  | none ↦ (st, halted 401 invalid_app_token)
  | some a ↦ admit_app env a st
]

abbrev after : Option ℕ → ℕ → Bool
after none now = false
after (some exp) now = ltb now (exp * 1000)

abbrev issued_before : Option ℕ → ℕ → Bool
issued_before none now = false
issued_before (some iat) now = leb (iat * 1000) (now + 60 * 1000)

abbrev positive : Option ℕ → Bool
positive none = false
positive (some id) = ltb 0 id

-- Only a session token or an OAuth access token in its time is a bearer credential.
abbrev pub is_bearer : ℕ → Payload → Bool
is_bearer now p =
    not p.has_kind && positive p.id && after p.exp now && issued_before p.iat now && is_some p.jti

-- `JOIN oauth_clients oc ON oc.client_id = $2 AND oc.revoked_at IS NULL`
abbrev pub client_is_live : AuthState → String → Bool
client_is_live st client_id =
    is_some (find (λ c. str_eq c.client_id client_id && is_none c.revoked_at) st.clients)

pub admit_oauth : Env → String → ℕ → UserRow → AuthState → AuthState × Verdict
admit_oauth env client_id epoch u st =
    if not (u.team_id == env.host_team) || not (epoch == u.oauth_epoch)
    then (st, halted 401 invalid_token)
    else elim (account_error u) [ some e ↦ (st, e) | none ↦ (st, auth_of env u (oauth client_id)) ]

-- A token with a client id.
pub require_oauth : Env → Options → Conn → String → ℕ → Payload → AuthState → AuthState × Verdict
unfolding admit_oauth
require_oauth env opts conn client_id id p st =
    if opts.no_oauth
    then (st, halted 403 no_oauth_allowed)
    else if not
        (includes (parse_scope (or_else p.scope "")) (or_else opts.scope (required_scope conn)))
    then (st, halted 403 insufficient_scope)
    else if not (client_is_live st client_id)
    then (st, halted 401 invalid_token)
    else elim (user_of st id) [
      | none ↦ (st, halted 401 invalid_token)
      | some u ↦ admit_oauth env client_id (or_else p.oauth_epoch 0) u st
    ]

abbrev pub touched : Env → String → AuthState → AuthState
touched env jti st = record st { sessions = touch_session env.now env.write_ok jti st.sessions }

pub admit_session : Env → String → UserRow → AuthState → AuthState × Verdict
admit_session env jti u st =
    if not (u.team_id == env.host_team)
    then (st, halted 401 invalid_token)
    else elim (account_error u) [
      | some e ↦ (touched env jti st, e)
      | none ↦ (touched env jti st, auth_of env u (session jti))
    ]

abbrev pub is_session_of : SessionStatus → ℕ → Bool
is_session_of s id = s.active && opt_eq s.user_id id

-- A token without a client id.
pub require_session : Env → String → ℕ → AuthState → AuthState × Verdict
unfolding admit_session
require_session env jti id st =
    if not (is_session_of (is_session_active env.now jti st.sessions.rows) id)
    then (st, halted 401 session_revoked)
    else elim (user_of st id) [
      | none ↦ (touched env jti st, halted 403 account_deleted)
      | some u ↦ admit_session env jti u st
    ]

pub require_payload : Env → Options → Conn → Payload → AuthState → AuthState × Verdict
unfolding require_oauth require_session
require_payload env opts conn p st =
    if not (is_bearer env.now p) then (st, halted 401 invalid_token) else elim p.client_id [
      | some client_id ↦ require_oauth env opts conn client_id (or_else p.id 0) p st
      | none ↦ require_session env (or_else p.jti "") (or_else p.id 0) st
    ]

unfoldable pub require_auth : Env → Options → Conn → AuthState → AuthState × Verdict
unfolding require_app require_payload
require_auth env opts conn st = elim (bearer conn.authorization) [
  | none ↦ (st, halted 401 missing_header)
  | some token ↦
      if starts_with token "stohr_pat_" then require_app env token st else elim (env.verify token) [
        | none ↦ (st, halted 401 invalid_token)
        | some p ↦ require_payload env opts conn p st
      ]
]
