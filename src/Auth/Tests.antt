-- ===== src/Auth/Tests.antt =====
-- Runs of the guard and of the session table (src/auth/guard.ts, src/security/sessions.ts).
use stohr.Common.{
  ◌≡◌, ◌≢◌, ◌≤◌, refl, true, false, Option, none, some, List, [], ◌∷◌, String, str_eq,
  if◌then◌else◌, arith, length,
}
use stohr.Db.{UserRow}
use stohr.Oauth.Scopes.{parse_scope}
use stohr.Auth.Sessions.{SessionRow, new_session, is_session_active}
use stohr.Auth.Touch.{touch_session, touch_session-bounded}
use stohr.Auth.Credentials.{
  AuthState, Payload, Env, Conn, Options, Auth, oauth, session, halted, assigned,
  insufficient_scope, required_scope, user_of,
}
use stohr.Auth.Guard.{require_auth}
use stohr.Auth.Guard.Admission.{Admits, require_auth-Admits}
use stohr.Auth.SignedOut.{signed_out, signed_out-not_admitted}

abbrev alice : UserRow
alice = record {
  id = 7;
  is_owner = false;
  team_id = 2;
  team_admin = true;
  oauth_epoch = 3;
  storage_quota_bytes = 0;
  username = "ann";
  email = "ann@example.org";
  deleted_at = none;
  suspended_at = none;
}

abbrev two_sessions : List SessionRow
two_sessions = new_session 1000 "s1" 7 ∷ new_session 2000 "s2" 7 ∷ []

abbrev state : AuthState
state = record {
  users = alice ∷ [];
  apps = [];
  clients =
      record {
        client_id = "cli";
        client_secret_hash = none;
        allowed_scopes = "read" ∷ [];
        revoked_at = none;
      }
      ∷ [];
  sessions = record { rows = two_sessions; last_touched = ("s1", 5000) ∷ [] };
}

-- The token `jwt` is the session `s1` of user 7, and `acc` is an OAuth token of that user with the
-- scope `read`.
abbrev payload_of : String → Option Payload
payload_of token =
    if str_eq token "jwt"
    then some (record {
      has_kind = false;
      id = some 7;
      exp = some 100;
      iat = some 1;
      jti = some "s1";
      client_id = none;
      scope = none;
      oauth_epoch = none;
    })
    else if str_eq token "acc"
    then some (record {
      has_kind = false;
      id = some 7;
      exp = some 100;
      iat = some 1;
      jti = some "x";
      client_id = some "cli";
      scope = some "read";
      oauth_epoch = some 3;
    })
    else none

abbrev env : Env
env = record {
  now = 6000;
  host_team = 2;
  host_is_root = false;
  verify = payload_of;
  hash_token = λ s. s;
  write_ok = true;
}

abbrev request : String → String → Conn
request method header = record { method = method; path = "/files"; authorization = some header }

abbrev any_scope : Options
any_scope = record { scope = none; no_oauth = false }

abbrev admitted : Auth
admitted = record { id = 7; team_id = 2; team_admin = true; is_root = false; via = session "s1" }

abbrev admitted_oauth : Auth
admitted_oauth = record {
  id = 7;
  team_id = 2;
  team_admin = true;
  is_root = false;
  via = oauth "cli";
}

session_is_let_through :
    require_auth env any_scope (request "POST" "Bearer jwt ") state ≡ (state, assigned admitted)
unfolding require_auth user_of is_session_active touch_session
session_is_let_through = refl

oauth_is_let_through :
    require_auth env any_scope (request "GET" "Bearer acc") state ≡ (state, assigned admitted_oauth)
unfolding require_auth user_of required_scope parse_scope
oauth_is_let_through = refl

oauth_may_not_write :
    require_auth env any_scope (request "POST" "Bearer acc") state
    ≡ (state, halted 403 insufficient_scope)
unfolding require_auth required_scope parse_scope
oauth_may_not_write = refl

require_auth-Admits_example : Admits env any_scope (request "GET" "Bearer acc") state admitted_oauth
require_auth-Admits_example =
    require_auth-Admits env any_scope (request "GET" "Bearer acc") state state admitted_oauth
      oauth_is_let_through

-- Behind the revocation of user 7's sessions the OAuth token is still good.
oauth_after_sign_out :
    require_auth env any_scope (request "GET" "Bearer acc") (signed_out 5500 7 state)
    ≡ (signed_out 5500 7 state, assigned admitted_oauth)
unfolding require_auth user_of required_scope parse_scope
oauth_after_sign_out = refl

signed_out-not_admitted_example : admitted_oauth.via ≢ session "s1"
signed_out-not_admitted_example =
    signed_out-not_admitted env any_scope (request "GET" "Bearer acc") 5500 7 state
      (signed_out 5500 7 state) admitted_oauth "s1" oauth_after_sign_out refl

active_s2 : (is_session_active 6000 "s2" two_sessions).active ≡ true
unfolding is_session_active
active_s2 = refl

touch_session-bounded_example :
    length (touch_session 400000 false "s1" state.sessions).last_touched ≤ 10000
touch_session-bounded_example = touch_session-bounded 400000 false "s1" state.sessions (omega arith)
