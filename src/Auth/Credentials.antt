-- ===== src/Auth/Credentials.antt =====
-- src/auth/guard.ts: the rows, the claims and the header that the guard reads. The library's check of
-- a token's signature is a part of `Env`, and gives the token's claims, whose times are whole seconds;
-- the clock of the server and the database is in milliseconds.
use text.Mathlib.Text.{starts_with}
use stohr.Common.{
  ℕ, zero, suc, Bool, ◌&&◌, ◌||◌, Option, none, some, List, String, str_eq, find, update_where,
  is_some, if◌then◌else◌, ◌==◌,
}
use stohr.Db.{UserRow}
use stohr.Oauth.Scopes.{is_space}
use stohr.Oauth.State.{ClientRow}
use stohr.Auth.Touch.{SessionState}

pub record AppRow : Type 0 where
  pub id : ℕ
  pub user_id : ℕ
  pub token_hash : String
  pub last_used_at : Option ℕ

pub record AuthState : Type 0 where
  pub users : List UserRow
  pub apps : List AppRow
  pub clients : List ClientRow
  pub sessions : SessionState

-- The claims of a verified token; a claim that is absent or of another type is `none`. The epoch is a
-- number where it is present, as the server signs it.
pub record Payload : Type 0 where
  pub has_kind : Bool
  pub id : Option ℕ
  pub exp : Option ℕ
  pub iat : Option ℕ
  pub jti : Option String
  pub client_id : Option String
  pub scope : Option String
  pub oauth_epoch : Option ℕ

-- What the guard does not itself compute.
pub record Env : Type 0 where
  pub now : ℕ
  pub host_team : ℕ
  pub host_is_root : Bool
  pub verify : String → Option Payload
  pub hash_token : String → String
  pub write_ok : Bool

pub record Conn : Type 0 where
  pub method : String
  pub path : String
  pub authorization : Option String

pub record Options : Type 0 where
  pub scope : Option String
  pub no_oauth : Bool

pub data Refusal : Type 0 where
  missing_header invalid_app_token missing_user invalid_token account_deleted : Refusal
  account_suspended no_oauth_allowed insufficient_scope session_revoked : Refusal

pub data Via : Type 0 where
  app : ℕ → Via
  oauth : String → Via
  session : String → Via

-- What a handler finds in `c.assigns.auth`.
pub record Auth : Type 0 where
  pub id : ℕ
  pub team_id : ℕ
  pub team_admin : Bool
  pub is_root : Bool
  pub via : Via

pub data Verdict : Type 0 where
  halted : ℕ → Refusal → Verdict
  assigned : Auth → Verdict

abbrev pub auth_of : Env → UserRow → Via → Verdict
auth_of env u via = assigned (record {
  id = u.id;
  team_id = u.team_id;
  team_admin = u.team_admin;
  is_root = env.host_is_root;
  via = via;
})

abbrev pub skip : ℕ → String → String
skip zero s = s
skip (suc n) String.[] = String.[]
skip (suc n) (String.◌∷◌ c s) = skip n s

abbrev pub trim_start : String → String
trim_start String.[] = String.[]
trim_start (String.◌∷◌ c s) = let rest = trim_start s in if is_space c then rest else String.◌∷◌ c s

abbrev pub trim_end : String → String
trim_end String.[] = String.[]
trim_end (String.◌∷◌ c s) =
    let rest = trim_end s in if is_space c && str_eq rest "" then String.[] else String.◌∷◌ c rest

abbrev pub trim : String → String
trim s = trim_end (trim_start s)

-- The bearer token of the header, if it has one.
abbrev pub bearer : Option String → Option String
bearer none = none
bearer (some header) = if starts_with header "Bearer " then some (trim (skip 7 header)) else none

unfoldable pub required_scope : Conn → String
required_scope conn =
    if str_eq conn.path "/shares" || starts_with conn.path "/shares/"
    then "share"
    else if str_eq conn.method "GET" || str_eq conn.method "HEAD"
    then "read"
    else "write"

abbrev pub account_error : UserRow → Option Verdict
account_error u =
    if is_some u.deleted_at
    then some (halted 403 account_deleted)
    else if is_some u.suspended_at
    then some (halted 403 account_suspended)
    else none

unfoldable pub user_of : AuthState → ℕ → Option UserRow
user_of st id = find (λ u. u.id == id) st.users

abbrev pub use_app : ℕ → AppRow → AuthState → AuthState
use_app now a st = record st {
  apps = update_where (λ x. x.id == a.id) (λ x. record x { last_used_at = some now }) st.apps;
}

-- A write that fails is passed over.
abbrev pub app_used : Env → AppRow → AuthState → AuthState
app_used env a st = if env.write_ok then use_app env.now a st else st

abbrev pub has_token_hash : String → AppRow → Bool
has_token_hash hash a = str_eq a.token_hash hash
