-- ===== src/Auth/Guard/Admission.antt =====
-- src/auth/guard.ts: what a request that the guard lets through has shown.
use text.Mathlib.Text.{starts_with}
use stohr.Common.{
  ℕ, ◌≡◌, ◌≢◌, refl, sym, inl, inr, Bool, true, false, not, ◌||◌, none, some, String, find, ◌==◌,
  or_else, arith, Bool-cases, Option-cases, find_holds, ==_iff,
}
use stohr.Db.{UserRow}
use stohr.Oauth.Scopes.{parse_scope, includes}
use stohr.Auth.Sessions.{is_session_active}
use stohr.Auth.Credentials.{
  AppRow, AuthState, Payload, Env, Conn, Options, Via, app, oauth, session, Auth, Verdict, assigned,
  auth_of, bearer, required_scope, account_error, user_of, has_token_hash,
}
use stohr.Auth.Guard.{
  admit_app, require_app, is_bearer, client_is_live, admit_oauth, require_oauth, admit_session,
  is_session_of, require_session, require_payload, require_auth,
}

-- The account of the id is there, belongs to the host's team, and is neither deleted nor suspended.
pub record IsOpen (env : Env) (st : AuthState) (id : ℕ) (u : UserRow) : Type 0 where
  pub user_is_found : user_of st id ≡ some u
  pub user_is_on_host : u.team_id ≡ env.host_team
  pub user_is_not_deleted : u.deleted_at ≡ none
  pub user_is_not_suspended : u.suspended_at ≡ none

-- What the credential has shown: an app token is stored for the user; an OAuth token is verified and
-- in time, allowed on the route, of a live client, in the user's epoch and with the route's scope; a
-- session token is verified and in time, and its session is active and the user's.
abbrev pub Shows : Env → Options → Conn → AuthState → UserRow → String → Via → Type 0
Shows env opts conn st u token (app n) =
    (a : AppRow) × (find (has_token_hash (env.hash_token token)) st.apps ≡ some a)
    × (a.user_id ≡ u.id)
    × (a.id ≡ n)
Shows env opts conn st u token (oauth client_id) =
    (p : Payload) × (env.verify token ≡ some p)
    × (is_bearer env.now p ≡ true)
    × (p.client_id ≡ some client_id)
    × (or_else p.id 0 ≡ u.id)
    × (opts.no_oauth ≡ false)
    × (includes (parse_scope (or_else p.scope "")) (or_else opts.scope (required_scope conn))
        ≡ true)
    × (client_is_live st client_id ≡ true)
    × (or_else p.oauth_epoch 0 ≡ u.oauth_epoch)
Shows env opts conn st u token (session jti) =
    (p : Payload) × (env.verify token ≡ some p)
    × (is_bearer env.now p ≡ true)
    × (p.client_id ≡ none)
    × (or_else p.jti "" ≡ jti)
    × (or_else p.id 0 ≡ u.id)
    × (is_session_of (is_session_active env.now jti st.sessions.rows) u.id ≡ true)

pub record Admits (env : Env) (opts : Options) (conn : Conn) (st : AuthState) (a : Auth)
    : Type 0 where
  pub token : String
  pub user : UserRow
  pub has_token : bearer conn.authorization ≡ some token
  pub is_open : IsOpen env st a.id user
  pub is_team : a.team_id ≡ user.team_id
  pub is_team_admin : a.team_admin ≡ user.team_admin
  pub is_on_root : a.is_root ≡ env.host_is_root
  pub shows : Shows env opts conn st user token a.via

pub user_of-id : (st : AuthState) (id : ℕ) (u : UserRow) → user_of st id ≡ some u → u.id ≡ id
unfolding user_of
user_of-id st id u h = (==_iff u.id id).0 (find_holds (λ v. v.id == id) st.users u h)

-- A user that passed the checks of its account.
IsOpen-account :
    (env : Env) (st : AuthState) (id : ℕ) (u : UserRow)
    → user_of st id ≡ some u
    → (u.team_id == env.host_team) ≡ true
    → account_error u ≡ none
    → IsOpen env st id u
IsOpen-account env st id u found host ok = record {
  user_is_found = found;
  user_is_on_host = (==_iff u.team_id env.host_team).0 host;
  user_is_not_deleted = ground arith;
  user_is_not_suspended = ground arith;
}

admitted_as :
    (env : Env) (opts : Options) (conn : Conn) (st : AuthState) (token : String) (u : UserRow)
    (id : ℕ) (via : Via) (a : Auth)
    → bearer conn.authorization ≡ some token
    → IsOpen env st id u
    → Shows env opts conn st u token via
    → auth_of env u via ≡ assigned a
    → Admits env opts conn st a
admitted_as env opts conn st token u id via a t o s h =
    let same : a ≡ record {
      id = u.id;
      team_id = u.team_id;
      team_admin = u.team_admin;
      is_root = env.host_is_root;
      via = via;
    } =
      cc in
    let is_id : u.id ≡ id = user_of-id st id u o.user_is_found in
    let o' = rw (sym is_id) at o in
    record {
      token = token;
      user = u;
      has_token = t;
      is_open = rw same o';
      is_team = rw same refl;
      is_team_admin = rw same refl;
      is_on_root = rw same refl;
      shows = rw same s;
    }

account_error-not_assigned :
    (u : UserRow) (v : Verdict) (a : Auth) → account_error u ≡ some v → v ≢ assigned a
account_error-not_assigned u v a h e = absurd (ground arith)

require_app-Admits :
    (env : Env) (opts : Options) (conn : Conn) (token : String) (st st' : AuthState) (a : Auth)
    → bearer conn.authorization ≡ some token
    → require_app env token st ≡ (st', assigned a)
    → Admits env opts conn st a
unfolding require_app admit_app
require_app-Admits env opts conn token st st' a t h =
    elim (Option-cases (find (has_token_hash (env.hash_token token)) st.apps)) [
      | inl e ↦ let h' = rw (require_app, e) at h in absurd cc
      | inr (row, e) ↦ elim (Option-cases (user_of st row.user_id)) [
        | inl n ↦ let h' = rw (require_app, e, admit_app, n) at h in absurd cc
        | inr (u, n) ↦ elim (Bool-cases (u.team_id == env.host_team)) [
          | inr x ↦ let h' = rw (require_app, e, admit_app, n, x) at h in absurd cc
          | inl host ↦ elim (Option-cases (account_error u)) [
            | inr (v, x) ↦
                let h' = rw (require_app, e, admit_app, n, host, x) at h in
                absurd (account_error-not_assigned u v a x cc)
            | inl ok ↦
                let h' = rw (require_app, e, admit_app, n, host, ok) at h in
                admitted_as env opts conn st token u row.user_id (app row.id) a t
                  (IsOpen-account env st row.user_id u n host ok)
                  (row, e, sym (user_of-id st row.user_id u n), refl) cc
          ]
        ]
      ]
    ]

admit_oauth-Admits :
    (env : Env) (opts : Options) (conn : Conn) (token client_id : String) (id epoch : ℕ)
    (p : Payload) (u : UserRow) (st st' : AuthState) (a : Auth)
    → bearer conn.authorization ≡ some token
    → user_of st id ≡ some u
    → (epoch ≡ u.oauth_epoch → Shows env opts conn st u token (oauth client_id))
    → admit_oauth env client_id epoch u st ≡ (st', assigned a)
    → Admits env opts conn st a
unfolding admit_oauth
admit_oauth-Admits env opts conn token client_id id epoch p u st st' a t found shows h =
    elim (Bool-cases (not (u.team_id == env.host_team) || not (epoch == u.oauth_epoch))) [
      | inl x ↦ let h' = rw (admit_oauth, x) at h in absurd cc
      | inr good ↦ elim (Option-cases (account_error u)) [
        | inr (v, x) ↦
            let h' = rw (admit_oauth, good, x) at h in
            absurd (account_error-not_assigned u v a x cc)
        | inl ok ↦
            let h' = rw (admit_oauth, good, ok) at h in
            admitted_as env opts conn st token u id (oauth client_id) a t
              (IsOpen-account env st id u found (ground arith) ok) (shows (ground arith)) cc
      ]
    ]

require_oauth-Admits :
    (env : Env) (opts : Options) (conn : Conn) (token client_id : String) (p : Payload)
    (st st' : AuthState) (a : Auth)
    → bearer conn.authorization ≡ some token
    → env.verify token ≡ some p
    → is_bearer env.now p ≡ true
    → p.client_id ≡ some client_id
    → require_oauth env opts conn client_id (or_else p.id 0) p st ≡ (st', assigned a)
    → Admits env opts conn st a
unfolding require_oauth
require_oauth-Admits env opts conn token client_id p st st' a t v b c h =
    let scope : Bool =
      includes (parse_scope (or_else p.scope "")) (or_else opts.scope (required_scope conn)) in
    elim (Bool-cases opts.no_oauth) [
      | inl x ↦ let h' = rw (require_oauth, x) at h in absurd cc
      | inr allowed ↦ elim (Bool-cases scope) [
        | inr x ↦ let h' = rw (require_oauth, allowed, x) at h in absurd cc
        | inl scoped ↦ elim (Bool-cases (client_is_live st client_id)) [
          | inr x ↦ let h' = rw (require_oauth, allowed, scoped, x) at h in absurd cc
          | inl live ↦ elim (Option-cases (user_of st (or_else p.id 0))) [
            | inl x ↦ let h' = rw (require_oauth, allowed, scoped, live, x) at h in absurd cc
            | inr (u, found) ↦
                admit_oauth-Admits env opts conn token client_id (or_else p.id 0)
                  (or_else p.oauth_epoch 0) p u st st' a t found
                  (λ same. (
                    p,
                    v,
                    b,
                    c,
                    sym (user_of-id st (or_else p.id 0) u found),
                    allowed,
                    scoped,
                    live,
                    same,
                  ))
                  (rw (require_oauth, allowed, scoped, live, found) at h)
          ]
        ]
      ]
    ]

require_session-Admits :
    (env : Env) (opts : Options) (conn : Conn) (token : String) (p : Payload) (st st' : AuthState)
    (a : Auth)
    → bearer conn.authorization ≡ some token
    → env.verify token ≡ some p
    → is_bearer env.now p ≡ true
    → p.client_id ≡ none
    → require_session env (or_else p.jti "") (or_else p.id 0) st ≡ (st', assigned a)
    → Admits env opts conn st a
unfolding require_session admit_session
require_session-Admits env opts conn token p st st' a t v b c h =
    let id : ℕ = or_else p.id 0 in
    let jti : String = or_else p.jti "" in
    elim (Bool-cases (is_session_of (is_session_active env.now jti st.sessions.rows) id)) [
      | inr x ↦ let h' = rw (require_session, x) at h in absurd cc
      | inl live ↦ elim (Option-cases (user_of st id)) [
        | inl x ↦ let h' = rw (require_session, live, x) at h in absurd cc
        | inr (u, found) ↦ elim (Bool-cases (u.team_id == env.host_team)) [
          | inr x ↦ let h' = rw (require_session, live, found, admit_session, x) at h in absurd cc
          | inl host ↦ elim (Option-cases (account_error u)) [
            | inr (e, x) ↦
                let h' = rw (require_session, live, found, admit_session, host, x) at h in
                absurd (account_error-not_assigned u e a x cc)
            | inl ok ↦
                let h' = rw (require_session, live, found, admit_session, host, ok) at h in
                let is_id : id ≡ u.id = sym (user_of-id st id u found) in
                admitted_as env opts conn st token u id (session jti) a t
                  (IsOpen-account env st id u found host ok)
                  (p, v, b, c, refl, is_id, rw is_id at live) cc
          ]
        ]
      ]
    ]

-- A request that the guard lets through brought a bearer token of an account that is on the host's
-- team and neither deleted nor suspended, with the claims of that account; an app token is stored
-- for it; an OAuth token is verified, in time, of a live client, of the account's epoch, allowed on
-- the route and with its scope; a session token is verified, in time, and of an active session.
pub require_auth-Admits :
    (env : Env) (opts : Options) (conn : Conn) (st st' : AuthState) (a : Auth)
    → require_auth env opts conn st ≡ (st', assigned a)
    → Admits env opts conn st a
unfolding require_auth require_payload
require_auth-Admits env opts conn st st' a h = elim (Option-cases (bearer conn.authorization)) [
  | inl e ↦ let h' = rw (require_auth, e) at h in absurd cc
  | inr (token, e) ↦ elim (Bool-cases (starts_with token "stohr_pat_")) [
    | inl pat ↦ require_app-Admits env opts conn token st st' a e (rw (require_auth, e, pat) at h)
    | inr jwt ↦ elim (Option-cases (env.verify token)) [
      | inl v ↦ let h' = rw (require_auth, e, jwt, v) at h in absurd cc
      | inr (p, v) ↦ elim (Bool-cases (is_bearer env.now p)) [
        | inr b ↦ let h' = rw (require_auth, e, jwt, v, require_payload, b) at h in absurd cc
        | inl b ↦ elim (Option-cases p.client_id) [
          | inl c ↦
              require_session-Admits env opts conn token p st st' a e v b c
                (rw (require_auth, e, jwt, v, require_payload, b, c) at h)
          | inr (client_id, c) ↦
              require_oauth-Admits env opts conn token client_id p st st' a e v b c
                (rw (require_auth, e, jwt, v, require_payload, b, c) at h)
        ]
      ]
    ]
  ]
]
