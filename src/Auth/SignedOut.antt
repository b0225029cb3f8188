-- ===== src/Auth/SignedOut.antt =====
-- src/auth/guard.ts with src/security/sessions.ts: a user whose sessions were all revoked.
use stohr.Common.{ℕ, ◌≡◌, ◌≢◌, ◌∙◌, none, String, arith}
use stohr.Auth.Sessions.{revoke_all_sessions}
use stohr.Auth.Sessions.Revocation.{revoke_all-ends}
use stohr.Auth.Credentials.{AuthState, Env, Options, Conn, Auth, session, assigned}
use stohr.Auth.Guard.{require_auth}
use stohr.Auth.Guard.Admission.{require_auth-Admits, user_of-id}

-- The state in which all sessions of the user are revoked.
abbrev pub signed_out : ℕ → ℕ → AuthState → AuthState
signed_out now user_id st = record st {
  sessions = record st.sessions {
    rows = (revoke_all_sessions now user_id none st.sessions.rows).0;
  };
}

-- Behind the revocation of all sessions of a user, whatever the time, the guard lets no request
-- through as a session of that user.
pub signed_out-not_admitted :
    (env : Env) (opts : Options) (conn : Conn) (now user_id : ℕ) (st st' : AuthState) (a : Auth)
    (jti : String)
    → require_auth env opts conn (signed_out now user_id st) ≡ (st', assigned a)
    → a.id ≡ user_id
    → a.via ≢ session jti
signed_out-not_admitted env opts conn now user_id st st' a jti h mine via =
    let p = require_auth-Admits env opts conn (signed_out now user_id st) st' a h in
    let shows = p.shows in
    let (q, v, b, c, j, i, live) = rw via at shows in
    let is_user : p.user.id ≡ user_id =
      user_of-id (signed_out now user_id st) a.id p.user p.is_open.user_is_found ∙ mine in
    let live' = rw is_user at live in
    revoke_all-ends now env.now user_id jti st.sessions.rows (ground arith) (ground arith)
