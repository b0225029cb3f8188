-- ===== src/Auth/Sessions.antt =====
-- src/security/sessions.ts: the table of sessions. The signature of the session token is not part
-- of the state; its random id is an argument. Times are in milliseconds.
pub mod Revocation
use stohr.Common.{
  ℕ, suc, ◌+◌, ◌-◌, ◌*◌, ◌≡◌, Bool, true, false, not, ◌&&◌, Option, none, some, List, [], ◌∷◌,
  String, str_eq, ltb, leb, find, any, filter, delete_where, update_where, is_none, if◌then◌else◌,
  ◌==◌, length,
}

abbrev pub session_ttl_ms : ℕ
session_ttl_ms = 86400 * 7 * 1000

pub record SessionRow : Type 0 where
  pub id : String
  pub user_id : ℕ
  pub expires_at : ℕ
  pub revoked_at : Option ℕ
  pub last_used_at : Option ℕ

-- The row of a new session.
abbrev pub new_session : ℕ → String → ℕ → SessionRow
new_session now jti user_id = record {
  id = jti;
  user_id = user_id;
  expires_at = now + session_ttl_ms;
  revoked_at = none;
  last_used_at = none;
}

unfoldable pub issue_session : ℕ → String → ℕ → List SessionRow → List SessionRow
issue_session now jti user_id rows = new_session now jti user_id ∷ rows

pub record SessionStatus : Type 0 where
  pub active : Bool
  pub user_id : Option ℕ

abbrev pub has_id : String → SessionRow → Bool
has_id jti s = str_eq s.id jti

abbrev status_of : ℕ → Option SessionRow → SessionStatus
status_of now none = record { active = false; user_id = none }
status_of now (some s) = record {
  active = is_none s.revoked_at && not (ltb s.expires_at now);
  user_id = some s.user_id;
}

unfoldable pub is_session_active : ℕ → String → List SessionRow → SessionStatus
is_session_active now jti rows = status_of now (find (has_id jti) rows)

-- `WHERE id = $1 AND user_id = $2 AND revoked_at IS NULL`
abbrev pub live_session : String → ℕ → SessionRow → Bool
live_session jti user_id s = has_id jti s && s.user_id == user_id && is_none s.revoked_at

unfoldable pub revoke_session : ℕ → String → ℕ → List SessionRow → List SessionRow × Bool
revoke_session now jti user_id rows = (
  update_where (live_session jti user_id) (λ s. record s { revoked_at = some now }) rows,
  any (live_session jti user_id) rows,
)

-- An absent or empty exception excepts nothing.
abbrev pub excepted : Option String → SessionRow → Bool
excepted none s = false
excepted (some jti) s = not (str_eq jti "") && has_id jti s

abbrev pub live_session_of : ℕ → Option String → SessionRow → Bool
live_session_of user_id except_jti s =
    s.user_id == user_id && is_none s.revoked_at && not (excepted except_jti s)

unfoldable pub revoke_all_sessions : ℕ → ℕ → Option String → List SessionRow → List SessionRow × ℕ
revoke_all_sessions now user_id except_jti rows = (
  update_where (live_session_of user_id except_jti) (λ s. record s { revoked_at = some now }) rows,
  length (filter (live_session_of user_id except_jti) rows),
)

unfoldable pub sweep_expired_sessions : ℕ → List SessionRow → List SessionRow
sweep_expired_sessions now rows = delete_where (λ s. ltb s.expires_at now) rows

abbrev pub touch_interval_ms : ℕ
touch_interval_ms = 5 * 60 * 1000

-- `UPDATE … SET last_used_at = NOW() WHERE id = $1`
abbrev pub use_session : ℕ → String → List SessionRow → List SessionRow
use_session now jti rows =
    update_where (has_id jti) (λ s. record s { last_used_at = some now }) rows
