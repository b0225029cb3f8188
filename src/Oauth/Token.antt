-- ===== src/Oauth/Token.antt =====
-- src/oauth/token.ts: the token endpoint over its three grants, the revocation endpoint and the
-- sweep. A grant's transaction is one step.
pub mod Codes
pub mod Refresh
pub mod Polling
pub mod Reuse
pub mod Replay
use stohr.Common.{
  ℕ, ◌-◌, ◌+◌, ◌*◌, Bool, true, false, not, ◌&&◌, ◌||◌, Option, none, some, List, [], ◌∷◌, String,
  ◌==◌, str_eq, ltb, leb, find, any, filter, delete_where, update_where, is_none, is_some,
  if◌then◌else◌,
}
use stohr.Db.{UserRow}
use stohr.Oauth.Scopes.{parse_scope, format_scope, includes}
use stohr.Oauth.State.{
  OauthState, AuthCodeRow, RefreshRow, DeviceCodeRow, Crypto, Tokens, TokenReply, oauth_error,
  issued, invalid_request, invalid_grant, invalid_scope, expired_token, slow_down, access_denied,
  authorization_pending, unsupported_grant_type, given, verify_pkce_s256, client_refusal,
  usable_user,
}
use stohr.Oauth.Issue.{
  refresh_token_ttl_ms, device_poll_interval_seconds, Request, refresh_row, tokens_of, issue_tokens,
}
use stohr.Oauth.Grants.{
  CodeBody, unused_code, spend_code, code_is_good, redeem_code, exchange_with, exchange_code,
  RefreshBody, live_of, burn, has_hash, revoke_hash, narrowed, next_scope, rotate, refresh_row_of,
  refresh_with, refresh,
}
use stohr.Oauth.Poll.{
  DeviceBody, is_device, polled, too_fast, claimable, without_device, claim_device, decide_device,
  poll_row, poll_with, poll_device,
}

-- POST /oauth/revoke: `own` says whether the text begins with `oat_`; the reply is 400 or 200.
unfoldable pub revoke : Crypto → ℕ → Option String → Bool → OauthState → OauthState × ℕ
revoke crypto now body_token own st = elim (given body_token) [
  | none ↦ (st, 400)
  | some token ↦ (if own then revoke_hash now (crypto.sha256 token) st else st, 200)
]

unfoldable pub sweep_expired_refresh_tokens : ℕ → OauthState → OauthState
sweep_expired_refresh_tokens now st = record st {
  refresh_tokens = delete_where (λ r. ltb r.expires_at now) st.refresh_tokens;
}

pub data TokenRequest : Type 0 where
  code_grant : CodeBody → TokenRequest
  refresh_grant : RefreshBody → TokenRequest
  device_grant : DeviceBody → TokenRequest
  other_grant : TokenRequest

-- POST /oauth/token
unfoldable pub handle : Crypto → Request → TokenRequest → OauthState → OauthState × TokenReply
handle crypto req (code_grant body) st = exchange_code crypto req body st
handle crypto req (refresh_grant body) st = refresh crypto req body st
handle crypto req (device_grant body) st = poll_device crypto req body st
handle crypto req other_grant st = (st, oauth_error 400 unsupported_grant_type)

-- The state behind a sequence of requests, each at its own time.
unfoldable pub run : Crypto → List (Request × TokenRequest) → OauthState → OauthState
unfolding handle
run crypto [] st = st
run crypto ((req, r) ∷ rs) st = run crypto rs (handle crypto req r st).0
