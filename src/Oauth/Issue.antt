-- ===== src/Oauth/Issue.antt =====
-- src/oauth/token.ts: `issueTokens`, with which all three grants end. The text of the new refresh
-- token is an argument.
use stohr.Common.{ℕ, ◌+◌, ◌*◌, Option, none, ◌∷◌, String}
use stohr.Db.{UserRow}
use stohr.Oauth.State.{OauthState, RefreshRow, Crypto, Tokens, TokenReply, issued}

abbrev pub refresh_token_ttl_ms : ℕ
refresh_token_ttl_ms = 60 * 60 * 24 * 30 * 1000

abbrev pub device_poll_interval_seconds : ℕ
device_poll_interval_seconds = 5

-- What a request brings besides its parameters: the time, the team of the host it was sent to, and
-- the random refresh token that an answer would carry.
pub record Request : Type 0 where
  pub now : ℕ
  pub host_team : ℕ
  pub fresh_token : String

abbrev pub refresh_row : Crypto → Request → UserRow → String → String → Option String → RefreshRow
refresh_row crypto req user client_id scope parent = record {
  token_hash = crypto.sha256 req.fresh_token;
  client_id = client_id;
  user_id = user.id;
  scope = scope;
  parent_token_hash = parent;
  expires_at = req.now + refresh_token_ttl_ms;
  revoked_at = none;
}

abbrev pub tokens_of : Request → UserRow → String → String → Tokens
tokens_of req user client_id scope = record {
  access = record {
    id = user.id;
    client_id = client_id;
    scope = scope;
    oauth_epoch = user.oauth_epoch;
  };
  refresh_token = req.fresh_token;
  scope = scope;
}

unfoldable pub issue_tokens :
    Crypto
    → Request
    → UserRow
    → String
    → String
    → Option String
    → OauthState
    → OauthState × TokenReply
issue_tokens crypto req user client_id scope parent st = (
  record st {
    refresh_tokens = refresh_row crypto req user client_id scope parent ∷ st.refresh_tokens;
  },
  issued (tokens_of req user client_id scope),
)
