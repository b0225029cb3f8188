-- ===== src/Oauth/Tests.antt =====
-- Runs of the authorization server (src/oauth/token.ts, src/oauth/device.ts, src/oauth/helpers.ts).
use stohr.Common.{
  ℕ, ◌≡◌, ◌≢◌, refl, true, false, any, find, none, some, List, [], ◌∷◌, String, arith, All,
}
use stohr.Db.{UserRow}
use stohr.Oauth.Scopes.{parse_scope, format_scope, includes_scopes, IsScope, parse_scope-IsScope}
use stohr.Oauth.State.{
  OauthState, ClientRow, AuthCodeRow, RefreshRow, DeviceCodeRow, Crypto, Tokens, issued,
  oauth_error, invalid_grant, client_refusal, verify_client_credentials, verify_pkce_s256,
  string_length, utf16_length, find_client, find_user, usable_user,
}
use stohr.Oauth.Issue.{Request, tokens_of, refresh_row, issue_tokens}
use stohr.Oauth.Grants.{
  CodeBody, RefreshBody, spend_code, revoke_hash, exchange_code, exchange_with, redeem_code,
  code_is_good, refresh, refresh_with, refresh_row_of, rotate, next_scope, live_of,
}
use stohr.Oauth.Poll.{
  DeviceBody, poll_device, poll_with, poll_row, decide_device, claim_device, is_device,
}
use stohr.Oauth.Token.{code_grant, run}
use stohr.Oauth.Token.Codes.{Redeems, exchange_code-Redeems}
use stohr.Oauth.Token.Reuse.{code_is_single_use}
use stohr.Oauth.Token.Refresh.{Rotates, refresh-Rotates}
use stohr.Oauth.Token.Replay.{replayed_refresh-burns}
use stohr.Oauth.Token.Polling.{Claims, poll_device-Claims}
use stohr.Oauth.Device.{authorize, authorize_client, approve, normalize_user_code, only_code_chars}
use stohr.Oauth.Device.Decisions.{
  Reachable, initial, authorizes, approves, Approvals, approved_by, device_tokens_are_approved,
}

abbrev alice : UserRow
alice = record {
  id = 7;
  is_owner = false;
  team_id = 2;
  team_admin = true;
  oauth_epoch = 3;
  storage_quota_bytes = 0;
  username = "ann";
  email = "ann@example.org";
  deleted_at = none;
  suspended_at = none;
}

abbrev verifier : String
verifier = "0123456789012345678901234567890123456789012"

-- The hash of a text is the text, and so is the challenge of a verifier.
abbrev crypto : Crypto
crypto = record { sha256 = λ s. s; challenge_of = λ s. s }

abbrev cli : ClientRow
cli = record {
  client_id = "cli";
  client_secret_hash = none;
  allowed_scopes = "read" ∷ "write" ∷ [];
  revoked_at = none;
}

abbrev code_row : AuthCodeRow
code_row = record {
  code = "c1";
  client_id = "cli";
  user_id = 7;
  redirect_uri = "app:/cb";
  code_challenge = verifier;
  scope = "read write";
  expires_at = 60000;
  used_at = none;
}

abbrev empty : OauthState
empty = record {
  users = alice ∷ [];
  clients = cli ∷ [];
  codes = code_row ∷ [];
  refresh_tokens = [];
  device_codes = [];
}

abbrev request : ℕ → String → Request
request now fresh = record { now = now; host_team = 2; fresh_token = fresh }

abbrev code_body : CodeBody
code_body = record {
  client_id = some "cli";
  code = some "c1";
  code_verifier = some verifier;
  redirect_uri = some "app:/cb";
  client_secret = none;
}

abbrev tokens : String → String → Tokens
tokens fresh scope = tokens_of (request 0 fresh) alice "cli" scope

-- The state behind the exchange of the code at the time 1000.
abbrev exchanged : OauthState
exchanged = record (spend_code 1000 "c1" empty) {
  refresh_tokens = refresh_row crypto (request 1000 "r1") alice "cli" "read write" none ∷ [];
}

code_is_exchanged :
    exchange_code crypto (request 1000 "r1") code_body empty
    ≡ (exchanged, issued (tokens "r1" "read write"))
unfolding exchange_code exchange_with redeem_code code_is_good issue_tokens client_refusal
    verify_client_credentials verify_pkce_s256 utf16_length find_client find_user usable_user
code_is_exchanged = refl

exchange_code-Redeems_example :
    Redeems crypto (request 1000 "r1") code_body empty (tokens "r1" "read write")
exchange_code-Redeems_example =
    exchange_code-Redeems crypto (request 1000 "r1") code_body empty exchanged
      (tokens "r1" "read write") code_is_exchanged

code_is_single_use_example :
    exchange_code crypto
      (request 3000 "r3")
      code_body
      (run crypto ((request 2000 "r2", code_grant code_body) ∷ []) exchanged)
    ≢ (exchanged, issued (tokens "r3" "read write"))
code_is_single_use_example =
    code_is_single_use crypto (request 1000 "r1") (request 3000 "r3") code_body code_body empty
      exchanged exchanged (tokens "r1" "read write") (tokens "r3" "read write")
      ((request 2000 "r2", code_grant code_body) ∷ []) code_is_exchanged refl

abbrev refresh_body : RefreshBody
refresh_body = record {
  client_id = some "cli";
  refresh_token = some "r1";
  scope = some "admin read";
  client_secret = none;
}

abbrev first_row : RefreshRow
first_row = refresh_row crypto (request 1000 "r1") alice "cli" "read write" none

-- The state behind a refresh that asks for a part of the scope, and for more.
abbrev refreshed : OauthState
refreshed = record exchanged {
  refresh_tokens =
      refresh_row crypto (request 2000 "r2") alice "cli" "read" (some "r1")
      ∷ (revoke_hash 2000 "r1" exchanged).refresh_tokens;
}

token_is_refreshed :
    refresh crypto (request 2000 "r2") refresh_body exchanged
    ≡ (refreshed, issued (tokens "r2" "read"))
unfolding refresh refresh_with refresh_row_of rotate next_scope issue_tokens client_refusal
    verify_client_credentials find_client find_user usable_user parse_scope format_scope
token_is_refreshed = refl

refresh-Rotates_example :
    Rotates crypto (request 2000 "r2") "cli" "r1" exchanged refreshed (tokens "r2" "read")
refresh-Rotates_example =
    refresh-Rotates crypto (request 2000 "r2") refresh_body exchanged refreshed (tokens "r2" "read")
      "cli" "r1" refl refl token_is_refreshed

replayed_refresh-burns_example :
    ((refresh crypto (request 3000 "r3") refresh_body refreshed).1 ≡ oauth_error 400 invalid_grant)
    × (any
          (live_of 7 "cli")
          (refresh crypto (request 3000 "r3") refresh_body refreshed).0.refresh_tokens
        ≡ false)
replayed_refresh-burns_example =
    replayed_refresh-burns crypto (request 2000 "r2") (request 3000 "r3") refresh_body exchanged
      refreshed (tokens "r2" "read") "r1" first_row refl refl (omega arith) refl refl
      token_is_refreshed

abbrev device_row : DeviceCodeRow
device_row = record {
  device_code = "d1";
  user_code = "ABCD-EFGH";
  client_id = "cli";
  scope = "read write";
  user_id = some 7;
  approved_at = some 2000;
  denied_at = none;
  last_polled_at = none;
  expires_at = 601000;
}

abbrev device_body : DeviceBody
device_body = record { client_id = some "cli"; device_code = some "d1"; client_secret = none }

-- A device code is issued at the time 1000 and approved by user 7 at the time 2000; `approved` is
-- the state behind it.
abbrev approved : OauthState
approved =
    (approve (λ s. s) 2000 7 (some "ABCDEFGH")
      (authorize 1000 "d1" "ABCD-EFGH" (some "cli") none empty).0).0

abbrev approvals : Approvals
approvals = (7, "ABCD-EFGH") ∷ []

approved-Reachable : Reachable (λ s. s) crypto approvals approved
unfolding normalize_user_code only_code_chars string_length
approved-Reachable =
    approves [] (authorize 1000 "d1" "ABCD-EFGH" (some "cli") none empty).0 2000 7 (some "ABCDEFGH")
      (authorizes [] empty 1000 "d1" "ABCD-EFGH" (some "cli") none (initial empty refl))

approved_row : approved.device_codes ≡ device_row ∷ []
unfolding approve authorize authorize_client normalize_user_code only_code_chars string_length
    find_client parse_scope format_scope includes_scopes
approved_row = refl

device_is_answered : poll_device crypto (request 3000 "r1") device_body approved ≡ (
  (poll_device crypto (request 3000 "r1") device_body approved).0,
  issued (tokens "r1" "read write"),
)
unfolding approve authorize authorize_client normalize_user_code only_code_chars string_length
    find_client parse_scope format_scope includes_scopes poll_device poll_with poll_row
    decide_device claim_device issue_tokens client_refusal verify_client_credentials find_user
    usable_user
device_is_answered = refl

abbrev polled_state : OauthState
polled_state = (poll_device crypto (request 3000 "r1") device_body approved).0

poll_device-Claims_example :
    Claims crypto (request 3000 "r1") "cli" "d1" approved polled_state (tokens "r1" "read write")
poll_device-Claims_example =
    poll_device-Claims crypto (request 3000 "r1") device_body "cli" "d1" approved polled_state
      (tokens "r1" "read write") refl refl device_is_answered

found_row :
    (rows : List DeviceCodeRow)
    → rows ≡ device_row ∷ []
    → find (is_device "d1") rows ≡ some device_row
found_row rows e = rw e refl

device_tokens_are_approved_example :
    (approved_by approvals (some 7) "ABCD-EFGH" ≡ true) × (device_row.denied_at ≡ none)
device_tokens_are_approved_example =
    device_tokens_are_approved (λ s. s) crypto approvals (request 3000 "r1") device_body "cli" "d1"
      device_row approved polled_state (tokens "r1" "read write") approved-Reachable refl refl
      (found_row approved.device_codes approved_row) device_is_answered

read_write-IsScope : All IsScope ("read" ∷ "write" ∷ [])
unfolding parse_scope
read_write-IsScope = parse_scope-IsScope "read write"
