-- ===== src/Oauth/Poll.antt =====
-- src/oauth/token.ts: the grant of a device code, one poll of the device.
use stohr.Common.{
  ℕ, ◌-◌, ◌*◌, Bool, false, not, ◌&&◌, ◌||◌, Option, none, some, String, ◌==◌, str_eq, ltb, leb,
  find, any, delete_where, update_where, is_none, is_some, if◌then◌else◌,
}
use stohr.Db.{UserRow}
use stohr.Oauth.State.{
  OauthState, DeviceCodeRow, Crypto, TokenReply, oauth_error, invalid_request, invalid_grant,
  expired_token, slow_down, access_denied, authorization_pending, given, client_refusal,
  usable_user,
}
use stohr.Oauth.Issue.{device_poll_interval_seconds, Request, issue_tokens}

pub record DeviceBody : Type 0 where
  pub client_id : Option String
  pub device_code : Option String
  pub client_secret : Option String

abbrev pub is_device : String → DeviceCodeRow → Bool
is_device device_code d = str_eq d.device_code device_code

abbrev pub polled : ℕ → String → OauthState → OauthState
polled now device_code st = record st {
  device_codes =
      update_where (is_device device_code) (λ d. record d { last_polled_at = some now })
        st.device_codes;
}

-- `last && now - last < …`: a time of 0 is no time
abbrev pub too_fast : ℕ → Option ℕ → Bool
too_fast now none = false
too_fast now (some last) =
    ltb 0 last && ltb (now - last) ((device_poll_interval_seconds - 1) * 1000)

-- `WHERE device_code = $1 AND approved_at IS NOT NULL AND denied_at IS NULL AND expires_at >= NOW()`
abbrev pub claimable : ℕ → String → DeviceCodeRow → Bool
claimable now device_code d =
    is_device device_code d && is_some d.approved_at && is_none d.denied_at && leb now d.expires_at

abbrev pub without_device : ℕ → String → OauthState → OauthState
without_device now device_code st = record st {
  device_codes = delete_where (claimable now device_code) st.device_codes;
}

unfoldable pub claim_device :
    Crypto
    → Request
    → String
    → String
    → DeviceCodeRow
    → UserRow
    → OauthState
    → OauthState × TokenReply
unfolding issue_tokens
claim_device crypto req client_id device_code d user st =
    if any (claimable req.now device_code) st.device_codes
    then issue_tokens crypto req user client_id d.scope none (without_device req.now device_code st)
    else (st, oauth_error 400 invalid_grant)

-- Behind the update of `last_polled_at`; a user id of 0 is none.
unfoldable pub decide_device :
    Crypto
    → Request
    → String
    → String
    → DeviceCodeRow
    → Option ℕ
    → OauthState
    → OauthState × TokenReply
unfolding claim_device
decide_device crypto req client_id device_code d none st =
    (st, oauth_error 400 (if is_some d.denied_at then access_denied else authorization_pending))
decide_device crypto req client_id device_code d (some user_id) st =
    if is_some d.denied_at
    then (st, oauth_error 400 access_denied)
    else if is_none d.approved_at || user_id == 0
    then (st, oauth_error 400 authorization_pending)
    else elim (usable_user st req.host_team user_id) [
      | none ↦ (st, oauth_error 400 invalid_grant)
      | some user ↦ claim_device crypto req client_id device_code d user st
    ]

unfoldable pub poll_row :
    Crypto → Request → String → String → DeviceCodeRow → OauthState → OauthState × TokenReply
unfolding decide_device
poll_row crypto req client_id device_code d st =
    if not (str_eq d.client_id client_id)
    then (st, oauth_error 400 invalid_grant)
    else if ltb d.expires_at req.now
    then (st, oauth_error 400 expired_token)
    else if too_fast req.now d.last_polled_at
    then (polled req.now device_code st, oauth_error 400 slow_down)
    else decide_device crypto req client_id device_code d d.user_id (polled req.now device_code st)

unfoldable pub poll_with : Crypto → Request → String → String → OauthState → OauthState × TokenReply
unfolding poll_row
poll_with crypto req client_id device_code st =
    elim (find (is_device device_code) st.device_codes) [
      | none ↦ (st, oauth_error 400 invalid_grant)
      | some d ↦ poll_row crypto req client_id device_code d st
    ]

-- `grant_type=urn:ietf:params:oauth:grant-type:device_code`
unfoldable pub poll_device : Crypto → Request → DeviceBody → OauthState → OauthState × TokenReply
unfolding poll_with
poll_device crypto req body st = elim (given body.client_id) [
  | none ↦ (st, oauth_error 400 invalid_request)
  | some client_id ↦ elim (given body.device_code) [
    | none ↦ (st, oauth_error 400 invalid_request)
    | some device_code ↦ elim (client_refusal crypto st client_id body.client_secret) [
      | some reply ↦ (st, reply)
      | none ↦ poll_with crypto req client_id device_code st
    ]
  ]
]
