-- ===== src/Oauth/Grants.antt =====
-- src/oauth/token.ts: the grants of an authorization code and of a refresh token. A grant's transaction
-- is one step, and it commits when it returns, with an error reply too.
use stohr.Common.{
  ℕ, Bool, not, ◌&&◌, ◌||◌, Option, none, some, List, [], ◌∷◌, String, ◌==◌, str_eq, ltb, find,
  filter, update_where, is_none, is_some, if◌then◌else◌,
}
use stohr.Db.{UserRow}
use stohr.Oauth.Scopes.{parse_scope, format_scope, includes}
use stohr.Oauth.State.{
  OauthState, AuthCodeRow, RefreshRow, Crypto, TokenReply, oauth_error, invalid_request,
  invalid_grant, invalid_scope, given, verify_pkce_s256, client_refusal, usable_user,
}
use stohr.Oauth.Issue.{Request, issue_tokens}

pub record CodeBody : Type 0 where
  pub client_id : Option String
  pub code : Option String
  pub code_verifier : Option String
  pub redirect_uri : Option String
  pub client_secret : Option String

abbrev pub unused_code : String → AuthCodeRow → Bool
unused_code code r = str_eq r.code code && is_none r.used_at

-- `UPDATE … SET used_at = NOW() WHERE code = $1 AND used_at IS NULL`
abbrev pub spend_code : ℕ → String → OauthState → OauthState
spend_code now code st = record st {
  codes = update_where (unused_code code) (λ r. record r { used_at = some now }) st.codes;
}

-- What a claimed code must still satisfy.
unfoldable pub code_is_good : Crypto → Request → String → String → String → AuthCodeRow → Bool
code_is_good crypto req client_id verifier redirect_uri r =
    not (ltb r.expires_at req.now)
    && str_eq r.client_id client_id
    && str_eq r.redirect_uri redirect_uri
    && verify_pkce_s256 crypto verifier r.code_challenge

-- The claimed row's checks, all of which answer `invalid_grant`, and the tokens. `st` is the state
-- in which the code is already used.
unfoldable pub redeem_code :
    Crypto → Request → String → String → String → AuthCodeRow → OauthState → OauthState × TokenReply
unfolding issue_tokens
redeem_code crypto req client_id verifier redirect_uri r st =
    if code_is_good crypto req client_id verifier redirect_uri r
    then elim (usable_user st req.host_team r.user_id) [
      | none ↦ (st, oauth_error 400 invalid_grant)
      | some user ↦ issue_tokens crypto req user client_id r.scope none st
    ]
    else (st, oauth_error 400 invalid_grant)

unfoldable pub exchange_with :
    Crypto → Request → String → String → String → String → OauthState → OauthState × TokenReply
unfolding redeem_code
exchange_with crypto req client_id code verifier redirect_uri st =
    elim (find (unused_code code) st.codes) [
      | none ↦ (st, oauth_error 400 invalid_grant)
      | some r ↦
          redeem_code crypto req client_id verifier redirect_uri r (spend_code req.now code st)
    ]

-- `grant_type=authorization_code`
unfoldable pub exchange_code : Crypto → Request → CodeBody → OauthState → OauthState × TokenReply
unfolding exchange_with
exchange_code crypto req body st = elim (given body.client_id) [
  | none ↦ (st, oauth_error 400 invalid_request)
  | some client_id ↦ elim (given body.code) [
    | none ↦ (st, oauth_error 400 invalid_request)
    | some code ↦ elim (given body.code_verifier) [
      | none ↦ (st, oauth_error 400 invalid_request)
      | some verifier ↦ elim (given body.redirect_uri) [
        | none ↦ (st, oauth_error 400 invalid_request)
        | some redirect_uri ↦ elim (client_refusal crypto st client_id body.client_secret) [
          | some reply ↦ (st, reply)
          | none ↦ exchange_with crypto req client_id code verifier redirect_uri st
        ]
      ]
    ]
  ]
]

pub record RefreshBody : Type 0 where
  pub client_id : Option String
  pub refresh_token : Option String
  pub scope : Option String
  pub client_secret : Option String

abbrev pub live_of : ℕ → String → RefreshRow → Bool
live_of user_id client_id r =
    r.user_id == user_id && str_eq r.client_id client_id && is_none r.revoked_at

-- Every live refresh token of that user and client is revoked.
abbrev pub burn : ℕ → ℕ → String → OauthState → OauthState
burn now user_id client_id st = record st {
  refresh_tokens =
      update_where (live_of user_id client_id) (λ r. record r { revoked_at = some now })
        st.refresh_tokens;
}

abbrev pub has_hash : String → RefreshRow → Bool
has_hash hash r = str_eq r.token_hash hash

abbrev pub revoke_hash : ℕ → String → OauthState → OauthState
revoke_hash now hash st = record st {
  refresh_tokens =
      update_where (has_hash hash) (λ r. record r { revoked_at = some now }) st.refresh_tokens;
}

abbrev pub narrowed : List String → Option String
narrowed [] = none
narrowed (s ∷ scopes) = some (format_scope (s ∷ scopes))

-- The scope of the new pair: the old one, or the requested part of it; `none` if that is empty.
unfoldable pub next_scope : String → Option String → Option String
next_scope scope requested = elim (given requested) [
  | none ↦ some scope
  | some raw ↦ narrowed (filter (includes (parse_scope scope)) (parse_scope raw))
]

-- Behind the revocation of the presented token.
unfoldable pub rotate :
    Crypto
    → Request
    → UserRow
    → String
    → RefreshRow
    → Option String
    → OauthState
    → OauthState × TokenReply
unfolding issue_tokens
rotate crypto req user client_id r requested st = elim (next_scope r.scope requested) [
  | none ↦ (st, oauth_error 400 invalid_scope)
  | some scope ↦ issue_tokens crypto req user client_id scope (some r.token_hash) st
]

unfoldable pub refresh_row_of :
    Crypto
    → Request
    → String
    → String
    → Option String
    → RefreshRow
    → OauthState
    → OauthState × TokenReply
unfolding rotate
refresh_row_of crypto req client_id hash requested r st =
    if not (str_eq r.client_id client_id) || ltb r.expires_at req.now
    then (st, oauth_error 400 invalid_grant)
    else elim (usable_user st req.host_team r.user_id) [
      | none ↦ (st, oauth_error 400 invalid_grant)
      | some user ↦
          if is_some r.revoked_at
          then (burn req.now r.user_id r.client_id st, oauth_error 400 invalid_grant)
          else rotate crypto req user client_id r requested (revoke_hash req.now hash st)
    ]

unfoldable pub refresh_with :
    Crypto → Request → String → String → Option String → OauthState → OauthState × TokenReply
unfolding refresh_row_of
refresh_with crypto req client_id hash requested st =
    elim (find (has_hash hash) st.refresh_tokens) [
      | none ↦ (st, oauth_error 400 invalid_grant)
      | some r ↦ refresh_row_of crypto req client_id hash requested r st
    ]

-- `grant_type=refresh_token`
unfoldable pub refresh : Crypto → Request → RefreshBody → OauthState → OauthState × TokenReply
unfolding refresh_with
refresh crypto req body st = elim (given body.client_id) [
  | none ↦ (st, oauth_error 400 invalid_request)
  | some client_id ↦ elim (given body.refresh_token) [
    | none ↦ (st, oauth_error 400 invalid_request)
    | some token ↦ elim (client_refusal crypto st client_id body.client_secret) [
      | some reply ↦ (st, reply)
      | none ↦ refresh_with crypto req client_id (crypto.sha256 token) body.scope st
    ]
  ]
]
