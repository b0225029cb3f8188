-- ===== src/Oauth/State.antt =====
-- The rows that the authorization server reads and writes (src/oauth/token.ts and
-- src/oauth/device.ts), and the cryptography and randomness that it calls. `now` is in
-- milliseconds, for the database's clock and the server's alike.
use Prim.Native.Char.{code}
use mathlib.Core.Bool.{not}
use stohr.Common.{
  ℕ, suc, ltb, ◌+◌, Bool, true, false, ◌&&◌, Option, none, some, List, String, ◌==◌, str_eq, leb,
  find, is_none, if◌then◌else◌, ◌≡◌, ◌≢◌, inl, inr, Bool-cases, Option-cases, find_holds, arith,
}
use stohr.Db.{UserRow}

pub record ClientRow : Type 0 where
  pub client_id : String
  pub client_secret_hash : Option String
  pub allowed_scopes : List String
  pub revoked_at : Option ℕ

pub record AuthCodeRow : Type 0 where
  pub code : String
  pub client_id : String
  pub user_id : ℕ
  pub redirect_uri : String
  pub code_challenge : String
  pub scope : String
  pub expires_at : ℕ
  pub used_at : Option ℕ

pub record RefreshRow : Type 0 where
  pub token_hash : String
  pub client_id : String
  pub user_id : ℕ
  pub scope : String
  pub parent_token_hash : Option String
  pub expires_at : ℕ
  pub revoked_at : Option ℕ

pub record DeviceCodeRow : Type 0 where
  pub device_code : String
  pub user_code : String
  pub client_id : String
  pub scope : String
  pub user_id : Option ℕ
  pub approved_at : Option ℕ
  pub denied_at : Option ℕ
  pub last_polled_at : Option ℕ
  pub expires_at : ℕ

pub record OauthState : Type 0 where
  pub users : List UserRow
  pub clients : List ClientRow
  pub codes : List AuthCodeRow
  pub refresh_tokens : List RefreshRow
  pub device_codes : List DeviceCodeRow

-- SHA-256 as a hex digest, and the S256 challenge of a verifier.
pub record Crypto : Type 0 where
  pub sha256 : String → String
  pub challenge_of : String → String

pub data ErrorCode : Type 0 where
  invalid_request invalid_client invalid_grant invalid_scope unsupported_grant_type : ErrorCode
  expired_token slow_down access_denied authorization_pending : ErrorCode

-- The claims of an access token, which is signed with the server's secret.
pub record AccessClaims : Type 0 where
  pub id : ℕ
  pub client_id : String
  pub scope : String
  pub oauth_epoch : ℕ

pub record Tokens : Type 0 where
  pub access : AccessClaims
  pub refresh_token : String
  pub scope : String

pub data TokenReply : Type 0 where
  oauth_error : ℕ → ErrorCode → TokenReply
  issued : Tokens → TokenReply

-- A parameter that is absent or empty is not given.
abbrev pub given : Option String → Option String
given none = none
given (some s) = if str_eq s "" then none else some s

-- `.length` of a text of characters up to U+FFFF, such as a slug.
unfoldable pub string_length : String → ℕ
string_length String.[] = 0
string_length (String.◌∷◌ c s) = suc (string_length s)

-- `.length`, in UTF-16 units: a character above U+FFFF counts twice.
unfoldable pub utf16_length : String → ℕ
utf16_length String.[] = 0
utf16_length (String.◌∷◌ c s) = (if ltb (code c) 65_536 then 1 else 2) + utf16_length s

-- src/oauth/helpers.ts; the constant-time comparison is an equality
unfoldable pub verify_pkce_s256 : Crypto → String → String → Bool
unfolding utf16_length
verify_pkce_s256 crypto verifier challenge =
    leb 43 (utf16_length verifier)
    && leb (utf16_length verifier) 128
    && str_eq (crypto.challenge_of verifier) challenge

abbrev secret_matches : Crypto → String → Option String → Bool
secret_matches crypto hash none = false
secret_matches crypto hash (some secret) = str_eq (crypto.sha256 secret) hash

abbrev credentials_match : Crypto → Option String → Option String → Bool
credentials_match crypto none secret = true
credentials_match crypto (some hash) secret = secret_matches crypto hash secret

-- A client with no stored secret is public.
unfoldable pub verify_client_credentials : Crypto → ClientRow → Option String → Bool
verify_client_credentials crypto client secret =
    credentials_match crypto (given client.client_secret_hash) (given secret)

unfoldable pub find_client : OauthState → String → Option ClientRow
find_client st client_id = find (λ c. str_eq c.client_id client_id) st.clients

-- The checks that the three grants begin with; `none` lets the request go on.
unfoldable pub client_refusal : Crypto → OauthState → String → Option String → Option TokenReply
client_refusal crypto st client_id secret = elim (find_client st client_id) [
  | none ↦ some (oauth_error 400 invalid_client)
  | some client ↦
      if not (is_none client.revoked_at)
      then some (oauth_error 400 invalid_client)
      else if verify_client_credentials crypto client secret
      then none
      else some (oauth_error 401 invalid_client)
]

unfoldable pub find_user : OauthState → ℕ → Option UserRow
find_user st id = find (λ u. u.id == id) st.users

-- The user exists, is neither deleted nor suspended, and belongs to the team of the host.
abbrev pub is_usable : ℕ → UserRow → Bool
is_usable host_team u = is_none u.deleted_at && is_none u.suspended_at && u.team_id == host_team

unfoldable pub usable_user : OauthState → ℕ → ℕ → Option UserRow
usable_user st host_team id = elim (find_user st id) [
  | none ↦ none
  | some u ↦ if is_usable host_team u then some u else none
]

-- A client that may not ask is answered with an error.
pub client_refusal-not_issued :
    (crypto : Crypto) (st : OauthState) (client_id : String) (secret : Option String)
    (reply : TokenReply) (t : Tokens)
    → client_refusal crypto st client_id secret ≡ some reply
    → reply ≢ issued t
unfolding client_refusal
client_refusal-not_issued crypto st client_id secret reply t h i =
    elim (Option-cases (find_client st client_id)) [
      | inl e ↦ let h' = rw (client_refusal, e) at h in absurd cc
      | inr (client, e) ↦ elim (Bool-cases (not (is_none client.revoked_at))) [
        | inl r ↦ let h' = rw (client_refusal, e, r) at h in absurd cc
        | inr r ↦ elim (Bool-cases (verify_client_credentials crypto client secret)) [
          | inl v ↦ let h' = rw (client_refusal, e, r, v) at h in absurd cc
          | inr v ↦ let h' = rw (client_refusal, e, r, v) at h in absurd cc
        ]
      ]
    ]

-- A usable user is the one that was looked up.
pub usable_user-id :
    (st : OauthState) (host id : ℕ) (u : UserRow) → usable_user st host id ≡ some u → u.id ≡ id
unfolding usable_user find_user
usable_user-id st host id u h = elim (Option-cases (find_user st id)) [
  | inl e ↦ let h' = rw (usable_user, e) at h in absurd cc
  | inr (v, e) ↦
      let is_v : (v.id == id) ≡ true = find_holds (λ w. w.id == id) st.users v e in
      let h' = rw (usable_user, e) at h in ground arith
]

-- A usable user is a row with the id, neither deleted nor suspended, of the host's team.
pub usable_user-row :
    (st : OauthState) (host id : ℕ) (u : UserRow)
    → usable_user st host id ≡ some u
    → (find (λ (w : UserRow). w.id == id) st.users ≡ some u)
      × (u.deleted_at ≡ none)
      × (u.suspended_at ≡ none)
      × (u.team_id ≡ host)
unfolding usable_user find_user
usable_user-row st host id u h = elim (Option-cases (find_user st id)) [
  | inl e ↦ let h' = rw (usable_user, e) at h in absurd cc
  | inr (v, e) ↦ elim (Bool-cases (is_usable host v)) [
    | inr f ↦ let h' = rw (usable_user, e, f) at h in absurd cc
    | inl t ↦
        let same : v ≡ u = let h' = rw (usable_user, e, t) at h in cc in
        let found : find (λ (w : UserRow). w.id == id) st.users ≡ some v = e in
        rw (← same) (found, ground arith, ground arith, ground arith)
  ]
]
