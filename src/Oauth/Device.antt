-- ===== src/Oauth/Device.antt =====
-- src/oauth/device.ts: the device flow up to the token endpoint. What the user types is brought to
-- capital letters by the runtime, the argument `to_upper`; a signed-in user's id is an argument. An
-- audit entry and the verification URI are not part of the state.
pub mod Decisions
use Prim.Native.Char.{Char, code}
use Prim.Native.String
use stohr.Common.{
  ℕ, ◌+◌, ◌*◌, ◌≡◌, Bool, true, false, not, ◌&&◌, ◌||◌, Option, none, some, List, [], ◌∷◌, String,
  ◌==◌, str_eq, ltb, leb, find, delete_where, update_where, is_none, is_some, if◌then◌else◌,
  or_else,
}
use stohr.Oauth.Scopes.{parse_scope, format_scope, includes_scopes}
use stohr.Oauth.State.{
  string_length, OauthState, ClientRow, AuthCodeRow, RefreshRow, DeviceCodeRow, Crypto, Tokens,
  TokenReply, oauth_error, issued, invalid_grant, given, client_refusal, client_refusal-not_issued,
  usable_user, find_user, find_client, verify_client_credentials, is_usable,
}

abbrev pub device_code_ttl_ms : ℕ
device_code_ttl_ms = 60 * 10 * 1000

pub data DeviceReply : Type 0 where
  device_error : ℕ → DeviceReply
  started : (device_code user_code scope : String) → DeviceReply
  consent : (client_id scope user_code : String) → DeviceReply
  done : DeviceReply

-- `[A-Z0-9]`
abbrev is_code_char : Char → Bool
is_code_char c = (leb 48 (code c) && leb (code c) 57) || (leb 65 (code c) && leb (code c) 90)

unfoldable pub only_code_chars : String → String
only_code_chars String.[] = ""
only_code_chars (String.◌∷◌ c s) =
    let rest = only_code_chars s in if is_code_char c then String.◌∷◌ c rest else rest

abbrev dashed : String → String
dashed (String.◌∷◌ a (String.◌∷◌ b (String.◌∷◌ c (String.◌∷◌ d rest)))) =
    String.◌∷◌ a (String.◌∷◌ b (String.◌∷◌ c (String.◌∷◌ d (String.◌++◌ "-" rest))))
dashed s = s

unfoldable pub normalize_user_code : (String → String) → String → String
unfolding only_code_chars string_length
normalize_user_code to_upper input =
    let stripped = only_code_chars (to_upper input) in
    if string_length stripped == 8 then dashed stripped else stripped

-- `requested.length === 0 ? allowed : requested`
abbrev or_allowed : List String → List String → List String
or_allowed allowed [] = allowed
or_allowed allowed (s ∷ scopes) = s ∷ scopes

abbrev pub new_row : ℕ → String → String → String → String → DeviceCodeRow
new_row now device_code user_code client_id scope = record {
  device_code = device_code;
  user_code = user_code;
  client_id = client_id;
  scope = scope;
  user_id = none;
  approved_at = none;
  denied_at = none;
  last_polled_at = none;
  expires_at = now + device_code_ttl_ms;
}

-- Behind the look-up of the client.
unfoldable pub authorize_client :
    ℕ → String → String → String → Option String → ClientRow → OauthState → OauthState × DeviceReply
authorize_client now device_code user_code client_id raw_scope client st =
    let scopes = or_allowed client.allowed_scopes (parse_scope (or_else raw_scope "")) in
    if not (is_none client.revoked_at) || not (includes_scopes client.allowed_scopes scopes)
    then (st, device_error 400)
    else (
      record st {
        device_codes =
            new_row now device_code user_code client_id (format_scope scopes) ∷ st.device_codes;
      },
      started device_code user_code (format_scope scopes),
    )

-- POST /oauth/device/authorize
unfoldable pub authorize :
    ℕ → String → String → Option String → Option String → OauthState → OauthState × DeviceReply
unfolding authorize_client
authorize now device_code user_code client_id raw_scope st = elim (given client_id) [
  | none ↦ (st, device_error 400)
  | some id ↦ elim (find_client st id) [
    | none ↦ (st, device_error 400)
    | some client ↦ authorize_client now device_code user_code id raw_scope client st
  ]
]

abbrev pub has_user_code : String → DeviceCodeRow → Bool
has_user_code user_code d = str_eq d.user_code user_code

-- `WHERE user_code = $1 AND approved_at IS NULL AND denied_at IS NULL`
abbrev pub undecided : String → DeviceCodeRow → Bool
undecided user_code d = has_user_code user_code d && is_none d.approved_at && is_none d.denied_at

abbrev consent_of : Option ClientRow → DeviceCodeRow → DeviceReply
consent_of none d = device_error 400
consent_of (some client) d =
    if is_none client.revoked_at
    then consent client.client_id d.scope d.user_code
    else device_error 400

-- GET /oauth/device/info
unfoldable pub info : (String → String) → ℕ → Option String → OauthState → DeviceReply
unfolding normalize_user_code
info to_upper now raw st =
    let user_code = normalize_user_code to_upper (or_else raw "") in
    if str_eq user_code ""
    then device_error 400
    else elim (find (has_user_code user_code) st.device_codes) [
      | none ↦ device_error 404
      | some d ↦
          if ltb d.expires_at now
          then device_error 410
          else if is_some d.approved_at || is_some d.denied_at
          then device_error 409
          else consent_of (find_client st d.client_id) d
    ]

abbrev pub approve_rows : ℕ → ℕ → String → OauthState → OauthState
approve_rows now user_id user_code st = record st {
  device_codes =
      update_where (undecided user_code)
        (λ d. record d { approved_at = some now; user_id = some user_id }) st.device_codes;
}

abbrev pub unapprove : String → OauthState → OauthState
unapprove device_code st = record st {
  device_codes =
      update_where (λ d. str_eq d.device_code device_code) (λ d. record d { approved_at = none })
        st.device_codes;
}

-- POST /oauth/device/approve
unfoldable pub approve :
    (String → String) → ℕ → ℕ → Option String → OauthState → OauthState × DeviceReply
unfolding normalize_user_code
approve to_upper now user_id raw st =
    let user_code = normalize_user_code to_upper (or_else raw "") in
    if str_eq user_code ""
    then (st, device_error 400)
    else elim (find (undecided user_code) st.device_codes) [
      | none ↦ (st, device_error 404)
      | some d ↦
          if ltb d.expires_at now
          then (unapprove d.device_code (approve_rows now user_id user_code st), device_error 410)
          else (approve_rows now user_id user_code st, done)
    ]

-- POST /oauth/device/deny
unfoldable pub deny :
    (String → String) → ℕ → ℕ → Option String → OauthState → OauthState × DeviceReply
unfolding normalize_user_code
deny to_upper now user_id raw st =
    let user_code = normalize_user_code to_upper (or_else raw "") in
    if str_eq user_code ""
    then (st, device_error 400)
    else elim (find (undecided user_code) st.device_codes) [
      | none ↦ (st, device_error 404)
      | some d ↦ (
        record st {
          device_codes =
              update_where (undecided user_code)
                (λ x. record x { denied_at = some now; user_id = some user_id }) st.device_codes;
        },
        done,
      )
    ]

unfoldable pub sweep_expired_device_codes : ℕ → OauthState → OauthState
sweep_expired_device_codes now st = record st {
  device_codes = delete_where (λ d. ltb d.expires_at now) st.device_codes;
}
