-- ===== src/Oauth/Device/Decisions.antt =====
-- src/oauth/device.ts and the token endpoint as a transition system: whose approval a device's
-- tokens rest on.
use stohr.Common.{
  ℕ, ◌≡◌, refl, sym, inl, inr, Bool, true, false, ◌&&◌, Option, none, some, List, [], ◌∷◌, String,
  arith, str_eq, ltb, find, any, all, update_where, delete_where, is_none, is_some, if◌then◌else◌,
  Bool-cases, Option-cases, eq_iff, ◌==◌, or_else,
}
use stohr.Oauth.State.{
  OauthState, DeviceCodeRow, Crypto, Tokens, issued, given, client_refusal, usable_user-id,
}
use stohr.Oauth.Issue.{Request, issue_tokens}
use stohr.Oauth.Grants.{
  CodeBody, RefreshBody, redeem_code, exchange_with, exchange_code, rotate, refresh_row_of,
  refresh_with, refresh,
}
use stohr.Oauth.Poll.{
  DeviceBody, is_device, polled, claimable, claim_device, decide_device, poll_row, poll_with,
  poll_device,
}
use stohr.Oauth.Token.{TokenRequest, code_grant, refresh_grant, device_grant, other_grant, handle}
use stohr.Oauth.Token.Polling.{poll_device-Claims}
use stohr.Oauth.Device.{
  authorize, authorize_client, approve, deny, sweep_expired_device_codes, normalize_user_code,
  undecided, approve_rows,
}

-- The user ids and the codes with which signed-in users posted an approval.
abbrev pub Approvals : Type 0
Approvals = List (ℕ × String)

abbrev pub approved_by : Approvals → Option ℕ → String → Bool
approved_by log none user_code = false
approved_by log (some id) user_code = any (λ p. p.0 == id && str_eq p.1 user_code) log

-- What the rows satisfy: an approved one is not denied, and its user posted an approval of it.
abbrev row_ok : Approvals → DeviceCodeRow → Bool
row_ok log d =
    if is_some d.approved_at
    then is_none d.denied_at && approved_by log d.user_id d.user_code
    else true

-- The states that calls of the device routes and of the token endpoint lead to, with the approvals
-- that were posted on the way.
pub data Reachable (to_upper : String → String) (crypto : Crypto)
    : Approvals → OauthState → Type 0 where
  initial : (st : OauthState) → st.device_codes ≡ [] → Reachable to_upper crypto [] st
  authorizes :
      (log : Approvals) (st : OauthState) (now : ℕ) (device_code user_code : String)
      (client_id raw_scope : Option String)
      → Reachable to_upper crypto log st
      → Reachable to_upper crypto log (authorize now device_code user_code client_id raw_scope st).0
  approves :
      (log : Approvals) (st : OauthState) (now user_id : ℕ) (raw : Option String)
      → Reachable to_upper crypto log st
      → Reachable to_upper crypto
          ((user_id, normalize_user_code to_upper (or_else raw "")) ∷ log)
          (approve to_upper now user_id raw st).0
  denies :
      (log : Approvals) (st : OauthState) (now user_id : ℕ) (raw : Option String)
      → Reachable to_upper crypto log st
      → Reachable to_upper crypto log (deny to_upper now user_id raw st).0
  sweeps :
      (log : Approvals) (st : OauthState) (now : ℕ)
      → Reachable to_upper crypto log st
      → Reachable to_upper crypto log (sweep_expired_device_codes now st)
  requests :
      (log : Approvals) (st : OauthState) (req : Request) (r : TokenRequest)
      → Reachable to_upper crypto log st
      → Reachable to_upper crypto log (handle crypto req r st).0

approved_by-more :
    (log : Approvals) (id : ℕ) (code : String) (o : Option ℕ) (user_code : String)
    → approved_by log o user_code ≡ true
    → approved_by ((id, code) ∷ log) o user_code ≡ true
approved_by-more log id code none user_code h = absurd cc
approved_by-more log id code (some i) user_code h = ground arith

row_ok-more :
    (log : Approvals) (id : ℕ) (code : String) (d : DeviceCodeRow)
    → row_ok log d ≡ true
    → row_ok ((id, code) ∷ log) d ≡ true
row_ok-more log id code d h = ground (arith, approved_by-more log id code d.user_id d.user_code)

rows_ok-more :
    (log : Approvals) (id : ℕ) (code : String) (ds : List DeviceCodeRow)
    → all (row_ok log) ds ≡ true
    → all (row_ok ((id, code) ∷ log)) ds ≡ true
rows_ok-more log id code [] h = refl
rows_ok-more log id code (d ∷ ds) h =
    ground (arith, row_ok-more log id code d, rows_ok-more log id code ds)

approve-row_ok :
    (log : Approvals) (now id : ℕ) (code : String) (ds : List DeviceCodeRow)
    → all (row_ok log) ds ≡ true
    → all (row_ok ((id, code) ∷ log)) (
        update_where
          (undecided code)
          (λ d. record d { approved_at = some now; user_id = some id })
          ds)
      ≡ true
approve-row_ok log now id code [] h = refl
approve-row_ok log now id code (d ∷ ds) h =
    ground
      (arith, row_ok-more log id code d, approve-row_ok log now id code ds, eq_iff d.user_code code)

unapprove-row_ok :
    (log : Approvals) (code : String) (ds : List DeviceCodeRow)
    → all (row_ok log) ds ≡ true
    → all
        (row_ok log)
        (update_where (λ d. str_eq d.device_code code) (λ d. record d { approved_at = none }) ds)
      ≡ true
unapprove-row_ok log code [] h = refl
unapprove-row_ok log code (d ∷ ds) h = ground (arith, unapprove-row_ok log code ds)

deny-row_ok :
    (log : Approvals) (now id : ℕ) (code : String) (ds : List DeviceCodeRow)
    → all (row_ok log) ds ≡ true
    → all (row_ok log) (
        update_where
          (undecided code)
          (λ d. record d { denied_at = some now; user_id = some id })
          ds)
      ≡ true
deny-row_ok log now id code [] h = refl
deny-row_ok log now id code (d ∷ ds) h = ground (arith, deny-row_ok log now id code ds)

polled-row_ok :
    (log : Approvals) (now : ℕ) (code : String) (ds : List DeviceCodeRow)
    → all (row_ok log) ds ≡ true
    → all
        (row_ok log)
        (update_where (is_device code) (λ d. record d { last_polled_at = some now }) ds)
      ≡ true
polled-row_ok log now code [] h = refl
polled-row_ok log now code (d ∷ ds) h = ground (arith, polled-row_ok log now code ds)

delete-row_ok :
    (log : Approvals) (p : DeviceCodeRow → Bool) (ds : List DeviceCodeRow)
    → all (row_ok log) ds ≡ true
    → all (row_ok log) (delete_where p ds) ≡ true
delete-row_ok log p [] h = refl
delete-row_ok log p (d ∷ ds) h = ground (arith, delete-row_ok log p ds)

poll_row-row_ok :
    (log : Approvals) (crypto : Crypto) (req : Request) (client_id code : String)
    (d : DeviceCodeRow) (st : OauthState)
    → all (row_ok log) st.device_codes ≡ true
    → all (row_ok log) (poll_row crypto req client_id code d st).0.device_codes ≡ true
unfolding poll_row decide_device claim_device issue_tokens
poll_row-row_ok log crypto req client_id code d st h =
    let polled_ok = polled-row_ok log req.now code st.device_codes h in
    let rows : List DeviceCodeRow = (polled req.now code st).device_codes in
    let claimed_ok = delete-row_ok log (claimable req.now code) rows polled_ok in ground arith

poll_device-row_ok :
    (log : Approvals) (crypto : Crypto) (req : Request) (body : DeviceBody) (st : OauthState)
    → all (row_ok log) st.device_codes ≡ true
    → all (row_ok log) (poll_device crypto req body st).0.device_codes ≡ true
unfolding poll_device poll_with
poll_device-row_ok log crypto req body st h = elim (Option-cases (given body.client_id)) [
  | inl e ↦ rw (poll_device, e) h
  | inr (c, e) ↦ elim (Option-cases (given body.device_code)) [
    | inl e2 ↦ rw (poll_device, e, e2) h
    | inr (k, e2) ↦ elim (Option-cases (client_refusal crypto st c body.client_secret)) [
      | inr (reply, e3) ↦ rw (poll_device, e, e2, e3) h
      | inl e3 ↦ elim (Option-cases (find (is_device k) st.device_codes)) [
        | inl e4 ↦ rw (poll_device, e, e2, e3, poll_with, e4) h
        | inr (d, e4) ↦
            rw (poll_device, e, e2, e3, poll_with, e4) (poll_row-row_ok log crypto req c k d st h)
      ]
    ]
  ]
]

exchange_code-device_codes :
    (crypto : Crypto) (req : Request) (body : CodeBody) (st : OauthState)
    → (exchange_code crypto req body st).0.device_codes ≡ st.device_codes
unfolding exchange_code exchange_with redeem_code issue_tokens
exchange_code-device_codes crypto req body st = ground arith

refresh-device_codes :
    (crypto : Crypto) (req : Request) (body : RefreshBody) (st : OauthState)
    → (refresh crypto req body st).0.device_codes ≡ st.device_codes
unfolding refresh refresh_with refresh_row_of rotate issue_tokens
refresh-device_codes crypto req body st = ground arith

handle-row_ok :
    (log : Approvals) (crypto : Crypto) (req : Request) (r : TokenRequest) (st : OauthState)
    → all (row_ok log) st.device_codes ≡ true
    → all (row_ok log) (handle crypto req r st).0.device_codes ≡ true
unfolding handle
handle-row_ok log crypto req (code_grant body) st h =
    rw (exchange_code-device_codes crypto req body st) h
handle-row_ok log crypto req (refresh_grant body) st h =
    rw (refresh-device_codes crypto req body st) h
handle-row_ok log crypto req (device_grant body) st h = poll_device-row_ok log crypto req body st h
handle-row_ok log crypto req other_grant st h = h

authorize-row_ok :
    (log : Approvals) (now : ℕ) (device_code user_code : String)
    (client_id raw_scope : Option String) (st : OauthState)
    → all (row_ok log) st.device_codes ≡ true
    → all (row_ok log) (authorize now device_code user_code client_id raw_scope st).0.device_codes
      ≡ true
unfolding authorize authorize_client
authorize-row_ok log now device_code user_code client_id raw_scope st h = ground arith

approved-row_ok :
    (log : Approvals) (to_upper : String → String) (now id : ℕ) (raw : Option String)
    (st : OauthState)
    → all (row_ok log) st.device_codes ≡ true
    → all
        (row_ok ((id, normalize_user_code to_upper (or_else raw "")) ∷ log))
        (approve to_upper now id raw st).0.device_codes
      ≡ true
unfolding approve
approved-row_ok log to_upper now id raw st h =
    let code : String = normalize_user_code to_upper (or_else raw "") in
    let more = rows_ok-more log id code st.device_codes h in
    let approved = approve-row_ok log now id code st.device_codes h in
    elim (Bool-cases (str_eq code "")) [
      | inl e ↦ rw (approve, e) more
      | inr e ↦ elim (Option-cases (find (undecided code) st.device_codes)) [
        | inl n ↦ rw (approve, e, n) more
        | inr (d, n) ↦ elim (Bool-cases (ltb d.expires_at now)) [
          | inl x ↦
              rw (approve, e, n, x)
                (unapprove-row_ok ((id, code) ∷ log) d.device_code
                  (approve_rows now id code st).device_codes approved)
          | inr x ↦ rw (approve, e, n, x) approved
        ]
      ]
    ]

denied-row_ok :
    (log : Approvals) (to_upper : String → String) (now id : ℕ) (raw : Option String)
    (st : OauthState)
    → all (row_ok log) st.device_codes ≡ true
    → all (row_ok log) (deny to_upper now id raw st).0.device_codes ≡ true
unfolding deny
denied-row_ok log to_upper now id raw st h =
    let code : String = normalize_user_code to_upper (or_else raw "") in
    let denied = deny-row_ok log now id code st.device_codes h in
    elim (Bool-cases (str_eq code "")) [
      | inl e ↦ rw (deny, e) h
      | inr e ↦ elim (Option-cases (find (undecided code) st.device_codes)) [
        | inl n ↦ rw (deny, e, n) h
        | inr (d, n) ↦ rw (deny, e, n) denied
      ]
    ]

Reachable-row_ok :
    (to_upper : String → String) (crypto : Crypto) (log : Approvals) (st : OauthState)
    → Reachable to_upper crypto log st
    → all (row_ok log) st.device_codes ≡ true
unfolding sweep_expired_device_codes
Reachable-row_ok to_upper crypto log st (initial st1 e) = rw e refl
Reachable-row_ok to_upper crypto log st (authorizes log1 st1 now dc uc cid raw r) =
    authorize-row_ok log1 now dc uc cid raw st1 (Reachable-row_ok to_upper crypto log1 st1 r)
Reachable-row_ok to_upper crypto log st (approves log1 st1 now id raw r) =
    approved-row_ok log1 to_upper now id raw st1 (Reachable-row_ok to_upper crypto log1 st1 r)
Reachable-row_ok to_upper crypto log st (denies log1 st1 now id raw r) =
    denied-row_ok log1 to_upper now id raw st1 (Reachable-row_ok to_upper crypto log1 st1 r)
Reachable-row_ok to_upper crypto log st (sweeps log1 st1 now r) =
    delete-row_ok log1 (λ d. ltb d.expires_at now) st1.device_codes
      (Reachable-row_ok to_upper crypto log1 st1 r)
Reachable-row_ok to_upper crypto log st (requests log1 st1 req b r) =
    handle-row_ok log1 crypto req b st1 (Reachable-row_ok to_upper crypto log1 st1 r)

find-all :
    (p q : DeviceCodeRow → Bool) (ds : List DeviceCodeRow) (d : DeviceCodeRow)
    → all q ds ≡ true
    → find p ds ≡ some d
    → q d ≡ true
find-all p q [] d h e = absurd cc
find-all p q (x ∷ ds) d h e = elim (Bool-cases (p x)) [
  | inl t ↦
      let e' : some x ≡ some d = rw t at e in let same : x ≡ d = cc in rw (sym same) (ground arith)
  | inr f ↦ find-all p q ds d (ground arith) (rw f at e)
]

-- In every state that the device routes and the token endpoint lead to from an empty table: a poll
-- with a device code is answered with tokens only if the user that the tokens are for posted an
-- approval with the user code of that device code, and the code was not denied.
pub device_tokens_are_approved :
    (to_upper : String → String) (crypto : Crypto) (log : Approvals) (req : Request)
    (body : DeviceBody) (client_id device_code : String) (d : DeviceCodeRow) (st st' : OauthState)
    (t : Tokens)
    → Reachable to_upper crypto log st
    → given body.client_id ≡ some client_id
    → given body.device_code ≡ some device_code
    → find (is_device device_code) st.device_codes ≡ some d
    → poll_device crypto req body st ≡ (st', issued t)
    → (approved_by log (some t.access.id) d.user_code ≡ true) × (d.denied_at ≡ none)
device_tokens_are_approved to_upper crypto log req body client_id device_code d st st' t reach c k
      found h =
    let p = poll_device-Claims crypto req body client_id device_code st st' t c k h in
    let found' = p.row_is_found in
    let same : p.row ≡ d = cc in
    let row_is_ok =
      find-all (is_device device_code) (row_ok log) st.device_codes p.row
        (Reachable-row_ok to_upper crypto log st reach) found' in
    let ok = rw p.row_is_approved at row_is_ok in
    let by_user : approved_by log p.row.user_id p.row.user_code ≡ true = ground arith in
    let by_id = rw p.row_has_user at by_user in
    let is_user : p.user_id ≡ p.user.id =
      sym (usable_user-id st req.host_team p.user_id p.user p.user_is_usable) in
    let of_user = rw (is_user, same) at by_id in
    (rw p.tokens_are of_user, rw same at p.row_is_not_denied)
