-- ===== src/Oauth/Token/Reuse.antt =====
-- src/oauth/token.ts: an authorization code yields tokens once, whatever requests come between.
use stohr.Common.{
  ℕ, ◌≡◌, ◌≢◌, refl, inl, inr, none, some, List, [], ◌∷◌, String, arith, find, update_where,
  Option-cases,
}
use stohr.Oauth.State.{OauthState, AuthCodeRow, Crypto, Tokens, issued, given, client_refusal}
use stohr.Oauth.Issue.{Request, issue_tokens}
use stohr.Oauth.Grants.{
  CodeBody, RefreshBody, unused_code, spend_code, redeem_code, exchange_with, exchange_code, rotate,
  refresh_row_of, refresh_with, refresh,
}
use stohr.Oauth.Poll.{DeviceBody, claim_device, decide_device, poll_row, poll_with, poll_device}
use stohr.Oauth.Token.{
  TokenRequest, code_grant, refresh_grant, device_grant, other_grant, handle, run,
}
use stohr.Oauth.Token.Codes.{IsSpent, exchange_code-Redeems, exchange_code-IsSpent}

refresh-codes :
    (crypto : Crypto) (req : Request) (body : RefreshBody) (st : OauthState)
    → (refresh crypto req body st).0.codes ≡ st.codes
unfolding refresh refresh_with refresh_row_of rotate issue_tokens
refresh-codes crypto req body st = ground arith

poll_device-codes :
    (crypto : Crypto) (req : Request) (body : DeviceBody) (st : OauthState)
    → (poll_device crypto req body st).0.codes ≡ st.codes
unfolding poll_device poll_with poll_row decide_device claim_device issue_tokens
poll_device-codes crypto req body st = ground arith

find-spend_other :
    (now : ℕ) (code other : String) (xs : List AuthCodeRow)
    → find (unused_code code) xs ≡ none
    → find
        (unused_code code)
        (update_where (unused_code other) (λ r. record r { used_at = some now }) xs)
      ≡ none
find-spend_other now code other [] h = refl
find-spend_other now code other (x ∷ xs) h = ground (arith, find-spend_other now code other xs)

redeem_code-codes :
    (crypto : Crypto) (req : Request) (client_id verifier uri : String) (r : AuthCodeRow)
    (st : OauthState)
    → (redeem_code crypto req client_id verifier uri r st).0.codes ≡ st.codes
unfolding redeem_code issue_tokens
redeem_code-codes crypto req client_id verifier uri r st = ground arith

exchange_with-keeps :
    (crypto : Crypto) (req : Request) (client_id other verifier uri code : String) (st : OauthState)
    → IsSpent code st
    → IsSpent code (exchange_with crypto req client_id other verifier uri st).0
unfolding exchange_with IsSpent
exchange_with-keeps crypto req client_id other verifier uri code st h =
    elim (Option-cases (find (unused_code other) st.codes)) [
      | inl e ↦ rw (exchange_with, e) h
      | inr (r, e) ↦
          rw
            (
              exchange_with,
              e,
              redeem_code-codes crypto req client_id verifier uri r (spend_code req.now other st),
            )
            (find-spend_other req.now code other st.codes h)
    ]

exchange_code-keeps :
    (crypto : Crypto) (req : Request) (body : CodeBody) (code : String) (st : OauthState)
    → IsSpent code st
    → IsSpent code (exchange_code crypto req body st).0
unfolding exchange_code
exchange_code-keeps crypto req body code st h = elim (Option-cases (given body.client_id)) [
  | inl e ↦ rw (exchange_code, e) h
  | inr (c, e) ↦ elim (Option-cases (given body.code)) [
    | inl e2 ↦ rw (exchange_code, e, e2) h
    | inr (o, e2) ↦ elim (Option-cases (given body.code_verifier)) [
      | inl e3 ↦ rw (exchange_code, e, e2, e3) h
      | inr (v, e3) ↦ elim (Option-cases (given body.redirect_uri)) [
        | inl e4 ↦ rw (exchange_code, e, e2, e3, e4) h
        | inr (u, e4) ↦ elim (Option-cases (client_refusal crypto st c body.client_secret)) [
          | inl e5 ↦
              rw (exchange_code, e, e2, e3, e4, e5)
                (exchange_with-keeps crypto req c o v u code st h)
          | inr (reply, e5) ↦ rw (exchange_code, e, e2, e3, e4, e5) h
        ]
      ]
    ]
  ]
]

handle-keeps :
    (crypto : Crypto) (req : Request) (r : TokenRequest) (code : String) (st : OauthState)
    → IsSpent code st
    → IsSpent code (handle crypto req r st).0
unfolding handle IsSpent
handle-keeps crypto req (code_grant body) code st h = exchange_code-keeps crypto req body code st h
handle-keeps crypto req (refresh_grant body) code st h = rw (refresh-codes crypto req body st) h
handle-keeps crypto req (device_grant body) code st h = rw (poll_device-codes crypto req body st) h
handle-keeps crypto req other_grant code st h = h

-- A spent code stays spent, whatever requests the token endpoint handles.
run-keeps :
    (crypto : Crypto) (rs : List (Request × TokenRequest)) (code : String) (st : OauthState)
    → IsSpent code st
    → IsSpent code (run crypto rs st)
unfolding run
run-keeps crypto [] code st h = h
run-keeps crypto ((req, r) ∷ rs) code st h =
    run-keeps crypto rs code (handle crypto req r st).0 (handle-keeps crypto req r code st h)

-- A code that one request was answered with tokens for yields no tokens to any later request, after
-- any sequence of token requests.
pub code_is_single_use :
    (crypto : Crypto) (req req' : Request) (body body' : CodeBody) (st st1 st2 : OauthState)
    (t t' : Tokens) (rs : List (Request × TokenRequest))
    → exchange_code crypto req body st ≡ (st1, issued t)
    → given body'.code ≡ given body.code
    → exchange_code crypto req' body' (run crypto rs st1) ≢ (st2, issued t')
unfolding IsSpent
code_is_single_use crypto req req' body body' st st1 st2 t t' rs h same h' =
    let first = exchange_code-Redeems crypto req body st st1 t h in
    let later = exchange_code-Redeems crypto req' body' (run crypto rs st1) st2 t' h' in
    let spent : IsSpent first.code (run crypto rs st1) =
      run-keeps crypto rs first.code st1
        (exchange_code-IsSpent crypto req body st st1 t first.code h first.names_code) in
    let same_code : first.code ≡ later.code =
      let a = first.names_code in let b = later.names_code in cc in
    let unused = later.row_is_stored in let s = rw same_code at spent in absurd cc
