-- ===== src/Oauth/Token/Codes.antt =====
-- src/oauth/token.ts, the authorization code grant: what an answer with tokens has checked, and
-- that a code is spent once.
use stohr.Common.{
  ℕ, ◌≤◌, ◌≡◌, refl, ap, inl, inr, true, none, some, List, [], ◌∷◌, String, arith, find, find_holds,
  update_where, Bool-cases, Option-cases, ◌==◌, str_eq, eq_iff,
}
use stohr.Db.{UserRow}
use stohr.Oauth.State.{
  OauthState, AuthCodeRow, Crypto, Tokens, issued, given, client_refusal, client_refusal-not_issued,
  usable_user, find_user, usable_user-row, utf16_length, verify_pkce_s256,
}
use stohr.Oauth.Issue.{Request, tokens_of, issue_tokens}
use stohr.Oauth.Grants.{
  CodeBody, unused_code, spend_code, code_is_good, redeem_code, exchange_with, exchange_code,
}

-- The request names a client that may ask, a code, a verifier and a redirect URI; the code's row is
-- unused, in time, given to that client for that redirect URI, and its challenge is the verifier's; its
-- user may sign in on this host, and the tokens carry that user, client and the row's scope.
pub record Redeems (crypto : Crypto) (req : Request) (body : CodeBody) (st : OauthState)
    (t : Tokens) : Type 0 where
  pub client_id : String
  pub code : String
  pub verifier : String
  pub redirect_uri : String
  pub row : AuthCodeRow
  pub user : UserRow
  pub names_client : given body.client_id ≡ some client_id
  pub names_code : given body.code ≡ some code
  pub names_verifier : given body.code_verifier ≡ some verifier
  pub names_redirect : given body.redirect_uri ≡ some redirect_uri
  pub client_is_ok : client_refusal crypto st client_id body.client_secret ≡ none
  pub row_is_stored : find (unused_code code) st.codes ≡ some row
  pub row_is_unused : row.used_at ≡ none
  pub same_code : row.code ≡ code
  pub in_time : req.now ≤ row.expires_at
  pub same_client : row.client_id ≡ client_id
  pub same_redirect : row.redirect_uri ≡ redirect_uri
  pub is_bound : crypto.challenge_of verifier ≡ row.code_challenge
  pub verifier_length : (43 ≤ utf16_length verifier) × (utf16_length verifier ≤ 128)
  pub stored_user : find (λ (u : UserRow). u.id == row.user_id) st.users ≡ some user
  pub user_is_live : (user.deleted_at ≡ none) × (user.suspended_at ≡ none)
  pub user_is_local : user.team_id ≡ req.host_team
  pub tokens_are : t ≡ tokens_of req user client_id row.scope

find-spent :
    (now : ℕ) (code : String) (xs : List AuthCodeRow)
    → find
        (unused_code code)
        (update_where (unused_code code) (λ r. record r { used_at = some now }) xs)
      ≡ none
find-spent now code [] = refl
find-spent now code (x ∷ xs) = ground (arith, find-spent now code xs)

-- No unused row has the code.
unfoldable pub IsSpent : String → OauthState → Type 0
IsSpent code st = find (unused_code code) st.codes ≡ none

spend_code-IsSpent :
    (now : ℕ) (code : String) (st : OauthState) → IsSpent code (spend_code now code st)
unfolding IsSpent
spend_code-IsSpent now code st = find-spent now code st.codes

redeem_code-codes :
    (crypto : Crypto) (req : Request) (client_id verifier uri : String) (r : AuthCodeRow)
    (st : OauthState)
    → (redeem_code crypto req client_id verifier uri r st).0.codes ≡ st.codes
unfolding redeem_code issue_tokens
redeem_code-codes crypto req client_id verifier uri r st =
    elim (Bool-cases (code_is_good crypto req client_id verifier uri r)) [
      | inl t ↦ elim (Option-cases (usable_user st req.host_team r.user_id)) [
        | inl e ↦ rw (t, e)
        | inr (u, e) ↦ rw (t, e)
      ]
      | inr f ↦ rw f
    ]

redeem_code-issued :
    (crypto : Crypto) (req : Request) (client_id verifier uri : String) (r : AuthCodeRow)
    (st st' : OauthState) (t : Tokens)
    → redeem_code crypto req client_id verifier uri r st ≡ (st', issued t)
    → (code_is_good crypto req client_id verifier uri r ≡ true)
      × (u : UserRow) × (usable_user st req.host_team r.user_id ≡ some u)
      × (t ≡ tokens_of req u client_id r.scope)
unfolding redeem_code issue_tokens
redeem_code-issued crypto req client_id verifier uri r st st' t h =
    elim (Bool-cases (code_is_good crypto req client_id verifier uri r)) [
      | inl g ↦ elim (Option-cases (usable_user st req.host_team r.user_id)) [
        | inl e ↦ let h' = rw (g, e) at h in absurd cc
        | inr (u, e) ↦ let h' = rw (g, e) at h in (g, u, e, cc)
      ]
      | inr f ↦ let h' = rw f at h in absurd cc
    ]

-- What the checks of a claimed code compare.
code_is_good-matches :
    (crypto : Crypto) (req : Request) (client_id verifier uri : String) (r : AuthCodeRow)
    → code_is_good crypto req client_id verifier uri r ≡ true
    → (req.now ≤ r.expires_at)
      × (r.client_id ≡ client_id)
      × (r.redirect_uri ≡ uri)
      × (crypto.challenge_of verifier ≡ r.code_challenge)
      × (43 ≤ utf16_length verifier)
      × (utf16_length verifier ≤ 128)
unfolding code_is_good verify_pkce_s256
code_is_good-matches crypto req client_id verifier uri r h =
    let client : str_eq r.client_id client_id ≡ true = ground arith in
    let redirect : str_eq r.redirect_uri uri ≡ true = ground arith in
    let bound : str_eq (crypto.challenge_of verifier) r.code_challenge ≡ true = ground arith in
    (
      ground arith,
      (eq_iff _ _).0 client,
      (eq_iff _ _).0 redirect,
      (eq_iff _ _).0 bound,
      ground arith,
      ground arith,
    )

unused_code-matches :
    (code : String) (r : AuthCodeRow)
    → unused_code code r ≡ true
    → (r.used_at ≡ none) × (r.code ≡ code)
unused_code-matches code r h =
    let same : str_eq r.code code ≡ true = ground arith in (ground arith, (eq_iff _ _).0 same)

-- A request that reached the code's table leaves it spent.
exchange_with-IsSpent :
    (crypto : Crypto) (req : Request) (client_id code verifier uri : String) (st : OauthState)
    → IsSpent code (exchange_with crypto req client_id code verifier uri st).0
unfolding exchange_with IsSpent
exchange_with-IsSpent crypto req client_id code verifier uri st =
    elim (Option-cases (find (unused_code code) st.codes)) [
      | inl e ↦ rw (exchange_with, e) e
      | inr (r, e) ↦
          rw
            (
              exchange_with,
              e,
              redeem_code-codes crypto req client_id verifier uri r (spend_code req.now code st),
            )
            (find-spent req.now code st.codes)
    ]

-- The parameters with which a request that is answered with tokens reached the code's table.
record Reaches (crypto : Crypto) (req : Request) (body : CodeBody) (st st' : OauthState)
    (t : Tokens) : Type 0 where
  client_id : String
  code : String
  verifier : String
  redirect_uri : String
  names_client : given body.client_id ≡ some client_id
  names_code : given body.code ≡ some code
  names_verifier : given body.code_verifier ≡ some verifier
  names_redirect : given body.redirect_uri ≡ some redirect_uri
  client_is_ok : client_refusal crypto st client_id body.client_secret ≡ none
  exchanged : exchange_with crypto req client_id code verifier redirect_uri st ≡ (st', issued t)

exchange_code-Reaches :
    (crypto : Crypto) (req : Request) (body : CodeBody) (st st' : OauthState) (t : Tokens)
    → exchange_code crypto req body st ≡ (st', issued t)
    → Reaches crypto req body st st' t
unfolding exchange_code
exchange_code-Reaches crypto req body st st' t h = elim (Option-cases (given body.client_id)) [
  | inl e ↦ let h' = rw (exchange_code, e) at h in absurd cc
  | inr (client_id, e) ↦ elim (Option-cases (given body.code)) [
    | inl e2 ↦ let h' = rw (exchange_code, e, e2) at h in absurd cc
    | inr (code, e2) ↦ elim (Option-cases (given body.code_verifier)) [
      | inl e3 ↦ let h' = rw (exchange_code, e, e2, e3) at h in absurd cc
      | inr (verifier, e3) ↦ elim (Option-cases (given body.redirect_uri)) [
        | inl e4 ↦ let h' = rw (exchange_code, e, e2, e3, e4) at h in absurd cc
        | inr (uri, e4) ↦
            elim (Option-cases (client_refusal crypto st client_id body.client_secret)) [
              | inr (reply, e5) ↦ absurd (
                  client_refusal-not_issued crypto st client_id body.client_secret reply t e5
                    (let h' = rw (exchange_code, e, e2, e3, e4, e5) at h in cc))
              | inl e5 ↦ record {
                client_id = client_id;
                code = code;
                verifier = verifier;
                redirect_uri = uri;
                names_client = e;
                names_code = e2;
                names_verifier = e3;
                names_redirect = e4;
                client_is_ok = e5;
                exchanged = rw (exchange_code, e, e2, e3, e4, e5) at h;
              }
            ]
      ]
    ]
  ]
]

Reaches-Redeems :
    (crypto : Crypto) (req : Request) (body : CodeBody) (st st' : OauthState) (t : Tokens)
    → Reaches crypto req body st st' t
    → Redeems crypto req body st t
unfolding exchange_with usable_user find_user
Reaches-Redeems crypto req body st st' t p =
    elim (Option-cases (find (unused_code p.code) st.codes)) [
      | inl e ↦ let h = rw (exchange_with, e) at p.exchanged in absurd cc
      | inr (r, e) ↦
          let (good, u, usable, is_t) =
            redeem_code-issued crypto req p.client_id p.verifier p.redirect_uri r
              (spend_code req.now p.code st) st' t (rw (exchange_with, e) at p.exchanged) in
          let (timely, client, redirect, bound, long, short) =
            code_is_good-matches crypto req p.client_id p.verifier p.redirect_uri r good in
          let (unused, same) = unused_code-matches p.code r (find_holds _ st.codes r e) in
          let (stored, deleted, suspended, local) =
            usable_user-row st req.host_team r.user_id u usable in
          record {
            client_id = p.client_id;
            code = p.code;
            verifier = p.verifier;
            redirect_uri = p.redirect_uri;
            row = r;
            user = u;
            names_client = p.names_client;
            names_code = p.names_code;
            names_verifier = p.names_verifier;
            names_redirect = p.names_redirect;
            client_is_ok = p.client_is_ok;
            row_is_stored = e;
            row_is_unused = unused;
            same_code = same;
            in_time = timely;
            same_client = client;
            same_redirect = redirect;
            is_bound = bound;
            verifier_length = (long, short);
            stored_user = stored;
            user_is_live = (deleted, suspended);
            user_is_local = local;
            tokens_are = is_t;
          }
    ]

-- When the request for an authorization code is answered with tokens, it gives a client that may ask,
-- a code, a redirect URI and a verifier of 43 to 128 characters; the code's row is stored, unused, in
-- time, of that client and redirect URI, and its challenge is the verifier's; its user is neither deleted
-- nor suspended and of the host's team, and the tokens are for that user, that client and the row's scope.
pub exchange_code-Redeems :
    (crypto : Crypto) (req : Request) (body : CodeBody) (st st' : OauthState) (t : Tokens)
    → exchange_code crypto req body st ≡ (st', issued t)
    → Redeems crypto req body st t
exchange_code-Redeems crypto req body st st' t h =
    Reaches-Redeems crypto req body st st' t (exchange_code-Reaches crypto req body st st' t h)

-- A request that is answered with tokens leaves its code spent.
pub exchange_code-IsSpent :
    (crypto : Crypto) (req : Request) (body : CodeBody) (st st' : OauthState) (t : Tokens)
    (code : String)
    → exchange_code crypto req body st ≡ (st', issued t)
    → given body.code ≡ some code
    → IsSpent code st'
exchange_code-IsSpent crypto req body st st' t code h c =
    let p = exchange_code-Reaches crypto req body st st' t h in
    let spent = exchange_with-IsSpent crypto req p.client_id p.code p.verifier p.redirect_uri st in
    let same : p.code ≡ code = let n = p.names_code in cc in
    let left : (exchange_with crypto req p.client_id p.code p.verifier p.redirect_uri st).0 ≡ st' =
      ap (λ q. q.0) p.exchanged in
    rw (left, same) at spent
