-- ===== src/Oauth/Token/Refresh.antt =====
-- src/oauth/token.ts, the refresh grant: the scope is never widened, the presented token is revoked
-- and replaced, and presenting a revoked one revokes every live token of the user and the client.
use stohr.Common.{
  ℕ, ◌≡◌, refl, sym, inl, inr, true, false, not, ◌||◌, Option, none, some, List, [], ◌∷◌, String,
  arith, str_eq, ltb, find, filter, any, update_where, Bool-cases, Option-cases, eq_iff,
}
use stohr.Db.{UserRow}
use stohr.Oauth.Scopes.{
  parse_scope, format_scope, includes, includes_scopes, narrowed-includes, includes_scopes_self,
}
use stohr.Oauth.State.{
  OauthState, RefreshRow, Crypto, Tokens, oauth_error, issued, invalid_grant, given, client_refusal,
  client_refusal-not_issued, usable_user,
}
use stohr.Oauth.Issue.{Request, tokens_of, issue_tokens}
use stohr.Oauth.Grants.{
  RefreshBody, live_of, burn, has_hash, revoke_hash, narrowed, next_scope, rotate, refresh_row_of,
  refresh_with, refresh,
}

narrowed-includes_some :
    (scope : String) (kept : List String) (scope' : String)
    → narrowed kept ≡ some scope'
    → includes_scopes (parse_scope scope) (parse_scope (format_scope kept)) ≡ true
    → includes_scopes (parse_scope scope) (parse_scope scope') ≡ true
narrowed-includes_some scope [] scope' e g = absurd cc
narrowed-includes_some scope (s ∷ ss) scope' e g =
    let same : format_scope (s ∷ ss) ≡ scope' = cc in rw same at g

-- The new scope is a part of the old one.
next_scope-includes :
    (scope : String) (requested : Option String) (scope' : String)
    → next_scope scope requested ≡ some scope'
    → includes_scopes (parse_scope scope) (parse_scope scope') ≡ true
unfolding next_scope
next_scope-includes scope requested scope' h = elim (Option-cases (given requested)) [
  | inl e ↦
      let h' : some scope ≡ some scope' = rw (next_scope, e) at h in
      let same : scope ≡ scope' = cc in rw (sym same) (includes_scopes_self (parse_scope scope))
  | inr (r, e) ↦
      let h' = rw (next_scope, e) at h in
      let kept : List String = filter (includes (parse_scope scope)) (parse_scope r) in
      narrowed-includes_some scope kept scope' h' (narrowed-includes scope r)
]

-- The presented token is live, in time and the client's; its user may sign in on this host; the
-- token is revoked, and the new pair has a scope that is a part of its scope.
pub record Rotates (crypto : Crypto) (req : Request) (client_id hash : String) (st st' : OauthState)
    (t : Tokens) : Type 0 where
  pub row : RefreshRow
  pub user : UserRow
  pub scope : String
  pub row_is_found : find (has_hash hash) st.refresh_tokens ≡ some row
  pub row_is_clients : row.client_id ≡ client_id
  pub row_is_in_time : ltb row.expires_at req.now ≡ false
  pub row_is_live : row.revoked_at ≡ none
  pub user_is_usable : usable_user st req.host_team row.user_id ≡ some user
  pub scope_is_narrower : includes_scopes (parse_scope row.scope) (parse_scope scope) ≡ true
  pub tokens_are : t ≡ tokens_of req user client_id scope
  pub state_is :
      st'
      ≡ (issue_tokens crypto req user client_id scope
          (some row.token_hash)
          (revoke_hash req.now hash st)).0

rotate-issued :
    (crypto : Crypto) (req : Request) (user : UserRow) (client_id : String) (r : RefreshRow)
    (requested : Option String) (st st' : OauthState) (t : Tokens)
    → rotate crypto req user client_id r requested st ≡ (st', issued t)
    → (scope : String) × (next_scope r.scope requested ≡ some scope)
      × (t ≡ tokens_of req user client_id scope)
      × (st' ≡ (issue_tokens crypto req user client_id scope (some r.token_hash) st).0)
unfolding rotate issue_tokens
rotate-issued crypto req user client_id r requested st st' t h =
    elim (Option-cases (next_scope r.scope requested)) [
      | inl e ↦ let h' = rw (rotate, e) at h in absurd cc
      | inr (scope, e) ↦ let h' = rw (rotate, e) at h in (scope, e, cc, cc)
    ]

refresh_row_of-issued :
    (crypto : Crypto) (req : Request) (client_id hash : String) (requested : Option String)
    (r : RefreshRow) (st st' : OauthState) (t : Tokens)
    → find (has_hash hash) st.refresh_tokens ≡ some r
    → refresh_row_of crypto req client_id hash requested r st ≡ (st', issued t)
    → Rotates crypto req client_id hash st st' t
unfolding refresh_row_of
refresh_row_of-issued crypto req client_id hash requested r st st' t found h =
    elim (Bool-cases (not (str_eq r.client_id client_id) || ltb r.expires_at req.now)) [
      | inl bad ↦ let h' = rw (refresh_row_of, bad) at h in absurd cc
      | inr good ↦ elim (Option-cases (usable_user st req.host_team r.user_id)) [
        | inl e ↦ let h' = rw (refresh_row_of, good, e) at h in absurd cc
        | inr (u, e) ↦ elim (Option-cases r.revoked_at) [
          | inr (at, d) ↦ let h' = rw (refresh_row_of, good, e, d) at h in absurd cc
          | inl live ↦
              let (scope, next, is_t, is_st) =
                rotate-issued crypto req u client_id r requested (revoke_hash req.now hash st) st' t
                  (rw (refresh_row_of, good, e, live) at h) in
              record {
                row = r;
                user = u;
                scope = scope;
                row_is_found = found;
                row_is_clients = ground (arith, eq_iff r.client_id client_id);
                row_is_in_time = ground arith;
                row_is_live = live;
                user_is_usable = e;
                scope_is_narrower = next_scope-includes r.scope requested scope next;
                tokens_are = is_t;
                state_is = is_st;
              }
        ]
      ]
    ]

-- The parameters with which a request that is answered with tokens reached the token's table.
pub record Reaches (crypto : Crypto) (req : Request) (body : RefreshBody) (st st' : OauthState)
    (t : Tokens) : Type 0 where
  pub client_id : String
  pub token : String
  pub row : RefreshRow
  pub names_client : given body.client_id ≡ some client_id
  pub names_token : given body.refresh_token ≡ some token
  pub client_is_ok : client_refusal crypto st client_id body.client_secret ≡ none
  pub row_is_found : find (has_hash (crypto.sha256 token)) st.refresh_tokens ≡ some row
  pub refreshed :
      refresh_row_of crypto req client_id (crypto.sha256 token) body.scope row st ≡ (st', issued t)

pub refresh-Reaches :
    (crypto : Crypto) (req : Request) (body : RefreshBody) (st st' : OauthState) (t : Tokens)
    → refresh crypto req body st ≡ (st', issued t)
    → Reaches crypto req body st st' t
unfolding refresh refresh_with
refresh-Reaches crypto req body st st' t h = elim (Option-cases (given body.client_id)) [
  | inl e ↦ let h' = rw (refresh, e) at h in absurd cc
  | inr (client_id, e) ↦ elim (Option-cases (given body.refresh_token)) [
    | inl e2 ↦ let h' = rw (refresh, e, e2) at h in absurd cc
    | inr (token, e2) ↦
        elim (Option-cases (client_refusal crypto st client_id body.client_secret)) [
          | inr (reply, e3) ↦ absurd (
              client_refusal-not_issued crypto st client_id body.client_secret reply t e3
                (let h' = rw (refresh, e, e2, e3) at h in cc))
          | inl e3 ↦ elim (Option-cases (find (has_hash (crypto.sha256 token)) st.refresh_tokens)) [
            | inl e4 ↦ let h' = rw (refresh, e, e2, e3, refresh_with, e4) at h in absurd cc
            | inr (row, e4) ↦ record {
              client_id = client_id;
              token = token;
              row = row;
              names_client = e;
              names_token = e2;
              client_is_ok = e3;
              row_is_found = e4;
              refreshed = rw (refresh, e, e2, e3, refresh_with, e4) at h;
            }
          ]
        ]
  ]
]

-- When the refresh request of a client with a token is answered with tokens, the token is live, in time and the
-- client's, its user may sign in on this host, the new scope is a part of the old one, and the state
-- behind it is the one before it with the token revoked and one row for the new token.
pub refresh-Rotates :
    (crypto : Crypto) (req : Request) (body : RefreshBody) (st st' : OauthState) (t : Tokens)
    (client_id token : String)
    → given body.client_id ≡ some client_id
    → given body.refresh_token ≡ some token
    → refresh crypto req body st ≡ (st', issued t)
    → Rotates crypto req client_id (crypto.sha256 token) st st' t
refresh-Rotates crypto req body st st' t client_id token client named h =
    let p = refresh-Reaches crypto req body st st' t h in
    let named' = p.names_token in
    let client' = p.names_client in
    let same : p.token ≡ token = cc in
    let same_client : p.client_id ≡ client_id = cc in
    let r =
      refresh_row_of-issued crypto req p.client_id (crypto.sha256 p.token) body.scope p.row st st' t
        p.row_is_found p.refreshed in
    rw (same, same_client) at r

pub burn-live :
    (now user_id : ℕ) (client_id : String) (xs : List RefreshRow)
    → any
        (live_of user_id client_id)
        (update_where (live_of user_id client_id) (λ r. record r { revoked_at = some now }) xs)
      ≡ false
burn-live now user_id client_id [] = refl
burn-live now user_id client_id (x ∷ xs) = ground (arith, burn-live now user_id client_id xs)

-- A request that presents a revoked token.
pub refresh-revoked :
    (crypto : Crypto) (req : Request) (body : RefreshBody) (client_id token : String)
    (r : RefreshRow) (u : UserRow) (at : ℕ) (st : OauthState)
    → given body.client_id ≡ some client_id
    → given body.refresh_token ≡ some token
    → client_refusal crypto st client_id body.client_secret ≡ none
    → find (has_hash (crypto.sha256 token)) st.refresh_tokens ≡ some r
    → r.client_id ≡ client_id
    → ltb r.expires_at req.now ≡ false
    → usable_user st req.host_team r.user_id ≡ some u
    → r.revoked_at ≡ some at
    → refresh crypto req body st
      ≡ (burn req.now r.user_id r.client_id st, oauth_error 400 invalid_grant)
unfolding refresh refresh_with refresh_row_of
refresh-revoked crypto req body client_id token r u at st c k ok found mine time usable revoked =
    let good : (not (str_eq r.client_id client_id) || ltb r.expires_at req.now) ≡ false =
      ground (arith, eq_iff r.client_id client_id) in
    rw (refresh, c, k, ok, refresh_with, found, refresh_row_of, good, usable, revoked)
