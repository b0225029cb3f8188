-- ===== src/Oauth/Token/Replay.antt =====
-- src/oauth/token.ts, the refresh grant: a replaced refresh token that is presented again.
use stohr.Common.{
  ℕ, ◌≡◌, ◌≤◌, refl, ◌∙◌, sym, ap, true, false, Option, none, some, String, arith, str_eq, find,
  any, find_holds, find-update_where,
}
use stohr.Db.{UserRow}
use stohr.Oauth.State.{
  OauthState, RefreshRow, Crypto, Tokens, oauth_error, issued, invalid_grant, given, client_refusal,
  usable_user, usable_user-id, find_user, find_client,
}
use stohr.Oauth.Issue.{Request, tokens_of, issue_tokens}
use stohr.Oauth.Grants.{RefreshBody, live_of, has_hash, revoke_hash, refresh}
use stohr.Oauth.Token.Refresh.{refresh-Reaches, refresh-Rotates, refresh-revoked, burn-live}

-- The state behind a rotation.
abbrev rotated :
    Crypto → Request → UserRow → String → String → RefreshRow → String → OauthState → OauthState
rotated crypto req u client_id scope r hash st =
    (issue_tokens crypto req u client_id scope (some r.token_hash) (revoke_hash req.now hash st)).0

rotated-row :
    (crypto : Crypto) (req : Request) (u : UserRow) (client_id scope : String) (r : RefreshRow)
    (hash : String) (st : OauthState)
    → str_eq (crypto.sha256 req.fresh_token) hash ≡ false
    → find (has_hash hash) st.refresh_tokens ≡ some r
    → find (has_hash hash) (rotated crypto req u client_id scope r hash st).refresh_tokens
      ≡ some (record r { revoked_at = some req.now })
unfolding issue_tokens
rotated-row crypto req u client_id scope r hash st fresh found =
    let is_r : str_eq r.token_hash hash ≡ true =
      find_holds (has_hash hash) st.refresh_tokens r found in
    let updated =
      find-update_where (has_hash hash) (has_hash hash)
        (λ x. record x { revoked_at = some req.now }) st.refresh_tokens r (λ x. refl) found in
    let updated' = rw is_r at updated in rw fresh updated'

rotated-client :
    (crypto : Crypto) (req : Request) (u : UserRow) (client_id scope : String) (r : RefreshRow)
    (hash : String) (st : OauthState) (c : String) (secret : Option String)
    → client_refusal crypto (rotated crypto req u client_id scope r hash st) c secret
      ≡ client_refusal crypto st c secret
unfolding client_refusal find_client issue_tokens
rotated-client crypto req u client_id scope r hash st c secret = refl

rotated-user :
    (crypto : Crypto) (req : Request) (u : UserRow) (client_id scope : String) (r : RefreshRow)
    (hash : String) (st : OauthState) (host id : ℕ)
    → usable_user (rotated crypto req u client_id scope r hash st) host id ≡ usable_user st host id
unfolding usable_user find_user issue_tokens
rotated-user crypto req u client_id scope r hash st host id = refl

replay :
    (crypto : Crypto) (req req' : Request) (body : RefreshBody) (st st1 : OauthState) (t : Tokens)
    (client_id token : String) (r : RefreshRow) (u : UserRow) (scope : String)
    → given body.client_id ≡ some client_id
    → given body.refresh_token ≡ some token
    → client_refusal crypto st client_id body.client_secret ≡ none
    → find (has_hash (crypto.sha256 token)) st.refresh_tokens ≡ some r
    → r.client_id ≡ client_id
    → req'.now ≤ r.expires_at
    → req'.host_team ≡ req.host_team
    → str_eq (crypto.sha256 req.fresh_token) (crypto.sha256 token) ≡ false
    → usable_user st req.host_team r.user_id ≡ some u
    → t ≡ tokens_of req u client_id scope
    → st1 ≡ rotated crypto req u client_id scope r (crypto.sha256 token) st
    → ((refresh crypto req' body st1).1 ≡ oauth_error 400 invalid_grant)
      × (any
            (live_of t.access.id t.access.client_id)
            (refresh crypto req' body st1).0.refresh_tokens
          ≡ false)
replay crypto req req' body st st1 t client_id token r u scope c named ok found mine time host fresh
      usable is_t is_st =
    let hash : String = crypto.sha256 token in
    let r' : RefreshRow = record r { revoked_at = some req.now } in
    let user : usable_user st1 req'.host_team r.user_id ≡ some u =
      rw (is_st, host, rotated-user crypto req u client_id scope r hash st req.host_team r.user_id)
        usable in
    let refused =
      refresh-revoked crypto req' body client_id token r' u req.now st1 c named
        (rw
          (
            is_st,
            rotated-client crypto req u client_id scope r hash st client_id body.client_secret,
          )
          ok)
        (rw is_st (rotated-row crypto req u client_id scope r hash st fresh found)) mine
        (ground arith) user refl in
    let is_user : u.id ≡ r.user_id = usable_user-id st req.host_team r.user_id u usable in
    rw (refused, is_t, is_user, sym mine)
      (refl, burn-live req'.now r.user_id r.client_id st1.refresh_tokens)

-- When a request with a refresh token is answered with tokens, and it is repeated on the same host
-- before the token would have expired, then the repetition is answered with `invalid_grant`, and no
-- refresh token of that user and client is live behind it. The hash of the token that the first
-- request was answered with differs from the hash of the presented one.
pub replayed_refresh-burns :
    (crypto : Crypto) (req req' : Request) (body : RefreshBody) (st st1 : OauthState) (t : Tokens)
    (token : String) (r : RefreshRow)
    → given body.refresh_token ≡ some token
    → find (has_hash (crypto.sha256 token)) st.refresh_tokens ≡ some r
    → req'.now ≤ r.expires_at
    → req'.host_team ≡ req.host_team
    → str_eq (crypto.sha256 req.fresh_token) (crypto.sha256 token) ≡ false
    → refresh crypto req body st ≡ (st1, issued t)
    → ((refresh crypto req' body st1).1 ≡ oauth_error 400 invalid_grant)
      × (any
            (live_of t.access.id t.access.client_id)
            (refresh crypto req' body st1).0.refresh_tokens
          ≡ false)
replayed_refresh-burns crypto req req' body st st1 t token r named found time host fresh h =
    let p = refresh-Reaches crypto req body st st1 t h in
    let named' = p.names_token in
    let same : p.token ≡ token = cc in
    let q = refresh-Rotates crypto req body st st1 t p.client_id token p.names_client named h in
    let found' = q.row_is_found in
    let same_row : q.row ≡ r = cc in
    let mine : r.client_id ≡ p.client_id =
      ap (λ x. x.client_id) (sym same_row) ∙ q.row_is_clients in
    replay crypto req req' body st st1 t p.client_id token r q.user q.scope p.names_client named
      p.client_is_ok found mine time host fresh (rw same_row at q.user_is_usable) q.tokens_are
      (rw same_row at q.state_is)
