-- ===== src/Oauth/Token/Polling.antt =====
-- src/oauth/token.ts, the device grant: what an answer with tokens has checked, and that the device
-- code is deleted with it.
use stohr.Common.{
  ℕ, ◌≡◌, ◌≤◌, refl, ap, inl, inr, true, false, not, ◌||◌, Option, none, some, List, [], ◌∷◌,
  String, arith, str_eq, ltb, find, any, delete_where, is_none, is_some, Bool-cases, Option-cases,
  eq_iff, ◌==◌,
}
use stohr.Db.{UserRow}
use stohr.Oauth.State.{
  OauthState, DeviceCodeRow, Crypto, Tokens, issued, given, client_refusal,
  client_refusal-not_issued, usable_user, find_user,
}
use stohr.Oauth.Issue.{Request, tokens_of, issue_tokens}
use stohr.Oauth.Poll.{
  DeviceBody, is_device, polled, too_fast, claimable, claim_device, decide_device, poll_row,
  poll_with, poll_device,
}

-- The code is the client's, in time, polled slowly enough, approved and not denied; its user may
-- sign in on this host; the tokens carry that user, that client and the code's scope; no row that
-- could be claimed is left.
pub record Claims (crypto : Crypto) (req : Request) (client_id device_code : String)
    (st st' : OauthState) (t : Tokens) : Type 0 where
  pub row : DeviceCodeRow
  pub user_id : ℕ
  pub user : UserRow
  pub row_is_found : find (is_device device_code) st.device_codes ≡ some row
  pub row_is_clients : row.client_id ≡ client_id
  pub row_is_in_time : req.now ≤ row.expires_at
  pub row_is_slow : too_fast req.now row.last_polled_at ≡ false
  pub row_is_approved : is_some row.approved_at ≡ true
  pub row_is_not_denied : row.denied_at ≡ none
  pub row_has_user : row.user_id ≡ some user_id
  pub user_is_usable : usable_user st req.host_team user_id ≡ some user
  pub tokens_are : t ≡ tokens_of req user client_id row.scope
  pub codes_are : any (claimable req.now device_code) st'.device_codes ≡ false

delete-claimable :
    (now : ℕ) (code : String) (xs : List DeviceCodeRow)
    → any (claimable now code) (delete_where (claimable now code) xs) ≡ false
delete-claimable now code [] = refl
delete-claimable now code (x ∷ xs) = ground (arith, delete-claimable now code xs)

claim_device-issued :
    (crypto : Crypto) (req : Request) (client_id device_code : String) (d : DeviceCodeRow)
    (u : UserRow) (st st' : OauthState) (t : Tokens)
    → claim_device crypto req client_id device_code d u st ≡ (st', issued t)
    → (t ≡ tokens_of req u client_id d.scope)
      × (any (claimable req.now device_code) st'.device_codes ≡ false)
unfolding claim_device issue_tokens
claim_device-issued crypto req client_id device_code d u st st' t h =
    elim (Bool-cases (any (claimable req.now device_code) st.device_codes)) [
      | inr f ↦ let h' = rw (claim_device, f) at h in absurd cc
      | inl c ↦
          let h' = rw (claim_device, c) at h in
          let left : delete_where (claimable req.now device_code) st.device_codes
              ≡ st'.device_codes =
            ap (λ q. q.0.device_codes) h' in
          let gone = delete-claimable req.now device_code st.device_codes in (cc, rw left at gone)
    ]

-- The part behind the update of the time of the last poll.
record Decides (crypto : Crypto) (req : Request) (client_id device_code : String)
    (d : DeviceCodeRow) (st st' : OauthState) (t : Tokens) : Type 0 where
  user_id : ℕ
  user : UserRow
  approved : is_some d.approved_at ≡ true
  not_denied : d.denied_at ≡ none
  has_user : d.user_id ≡ some user_id
  usable : usable_user st req.host_team user_id ≡ some user
  tokens : t ≡ tokens_of req user client_id d.scope
  codes : any (claimable req.now device_code) st'.device_codes ≡ false

decide_device-issued :
    (crypto : Crypto) (req : Request) (client_id device_code : String) (d : DeviceCodeRow)
    (o : Option ℕ) (st st' : OauthState) (t : Tokens)
    → d.user_id ≡ o
    → decide_device crypto req client_id device_code d o st ≡ (st', issued t)
    → Decides crypto req client_id device_code d st st' t
unfolding decide_device
decide_device-issued crypto req client_id device_code d none st st' t is_user h = absurd cc
decide_device-issued crypto req client_id device_code d (some id) st st' t is_user h =
    elim (Option-cases d.denied_at) [
      | inr (at, e) ↦ let h' = rw (decide_device, e) at h in absurd cc
      | inl e ↦ elim (Bool-cases (is_none d.approved_at || id == 0)) [
        | inl p ↦ let h' = rw (decide_device, e, p) at h in absurd cc
        | inr a ↦ elim (Option-cases (usable_user st req.host_team id)) [
          | inl n ↦ let h' = rw (decide_device, e, a, n) at h in absurd cc
          | inr (u, n) ↦
              let (is_t, gone) =
                claim_device-issued crypto req client_id device_code d u st st' t
                  (rw (decide_device, e, a, n) at h) in
              record {
                user_id = id;
                user = u;
                approved = ground arith;
                not_denied = e;
                has_user = is_user;
                usable = n;
                tokens = is_t;
                codes = gone;
              }
        ]
      ]
    ]

poll_row-issued :
    (crypto : Crypto) (req : Request) (client_id device_code : String) (d : DeviceCodeRow)
    (st st' : OauthState) (t : Tokens)
    → find (is_device device_code) st.device_codes ≡ some d
    → poll_row crypto req client_id device_code d st ≡ (st', issued t)
    → Claims crypto req client_id device_code st st' t
unfolding poll_row decide_device usable_user find_user
poll_row-issued crypto req client_id device_code d st st' t found h =
    elim (Bool-cases (not (str_eq d.client_id client_id))) [
      | inl e ↦ let h' = rw (poll_row, e) at h in absurd cc
      | inr mine ↦ elim (Bool-cases (ltb d.expires_at req.now)) [
        | inl e ↦ let h' = rw (poll_row, mine, e) at h in absurd cc
        | inr time ↦ elim (Bool-cases (too_fast req.now d.last_polled_at)) [
          | inl e ↦ let h' = rw (poll_row, mine, time, e) at h in absurd cc
          | inr slow ↦
              let h' = rw (poll_row, mine, time, slow) at h in
              let q =
                decide_device-issued crypto req client_id device_code d d.user_id
                  (polled req.now device_code st) st' t refl h' in
              record {
                row = d;
                user_id = q.user_id;
                user = q.user;
                row_is_found = found;
                row_is_clients = ground (arith, eq_iff d.client_id client_id);
                row_is_in_time = ground arith;
                row_is_slow = slow;
                row_is_approved = q.approved;
                row_is_not_denied = q.not_denied;
                row_has_user = q.has_user;
                user_is_usable = q.usable;
                tokens_are = q.tokens;
                codes_are = q.codes;
              }
        ]
      ]
    ]

-- When a client's poll with a device code is answered with tokens, the code's row is the client's, in
-- time, polled slowly enough, approved and not denied, its user may sign in on this host, the tokens
-- are for that user, that client and the row's scope, and no row of the code can be claimed again.
pub poll_device-Claims :
    (crypto : Crypto) (req : Request) (body : DeviceBody) (client_id device_code : String)
    (st st' : OauthState) (t : Tokens)
    → given body.client_id ≡ some client_id
    → given body.device_code ≡ some device_code
    → poll_device crypto req body st ≡ (st', issued t)
    → Claims crypto req client_id device_code st st' t
unfolding poll_device poll_with
poll_device-Claims crypto req body client_id device_code st st' t c k h =
    elim (Option-cases (client_refusal crypto st client_id body.client_secret)) [
      | inr (reply, e) ↦ absurd (
          client_refusal-not_issued crypto st client_id body.client_secret reply t e
            (let h' = rw (poll_device, c, k, e) at h in cc))
      | inl e ↦ elim (Option-cases (find (is_device device_code) st.device_codes)) [
        | inl n ↦ let h' = rw (poll_device, c, k, e, poll_with, n) at h in absurd cc
        | inr (d, n) ↦
            poll_row-issued crypto req client_id device_code d st st' t n
              (rw (poll_device, c, k, e, poll_with, n) at h)
      ]
    ]
