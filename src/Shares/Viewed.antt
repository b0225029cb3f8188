-- ===== src/Shares/Viewed.antt =====
-- src/shares/index.ts, `GET /s/:token`: what a request for a link shows before it is sent the file.
use Prim.Native.String
use stohr.Common.{
  ℕ, ◌≡◌, ◌≢◌, ◌⊎◌, inl, inr, true, false, not, ◌&&◌, Option, none, some, List, String, arith,
  opt_eq, Bool-cases, Option-cases,
}
use stohr.Db.{Db, FileRow, ShareRow}
use stohr.Auth.Credentials.{AuthState}
use stohr.Uploads.Store.{whole, Objects, fetch_object}
use stohr.Security.Rates.{RateRow, RateLimitResult, check_rate, find_bucket}
use stohr.Security.Inline.{InlineDecision}
use stohr.Shares.Routes.{delete_id}
use stohr.Shares.View.{
  ViewState, View, Outside, served, view, view_file, pass_password, checked_ip, checked_share,
  open_file, deliver, miss, find_share, is_expired, shared_file, is_scan_blocked, is_right,
  resolve_viewer_id, is_blocked, miss_bucket, miss_max, miss_window_seconds,
}

module _ (out : Outside) (db : Db) (objects : Objects) (req : View) where
  abbrev pub Burns : ShareRow → Option ℕ → Type 0
  Burns s viewer = s.burn_on_view && not (opt_eq viewer s.user_id) ≡ true

  deliver-served :
      (st : ViewState) (s : ShareRow) (f f' : FileRow) (viewer : Option ℕ × AuthState)
      (d : InlineDecision) (bytes : List ℕ)
      → (deliver out db objects req st s f viewer).0 ≡ served f' d bytes
      → (f ≡ f')
        × (fetch_object (whole f.storage_key) objects ≡ some bytes)
        × (Burns s viewer.0
            → (deliver out db objects req st s f viewer).1.shares ≡ delete_id s.id st.shares)
  deliver-served st s f f' viewer d bytes h = ground arith

  abbrev pub viewer : ViewState → Option ℕ
  viewer st = (resolve_viewer_id out.auth req.conn st.auth).0

  -- The file's object was sent, and a link that burns for this viewer is gone behind it.
  abbrev pub Delivers : ViewState → ShareRow → FileRow → FileRow → List ℕ → ViewState → Type 0
  Delivers st s f f' bytes st' =
      (f ≡ f')
      × (fetch_object (whole f.storage_key) objects ≡ some bytes)
      × (Burns s (viewer st) → st'.shares ≡ delete_id s.id st.shares)

  abbrev pub IsLetIn : ShareRow → Type 0
  IsLetIn s =
      (s.password_hash ≡ none)
      ⊎ ((hash : String) × (s.password_hash ≡ some hash) × (is_right out req.password hash ≡ true))

  open_file-served :
      (st : ViewState) (s : ShareRow) (f f' : FileRow) (d : InlineDecision) (bytes : List ℕ)
      → (open_file out db objects req st s f).0 ≡ served f' d bytes
      → Delivers st s f f' bytes (open_file out db objects req st s f).1
  open_file-served st s f f' d bytes h =
      deliver-served st s f f' (resolve_viewer_id out.auth req.conn st.auth) d bytes h

  checked_share-served :
      (st : ViewState) (s : ShareRow) (f f' : FileRow) (hash : String)
      (rate : RateLimitResult × List RateRow) (d : InlineDecision) (bytes : List ℕ)
      → (checked_share out db objects req st s f hash rate).0 ≡ served f' d bytes
      → (is_right out req.password hash ≡ true)
        × Delivers st s f f' bytes (checked_share out db objects req st s f hash rate).1
  checked_share-served st s f f' hash rate d bytes h = elim (Bool-cases rate.0.ok) [
    | inr e ↦ absurd (let bad = rw (checked_share, e) at h in cc)
    | inl e ↦ elim (Bool-cases (is_right out req.password hash)) [
      | inr w ↦ absurd (let bad = rw (checked_share, e, w) at h in cc)
      | inl r ↦
          let st' = record st { rates = rate.1 } in
          (
            r,
            rw (checked_share, e, r)
                (open_file-served st' s f f' d bytes (rw (checked_share, e, r) at h)),
          )
    ]
  ]

  checked_ip-served :
      (st : ViewState) (s : ShareRow) (f f' : FileRow) (hash : String)
      (rate : RateLimitResult × List RateRow) (d : InlineDecision) (bytes : List ℕ)
      → (checked_ip out db objects req st s f hash rate).0 ≡ served f' d bytes
      → (is_right out req.password hash ≡ true)
        × Delivers st s f f' bytes (checked_ip out db objects req st s f hash rate).1
  checked_ip-served st s f f' hash rate d bytes h = elim (Bool-cases rate.0.ok) [
    | inr e ↦ absurd (let bad = rw (checked_ip, e) at h in cc)
    | inl e ↦
        let st' = record st { rates = rate.1 } in
        rw (checked_ip, e)
          (checked_share-served st' s f f' hash
            (check_rate rate.1 out.auth.now (out.share_bucket s.id) 10 900) d bytes
            (rw (checked_ip, e) at h))
  ]

  pass_password-served :
      (st : ViewState) (s : ShareRow) (f f' : FileRow) (d : InlineDecision) (bytes : List ℕ)
      → (pass_password out db objects req st s f s.password_hash).0 ≡ served f' d bytes
      → IsLetIn s
        × Delivers st s f f' bytes (pass_password out db objects req st s f s.password_hash).1
  pass_password-served st s f f' d bytes h = elim (Option-cases s.password_hash) [
    | inl e ↦ (
      inl e,
      rw (pass_password, e) (open_file-served st s f f' d bytes (rw (pass_password, e) at h)),
    )
    | inr (hash, e) ↦
        let (right, sent) =
          checked_ip-served st s f f' hash
            (check_rate st.rates out.auth.now (String.◌++◌ "share:pw:ip:" req.ip) 30 900) d bytes
            (rw (pass_password, e) at h) in
        (inr (hash, e, right), rw (pass_password, e) sent)
  ]

  not_missed :
      (st : ViewState) (rate : RateLimitResult × List RateRow) (f : FileRow) (d : InlineDecision)
      (bytes : List ℕ)
      → (miss out db objects req st rate).0 ≢ served f d bytes
  not_missed st rate f d bytes h = elim (Bool-cases rate.0.ok) [
    | inl e ↦ let bad = rw (miss, e) at h in absurd cc
    | inr e ↦ let bad = rw (miss, e) at h in absurd cc
  ]

  -- What the request for a link shows before its file is sent.
  pub record IsViewed (st st' : ViewState) (f : FileRow) (bytes : List ℕ) : Type 0 where
    pub share : ShareRow
    pub is_found : find_share db st.shares req ≡ some share
    pub in_time : is_expired out.auth.now share ≡ false
    pub has_file : shared_file db share ≡ some f
    pub is_scanned : is_scan_blocked out.has_clamd f.scan_status ≡ false
    pub let_in : IsLetIn share
    pub sent : fetch_object (whole f.storage_key) objects ≡ some bytes
    pub burnt : Burns share (viewer st) → st'.shares ≡ delete_id share.id st.shares

  view_file-served :
      (st : ViewState) (s : ShareRow) (f' : FileRow) (d : InlineDecision) (bytes : List ℕ)
      → (view_file out db objects req st s (shared_file db s)).0 ≡ served f' d bytes
      → find_share db st.shares req ≡ some s
      → is_expired out.auth.now s ≡ false
      → IsViewed st (view_file out db objects req st s (shared_file db s)).1 f' bytes
  view_file-served st s f' d bytes h found time = elim (Option-cases (shared_file db s)) [
    | inl e ↦ absurd (let bad = rw (view_file, e) at h in cc)
    | inr (f, e) ↦ elim (Bool-cases (is_scan_blocked out.has_clamd f.scan_status)) [
      | inl w ↦ absurd (let bad = rw (view_file, e, w) at h in cc)
      | inr clear ↦ elim (Bool-cases req.is_meta) [
        | inl w ↦ absurd (let bad = rw (view_file, e, clear, w) at h in cc)
        | inr plain ↦
            let (let_in, (same, sent, burnt)) =
              pass_password-served st s f f' d bytes (rw (view_file, e, clear, plain) at h) in
            record {
              share = s;
              is_found = found;
              in_time = time;
              has_file = rw (← same) e;
              is_scanned = rw (← same) clear;
              let_in = let_in;
              sent = rw (← same) sent;
              burnt = rw (view_file, e, clear, plain) burnt;
            }
      ]
    ]
  ]

  -- A link whose file was sent had a row with the token, of a user in the host's team, that was not
  -- expired; its file was not in the trash and not held back by the scanner, the password was right if
  -- the link has one, and the bytes are those of the file's object; if the link burns and the viewer
  -- is not its owner, its row is deleted.
  pub view-IsViewed :
      (st : ViewState) (f : FileRow) (d : InlineDecision) (bytes : List ℕ)
      → (view out db objects req st).0 ≡ served f d bytes
      → IsViewed st (view out db objects req st).1 f bytes
  unfolding view
  view-IsViewed st f d bytes h =
      elim (Bool-cases (is_blocked out.auth.now (find_bucket st.rates (miss_bucket req.ip)))) [
        | inl w ↦ absurd (let bad = rw (view, w) at h in cc)
        | inr free ↦ elim (Option-cases (find_share db st.shares req)) [
          | inl e ↦ absurd (
              not_missed st
                (check_rate st.rates out.auth.now (miss_bucket req.ip) miss_max miss_window_seconds)
                f d bytes (rw (view, free, e) at h))
          | inr (s, e) ↦ elim (Bool-cases (is_expired out.auth.now s)) [
            | inl w ↦ absurd (let bad = rw (view, free, e, w) at h in cc)
            | inr time ↦
                rw (view, free, e, time)
                  (view_file-served st s f d bytes (rw (view, free, e, time) at h) e time)
          ]
        ]
      ]
