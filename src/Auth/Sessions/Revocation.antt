-- ===== src/Auth/Sessions/Revocation.antt =====
-- src/security/sessions.ts: what ends a session, and what does not.
use stohr.Common.{
  ℕ, ◌≡◌, ◌≢◌, ◌≤◌, refl, inl, inr, true, false, Option, none, some, List, [], ◌∷◌, String, ltb,
  find, delete_where, update_where, arith, Option-cases, find-update_where, find_holds,
}
use stohr.Auth.Sessions.{
  SessionRow, has_id, is_session_active, live_session, revoke_session, live_session_of, excepted,
  revoke_all_sessions, sweep_expired_sessions,
}

-- Active: the session of the id is there, is not revoked, and its time is not over.
pub is_session_active-row :
    (now : ℕ) (jti : String) (rows : List SessionRow)
    → (is_session_active now jti rows).active ≡ true
    → (s : SessionRow) × (find (has_id jti) rows ≡ some s)
      × (s.revoked_at ≡ none)
      × (now ≤ s.expires_at)
      × ((is_session_active now jti rows).user_id ≡ some s.user_id)
unfolding is_session_active
is_session_active-row now jti rows h = elim (Option-cases (find (has_id jti) rows)) [
  | inl e ↦ let h' = rw (is_session_active, e) at h in absurd cc
  | inr (s, e) ↦
      let h' = rw (is_session_active, e) at h in
      (s, e, ground arith, ground arith, rw (is_session_active, e))
]

find-sweep :
    (now : ℕ) (jti : String) (rows : List SessionRow) (s : SessionRow)
    → find (has_id jti) rows ≡ some s
    → ltb s.expires_at now ≡ false
    → find (has_id jti) (delete_where (λ x. ltb x.expires_at now) rows) ≡ some s
find-sweep now jti [] s h e = absurd cc
find-sweep now jti (x ∷ rows) s h e = ground (arith, find-sweep now jti rows s)

-- The sweep of expired sessions ends no session that is active at its time.
pub sweep-keeps_active :
    (now : ℕ) (jti : String) (rows : List SessionRow)
    → (is_session_active now jti rows).active ≡ true
    → is_session_active now jti (sweep_expired_sessions now rows) ≡ is_session_active now jti rows
unfolding is_session_active sweep_expired_sessions
sweep-keeps_active now jti rows h =
    let (s, found, live, time, user) = is_session_active-row now jti rows h in
    rw (found, find-sweep now jti rows s found (ground arith))

find-revoke_all :
    (now user_id : ℕ) (except : Option String) (jti : String) (rows : List SessionRow)
    (s : SessionRow)
    → find (has_id jti) (
        update_where
          (live_session_of user_id except)
          (λ x. record x { revoked_at = some now })
          rows)
      ≡ some s
    → s.user_id ≡ user_id
    → s.revoked_at ≡ none
    → excepted except s ≡ true
find-revoke_all now user_id except jti [] s h u r = absurd cc
find-revoke_all now user_id except jti (x ∷ rows) s h u r =
    ground (arith, find-revoke_all now user_id except jti rows s)

-- Behind the revocation of a user's sessions with none excepted, at any time, no session is active
-- that is the user's.
pub revoke_all-ends :
    (now later user_id : ℕ) (jti : String) (rows : List SessionRow)
    → (is_session_active later jti (revoke_all_sessions now user_id none rows).0).active ≡ true
    → (is_session_active later jti (revoke_all_sessions now user_id none rows).0).user_id
      ≢ some user_id
unfolding revoke_all_sessions
revoke_all-ends now later user_id jti rows h u =
    let (s, found, live, time, user) =
      is_session_active-row later jti (revoke_all_sessions now user_id none rows).0 h in
    let mine : s.user_id ≡ user_id = cc in
    let no : excepted none s ≡ true = find-revoke_all now user_id none jti rows s found mine live in
    absurd (ground arith)

-- A session that its user revokes is not active at any time afterwards.
pub revoke_session-ends :
    (now later user_id : ℕ) (jti : String) (rows : List SessionRow) (s : SessionRow)
    → find (has_id jti) rows ≡ some s
    → s.user_id ≡ user_id
    → (is_session_active later jti (revoke_session now jti user_id rows).0).active ≡ false
unfolding revoke_session is_session_active
revoke_session-ends now later user_id jti rows s found mine =
    let updated =
      find-update_where (has_id jti) (live_session jti user_id)
        (λ x. record x { revoked_at = some now }) rows s (λ x. refl) found in
    let is_jti : has_id jti s ≡ true = find_holds (has_id jti) rows s found in
    rw (is_session_active, updated) (ground arith)
