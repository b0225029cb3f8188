-- ===== src/Uploads/Sessions/Opening.antt =====
-- src/uploads/index.ts, the init handler: bounds on what open sessions reserve.
use stohr.Common.{
  ℕ, suc, ◌+◌, ◌≤◌, ◌<◌, ◌≡◌, inl, inr, true, none, some, List, ◌∷◌, arith, ltb, ◌==◌, ◌&&◌,
  Option-cases, Bool-cases,
}
use stohr.Db.{FolderRow}
use stohr.Usage.{user_quota, check_quota}
use stohr.Usage.Checks.{WithinCaps, check_quota-none_iff}
use stohr.Uploads.Finalize.{Env}
use stohr.Uploads.Rows.{
  SessionRow, UploadState, created, session_owner, reserved_bytes, open_session_count,
  max_sessions_per_user,
}
use stohr.Uploads.Init.{
  InitBody, Fresh, Target, refused, owned_by, init, open_session, init_target, new_session,
}

-- A created session, the owner under whom it lands, and the state before and after.
pub record IsOpened (env : Env) (now user_id : ℕ) (s : SessionRow) (owner_id : ℕ)
    (st st' : UploadState) : Type 0 where
  pub added : st'.sessions ≡ s ∷ st.sessions
  pub kept : st'.disk ≡ st.disk
  pub user : s.user_id ≡ user_id
  pub lives : now < s.expires_at
  pub empty : (s.byte_offset ≡ 0) × (s.chunks_received ≡ 0) × (0 < s.total_size)
  pub room : open_session_count st.sessions now user_id < max_sessions_per_user
  pub target : init_target st.disk.db user_id s.folder_id ≡ owned_by owner_id
  pub caps :
      WithinCaps st.disk.db owner_id
        (user_quota st.disk.db owner_id)
        (s.total_size + reserved_bytes st.disk.db.folders st.sessions now owner_id)

open_session_opened :
    (env : Env) (fresh : Fresh) (now user_id : ℕ) (body : InitBody) (total : ℕ) (t : Target)
    (st st' : UploadState) (s : SessionRow) (o : ℕ)
    → open_session env fresh now user_id body total t st ≡ (st', created s o)
    → (t ≡ owned_by o)
      × (s ≡ new_session env fresh now user_id body total)
      × (st' ≡ record st { sessions = s ∷ st.sessions })
      × (check_quota st.disk.db o
            (user_quota st.disk.db o)
            (total + reserved_bytes st.disk.db.folders st.sessions now o)
          ≡ none)
unfolding open_session
open_session_opened env fresh now user_id body total (refused code) st st' s o h =
    absurd (ground arith)
open_session_opened env fresh now user_id body total (owned_by o') st st' s o h =
    elim (Option-cases (
      check_quota st.disk.db o' (user_quota st.disk.db o')
        (total + reserved_bytes st.disk.db.folders st.sessions now o'))) [
          | inl e ↦ (ground arith, ground arith, ground arith, ground arith)
          | inr (d, e) ↦ absurd (ground arith)
        ]

init_ran :
    (env : Env) (fresh : Fresh) (now user_id : ℕ) (body : InitBody) (st st' : UploadState)
    (s : SessionRow) (o : ℕ)
    → init env fresh now user_id body st ≡ (st', created s o)
    → (total : ℕ) × (0 < total)
      × (body.total_size ≡ some total)
      × (open_session_count st.sessions now user_id < max_sessions_per_user)
      × (open_session env fresh now user_id body total
            (init_target st.disk.db user_id body.folder_id)
            st
          ≡ (st', created s o))
unfolding init
init_ran env fresh now user_id body st st' s o h = elim (Option-cases body.total_size) [
  | inl e ↦ absurd (ground arith)
  | inr (total, e) ↦ (total, ground arith, e, ground arith, ground arith)
]

-- A session is created only in a state without 16 open ones of the caller, for a folder that the
-- caller may write to or the caller's own root, and only if both caps of the owner hold with the
-- declared size and all that is reserved for the owner added. It starts empty, with a positive
-- size, and nothing but the sessions changes.
pub init-IsOpened :
    (env : Env) (fresh : Fresh) (now user_id : ℕ) (body : InitBody) (st st' : UploadState)
    (s : SessionRow) (owner_id : ℕ)
    → init env fresh now user_id body st ≡ (st', created s owner_id)
    → IsOpened env now user_id s owner_id st st'
init-IsOpened env fresh now user_id body st st' s o h =
    let (total, pos, e, room, ran) = init_ran env fresh now user_id body st st' s o h in
    let t : Target = init_target st.disk.db user_id body.folder_id in
    let (target, row, after, quota) =
      open_session_opened env fresh now user_id body total t st st' s o ran in
    record {
      added = ground arith;
      kept = ground arith;
      user = ground arith;
      lives = ground arith;
      empty = (ground arith, ground arith, ground arith);
      room = room;
      target = ground arith;
      caps = rw row ((check_quota-none_iff _ _ _ _).0 quota);
    }

reserved-cons :
    (folders : List FolderRow) (s : SessionRow) (sessions : List SessionRow) (now o : ℕ)
    → session_owner folders s ≡ o
    → now < s.expires_at
    → reserved_bytes folders (s ∷ sessions) now o
      ≡ s.total_size + reserved_bytes folders sessions now o
unfolding reserved_bytes
reserved-cons folders s sessions now o e h =
    let mine : (session_owner folders s == o && ltb now s.expires_at) ≡ true = ground arith in
    rw mine

count-cons :
    (s : SessionRow) (sessions : List SessionRow) (now user_id : ℕ)
    → open_session_count (s ∷ sessions) now user_id ≤ suc (open_session_count sessions now user_id)
unfolding open_session_count
count-cons s sessions now user_id =
    elim (Bool-cases (s.user_id == user_id && ltb now s.expires_at)) [
      | inl t ↦ rw t (omega arith)
      | inr f ↦ rw f (omega arith)
    ]

-- After `init` has created a session, both caps of the owner hold with everything that the open
-- sessions reserve for that owner added, the new session included, and the caller has at most 16
-- open sessions. The session counts for that owner when it is summed up again.
pub init-reserved :
    (env : Env) (fresh : Fresh) (now user_id : ℕ) (body : InitBody) (st st' : UploadState)
    (s : SessionRow) (owner_id : ℕ)
    → session_owner st.disk.db.folders s ≡ owner_id
    → init env fresh now user_id body st ≡ (st', created s owner_id)
    → WithinCaps st'.disk.db owner_id
        (user_quota st'.disk.db owner_id)
        (reserved_bytes st'.disk.db.folders st'.sessions now owner_id)
      × (open_session_count st'.sessions now user_id ≤ max_sessions_per_user)
init-reserved env fresh now user_id body st st' s o owner h =
    let i = init-IsOpened env fresh now user_id body st st' s o h in
    rw (i.added, i.kept, reserved-cons st.disk.db.folders s st.sessions now o owner i.lives)
      (i.caps, omega (arith, i.room, count-cons s st.sessions now user_id))
