-- ===== src/Uploads/Sessions/Outcomes.antt =====
-- src/uploads/index.ts, the finalize handler: what a finished upload holds.
use stohr.Common.{
  ℕ, zero, suc, ◌≡◌, refl, ◌∙◌, inl, inr, true, false, none, some, List, [], ◌∷◌, String, arith,
  length, ltb, eq_iff, find, find_holds, Bool-cases,
}
use stohr.Usage.{user_quota}
use stohr.Usage.Checks.{WithinCaps}
use stohr.Uploads.Store.{
  whole, part, Objects, fetch_object, put_object, drop_object, key_eq_iff, fetch-put, fetch-drop,
}
use stohr.Uploads.Finalize.{
  Env, FinalizeArgs, FinalizedFile, FinalizeResult, finalized, over_quota, vanished, Disk,
  finalize_upload,
}
use stohr.Uploads.Finalize.Quota.{NotThumb, finalize_upload-object, finalize_upload-WithinCaps}
use stohr.Uploads.Rows.{
  SessionRow, UploadState, finished, drop_parts, load_session, owned_session, without_session,
}
use stohr.Uploads.Init.{Target, refused, owned_by, init_target}
use stohr.Uploads.Sessions.{args_of, close_session, join_parts, assemble_upload, finalize}
use stohr.Uploads.Sessions.Parts.{IsStored}

drop_parts_whole :
    (key other : String) (n : ℕ) (objects : Objects)
    → fetch_object (whole other) (drop_parts key n objects) ≡ fetch_object (whole other) objects
unfolding drop_parts
drop_parts_whole key other zero objects = refl
drop_parts_whole key other (suc n) objects =
    drop_parts_whole key other n (drop_object (part key (suc n)) objects)
    ∙ ground (
      arith,
      fetch-drop (part key (suc n)) (whole other) objects,
      key_eq_iff (part key (suc n)) (whole other),
    )

not_loaded :
    (id row_id : String) (user_id : ℕ) (sessions : List SessionRow)
    → row_id ≡ id
    → find (owned_session id user_id) (without_session row_id sessions) ≡ none
not_loaded id row_id user_id [] e = refl
not_loaded id row_id user_id (s ∷ sessions) e =
    ground (arith, not_loaded id row_id user_id sessions e, eq_iff s.id id, eq_iff s.id row_id)

close_finished :
    (s : SessionRow) (st st' : UploadState) (r : Disk × FinalizeResult) (f : FinalizedFile)
    → close_session s st r ≡ (st', finished f)
    → (r ≡ (st'.disk, finalized f)) × (st'.sessions ≡ without_session s.id st.sessions)
close_finished s st st' (disk, finalized g) f h = (ground arith, ground arith)
close_finished s st st' (disk, over_quota d) f h = absurd (ground arith)
close_finished s st st' (disk, vanished) f h = absurd (ground arith)

-- What a finished upload leaves: the joined parts as the object of its declared size, both caps
-- of the owner held, and no session.
pub record IsFinished (id : String) (user_id : ℕ) (s : SessionRow) (bytes : List ℕ)
    (st st' : UploadState) : Type 0 where
  pub content : fetch_object (whole s.storage_key) st'.disk.objects ≡ some bytes
  pub size : length bytes ≡ s.total_size
  pub closed : load_session st'.sessions id user_id ≡ none
  pub owner_id : ℕ
  pub target : init_target st.disk.db s.user_id s.folder_id ≡ owned_by owner_id
  pub caps : WithinCaps st'.disk.db owner_id (user_quota st.disk.db owner_id) 0

join_finished :
    (env : Env) (new_id : ℕ) (s : SessionRow) (owner_id : ℕ) (bytes : List ℕ) (st st' : UploadState)
    (f : FinalizedFile)
    → NotThumb s.storage_key st.disk.db.files
    → join_parts env new_id s owner_id st (some bytes) ≡ (st', finished f)
    → (fetch_object (whole s.storage_key) st'.disk.objects ≡ some bytes)
      × (st'.sessions ≡ without_session s.id st.sessions)
      × WithinCaps st'.disk.db owner_id (user_quota st.disk.db owner_id) 0
join_finished env new_id s owner_id bytes st st' f free h =
    let key : String = s.storage_key in
    let args : FinalizeArgs = args_of st.disk.db s owner_id (some bytes) in
    let put : Objects = put_object (whole key) bytes st.disk.objects in
    let disk : Disk = record (st.disk) { objects = drop_parts key s.chunks_received put } in
    let (ran, sessions) = close_finished s st st' (finalize_upload env new_id args disk) f h in
    let stored : fetch_object (whole key) put ≡ some bytes = ground (
      arith,
      fetch-put (whole key) (whole key) bytes st.disk.objects,
      key_eq_iff (whole key) (whole key),
    ) in
    (
      finalize_upload-object env new_id args disk st'.disk f free ran
          ∙ drop_parts_whole key key s.chunks_received put
          ∙ stored,
      sessions,
      finalize_upload-WithinCaps env new_id args disk st'.disk f ran,
    )

loaded :
    (sessions : List SessionRow) (id : String) (user_id : ℕ) (s : SessionRow)
    → load_session sessions id user_id ≡ some s
    → find (owned_session id user_id) sessions ≡ some s
unfolding load_session
loaded sessions id user_id s h = h

load_none :
    (sessions : List SessionRow) (id : String) (user_id : ℕ)
    → find (owned_session id user_id) sessions ≡ none
    → load_session sessions id user_id ≡ none
unfolding load_session
load_none sessions id user_id h = h

finalize_ran :
    (env : Env) (new_id now user_id : ℕ) (id : String) (st st' : UploadState) (s : SessionRow)
    (f : FinalizedFile)
    → load_session st.sessions id user_id ≡ some s
    → finalize env new_id now user_id id st ≡ (st', finished f)
    → (ltb s.byte_offset s.total_size ≡ false)
      × (assemble_upload env new_id s (init_target st.disk.db s.user_id s.folder_id) st
          ≡ (st', finished f))
unfolding finalize
finalize_ran env new_id now user_id id st st' s f found run =
    elim (Bool-cases (ltb s.expires_at now)) [
      | inl e ↦ absurd (ground arith)
      | inr e ↦ elim (Bool-cases (ltb s.byte_offset s.total_size)) [
        | inl p ↦ absurd (ground arith)
        | inr p ↦ (p, ground arith)
      ]
    ]

assemble_ran :
    (env : Env) (new_id : ℕ) (s : SessionRow) (t : Target) (st st' : UploadState) (bytes : List ℕ)
    (f : FinalizedFile)
    → IsStored s st.disk.objects bytes
    → assemble_upload env new_id s t st ≡ (st', finished f)
    → (owner_id : ℕ) × (t ≡ owned_by owner_id)
      × (join_parts env new_id s owner_id st (some bytes) ≡ (st', finished f))
unfolding assemble_upload
assemble_ran env new_id s (refused code) st st' bytes f h run = absurd (ground arith)
assemble_ran env new_id s (owned_by o) st st' bytes f h run =
    (o, refl, rw (h.is_local, h.merged) at run)

-- A local upload that the finalize handler reports as finished holds, under its storage key,
-- exactly the bytes of its parts, as many as were declared; the session is gone; the caller's
-- access to the folder was resolved again, and the owner that it gave is within both caps. No
-- file's thumbnail has the upload's key.
pub finalize-IsFinished :
    (env : Env) (new_id now user_id : ℕ) (id : String) (st st' : UploadState) (s : SessionRow)
    (bytes : List ℕ) (f : FinalizedFile)
    → load_session st.sessions id user_id ≡ some s
    → IsStored s st.disk.objects bytes
    → NotThumb s.storage_key st.disk.db.files
    → finalize env new_id now user_id id st ≡ (st', finished f)
    → IsFinished id user_id s bytes st st'
finalize-IsFinished env new_id now user_id id st st' s bytes f found h free run =
    let (complete, ran) = finalize_ran env new_id now user_id id st st' s f found run in
    let (o, target, joined) =
      assemble_ran env new_id s (init_target st.disk.db s.user_id s.folder_id) st st' bytes f h
        ran in
    let (content, sessions, caps) = join_finished env new_id s o bytes st st' f free joined in
    let owned : owned_session id user_id s ≡ true =
      find_holds _ st.sessions s (loaded st.sessions id user_id s found) in
    let same : s.id ≡ id = ground (arith, eq_iff s.id id) in
    let full : s.byte_offset ≡ s.total_size = ground (arith, h.bounded) in
    record {
      content = content;
      size = h.counted ∙ full;
      closed =
          load_none st'.sessions id user_id
            (rw sessions (not_loaded id s.id user_id st.sessions same));
      owner_id = o;
      target = target;
      caps = caps;
    }
