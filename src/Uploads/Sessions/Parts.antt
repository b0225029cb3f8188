-- ===== src/Uploads/Sessions/Parts.antt =====
-- src/uploads/index.ts: the stored parts of a local session are its bytes in order, through every
-- chunk and into the final object.
use stohr.Common.{
  ℕ, zero, suc, ◌+◌, ◌*◌, ◌≤◌, ◌<◌, ◌≡◌, ◌≢◌, refl, ◌∙◌, sym, ap, ◌⊎◌, inl, true, false, Option,
  none, some, List, ◌++◌, String, arith, length, length-append, ◌&&◌, str_eq, eq_iff,
  find-update_where, update_where, find, is_some,
}
use stohr.Uploads.Store.{part, Objects, put_object, key_eq, key_eq_iff, fetch-put}
use stohr.Uploads.Finalize.{Env}
use stohr.Uploads.Rows.{SessionRow, UploadState, load_session, owned_session, chunk_size}
use stohr.Uploads.Sessions.{merge_parts, chunk_part, accept_chunk}

part_ne : (key : String) (m n : ℕ) → m ≢ n → key_eq (part key m) (part key n) ≡ false
unfolding key_eq
part_ne key m n h = ground arith

part_self : (key : String) (n : ℕ) → key_eq (part key n) (part key n) ≡ true
part_self key n = (key_eq_iff (part key n) (part key n)).1 refl

-- A later part does not change what the earlier ones are.
merge_parts-put :
    (key : String) (m n : ℕ) (b : List ℕ) (objects : Objects)
    → m < n
    → merge_parts key m (put_object (part key n) b objects) ≡ merge_parts key m objects
unfolding merge_parts
merge_parts-put key zero n b objects h = refl
merge_parts-put key (suc m) n b objects h = ground (
  arith,
  merge_parts-put key m n b objects,
  fetch-put (part key n) (part key (suc m)) b objects,
  part_ne key n (suc m),
)

-- The next part is joined to the end.
merge_parts-put_next :
    (key : String) (n : ℕ) (b front : List ℕ) (objects : Objects)
    → merge_parts key n objects ≡ some front
    → merge_parts key (suc n) (put_object (part key (suc n)) b objects) ≡ some (front ++ b)
unfolding merge_parts
merge_parts-put_next key n b front objects h = ground (
  arith,
  merge_parts-put key n (suc n) b objects,
  fetch-put (part key (suc n)) (part key (suc n)) b objects,
  part_self key (suc n),
)

-- A local session, and the bytes that its parts hold.
pub record IsStored (s : SessionRow) (objects : Objects) (bytes : List ℕ) : Type 0 where
  pub is_local : s.s3_upload_id ≡ none
  pub merged : merge_parts s.storage_key s.chunks_received objects ≡ some bytes
  pub counted : length bytes ≡ s.byte_offset
  pub bounded : s.byte_offset ≤ s.total_size
  pub full_parts : s.byte_offset < s.total_size → s.byte_offset ≡ s.chunks_received * chunk_size

-- The row as an accepted chunk of `n` bytes leaves it.
abbrev pub extended : SessionRow → ℕ → SessionRow
extended s n = record s { chunks_received = s.chunks_received + 1; byte_offset = s.byte_offset + n }

-- What a chunk request may do: nothing, or append its bytes to the session.
abbrev pub Appends : String → ℕ → SessionRow → List ℕ → List ℕ → UploadState → UploadState → Type 0
Appends id user_id s front bytes st st' =
    (load_session st'.sessions id user_id ≡ some (extended s (length bytes)))
    × IsStored (extended s (length bytes)) st'.disk.objects (front ++ bytes)
    × (st'.disk.db ≡ st.disk.db)

pub accept_chunk-Appends :
    (env : Env) (s : SessionRow) (n : ℕ) (bytes front : List ℕ) (etag : String) (st : UploadState)
    (id : String) (user_id : ℕ)
    → load_session st.sessions id user_id ≡ some s
    → IsStored s st.disk.objects front
    → n ≡ s.chunks_received + 1
    → s.byte_offset + length bytes ≤ s.total_size
    → (s.byte_offset + length bytes < s.total_size → length bytes ≡ chunk_size)
    → Appends id user_id s front bytes st (accept_chunk env s n bytes etag st).0
unfolding accept_chunk load_session
accept_chunk-Appends env s n bytes front etag st id user_id found h e fits full =
    let step : SessionRow → SessionRow = λ r. record r {
      chunks_received = n;
      byte_offset = s.byte_offset + length bytes;
      s3_part_etags = s.s3_part_etags;
    } in
    let key : String = s.storage_key in
    let local : (is_some s.s3_upload_id && env.s3) ≡ false = ground (arith, h.is_local) in
    let self : str_eq s.id s.id ≡ true = (eq_iff s.id s.id).1 refl in
    let row : extended s (length bytes) ≡ step s = ground arith in
    let seen : find (owned_session id user_id)
          (update_where (λ r. str_eq r.id s.id) step st.sessions)
        ≡ some (step s) =
      find-update_where (owned_session id user_id) (λ r. str_eq r.id s.id) step st.sessions s
        (λ x. refl) found
      ∙ rw self in
    let next : s.chunks_received + 1 ≡ suc s.chunks_received = omega arith in
    rw local (
      seen ∙ ap (λ r. some r) (sym row),
      record {
        is_local = h.is_local;
        merged =
            rw (e, next)
              (merge_parts-put_next s.storage_key s.chunks_received bytes front st.disk.objects
                h.merged);
        counted = omega (arith, length-append front bytes, h.counted);
        bounded = fits;
        full_parts = λ lt. omega (arith, full lt, h.full_parts (omega arith));
      },
      refl,
    )

pub chunk_part-Appends :
    (env : Env) (s : SessionRow) (o : Option ℕ) (bytes front : List ℕ) (etag : String)
    (st : UploadState) (id : String) (user_id : ℕ)
    → load_session st.sessions id user_id ≡ some s
    → IsStored s st.disk.objects front
    → ((chunk_part env s o bytes etag st).0 ≡ st)
      ⊎ Appends id user_id s front bytes st (chunk_part env s o bytes etag st).0
unfolding chunk_part
chunk_part-Appends env s none bytes front etag st id user_id found h = inl refl
chunk_part-Appends env s (some n) bytes front etag st id user_id found h =
    ground (arith, accept_chunk-Appends env s n bytes front etag st id user_id)
