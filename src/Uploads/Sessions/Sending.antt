-- ===== src/Uploads/Sessions/Sending.antt =====
-- src/uploads/index.ts, the chunk handler: one request, and the requests of a whole upload.
use stohr.Common.{
  ℕ, ◌+◌, ◌-◌, ◌≤◌, ◌<◌, ◌≡◌, refl, ◌⊎◌, false, some, List, [], ◌∷◌, ◌++◌, String, arith, length,
  ltb, le→ltb_false,
}
use mathlib.Core.List.{append_assoc, append-nil}
use stohr.Uploads.Finalize.{Env}
use stohr.Uploads.Rows.{SessionRow, UploadState, status, status_of, load_session, chunk_size}
use stohr.Uploads.Sessions.{PartParam, absent, chunk, chunk_part, accept_chunk, part_number_of}
use stohr.Uploads.Sessions.Parts.{
  IsStored, extended, Appends, chunk_part-Appends, accept_chunk-Appends,
}

-- A chunk request on a local session whose parts hold its bytes so far either changes nothing, or
-- appends its bytes as the next part: the session then has one chunk and so many bytes more, its
-- parts joined are the old bytes followed by the new ones, it holds at most its declared size, and
-- all parts before the last one are full.
pub chunk-Appends :
    (env : Env) (now user_id : ℕ) (id : String) (param : PartParam) (bytes front : List ℕ)
    (etag : String) (st : UploadState) (s : SessionRow)
    → load_session st.sessions id user_id ≡ some s
    → IsStored s st.disk.objects front
    → ((chunk env now user_id id param bytes etag st).0 ≡ st)
      ⊎ Appends id user_id s front bytes st (chunk env now user_id id param bytes etag st).0
unfolding chunk
chunk-Appends env now user_id id param bytes front etag st s found h = ground (
  arith,
  chunk_part-Appends env s (part_number_of s.chunks_received param) bytes front etag st id user_id
      found h,
)

-- A chunk that a session waits for: not empty, not beyond the declared size, and full unless it is
-- the last one.
abbrev pub Fits : SessionRow → List ℕ → Type 0
Fits s bytes =
    (0 < length bytes)
    × (s.byte_offset + length bytes ≤ s.total_size)
    × (s.byte_offset + length bytes < s.total_size → length bytes ≡ chunk_size)

chunk_part_accepts :
    (env : Env) (s : SessionRow) (bytes : List ℕ) (etag : String) (st : UploadState)
    → Fits s bytes
    → chunk_part env s (some (s.chunks_received + 1)) bytes etag st
      ≡ accept_chunk env s (s.chunks_received + 1) bytes etag st
unfolding chunk_part
chunk_part_accepts env s bytes etag st (pos, fits, full) = ground arith

chunk-accept_chunk :
    (env : Env) (now user_id : ℕ) (id : String) (bytes : List ℕ) (etag : String) (st : UploadState)
    (s : SessionRow)
    → load_session st.sessions id user_id ≡ some s
    → now ≤ s.expires_at
    → Fits s bytes
    → chunk env now user_id id absent bytes etag st
      ≡ accept_chunk env s (s.chunks_received + 1) bytes etag st
unfolding chunk
chunk-accept_chunk env now user_id id bytes etag st s found live fit =
    let open_still : ltb s.expires_at now ≡ false = le→ltb_false s.expires_at now live in
    ground (arith, found, chunk_part_accepts env s bytes etag st fit)

-- A fitting chunk, sent in time with no part number, is accepted: the reply is the status with its
-- bytes counted, and its bytes are appended as the next part.
pub chunk_accepts :
    (env : Env) (now user_id : ℕ) (id : String) (bytes front : List ℕ) (etag : String)
    (st : UploadState) (s : SessionRow)
    → load_session st.sessions id user_id ≡ some s
    → IsStored s st.disk.objects front
    → now ≤ s.expires_at
    → Fits s bytes
    → ((chunk env now user_id id absent bytes etag st).1
        ≡ status (status_of (extended s (length bytes))))
      × Appends id user_id s front bytes st (chunk env now user_id id absent bytes etag st).0
unfolding accept_chunk
chunk_accepts env now user_id id bytes front etag st s found h live fit =
    rw (chunk-accept_chunk env now user_id id bytes etag st s found live fit) (
      refl,
      accept_chunk-Appends env s (s.chunks_received + 1) bytes front etag st id user_id found h refl
          fit.1 fit.2,
    )

-- The requests that send the chunks one after the other.
unfoldable pub send : Env → ℕ → ℕ → String → List (List ℕ) → UploadState → UploadState
send env now user_id id [] st = st
send env now user_id id (c ∷ chunks) st =
    send env now user_id id chunks (chunk env now user_id id absent c "" st).0

-- The chunks joined.
abbrev pub joined : List (List ℕ) → List ℕ
joined [] = []
joined (c ∷ chunks) = c ++ joined chunks

-- The chunks cut the bytes that are left: each one but the last is full, and none is empty.
abbrev pub Cut : ℕ → List (List ℕ) → Type 0
Cut left [] = left ≡ 0
Cut left (c ∷ chunks) =
    (0 < length c)
    × (length c ≤ left)
    × (length c < left → length c ≡ chunk_size)
    × Cut (left - length c) chunks

-- Sending all the chunks of a file in time completes the session: its parts joined are the bytes
-- that it held, followed by all the chunks, and its offset is its declared size.
pub send_completes :
    (env : Env) (now user_id : ℕ) (id : String) (chunks : List (List ℕ)) (front : List ℕ)
    (st : UploadState) (s : SessionRow)
    → load_session st.sessions id user_id ≡ some s
    → IsStored s st.disk.objects front
    → now ≤ s.expires_at
    → Cut (s.total_size - s.byte_offset) chunks
    → (s' : SessionRow) × (load_session (send env now user_id id chunks st).sessions id user_id
        ≡ some s')
      × IsStored s' (send env now user_id id chunks st).disk.objects (front ++ joined chunks)
      × (s'.byte_offset ≡ s.total_size)
      × (s'.total_size ≡ s.total_size)
      × (s'.storage_key ≡ s.storage_key)
unfolding send
send_completes env now user_id id [] front st s found h live cut =
    (s, found, rw append-nil h, omega (arith, h.bounded), refl, refl)
send_completes env now user_id id (c ∷ chunks) front st s found h live (pos, fits, full, cut) =
    let n : ℕ = length c in
    let fit : Fits s c = (pos, omega (arith, h.bounded), λ lt. full (omega (arith, h.bounded))) in
    let (reply, after) = chunk_accepts env now user_id id c front "" st s found h live fit in
    let (found', h', same) = after in
    let left : s.total_size - s.byte_offset - n ≡ s.total_size - (s.byte_offset + n) =
      omega arith in
    let (s', there, stored, done, total, key) =
      send_completes env now user_id id chunks (front ++ c)
        (chunk env now user_id id absent c "" st).0 (extended s n) found' h' live
        (rw left at cut) in
    (s', there, rw (← append_assoc front c (joined chunks)) stored, done, total, key)
