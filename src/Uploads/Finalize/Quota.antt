-- ===== src/Uploads/Finalize/Quota.antt =====
-- src/uploads/finalize.ts: the outcomes of `finalizeUpload`.
use Prim.Native.String
use text.Mathlib.TextLemmas.{nil-append, cons-append}
use stohr.Common.{
  ℕ, suc, ◌+◌, ◌≡◌, ◌≢◌, refl, ◌∙◌, sym, ap, ◌⊎◌, inl, inr, false, ◌&&◌, Option, none, some, List,
  String, arith, ◌==◌, leb, find, any, All, find-All, Option-cases, Bool-cases,
}
use stohr.Db.{FileRow}
use stohr.Usage.{QuotaDenied}
use stohr.Usage.Checks.{WithinCaps, quota_after_write-none_iff}
use stohr.Uploads.Store.{
  ObjectKey, whole, Objects, fetch_object, put_object, drop_object, key_eq_iff, fetch-drop,
  fetch-put,
}
use stohr.Uploads.Finalize.{
  Env, FinalizeArgs, FinalizedFile, finalized, over_quota, Disk, write_thumb, same_place,
  drop_thumb, drop_new, finalize_existing, finalize_new, finalize_upload, thumb_key_for,
  is_thumbable, thumb_max_bytes,
}
use stohr.Uploads.Finalize.Rollback.{
  Distinct, CurrentNotArchived, has_version, IsOnly-find, undo-write_version, undo-write_new,
  settle_denied, settle_finalized,
}

-- The thumbnail step writes nothing, or the thumbnail under its own key.
pub write_thumb_cases :
    (env : Env) (args : FinalizeArgs) (o : Option (List ℕ)) (objects : Objects)
    → (write_thumb env args o objects ≡ (none, objects))
      ⊎ ((t : List ℕ) × (write_thumb env args o objects ≡ (
        some (thumb_key_for args.key),
        put_object (whole (thumb_key_for args.key)) t objects,
      )))
unfolding write_thumb
write_thumb_cases env args none objects = inl refl
write_thumb_cases env args (some b) objects = elim (Option-cases (env.thumb b args.mime)) [
  | inl e ↦ inl (ground arith)
  | inr (t, e) ↦ elim (Bool-cases (is_thumbable args.mime && leb args.size thumb_max_bytes)) [
    | inl y ↦ inr (t, ground arith)
    | inr n ↦ inl (ground arith)
  ]
]

drop_new_self :
    (args : FinalizeArgs) (tk : Option String) (objects : Objects)
    → fetch_object (whole args.key) (drop_new args tk objects) ≡ none
drop_new_self args none objects = ground (
  arith,
  fetch-drop (whole args.key) (whole args.key) objects,
  key_eq_iff (whole args.key) (whole args.key),
)
drop_new_self args (some t) objects = ground (
  arith,
  fetch-drop (whole args.key) (whole args.key) objects,
  key_eq_iff (whole args.key) (whole args.key),
  fetch-drop (whole t) (whole args.key) (drop_object (whole args.key) objects),
)

-- Whatever the thumbnail step and `dropNew` do, the other objects stay.
drop_new_other :
    (env : Env) (args : FinalizeArgs) (o : Option (List ℕ)) (objects : Objects) (k : ObjectKey)
    → k ≢ whole args.key
    → k ≢ whole (thumb_key_for args.key)
    → let w = write_thumb env args o objects in
      fetch_object k (drop_new args w.0 w.1) ≡ fetch_object k objects
drop_new_other env args o objects k p q =
    let t : ObjectKey = whole (thumb_key_for args.key) in
    let w : ObjectKey = whole args.key in
    elim (write_thumb_cases env args o objects) [
      | inl e ↦ rw e (ground (arith, fetch-drop w k objects, key_eq_iff w k))
      | inr (b, e) ↦ rw e (
          ground (
            arith,
            fetch-drop t k (drop_object w (put_object t b objects)),
            fetch-drop w k (put_object t b objects),
            fetch-put t k b objects,
            key_eq_iff w k,
            key_eq_iff t k,
          ))
    ]

finalize_upload_of_none :
    (env : Env) (new_id : ℕ) (args : FinalizeArgs) (disk : Disk)
    → find (same_place args) disk.db.files ≡ none
    → let w = write_thumb env args args.thumb_bytes disk.objects in
      finalize_upload env new_id args disk ≡ finalize_new env args w.0 new_id disk.db w.1
unfolding finalize_upload
finalize_upload_of_none env new_id args disk e = rw (e, finalize_upload)

finalize_upload_of_some :
    (env : Env) (new_id : ℕ) (args : FinalizeArgs) (disk : Disk) (existing : FileRow)
    → find (same_place args) disk.db.files ≡ some existing
    → let w = write_thumb env args args.thumb_bytes disk.objects in
      finalize_upload env new_id args disk ≡ finalize_existing env args w.0 existing disk.db w.1
unfolding finalize_upload
finalize_upload_of_some env new_id args disk existing e = rw (e, finalize_upload)

module _ (env : Env) (new_id : ℕ) (args : FinalizeArgs) (disk disk' : Disk) where
  -- An upload that the quota refuses after the write leaves no trace: the database is the one
  -- before, the uploaded object is gone, and every object but it and its thumbnail is as before.
  -- The ids of the files are distinct, the new id is unused, and no current version is archived.
  pub finalize_upload-rollback :
      (d : QuotaDenied)
      → Distinct disk.db.files
      → any (λ f. f.id == new_id) disk.db.files ≡ false
      → CurrentNotArchived disk.db
      → finalize_upload env new_id args disk ≡ (disk', over_quota d)
      → (disk'.db ≡ disk.db)
        × (fetch_object (whole args.key) disk'.objects ≡ none)
        × ((k : ObjectKey)
            → k ≢ whole args.key
            → k ≢ whole (thumb_key_for args.key)
            → fetch_object k disk'.objects ≡ fetch_object k disk.objects)
  unfolding finalize_existing finalize_new
  finalize_upload-rollback d distinct unused current h =
      let w = write_thumb env args args.thumb_bytes disk.objects in
      let gone = drop_new_self args w.0 w.1 in
      let kept = drop_new_other env args args.thumb_bytes disk.objects in
      elim (Option-cases (find (same_place args) disk.db.files)) [
        | inl e ↦
            let run = sym (finalize_upload_of_none env new_id args disk e) ∙ h in
            let (db, objects) = settle_denied args _ _ _ _ _ _ _ _ disk' d run in
            (
              db ∙ undo-write_new env args w.0 new_id disk.db unused,
              rw objects gone,
              λ k p q. rw objects (kept k p q),
            )
        | inr (existing, e) ↦
            let run = sym (finalize_upload_of_some env new_id args disk existing e) ∙ h in
            let (db, objects) = settle_denied args _ _ _ _ _ _ _ _ disk' d run in
            let only = IsOnly-find (same_place args) disk.db.files existing distinct e in
            let fresh : any (has_version existing.id existing.version) disk.db.file_versions
                ≡ false =
              find-All
                (λ (f : FileRow). any (has_version f.id f.version) disk.db.file_versions ≡ false)
                (same_place args) disk.db.files existing current e in
            (
              db ∙ undo-write_version env args w.0 existing disk.db only fresh,
              rw objects gone,
              λ k p q. rw objects (kept k p q),
            )
      ]

  -- An upload that is kept leaves the owner and the owner's team within their caps.
  pub finalize_upload-WithinCaps :
      (f : FinalizedFile)
      → finalize_upload env new_id args disk ≡ (disk', finalized f)
      → WithinCaps disk'.db args.owner_id args.quota_bytes 0
  unfolding finalize_existing finalize_new
  finalize_upload-WithinCaps f h = elim (Option-cases (find (same_place args) disk.db.files)) [
    | inl e ↦
        let run = sym (finalize_upload_of_none env new_id args disk e) ∙ h in
        let (ok, db, objects, reply) = settle_finalized args _ _ _ _ _ _ _ _ disk' f run in
        rw db ((quota_after_write-none_iff _ _ _ _).0 ok)
    | inr (existing, e) ↦
        let run = sym (finalize_upload_of_some env new_id args disk existing e) ∙ h in
        let (ok, db, objects, reply) = settle_finalized args _ _ _ _ _ _ _ _ disk' f run in
        rw db ((quota_after_write-none_iff _ _ _ _).0 ok)
  ]

characters : String → ℕ
characters String.[] = 0
characters (String.◌∷◌ c s) = suc (characters s)

characters-append : (s t : String) → characters (String.◌++◌ s t) ≡ characters s + characters t
unfolding characters
characters-append String.[] t = rw nil-append (omega arith)
characters-append (String.◌∷◌ c s) t = rw cons-append (omega (arith, characters-append s t))

-- A thumbnail's key is longer than the key that it is made from.
thumb_key_ne : (key : String) → key ≢ thumb_key_for key
unfolding characters
thumb_key_ne key e =
    let a = characters-append "thumbs/" (String.◌++◌ key ".webp") in
    let b = characters-append key ".webp" in
    let c : characters key ≡ characters (thumb_key_for key) = ap characters e in
    absurd (omega arith)

-- The thumbnail that a new version replaces, if there is one, is not the object `k`.
abbrev pub NotThumb : String → List FileRow → Type 0
NotThumb k files = All (λ f. f.thumb_key ≢ some k) files

drop_thumb_other :
    (prior : Option String) (key : String) (objects : Objects)
    → prior ≢ some key
    → fetch_object (whole key) (drop_thumb prior objects) ≡ fetch_object (whole key) objects
drop_thumb_other none key objects p = refl
drop_thumb_other (some t) key objects p =
    let ne : t ≢ key = λ e. p (ap (λ x. some x) e) in
    ground (arith, fetch-drop (whole t) (whole key) objects, key_eq_iff (whole t) (whole key))

keeps_object :
    (env : Env) (args : FinalizeArgs) (o : Option (List ℕ)) (objects : Objects)
    (prior : Option String)
    → prior ≢ some args.key
    → fetch_object (whole args.key) (drop_thumb prior (write_thumb env args o objects).1)
      ≡ fetch_object (whole args.key) objects
keeps_object env args o objects prior p =
    let ne = thumb_key_ne args.key in
    let k : ObjectKey = whole args.key in
    let t : ObjectKey = whole (thumb_key_for args.key) in
    let thumb : fetch_object k (write_thumb env args o objects).1 ≡ fetch_object k objects =
      elim (write_thumb_cases env args o objects) [
        | inl e ↦ rw e
        | inr (b, e) ↦ rw e (ground (arith, fetch-put t k b objects, key_eq_iff t k))
      ] in
    drop_thumb_other prior args.key (write_thumb env args o objects).1 p ∙ thumb

-- An upload that is kept keeps the uploaded object, if no file's thumbnail has its key.
pub finalize_upload-object :
    (env : Env) (new_id : ℕ) (args : FinalizeArgs) (disk disk' : Disk) (f : FinalizedFile)
    → NotThumb args.key disk.db.files
    → finalize_upload env new_id args disk ≡ (disk', finalized f)
    → fetch_object (whole args.key) disk'.objects ≡ fetch_object (whole args.key) disk.objects
unfolding finalize_existing finalize_new
finalize_upload-object env new_id args disk disk' f free h =
    elim (Option-cases (find (same_place args) disk.db.files)) [
      | inl e ↦
          let run = sym (finalize_upload_of_none env new_id args disk e) ∙ h in
          let (ok, db, objects, reply) = settle_finalized args _ _ _ _ _ _ _ _ disk' f run in
          rw objects (keeps_object env args args.thumb_bytes disk.objects none (λ q. cc))
      | inr (existing, e) ↦
          let run = sym (finalize_upload_of_some env new_id args disk existing e) ∙ h in
          let (ok, db, objects, reply) = settle_finalized args _ _ _ _ _ _ _ _ disk' f run in
          let ne : existing.thumb_key ≢ some args.key =
            find-All (λ (g : FileRow). g.thumb_key ≢ some args.key) (same_place args) disk.db.files
              existing free e in
          rw objects (keeps_object env args args.thumb_bytes disk.objects existing.thumb_key ne)
    ]
