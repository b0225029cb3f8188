-- ===== src/Files/Restored.antt =====
-- src/files/index.ts: what the restore of an old version leaves.
use mathlib.Core.Path.{subst}
use stohr.Common.{
  ℕ, ◌+◌, ◌≡◌, ◌≢◌, ◌⊎◌, ◌&&◌, not, leb, Option, String, if◌then◌else◌, refl, inl, inr, Bool, true,
  false, none, some, List, [], ◌∷◌, arith, ◌==◌, find, find_holds, find-update_where, update_where,
  delete_where, Bool-cases, Option-cases,
}
use stohr.Db.{FileRow, FileVersionRow, ScanStatus, pending, skipped, clean, infected, error}
use stohr.Uploads.Store.{Objects, whole, fetch_object}
use stohr.Permissions.{same_team, FileAccess, file_access, live_file, can_write}
use stohr.Permissions.Access.{file_access_row}
use stohr.Uploads.Finalize.{Env, Disk, archived, thumb_key_for, is_thumbable, thumb_max_bytes}
use stohr.Files.Versions.{
  is_infected, put_thumb, thumb_of, current, is_version, find_version, restored_thumb, restored_row,
  swap_version, restore_found, restore_version,
}

-- No old version with the number is left by its deletion.
deleted_version :
    (id version : ℕ) (versions : List FileVersionRow)
    → find (is_version id version) (delete_where (is_version id version) versions) ≡ none
deleted_version id version [] = refl
deleted_version id version (v ∷ versions) = elim (Bool-cases (is_version id version v)) [
  | inl t ↦ rw t (deleted_version id version versions)
  | inr f ↦ rw (f, f) (deleted_version id version versions)
]

-- The first row that a test finds, updated with a function that keeps the test.
updated_row :
    (live : FileRow → Bool) (g : FileRow → FileRow) (files : List FileRow) (f : FileRow)
    → ((x : FileRow) → live (g x) ≡ live x)
    → find live files ≡ some f
    → find live (update_where (λ (r : FileRow). r.id == f.id) g files) ≡ some (g f)
updated_row live g files f h found =
    let row = find-update_where live (λ r. r.id == f.id) g files f h found in ground arith

-- What the file's verdict is behind the restore of a version with this one.
abbrev pub Verdict : Bool → FileVersionRow → FileRow → Type 0
Verdict scanning target f =
    ((target.scan_status ≡ infected)
      × (f.scan_status ≡ infected)
      × (f.scan_signature ≡ target.scan_signature)
      × (f.scanned_at ≡ target.scanned_at))
    ⊎ ((target.scan_status ≢ infected)
        × (f.scan_status ≡ (if scanning then pending else skipped))
        × (f.scan_signature ≡ none)
        × (f.scanned_at ≡ none))

-- The thumbnail is none, or that of the version's own key, and then the version is not infected.
abbrev pub Thumbnail : FileVersionRow → FileRow → Type 0
Thumbnail target f =
    (f.thumb_key ≡ none)
    ⊎ ((f.thumb_key ≡ some (thumb_key_for target.storage_key)) × (target.scan_status ≢ infected))

infected_or_not :
    (status : ScanStatus)
    → (status ≡ infected) ⊎ ((status ≢ infected) × (is_infected status ≡ false))
infected_or_not infected = inl refl
infected_or_not pending = inr (λ e. cc, refl)
infected_or_not skipped = inr (λ e. cc, refl)
infected_or_not clean = inr (λ e. cc, refl)
infected_or_not error = inr (λ e. cc, refl)

restored_row-Verdict :
    (env : Env) (target : FileVersionRow) (thumb : Option String) (n : ℕ) (f : FileRow)
    → Verdict env.scanning target (restored_row env target thumb n f)
restored_row-Verdict env target thumb n f = elim (infected_or_not target.scan_status) [
  | inl e ↦ inl (e, rw e refl, rw e refl, rw e refl)
  | inr (ne, e) ↦ inr (ne, rw e refl, rw e refl, rw e refl)
]

put_thumb-key :
    (key : String) (bytes : Option (List ℕ)) (objects : Objects)
    → ((put_thumb key bytes objects).0 ≡ none) ⊎ ((put_thumb key bytes objects).0 ≡ some key)
put_thumb-key key none objects = inl refl
put_thumb-key key (some bytes) objects = inr refl

restored_row-Thumbnail :
    (env : Env) (target : FileVersionRow) (objects : Objects) (n : ℕ) (f : FileRow)
    → Thumbnail target (restored_row env target (restored_thumb env target objects).0 n f)
restored_row-Thumbnail env target objects n f =
    let wanted =
      is_thumbable target.mime
      && leb target.size thumb_max_bytes
      && not (is_infected target.scan_status) in
    elim (infected_or_not target.scan_status) [
      | inl e ↦ elim (Bool-cases wanted) [
        | inl t ↦
            let clear : not (is_infected target.scan_status) ≡ true = ground arith in
            let bad = rw e at clear in absurd cc
        | inr no_thumb ↦ inl (rw no_thumb refl)
      ]
      | inr (ne, _) ↦ elim (Bool-cases wanted) [
        | inr no_thumb ↦ inl (rw no_thumb refl)
        | inl t ↦
            rw t
              (elim (put_thumb-key (thumb_key_for target.storage_key)
                (thumb_of env target (fetch_object (whole target.storage_key) objects)) objects) [
                  | inl q ↦ inl q
                  | inr q ↦ inr (q, ne)
                ])
      ]
    ]

module _ (env : Env) (disk : Disk) (user_id id version : ℕ) where
  pub record IsRestored (n : ℕ) (disk' : Disk) : Type 0 where
    pub access : FileAccess
    pub target : FileVersionRow
    pub f : FileRow
    pub old : FileVersionRow
    pub may_read : file_access disk.db user_id id ≡ some access
    pub may_write : can_write access.role ≡ true
    pub was_stored :
        find (λ (v : FileVersionRow). v.file_id == id && v.version == version) disk.db.file_versions
        ≡ some target
    -- the file as it is found now
    pub is_found : find (live_file disk'.db user_id id) disk'.db.files ≡ some f
    pub has_content :
        (f.storage_key ≡ target.storage_key) × (f.mime ≡ target.mime) × (f.size ≡ target.size)
    pub is_next : (f.version ≡ access.file.version + 1) × (n ≡ access.file.version + 1)
    pub is_same_file :
        (f.id ≡ id)
        × (f.name ≡ access.file.name)
        × (f.folder_id ≡ access.file.folder_id)
        × (f.user_id ≡ access.file.user_id)
    pub has_verdict : Verdict env.scanning target f
    pub has_thumbnail : Thumbnail target f
    -- what it replaced is an old version
    pub is_archived :
        find
          (λ (v : FileVersionRow). v.file_id == id && v.version == access.file.version)
          disk'.db.file_versions
        ≡ some old
    pub old_content :
        (old.storage_key ≡ access.file.storage_key)
        × (old.mime ≡ access.file.mime)
        × (old.size ≡ access.file.size)
    pub old_verdict :
        (old.scan_status ≡ access.file.scan_status)
        × (old.scan_signature ≡ access.file.scan_signature)
        × (old.scanned_at ≡ access.file.scanned_at)
    pub is_moved :
        find
          (λ (v : FileVersionRow). v.file_id == id && v.version == version)
          disk'.db.file_versions
        ≡ none

  -- A version that is archived stays where another is deleted.
  archived_at :
      (file_id n : ℕ) (v : FileVersionRow) (versions : List FileVersionRow)
      → file_id ≡ id
      → n ≡ version
      → v.file_id ≡ id
      → (version == v.version) ≡ false
      → find (is_version id v.version) (delete_where (is_version file_id n) (v ∷ versions)) ≡ some v
  archived_at file_id n v versions first second this other =
      let kept : is_version file_id n v ≡ false = ground arith in rw kept (ground arith)

  deleted_at :
      (file_id n : ℕ) (versions : List FileVersionRow)
      → file_id ≡ id
      → n ≡ version
      → find (is_version id version) (delete_where (is_version file_id n) versions) ≡ none
  deleted_at file_id n versions first second =
      rw (first, second) (deleted_version id version versions)

  -- What the swap of a readable file with a stored version leaves.
  swapped :
      (access : FileAccess) (target : FileVersionRow)
      → file_access disk.db user_id id ≡ some access
      → can_write access.role ≡ true
      → find_version disk.db id version ≡ some target
      → (version == access.file.version) ≡ false
      → IsRestored (access.file.version + 1) (swap_version env user_id access.file target disk)
  unfolding same_team
  swapped access target e may stored other =
      let (found, _, _) = file_access_row disk.db user_id id access e in
      let live : live_file disk.db user_id id access.file ≡ true =
        find_holds _ disk.db.files access.file found in
      let was : is_version id version target ≡ true =
        find_holds _ disk.db.file_versions target stored in
      let this : access.file.id ≡ id = ground arith in
      let first : target.file_id ≡ id = ground arith in
      let second : target.version ≡ version = ground arith in
      let f =
        restored_row env target (restored_thumb env target disk.objects).0 (access.file.version + 1)
          access.file in
      record {
        access = access;
        target = target;
        f = f;
        old = archived access.file user_id;
        may_read = e;
        may_write = may;
        was_stored = stored;
        is_found =
            updated_row (live_file disk.db user_id id)
              (restored_row env target (restored_thumb env target disk.objects).0
                (access.file.version + 1))
              disk.db.files access.file (λ x. refl) found;
        has_content = (refl, refl, refl);
        is_next = (refl, refl);
        is_same_file = (this, refl, refl, refl);
        has_verdict =
            restored_row-Verdict env target (restored_thumb env target disk.objects).0
              (access.file.version + 1) access.file;
        has_thumbnail =
            restored_row-Thumbnail env target disk.objects (access.file.version + 1) access.file;
        is_archived =
            archived_at target.file_id target.version (archived access.file user_id)
              disk.db.file_versions first second this other;
        old_content = (refl, refl, refl);
        old_verdict = (refl, refl, refl);
        is_moved =
            deleted_at target.file_id target.version
              (archived access.file user_id ∷ disk.db.file_versions) first second;
      }

  -- The restore of an old version succeeds only for a caller that may write the file and for an old
  -- version that is stored. The file is then found under its id, name and folder, with that version's
  -- storage key, type and size and the next number, which the reply has; an infection found in that
  -- version stays with it, any other verdict is taken back; a thumbnail is that of the version's key, and
  -- of no infected one. What was replaced is an old version with its key, type, size and verdict, and no
  -- old version has the restored number.
  pub restore_version-IsRestored :
      (disk' : Disk) (n current_id : ℕ)
      → restore_version env disk user_id id version ≡ (current current_id n, disk')
      → IsRestored n disk'
  unfolding restore_version
  restore_version-IsRestored disk' n current_id h =
      elim (Option-cases (file_access disk.db user_id id)) [
        | inl e ↦ absurd (let bad = rw (restore_version, e) at h in cc)
        | inr (access, e) ↦ elim (Bool-cases (can_write access.role)) [
          | inr may_not ↦ absurd (let bad = rw (restore_version, e, may_not) at h in cc)
          | inl may ↦ elim (Bool-cases (version == access.file.version)) [
            | inl same ↦ absurd (let bad = rw (restore_version, e, may, same) at h in cc)
            | inr other ↦ elim (Option-cases (find_version disk.db id version)) [
              | inl missing ↦
                  absurd (let bad = rw (restore_version, e, may, other, missing) at h in cc)
              | inr (target, stored) ↦
                  let left : restore_found env user_id access.file (some target) disk
                      ≡ (current current_id n, disk') =
                    rw (restore_version, e, may, other, stored) at h in
                  let same_disk : swap_version env user_id access.file target disk ≡ disk' = cc in
                  let number : access.file.version + 1 ≡ n = cc in
                  let left_disk =
                    subst (IsRestored (access.file.version + 1)) same_disk
                      (swapped access target e may stored other) in
                  subst (λ k. IsRestored k disk') number left_disk
            ]
          ]
        ]
      ]
