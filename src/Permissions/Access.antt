-- ===== src/Permissions/Access.antt =====
-- src/permissions/index.ts: what the access resolvers grant, and to whom.
use stohr.Common.{
  ℕ, ◌≡◌, ◌≢◌, refl, inl, inr, Bool, true, false, none, some, List, [], ◌∷◌, arith, find, any,
  Option-cases, find_holds,
}
use stohr.Db.{Db, Role, owner, FolderRow, FileRow}
use stohr.Permissions.{
  same_team, inherited_folder_role, space_role_for_folder, member_of, live_folder, live_file,
  folder_role, folder_access, file_role, file_access, FileAccess, parent_space, visible_file,
  trashed_folder_access, trashed_file_access, trashed_role, in_team_folder, in_team_file,
  visible_folder, role_of_member,
}

-- Why a user has a role on a folder.
pub data FolderGrant (db : Db) (user_id : ℕ) (f : FolderRow) (r : Role) : Type 0 where
  by_space :
      (s : ℕ)
      → f.space_id ≡ some s
      → space_role_for_folder db user_id s ≡ some r
      → FolderGrant db user_id f r
  as_owner : f.space_id ≡ none → f.user_id ≡ user_id → r ≡ owner → FolderGrant db user_id f r
  by_grant :
      f.space_id ≡ none
      → f.user_id ≢ user_id
      → inherited_folder_role db user_id f.id ≡ some r
      → FolderGrant db user_id f r

folder_access_row :
    (db : Db) (user_id folder_id : ℕ) (r : Role) (f : FolderRow)
    → folder_access db user_id folder_id ≡ some (r, f)
    → (find (live_folder db user_id folder_id) db.folders ≡ some f)
      × (folder_role db user_id f f.space_id ≡ some r)
unfolding folder_access
folder_access_row db user_id folder_id r f h =
    elim (Option-cases (find (live_folder db user_id folder_id) db.folders)) [
      | inl e ↦ absurd (ground arith)
      | inr (g, e) ↦ elim (Option-cases (folder_role db user_id g g.space_id)) [
        | inl q ↦ absurd (ground arith)
        | inr (r', q) ↦ (ground arith, ground arith)
      ]
    ]

pub file_access_row :
    (db : Db) (user_id file_id : ℕ) (a : FileAccess)
    → file_access db user_id file_id ≡ some a
    → (find (live_file db user_id file_id) db.files ≡ some a.file)
      × (a.space_id ≡ parent_space db a.file.folder_id)
      × (file_role db user_id a.file (parent_space db a.file.folder_id) ≡ some a.role)
unfolding file_access
file_access_row db user_id file_id a h =
    elim (Option-cases (find (live_file db user_id file_id) db.files)) [
      | inl e ↦ absurd (ground arith)
      | inr (g, e) ↦ elim (Option-cases (file_role db user_id g (parent_space db g.folder_id))) [
        | inl q ↦ absurd (ground arith)
        | inr (r', q) ↦ (ground arith, ground arith, ground arith)
      ]
    ]

trashed_folder_row :
    (db : Db) (user_id folder_id : ℕ) (r : Role) (f : FolderRow)
    → trashed_folder_access db user_id folder_id ≡ some (r, f)
    → (same_team db f.user_id user_id ≡ true)
      × (trashed_role db user_id f.user_id f.space_id ≡ some r)
unfolding trashed_folder_access
trashed_folder_row db user_id folder_id r f h =
    elim (Option-cases (find (in_team_folder db user_id folder_id) db.folders)) [
      | inl e ↦ absurd (ground arith)
      | inr (g, e) ↦
          let t : in_team_folder db user_id folder_id g ≡ true = find_holds _ db.folders g e in
          elim (Option-cases (trashed_role db user_id g.user_id g.space_id)) [
            | inl q ↦ absurd (ground arith)
            | inr (r', q) ↦ (ground arith, ground arith)
          ]
    ]

trashed_file_row :
    (db : Db) (user_id file_id : ℕ) (r : Role) (f : FileRow)
    → trashed_file_access db user_id file_id ≡ some (r, f)
    → (same_team db f.user_id user_id ≡ true)
      × (trashed_role db user_id f.user_id (parent_space db f.folder_id) ≡ some r)
unfolding trashed_file_access
trashed_file_row db user_id file_id r f h =
    elim (Option-cases (find (in_team_file db user_id file_id) db.files)) [
      | inl e ↦ absurd (ground arith)
      | inr (g, e) ↦
          let t : in_team_file db user_id file_id g ≡ true = find_holds _ db.files g e in
          elim (Option-cases (trashed_role db user_id g.user_id (parent_space db g.folder_id))) [
            | inl q ↦ absurd (ground arith)
            | inr (r', q) ↦ (ground arith, ground arith)
          ]
    ]

-- Teams are a hard boundary: whatever grants and memberships say, a folder or a file that any of
-- the four resolvers returns was created by a user of the caller's team, and the two resolvers
-- outside the trash return only rows that are not deleted.
pub access-same_team :
    (db : Db) (user_id id : ℕ) (r : Role) (d : FolderRow) (f : FileRow) (a : FileAccess)
    → (folder_access db user_id id ≡ some (r, d)
        → (same_team db d.user_id user_id ≡ true) × (d.deleted_at ≡ none))
      × (file_access db user_id id ≡ some a
          → (same_team db a.file.user_id user_id ≡ true) × (a.file.deleted_at ≡ none))
      × (trashed_folder_access db user_id id ≡ some (r, d) → same_team db d.user_id user_id ≡ true)
      × (trashed_file_access db user_id id ≡ some (r, f) → same_team db f.user_id user_id ≡ true)
access-same_team db user_id id r d f a = (
  λ h.
      let t : live_folder db user_id id d ≡ true =
        find_holds _ db.folders d (folder_access_row db user_id id r d h).0 in
      (ground arith, ground arith),
  λ h.
      let t : live_file db user_id id a.file ≡ true =
        find_holds _ db.files a.file (file_access_row db user_id id a h).0 in
      (ground arith, ground arith),
  λ h. (trashed_folder_row db user_id id r d h).0,
  λ h. (trashed_file_row db user_id id r f h).0,
)

find_of_any-false {ℓ} :
    {A : Type ℓ} (p : A → Bool) (xs : List A) → any p xs ≡ false → find p xs ≡ none
find_of_any-false p [] h = refl
find_of_any-false p (x ∷ xs) h = ground (arith, find_of_any-false p xs)

any_of_find-none {ℓ} :
    {A : Type ℓ} (p : A → Bool) (xs : List A) → find p xs ≡ none → any p xs ≡ false
any_of_find-none p [] h = refl
any_of_find-none p (x ∷ xs) h = ground (arith, any_of_find-none p xs)

no_role_without_member :
    (db : Db) (user_id s : ℕ)
    → any (member_of user_id s) db.space_members ≡ false
    → space_role_for_folder db user_id s ≡ none
unfolding space_role_for_folder
no_role_without_member db user_id s h =
    let e : find (member_of user_id s) db.space_members ≡ none =
      find_of_any-false (member_of user_id s) db.space_members h in
    ground arith

-- Without a membership row for a space, a user reaches nothing that lies in it by any resolver, nor
-- does a listing filter show it, also where the user created it or holds a grant on it.
pub no_access_without_membership :
    (db : Db) (user_id s id : ℕ) (r : Role) (d : FolderRow) (f : FileRow) (a : FileAccess)
    → any (member_of user_id s) db.space_members ≡ false
    → (folder_access db user_id id ≡ some (r, d) → d.space_id ≢ some s)
      × (file_access db user_id id ≡ some a → parent_space db a.file.folder_id ≢ some s)
      × (trashed_folder_access db user_id id ≡ some (r, d) → d.space_id ≢ some s)
      × (trashed_file_access db user_id id ≡ some (r, f) → parent_space db f.folder_id ≢ some s)
      × (visible_folder db user_id d ≡ true → d.space_id ≢ some s)
      × (visible_file db user_id f ≡ true → parent_space db f.folder_id ≢ some s)
unfolding folder_role file_role trashed_role visible_file visible_folder
no_access_without_membership db user_id s id r d f a h =
    let e : space_role_for_folder db user_id s ≡ none = no_role_without_member db user_id s h in
    (
      λ g q. let k = (folder_access_row db user_id id r d g).1 in absurd (ground arith),
      λ g q. let k = (file_access_row db user_id id a g).2 in absurd (ground arith),
      λ g q. let k = (trashed_folder_row db user_id id r d g).1 in absurd (ground arith),
      λ g q. let k = (trashed_file_row db user_id id r f g).1 in absurd (ground arith),
      λ g q. absurd (ground arith),
      λ g q. absurd (ground arith),
    )

find_of_any {ℓ} :
    {A : Type ℓ} (p : A → Bool) (xs : List A) → any p xs ≡ true → (a : A) × (find p xs ≡ some a)
find_of_any p xs h = elim (Option-cases (find p xs)) [
  | inr (a, e) ↦ (a, e)
  | inl e ↦ absurd (let k = any_of_find-none p xs e in ground arith)
]

-- A file row that the listing filter shows to a user is one that `fileAccess` lets the user read,
-- provided that its id finds it among the live files whose uploader is in the user's team.
pub visible_file-file_access :
    (db : Db) (user_id : ℕ) (f : FileRow)
    → find (live_file db user_id f.id) db.files ≡ some f
    → visible_file db user_id f ≡ true
    → (a : FileAccess) × (file_access db user_id f.id ≡ some a) × (a.file ≡ f)
unfolding file_access visible_file file_role space_role_for_folder
visible_file-file_access db user_id f e v = elim (Option-cases (parent_space db f.folder_id)) [
  | inl q ↦ (record { role = owner; file = f; space_id = none }, ground arith, refl)
  | inr (s, q) ↦
      let t : any (member_of user_id s) db.space_members ≡ true = ground arith in
      let (m, found) = find_of_any (member_of user_id s) db.space_members t in
      (record { role = role_of_member m.role; file = f; space_id = some s }, ground arith, refl)
]
