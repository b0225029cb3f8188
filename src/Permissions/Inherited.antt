-- ===== src/Permissions/Inherited.antt =====
-- src/permissions/index.ts, `inheritedFolderRole`: the recursive query finds the nearest grant.
use stohr.Common.{
  ℕ, zero, suc, ◌≤◌, ◌<◌, ◌≡◌, ◌↔◌, inl, inr, none, some, List, arith, find, Option-cases,
}
use stohr.Db.{Db, Role, FolderRow, CollaborationRow, folder_by_id}
use stohr.Permissions.{ancestors, nearest_grant, grants_folder, inherited_folder_role}

-- The nearest grant of a user on a folder or one of its ancestors, found `distance` steps up, with
-- no grant on the way.
module _ (folders : List FolderRow) (grants : List CollaborationRow) (user_id : ℕ) where
  pub data NearestGrant : ℕ → ℕ → Role → Type 0 where
    here :
        {id : ℕ} {f : FolderRow} {c : CollaborationRow} {r : Role}
        → folder_by_id folders id ≡ some f
        → find (grants_folder user_id f.id) grants ≡ some c
        → c.role ≡ r
        → NearestGrant id 0 r
    up :
        {id parent n : ℕ} {f : FolderRow} {r : Role}
        → folder_by_id folders id ≡ some f
        → find (grants_folder user_id f.id) grants ≡ none
        → f.parent_id ≡ some parent
        → NearestGrant parent n r
        → NearestGrant id (suc n) r

  nearest_sound :
      (fuel id : ℕ) (r : Role)
      → nearest_grant user_id grants (ancestors fuel folders id) ≡ some r
      → (n : ℕ) × (n < fuel) × NearestGrant id n r
  unfolding nearest_grant ancestors
  nearest_sound zero id r h = absurd (ground arith)
  nearest_sound (suc fuel) id r h = elim (Option-cases (folder_by_id folders id)) [
    | inl missing ↦ absurd (ground arith)
    | inr (f, found) ↦ elim (Option-cases (find (grants_folder user_id f.id) grants)) [
      | inr (c, granted) ↦ (0, omega arith, here found granted (ground arith))
      | inl bare ↦ elim (Option-cases f.parent_id) [
        | inl top ↦ absurd (ground arith)
        | inr (parent, above) ↦
            let (n, lt, g) = nearest_sound fuel parent r (ground arith) in
            (suc n, omega arith, up found bare above g)
      ]
    ]
  ]

  nearest_complete :
      (fuel id n : ℕ) (r : Role)
      → n < fuel
      → NearestGrant id n r
      → nearest_grant user_id grants (ancestors fuel folders id) ≡ some r
  unfolding nearest_grant ancestors
  nearest_complete zero id n r h g = absurd (omega arith)
  nearest_complete (suc fuel) id n r h (here found granted same) = ground arith
  nearest_complete (suc fuel) id n r h (up {parent = p} {n = m} found bare above g) =
      ground (arith, nearest_complete fuel p m r (omega arith) g)

-- The role that the recursive query returns is that of the user's nearest grant on the folder or
-- on one of its ancestors at most 64 steps up, and it returns none if there is no such grant.
pub inherited_folder_role_iff :
    (db : Db) (user_id folder_id : ℕ) (r : Role)
    → (inherited_folder_role db user_id folder_id ≡ some r)
      ↔ ((n : ℕ) × (n ≤ 64) × NearestGrant db.folders db.collaborations user_id folder_id n r)
unfolding inherited_folder_role
inherited_folder_role_iff db user_id folder_id r = (
  λ h.
      let (n, lt, g) = nearest_sound db.folders db.collaborations user_id 65 folder_id r h in
      (n, omega arith, g),
  λ w.
      let (n, le, g) = w in
      nearest_complete db.folders db.collaborations user_id 65 folder_id n r (omega arith) g,
)
