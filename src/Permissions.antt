-- ===== src/Permissions.antt =====
-- src/permissions/index.ts: who may see and change a folder or a file. A query is a search in the
-- tables; the recursive query over the ancestors is a recursion with its bound of 64 steps up.
pub mod Inherited
pub mod Access
pub mod Tests
use stohr.Common.{
  ℕ, zero, suc, Bool, true, false, not, ◌&&◌, ◌||◌, Option, none, some, List, [], ◌∷◌, ◌==◌, find,
  any, is_some, is_none, opt_eq, if◌then◌else◌,
}
use mathlib.Core.Option
use stohr.Db.{
  Db, Role, owner, editor, viewer, SpaceRole, admin, ResourceType, file, folder, FolderRow, FileRow,
  CollaborationRow, SpaceMemberRow, SpaceRow, user_by_id, folder_by_id, same_team_id,
}

unfoldable pub can_write : Role → Bool
can_write owner = true
can_write editor = true
can_write viewer = false

unfoldable pub is_owner : Role → Bool
is_owner owner = true
is_owner _ = false

-- A subselect that finds no user is NULL, and NULL equals nothing.
unfoldable pub same_team : Db → ℕ → ℕ → Bool
unfolding user_by_id
same_team db a b = same_team_id (user_by_id db a) (user_by_id db b)

abbrev is_file : ResourceType → Bool
is_file file = true
is_file folder = false

abbrev pub grants_file : ℕ → ℕ → CollaborationRow → Bool
grants_file user_id file_id c =
    is_file c.resource_type && c.resource_id == file_id && opt_eq c.user_id user_id

abbrev pub grants_folder : ℕ → ℕ → CollaborationRow → Bool
grants_folder user_id folder_id c =
    not (is_file c.resource_type) && c.resource_id == folder_id && opt_eq c.user_id user_id

unfoldable pub file_collab : Db → ℕ → ℕ → Option Role
file_collab db user_id file_id =
    Option.map (λ (c : CollaborationRow). c.role)
      (find (grants_file user_id file_id) db.collaborations)

-- The rows of the recursive query, nearest first: at most `fuel` of them.
pub ancestors : ℕ → List FolderRow → ℕ → List FolderRow
ancestors zero folders folder_id = []
ancestors (suc fuel) folders folder_id = elim (folder_by_id folders folder_id) [
  | none ↦ []
  | some f ↦ f ∷ elim f.parent_id [ none ↦ [] | some parent ↦ ancestors fuel folders parent ]
]

-- The join with the grants, ordered by depth and cut to one row.
pub nearest_grant : ℕ → List CollaborationRow → List FolderRow → Option Role
nearest_grant user_id grants [] = none
nearest_grant user_id grants (f ∷ chain) = elim (find (grants_folder user_id f.id) grants) [
  | none ↦ nearest_grant user_id grants chain
  | some c ↦ some c.role
]

-- `depth` runs from 0 while the row above it is below 64, so there are 65 rows at most.
unfoldable pub inherited_folder_role : Db → ℕ → ℕ → Option Role
unfolding ancestors nearest_grant folder_by_id
inherited_folder_role db user_id start_folder_id =
    nearest_grant user_id db.collaborations (ancestors 65 db.folders start_folder_id)

abbrev pub role_of_member : SpaceRole → Role
role_of_member admin = owner
role_of_member editor = editor
role_of_member viewer = viewer

-- The space is live and its owner is in the caller's team.
abbrev pub open_space : Db → ℕ → ℕ → SpaceRow → Bool
open_space db user_id space_id s =
    s.id == space_id && is_none s.deleted_at && same_team db s.owner_id user_id

abbrev pub member_of : ℕ → ℕ → SpaceMemberRow → Bool
member_of user_id space_id m = m.space_id == space_id && m.user_id == user_id

unfoldable pub space_role_for_folder : Db → ℕ → ℕ → Option Role
space_role_for_folder db user_id space_id =
    if any (open_space db user_id space_id) db.spaces
    then Option.map (λ (m : SpaceMemberRow). role_of_member m.role)
        (find (member_of user_id space_id) db.space_members)
    else none

-- `fo.space_id` of the joined parent folder, NULL when there is none
unfoldable pub parent_space : Db → Option ℕ → Option ℕ
parent_space db none = none
parent_space db (some folder_id) = elim (folder_by_id db.folders folder_id) [
  | none ↦ none
  | some fo ↦ fo.space_id
]

-- some row m of `space_members` and s of `spaces`: the EXISTS of the two listing filters
unfoldable pub current_member : Db → ℕ → Option ℕ → Bool
current_member db user_id none = false
current_member db user_id (some space_id) =
    any (member_of user_id space_id) db.space_members
    && any (open_space db user_id space_id) db.spaces

unfoldable pub visible_file : Db → ℕ → FileRow → Bool
unfolding parent_space current_member
visible_file db user_id f =
    (f.user_id == user_id && is_none (parent_space db f.folder_id))
    || current_member db user_id (parent_space db f.folder_id)

unfoldable pub visible_folder : Db → ℕ → FolderRow → Bool
unfolding current_member
visible_folder db user_id f =
    (f.user_id == user_id && is_none f.space_id) || current_member db user_id f.space_id

unfoldable pub personal_file : Db → ℕ → FileRow → Bool
unfolding parent_space
personal_file db user_id f = f.user_id == user_id && is_none (parent_space db f.folder_id)

-- The part of `folderAccess` behind the row: space first, then the owner, then the ancestors.
pub folder_role : Db → ℕ → FolderRow → Option ℕ → Option Role
folder_role db user_id f (some space_id) = space_role_for_folder db user_id space_id
folder_role db user_id f none =
    if f.user_id == user_id then some owner else inherited_folder_role db user_id f.id

abbrev pub live_folder : Db → ℕ → ℕ → FolderRow → Bool
live_folder db user_id folder_id f =
    f.id == folder_id && is_none f.deleted_at && same_team db f.user_id user_id

unfoldable pub folder_access : Db → ℕ → ℕ → Option (Role × FolderRow)
unfolding folder_role
folder_access db user_id folder_id = elim (find (live_folder db user_id folder_id) db.folders) [
  | none ↦ none
  | some f ↦ Option.map (λ (r : Role). (r, f)) (folder_role db user_id f f.space_id)
]

pub inherited_file_role : Db → ℕ → Option ℕ → Option Role
inherited_file_role db user_id none = none
inherited_file_role db user_id (some folder_id) = inherited_folder_role db user_id folder_id

-- The part of `fileAccess` behind the row.
pub file_role : Db → ℕ → FileRow → Option ℕ → Option Role
unfolding inherited_file_role
file_role db user_id f (some space_id) = space_role_for_folder db user_id space_id
file_role db user_id f none =
    if f.user_id == user_id then some owner else elim (file_collab db user_id f.id) [
      | none ↦ inherited_file_role db user_id f.folder_id
      | some role ↦ some role
    ]

abbrev pub live_file : Db → ℕ → ℕ → FileRow → Bool
live_file db user_id file_id f =
    f.id == file_id && is_none f.deleted_at && same_team db f.user_id user_id

pub record FileAccess : Type 0 where
  pub role : Role
  pub file : FileRow
  pub space_id : Option ℕ

unfoldable pub file_access : Db → ℕ → ℕ → Option FileAccess
unfolding file_role
file_access db user_id file_id = elim (find (live_file db user_id file_id) db.files) [
  | none ↦ none
  | some f ↦
      let space_id = parent_space db f.folder_id in
      Option.map (λ (r : Role). record { role = r; file = f; space_id = space_id })
        (file_role db user_id f space_id)
]

-- Trash: no grants, and no test of `deleted_at`.
pub trashed_role : Db → ℕ → ℕ → Option ℕ → Option Role
trashed_role db user_id creator (some space_id) = space_role_for_folder db user_id space_id
trashed_role db user_id creator none = if creator == user_id then some owner else none

abbrev pub in_team_folder : Db → ℕ → ℕ → FolderRow → Bool
in_team_folder db user_id folder_id f = f.id == folder_id && same_team db f.user_id user_id

abbrev pub in_team_file : Db → ℕ → ℕ → FileRow → Bool
in_team_file db user_id file_id f = f.id == file_id && same_team db f.user_id user_id

unfoldable pub trashed_folder_access : Db → ℕ → ℕ → Option (Role × FolderRow)
unfolding trashed_role
trashed_folder_access db user_id folder_id =
    elim (find (in_team_folder db user_id folder_id) db.folders) [
      | none ↦ none
      | some f ↦ Option.map (λ (r : Role). (r, f)) (trashed_role db user_id f.user_id f.space_id)
    ]

unfoldable pub trashed_file_access : Db → ℕ → ℕ → Option (Role × FileRow)
unfolding trashed_role
trashed_file_access db user_id file_id = elim (find (in_team_file db user_id file_id) db.files) [
  | none ↦ none
  | some f ↦
      Option.map (λ (r : Role). (r, f))
        (trashed_role db user_id f.user_id (parent_space db f.folder_id))
]
