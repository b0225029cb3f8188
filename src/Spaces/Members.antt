-- ===== src/Spaces/Members.antt =====
-- src/spaces/index.ts: the handlers of a space's members and of its root folders.
pub mod Owner
use stohr.Common.{
  ℕ, Bool, true, false, not, ◌&&◌, ◌||◌, Option, none, some, List, [], ◌∷◌, String, ◌==◌, opt_eq,
  str_eq, or_else, if◌then◌else◌, find, filter, is_none, is_some, update_where, delete_where,
}
use stohr.Auth.Credentials.{trim}
use stohr.Db.{
  Db, UserRow, FolderRow, SpaceRow, SpaceMemberRow, SpaceRole, admin, editor, viewer, standard,
  user_by_id,
}
use stohr.Permissions.{member_of}
use stohr.Teams.Slug.{to_lower}
use stohr.Spaces.Routes.{
  SpaceReply, failed, listed, folders_listed, removed, member, folder_made, is_admin,
  space_membership, space_by_id,
}

abbrev in_team : Option UserRow → ℕ → Option UserRow
in_team none team_id = none
in_team (some u) team_id = if u.team_id == team_id then some u else none

-- The join with the users of the team, in the table's order.
abbrev join_users : Db → ℕ → List SpaceMemberRow → List (SpaceMemberRow × UserRow)
join_users db team_id [] = []
join_users db team_id (m ∷ members) =
    let rest = join_users db team_id members in
    elim (in_team (user_by_id db m.user_id) team_id) [ none ↦ rest | some u ↦ (m, u) ∷ rest ]

-- GET /spaces/:id/members
unfoldable pub list_members : Db → ℕ → ℕ → ℕ → SpaceReply
unfolding space_membership user_by_id
list_members db team_id user_id id = elim (space_membership db user_id id) [
  | none ↦ failed 404
  | some role ↦
      listed
        (join_users db team_id (filter (λ (m : SpaceMemberRow). m.space_id == id) db.space_members))
]

-- Whom to add: by id, else by username, else by email; 0 and the empty string are not given.
pub record NewMember : Type 0 where
  pub user_id : Option ℕ
  pub username : Option String
  pub email : Option String
  -- none: not given; some none: not a role
  pub role : Option (Option SpaceRole)

pub data Sought : Type 0 where
  nobody : Sought
  sought : (UserRow → Bool) → Sought

abbrev given_string : Option String → Bool
given_string o = not (str_eq (or_else o "") "")

abbrev pub sought_of : NewMember → Sought
sought_of body =
    if not (or_else body.user_id 0 == 0)
    then sought (λ u. opt_eq body.user_id u.id)
    else if given_string body.username
    then sought (λ u. str_eq u.username (to_lower (or_else body.username "")))
    else if given_string body.email
    then sought (λ u. str_eq u.email (to_lower (or_else body.email "")))
    else nobody

abbrev pub find_target : Db → ℕ → Sought → Option UserRow
find_target db team_id nobody = none
find_target db team_id (sought is_it) =
    find (λ (u : UserRow). u.team_id == team_id && is_it u) db.users

abbrev no_target : Sought → ℕ
no_target nobody = 422
no_target (sought is_it) = 404

abbrev pub owned_by : Option SpaceRow → ℕ → Bool
owned_by none user_id = false
owned_by (some s) user_id = s.owner_id == user_id

abbrev pub set_role : ℕ → SpaceRole → Db → Db
set_role member_id role db = record db {
  space_members =
      update_where (λ (m : SpaceMemberRow). m.id == member_id)
        (λ (m : SpaceMemberRow). record m { role = role }) db.space_members;
}

abbrev pub put_member : Db → ℕ → ℕ → ℕ → SpaceRole → SpaceReply × Db
put_member db new_id id user_id role = elim (find (member_of user_id id) db.space_members) [
  | some existing ↦ (member existing.id role, set_role existing.id role db)
  | none ↦ (
    member new_id role,
    record db {
      space_members =
          record { id = new_id; space_id = id; user_id = user_id; role = role } ∷ db.space_members;
    },
  )
]

abbrev pub add_target : Db → ℕ → ℕ → SpaceRole → UserRow → SpaceReply × Db
add_target db new_id id role target =
    if owned_by (space_by_id db id) target.id && not (is_admin role)
    then (failed 422, db)
    else put_member db new_id id target.id role

-- POST /spaces/:id/members
unfoldable pub add_member : Db → ℕ → ℕ → ℕ → ℕ → NewMember → SpaceReply × Db
unfolding space_membership
add_member db new_id team_id user_id id body = elim (space_membership db user_id id) [
  | none ↦ (failed 404, db)
  | some role ↦
      if not (is_admin role) then (failed 403, db) else elim (or_else body.role (some editor)) [
        | none ↦ (failed 422, db)
        | some member_role ↦ elim (find_target db team_id (sought_of body)) [
          | none ↦ (failed (no_target (sought_of body)), db)
          | some target ↦ add_target db new_id id member_role target
        ]
      ]
]

abbrev pub member_row : Db → ℕ → ℕ → Option SpaceMemberRow
member_row db id member_id =
    find (λ (m : SpaceMemberRow). m.id == member_id && m.space_id == id) db.space_members

-- PATCH /spaces/:id/members/:memberId; `none` is a role that is missing or is none of the three.
unfoldable pub change_member : Db → ℕ → ℕ → ℕ → Option SpaceRole → SpaceReply × Db
unfolding space_membership
change_member db user_id id member_id new_role = elim (space_membership db user_id id) [
  | none ↦ (failed 404, db)
  | some role ↦ if not (is_admin role) then (failed 403, db) else elim new_role [
    | none ↦ (failed 422, db)
    | some member_role ↦ elim (member_row db id member_id) [
      | none ↦ (failed 404, db)
      | some target ↦
          if owned_by (space_by_id db id) target.user_id && not (is_admin member_role)
          then (failed 422, db)
          else (member member_id member_role, set_role member_id member_role db)
    ]
  ]
]

abbrev pub drop_member : ℕ → Db → Db
drop_member member_id db = record db {
  space_members = delete_where (λ (m : SpaceMemberRow). m.id == member_id) db.space_members;
}

-- DELETE /spaces/:id/members/:memberId
unfoldable pub remove_member : Db → ℕ → ℕ → ℕ → SpaceReply × Db
unfolding space_membership
remove_member db user_id id member_id = elim (space_membership db user_id id) [
  | none ↦ (failed 404, db)
  | some role ↦ elim (member_row db id member_id) [
    | none ↦ (failed 404, db)
    | some target ↦
        if not (target.user_id == user_id) && not (is_admin role)
        then (failed 403, db)
        else if owned_by (space_by_id db id) target.user_id
        then (failed 422, db)
        else (removed member_id, drop_member member_id db)
  ]
]

-- GET /spaces/:id/folders, in the table's order
unfoldable pub list_space_folders : Db → ℕ → ℕ → SpaceReply
unfolding space_membership
list_space_folders db user_id id = elim (space_membership db user_id id) [
  | none ↦ failed 404
  | some role ↦ folders_listed (
      filter
        (λ (f : FolderRow). opt_eq f.space_id id && is_none f.parent_id && is_none f.deleted_at)
        db.folders)
]

abbrev pub is_viewer : SpaceRole → Bool
is_viewer viewer = true
is_viewer _ = false

-- POST /spaces/:id/folders
unfoldable pub create_space_folder : Db → ℕ → ℕ → ℕ → Option String → SpaceReply × Db
unfolding space_membership
create_space_folder db new_id user_id id name = elim (space_membership db user_id id) [
  | none ↦ (failed 404, db)
  | some role ↦
      let row : FolderRow = record {
        id = new_id;
        user_id = user_id;
        parent_id = none;
        name = trim (or_else name "");
        kind = standard;
        is_public = false;
        space_id = some id;
        deleted_at = none;
      } in
      if is_viewer role
      then (failed 403, db)
      else if str_eq (trim (or_else name "")) ""
      then (failed 422, db)
      else (folder_made row, record db { folders = row ∷ db.folders })
]
