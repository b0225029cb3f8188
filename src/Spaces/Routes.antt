-- ===== src/Spaces/Routes.antt =====
-- src/spaces/index.ts: the handlers of spaces, of their members and of their root folders.
use stohr.Common.{
  ℕ, Bool, true, false, not, ◌&&◌, Option, none, some, List, [], ◌∷◌, String, ◌==◌, opt_eq, str_eq,
  or_else, if◌then◌else◌, find, filter, any, is_none, update_where,
}
use mathlib.Core.Option
use stohr.Auth.Credentials.{trim}
use stohr.Db.{Db, UserRow, FolderRow, FileRow, SpaceRow, SpaceMemberRow, SpaceRole, admin}
use stohr.Permissions.{open_space, member_of}
use stohr.Folders.Tree.{id_in, sub_levels}
use stohr.Folders.Routes.{in_folders, trash_folder_row, trash_file_row}
use stohr.Spaces.Names.{is_valid_space_slug, slug_from_name, unique_slug}

pub data SpaceReply : Type 0 where
  failed : ℕ → SpaceReply
  -- `uniqueSlug` throws
  thrown : SpaceReply
  made : SpaceRow → SpaceReply
  shown : SpaceRow → SpaceRole → SpaceReply
  listed : List (SpaceMemberRow × UserRow) → SpaceReply
  folders_listed : List FolderRow → SpaceReply
  removed : ℕ → SpaceReply
  member : ℕ → SpaceRole → SpaceReply
  folder_made : FolderRow → SpaceReply

abbrev pub is_admin : SpaceRole → Bool
is_admin admin = true
is_admin _ = false

unfoldable pub space_membership : Db → ℕ → ℕ → Option SpaceRole
space_membership db user_id space_id =
    if any (open_space db user_id space_id) db.spaces
    then Option.map (λ (m : SpaceMemberRow). m.role)
        (find (member_of user_id space_id) db.space_members)
    else none

abbrev pub space_by_id : Db → ℕ → Option SpaceRow
space_by_id db id = find (λ (s : SpaceRow). s.id == id) db.spaces

abbrev pub live_space : Db → ℕ → Option SpaceRow
live_space db id = find (λ (s : SpaceRow). s.id == id && is_none s.deleted_at) db.spaces

-- A missing string, and the empty one, are false in a condition.
abbrev given : Option String → String
given o = or_else o ""

pub record NewSpace : Type 0 where
  pub name : Option String
  pub slug : Option String
  pub description : Option String

abbrev trimmed : Option String → Option String
trimmed none = none
trimmed (some s) = some (trim s)

abbrev pub insert_space : Db → ℕ → ℕ → ℕ → NewSpace → String → SpaceReply × Db
insert_space db new_id new_member_id user_id body slug =
    let space : SpaceRow = record {
      id = new_id;
      slug = slug;
      name = trim (given body.name);
      description = trimmed body.description;
      owner_id = user_id;
      deleted_at = none;
    } in
    (
      made space,
      record db {
        spaces = space ∷ db.spaces;
        space_members =
            record { id = new_member_id; space_id = new_id; user_id = user_id; role = admin }
            ∷ db.space_members;
      },
    )

abbrev pub space_name : NewSpace → String
space_name body = trim (given body.name)

abbrev pub has_slug : NewSpace → Bool
has_slug body = not (str_eq (given body.slug) "")

abbrev pub wanted_slug : NewSpace → String
wanted_slug body =
    if has_slug body then trim (given body.slug) else slug_from_name (space_name body)

abbrev pub insert_unique : Db → ℕ → ℕ → ℕ → NewSpace → Option String → SpaceReply × Db
insert_unique db new_id new_member_id user_id body none = (thrown, db)
insert_unique db new_id new_member_id user_id body (some slug) =
    insert_space db new_id new_member_id user_id body slug

-- POST /spaces
unfoldable pub create_space : Db → ℕ → ℕ → List String → ℕ → NewSpace → SpaceReply × Db
unfolding slug_from_name unique_slug is_valid_space_slug
create_space db new_id new_member_id draws user_id body =
    if str_eq (space_name body) ""
    then (failed 422, db)
    else if has_slug body && not (is_valid_space_slug (wanted_slug body))
    then (failed 422, db)
    else insert_unique db new_id new_member_id user_id body
        (unique_slug db.spaces (wanted_slug body) draws)

-- GET /spaces
unfoldable pub list_spaces : Db → ℕ → List SpaceRow
list_spaces db user_id =
    filter
      (λ (s : SpaceRow).
        open_space db user_id s.id s && any (member_of user_id s.id) db.space_members)
      db.spaces

-- GET /spaces/:id
unfoldable pub get_space : Db → ℕ → ℕ → SpaceReply
unfolding space_membership
get_space db user_id id = elim (space_membership db user_id id) [
  | none ↦ failed 404
  | some role ↦ elim (live_space db id) [ none ↦ failed 404 | some space ↦ shown space role ]
]

-- A field that is absent is `none`; a description may be null.
pub record SpacePatch : Type 0 where
  pub name : Option String
  pub description : Option (Option String)

abbrev pub blank_name : Option String → Bool
blank_name none = false
blank_name (some name) = str_eq (trim name) ""

abbrev new_description : Option (Option String) → Option String → Option String
new_description none old = old
new_description (some description) old = trimmed description

abbrev pub patch_row : SpacePatch → SpaceRow → SpaceRow
patch_row body s = record s {
  name = or_else (trimmed body.name) s.name;
  description = new_description body.description s.description;
}

abbrev shown_again : Option SpaceRow → SpaceReply
shown_again none = failed 500
shown_again (some s) = made s

abbrev pub commit_space : Db → ℕ → SpacePatch → SpaceReply × Db
commit_space db id body =
    let db' = record db {
      spaces = update_where (λ (s : SpaceRow). s.id == id) (patch_row body) db.spaces;
    } in
    (shown_again (space_by_id db' id), db')

-- PATCH /spaces/:id
unfoldable pub patch_space : Db → ℕ → ℕ → SpacePatch → SpaceReply × Db
unfolding space_membership
patch_space db user_id id body = elim (space_membership db user_id id) [
  | none ↦ (failed 404, db)
  | some role ↦
      if not (is_admin role)
      then (failed 403, db)
      else if blank_name body.name
      then (failed 422, db)
      else if is_none body.name && is_none body.description
      then (failed 422, db)
      else commit_space db id body
]

abbrev space_rows : List FolderRow → ℕ → List ℕ
space_rows [] id = []
space_rows (f ∷ folders) id =
    let rest = space_rows folders id in if opt_eq f.space_id id then f.id ∷ rest else rest

-- The folders of the space and all below them, whatever space their rows name.
unfoldable pub space_tree : List FolderRow → ℕ → List ℕ
unfolding sub_levels
space_tree folders id = sub_levels 64 folders (space_rows folders id)

abbrev pub end_space : ℕ → SpaceRow → SpaceRow
end_space now s = record s { deleted_at = some now }

abbrev pub trash_space : Db → ℕ → ℕ → Db
trash_space db now id =
    let ids = space_tree db.folders id in
    record db {
      spaces = update_where (λ (s : SpaceRow). s.id == id) (end_space now) db.spaces;
      folders =
          update_where (λ (f : FolderRow). id_in ids f.id && is_none f.deleted_at)
            (trash_folder_row now) db.folders;
      files =
          update_where (λ (f : FileRow). in_folders ids f.folder_id && is_none f.deleted_at)
            (trash_file_row now) db.files;
    }

-- DELETE /spaces/:id
unfoldable pub delete_space : Db → ℕ → ℕ → ℕ → SpaceReply × Db
unfolding space_membership space_tree
delete_space db now user_id id = elim (space_membership db user_id id) [
  | none ↦ (failed 404, db)
  | some role ↦ elim (live_space db id) [
    | none ↦ (failed 404, db)
    | some space ↦
        if not (space.owner_id == user_id)
        then (failed 403, db)
        else (removed id, trash_space db now id)
  ]
]
