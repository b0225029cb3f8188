-- ===== src/Db.antt =====
-- The database: one list of rows for each table that the modelled code reads or writes, with the
-- columns that it uses (src/migrations, src/permissions/index.ts, and the row types beside the
-- queries). Ids and sizes are numbers, a nullable column is an `Option`, and a timestamp is a
-- number of milliseconds. `RETURNING` and joins are written out where a query has them.
use stohr.Common.{ℕ, Bool, false, Option, none, some, List, String, ◌==◌, find}

pub data Role : Type 0 where
  owner editor viewer : Role

pub data SpaceRole : Type 0 where
  admin editor viewer : SpaceRole

pub data ResourceType : Type 0 where
  file folder : ResourceType

pub record UserRow : Type 0 where
  pub id : ℕ
  pub is_owner : Bool
  pub team_id : ℕ
  pub team_admin : Bool
  pub oauth_epoch : ℕ
  pub username : String
  pub email : String
  pub storage_quota_bytes : ℕ
  pub deleted_at : Option ℕ
  pub suspended_at : Option ℕ

pub record TeamRow : Type 0 where
  pub id : ℕ
  pub quota_bytes : Option ℕ

pub data FolderKind : Type 0 where
  standard photos screenshots : FolderKind

pub record FolderRow : Type 0 where
  pub id : ℕ
  pub user_id : ℕ
  pub parent_id : Option ℕ
  pub name : String
  pub kind : FolderKind
  pub is_public : Bool
  pub space_id : Option ℕ
  pub deleted_at : Option ℕ

pub data ScanStatus : Type 0 where
  pending skipped clean infected error : ScanStatus

pub record FileRow : Type 0 where
  pub id : ℕ
  pub user_id : ℕ
  pub folder_id : Option ℕ
  pub name : String
  pub mime : String
  pub size : ℕ
  pub storage_key : String
  pub thumb_key : Option String
  pub version : ℕ
  pub scan_status : ScanStatus
  pub scan_signature : Option String
  pub scanned_at : Option ℕ
  pub deleted_at : Option ℕ

pub record FileVersionRow : Type 0 where
  pub file_id : ℕ
  pub version : ℕ
  pub mime : String
  pub size : ℕ
  pub storage_key : String
  pub scan_status : ScanStatus
  pub scan_signature : Option String
  pub scanned_at : Option ℕ
  pub uploaded_by : ℕ

pub record CollaborationRow : Type 0 where
  pub resource_type : ResourceType
  pub resource_id : ℕ
  pub user_id : Option ℕ
  pub role : Role

pub record SpaceRow : Type 0 where
  pub id : ℕ
  pub slug : String
  pub name : String
  pub description : Option String
  pub owner_id : ℕ
  pub deleted_at : Option ℕ

pub record SpaceMemberRow : Type 0 where
  pub id : ℕ
  pub space_id : ℕ
  pub user_id : ℕ
  pub role : SpaceRole

pub record ShareRow : Type 0 where
  pub id : ℕ
  pub file_id : ℕ
  pub user_id : ℕ
  pub token : String
  pub expires_at : Option ℕ
  pub password_hash : Option String
  pub burn_on_view : Bool

pub record Db : Type 0 where
  pub users : List UserRow
  pub teams : List TeamRow
  pub folders : List FolderRow
  pub files : List FileRow
  pub file_versions : List FileVersionRow
  pub collaborations : List CollaborationRow
  pub spaces : List SpaceRow
  pub space_members : List SpaceMemberRow

-- `SELECT … FROM users WHERE id = $1`
unfoldable pub user_by_id : Db → ℕ → Option UserRow
user_by_id db user_id = find (λ u. u.id == user_id) db.users

-- `SELECT … FROM folders WHERE id = $1`
unfoldable pub folder_by_id : List FolderRow → ℕ → Option FolderRow
folder_by_id folders folder_id = find (λ f. f.id == folder_id) folders

abbrev pub same_team_id : Option UserRow → Option UserRow → Bool
same_team_id none b = false
same_team_id (some a) none = false
same_team_id (some a) (some b) = a.team_id == b.team_id
