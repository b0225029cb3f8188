-- ===== src/Shares/Routes.antt =====
-- src/shares/index.ts: making, listing, deleting and sweeping share links. The random bytes of a token
-- are drawn beforehand; `hash` of the password library is an argument, and webhooks are not modelled.
use Prim.Native.String
use stohr.Common.{
  ℕ, ◌+◌, ◌*◌, ◌%◌, Bool, false, not, ◌&&◌, Option, none, some, List, [], ◌∷◌, String, ltb, ◌==◌,
  str_eq, or_else, if◌then◌else◌, find, any, delete_where, is_none,
}
use stohr.Auth.Credentials.{trim, skip}
use stohr.Db.{Db, FileRow, ShareRow}
use stohr.Permissions.{FileAccess, file_access, is_owner}
use stohr.Teams.Slug.{take_chars}

abbrev pub max_expires_seconds : ℕ
max_expires_seconds = 30 * 24 * 60 * 60

abbrev short_alphabet : String
short_alphabet = "123456789ABCDEFGHJKLMNPQRSTUVWXYZabcdefghijkmnopqrstuvwxyz"

-- One character of the alphabet for each byte.
unfoldable pub short_token : List ℕ → String
short_token [] = ""
short_token (b ∷ bytes) =
    String.◌++◌ (take_chars 1 (skip (b % 58) short_alphabet)) (short_token bytes)

abbrev pub has_token : String → ShareRow → Bool
has_token token s = str_eq s.token token

-- One round for each drawn token; none are left where the function throws.
unfoldable pub alloc_share_token : List ShareRow → List (List ℕ) → Option String
unfolding short_token
alloc_share_token shares [] = none
alloc_share_token shares (bytes ∷ draws) =
    let rest = alloc_share_token shares draws in
    if any (has_token (short_token bytes)) shares then rest else some (short_token bytes)

unfoldable pub sweep_expired_shares : ℕ → List ShareRow → List ShareRow
sweep_expired_shares now shares =
    delete_where
      (λ (s : ShareRow). elim s.expires_at [ none ↦ false | some expires_at ↦ ltb expires_at now ])
      shares

pub record NewShare : Type 0 where
  pub file_id : Option ℕ
  pub expires_in : Option ℕ
  pub password : Option String
  pub burn_on_view : Option Bool

pub data ShareReply : Type 0 where
  failed : ℕ → ShareReply
  -- `allocShareToken` throws
  thrown : ShareReply
  made : ShareRow → ShareReply
  deleted : ℕ → ShareReply

abbrev hashed : (String → String) → Option String → Option String
hashed hash none = none
hashed hash (some password) =
    if str_eq (trim password) "" then none else some (hash (trim password))

module _ (hash : String → String) (db : Db) (shares : List ShareRow) (now new_id user_id : ℕ)
    (body : NewShare) where
  abbrev pub new_share : String → ShareRow
  new_share token = record {
    id = new_id;
    file_id = or_else body.file_id 0;
    user_id = user_id;
    token = token;
    expires_at = some (now + or_else body.expires_in 0 * 1000);
    password_hash = hashed hash body.password;
    burn_on_view = or_else body.burn_on_view false;
  }

  abbrev insert_share : Option String → ShareReply × List ShareRow
  insert_share none = (thrown, shares)
  insert_share (some token) = (made (new_share token), new_share token ∷ shares)

  abbrev may_share : Option FileAccess → Bool
  may_share none = false
  may_share (some access) = is_owner access.role

  -- POST /shares
  unfoldable pub create_share : List (List ℕ) → ShareReply × List ShareRow
  unfolding alloc_share_token file_access is_owner
  create_share draws =
      if or_else body.file_id 0 == 0
      then (failed 422, shares)
      else if or_else body.expires_in 0 == 0
      then (failed 422, shares)
      else if ltb max_expires_seconds (or_else body.expires_in 0)
      then (failed 422, shares)
      else if not (may_share (file_access db user_id (or_else body.file_id 0)))
      then (failed 404, shares)
      else insert_share (alloc_share_token shares draws)

abbrev live_file_of : Db → ShareRow → Option FileRow
live_file_of db s = find (λ (f : FileRow). f.id == s.file_id && is_none f.deleted_at) db.files

-- GET /shares, in the table's order; the join drops a share whose file is in the trash.
unfoldable pub list_shares : Db → List ShareRow → ℕ → List (ShareRow × FileRow)
list_shares db [] user_id = []
list_shares db (s ∷ shares) user_id =
    let rest = list_shares db shares user_id in
    if not (s.user_id == user_id)
    then rest
    else elim (live_file_of db s) [ none ↦ rest | some f ↦ (s, f) ∷ rest ]

abbrev pub delete_id : ℕ → List ShareRow → List ShareRow
delete_id id shares = delete_where (λ (s : ShareRow). s.id == id) shares

-- DELETE /shares/:id
unfoldable pub delete_share : List ShareRow → ℕ → ℕ → ShareReply × List ShareRow
delete_share shares user_id id =
    elim (find (λ (s : ShareRow). s.id == id && s.user_id == user_id) shares) [
      | none ↦ (failed 404, shares)
      | some s ↦ (deleted id, delete_id id shares)
    ]
