-- ===== src/Shares/Tests.antt =====
-- Runs of the share links' code at fixed inputs, and the theorems at concrete ones.
use stohr.Common.{◌≡◌, ◌≢◌, refl, true, false, none, some, [], ◌∷◌, str_eq}
use stohr.Db.{Db, UserRow, FileRow, ShareRow, skipped, user_by_id}
use stohr.Permissions.{file_access, same_team, parent_space, is_owner}
use stohr.Auth.Credentials.{AuthState}
use stohr.Uploads.Store.{Objects, whole, fetch_object, key_eq}
use stohr.Security.Rates.{check_rate}
use stohr.Security.Inline.{InlineDecision, decide_inline}
use stohr.Shares.Routes.{
  NewShare, create_share, alloc_share_token, short_token, delete_share, failed,
}
use stohr.Shares.View.{
  ViewState, View, Outside, ViewReply, served, wait, view, find_share, resolve_viewer_id,
}
use stohr.Shares.View as V
use stohr.Shares.Viewed.{IsViewed, view-IsViewed}
use stohr.Shares.Burned.{view-burns}

abbrev user_row : UserRow
user_row = record {
  id = 1;
  is_owner = false;
  team_id = 1;
  team_admin = false;
  oauth_epoch = 0;
  username = "ann";
  email = "ann@example.org";
  storage_quota_bytes = 0;
  deleted_at = none;
  suspended_at = none;
}

abbrev file_row : FileRow
file_row = record {
  id = 100;
  user_id = 1;
  folder_id = none;
  name = "a.txt";
  mime = "text/plain";
  size = 2;
  storage_key = "k";
  thumb_key = none;
  version = 1;
  scan_status = skipped;
  scan_signature = none;
  scanned_at = none;
  deleted_at = none;
}

abbrev db : Db
db = record {
  users = user_row ∷ [];
  teams = [];
  folders = [];
  files = file_row ∷ [];
  file_versions = [];
  collaborations = [];
  spaces = [];
  space_members = [];
}

abbrev objects : Objects
objects = (whole "k", 7 ∷ 8 ∷ []) ∷ []

abbrev link : ShareRow
link = record {
  id = 5;
  file_id = 100;
  user_id = 1;
  token = "abc";
  expires_at = some 9_000;
  password_hash = some "#pw";
  burn_on_view = true;
}

abbrev auth : AuthState
auth = record {
  users = user_row ∷ [];
  apps = [];
  clients = [];
  sessions = record { rows = []; last_touched = [] };
}

abbrev st : ViewState
st = record { shares = link ∷ []; rates = []; auth = auth }

abbrev out : Outside
out = record {
  auth = record {
    now = 8_000;
    host_team = 1;
    host_is_root = true;
    verify = λ token. none;
    hash_token = λ token. token;
    write_ok = true;
  };
  verify = λ password hash. str_eq password "pw";
  encode = λ s. s;
  share_bucket = λ id. "share:pw:tok:5";
  has_clamd = false;
}

abbrev req : View
req = record {
  token = "abc";
  ip = "8.8.8.8";
  host_team = 1;
  is_meta = false;
  password = some "pw";
  want_inline = false;
  conn = record { method = "GET"; path = "/s/abc"; authorization = none };
}

abbrev attached : InlineDecision
attached = record {
  content_type = "application/octet-stream";
  disposition = "attachment; filename=\"a.txt\"";
}

abbrev is_served : (view out db objects req st).0 ≡ served file_row attached (7 ∷ 8 ∷ [])
unfolding view find_share resolve_viewer_id check_rate fetch_object key_eq decide_inline user_by_id
is_served = refl

abbrev no_viewer : (resolve_viewer_id out.auth req.conn st.auth).0 ≡ none
unfolding resolve_viewer_id
no_viewer = refl

view-IsViewed_example :
    IsViewed out db objects req st (view out db objects req st).1 file_row (7 ∷ 8 ∷ [])
view-IsViewed_example = view-IsViewed out db objects req st file_row attached (7 ∷ 8 ∷ []) is_served

view-burns_example :
    (view out db objects req (view out db objects req st).1).0
    ≢ served file_row attached (7 ∷ 8 ∷ [])
view-burns_example =
    view-burns out out db db objects objects req req st (view out db objects req st).1 link file_row
      file_row attached attached (7 ∷ 8 ∷ []) (7 ∷ 8 ∷ []) (refl, tt) refl refl (rw no_viewer refl)
      is_served refl refl

wrong_password : (view out db objects (record req { password = some "guess" }) st).0 ≡ V.failed 401
unfolding view find_share resolve_viewer_id check_rate fetch_object key_eq decide_inline user_by_id
wrong_password = refl

other_host : (view out db objects (record req { host_team = 2 }) st).0 ≡ V.failed 404
unfolding view find_share resolve_viewer_id check_rate fetch_object key_eq decide_inline user_by_id
other_host = refl

expired_link :
    (view (record out { auth = record out.auth { now = 9_001 } }) db objects req st).1.shares ≡ []
unfolding view find_share resolve_viewer_id check_rate fetch_object key_eq decide_inline user_by_id
expired_link = refl

token_of_bytes : short_token (0 ∷ 57 ∷ 58 ∷ []) ≡ "1z1"
unfolding short_token
token_of_bytes = refl

abbrev new_link : NewShare
new_link = record {
  file_id = some 100;
  expires_in = some 60;
  password = some " ";
  burn_on_view = none;
}

made_link :
    (create_share (λ p. p) db (link ∷ []) 1_000 6 1 new_link ((9 ∷ []) ∷ [])).1
    ≡ record {
      id = 6;
      file_id = 100;
      user_id = 1;
      token = "A";
      expires_at = some 61_000;
      password_hash = none;
      burn_on_view = false;
    }
      ∷ link
      ∷ []
unfolding create_share alloc_share_token short_token file_access is_owner same_team user_by_id
    parent_space
made_link = refl

not_mine : delete_share (link ∷ []) 2 5 ≡ (failed 404, link ∷ [])
unfolding delete_share
not_mine = refl
