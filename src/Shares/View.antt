-- ===== src/Shares/View.antt =====
-- src/shares/index.ts, `GET /s/:token`: the view of a share link. `clientIp` of the request and the team of
-- its host come with it; `verify` of the password library and `encodeURIComponent` are arguments. A missing object is an error.
use Prim.Native.String
use text.Mathlib.Text.{starts_with}
use stohr.Common.{
  ℕ, ◌+◌, ◌*◌, Bool, true, false, not, ◌&&◌, ◌||◌, Option, none, some, List, String, ltb, ◌==◌,
  opt_eq, str_eq, if◌then◌else◌, find, any, is_none,
}
use stohr.Db.{Db, FileRow, ShareRow, ScanStatus, clean, infected, UserRow, user_by_id}
use stohr.Auth.Credentials.{AuthState, Env, Conn, Verdict, halted, assigned}
use stohr.Auth.Guard.{require_auth}
use stohr.Uploads.Store.{whole, Objects, fetch_object}
use stohr.Security.Rates.{RateRow, RateLimitResult, find_bucket, check_rate}
use stohr.Security.Inline.{InlineDecision, decide_inline}
use stohr.Shares.Routes.{has_token, delete_id}

abbrev pub miss_max : ℕ
miss_max = 30

abbrev pub miss_window_seconds : ℕ
miss_window_seconds = 900

pub record ViewState : Type 0 where
  pub shares : List ShareRow
  pub rates : List RateRow
  pub auth : AuthState

pub record View : Type 0 where
  pub token : String
  pub ip : String
  pub host_team : ℕ
  pub is_meta : Bool
  pub password : Option String
  pub want_inline : Bool
  pub conn : Conn

-- What the handler does not itself compute; `auth` has the clock.
pub record Outside : Type 0 where
  pub auth : Env
  pub verify : String → String → Bool
  pub encode : String → String
  pub share_bucket : ℕ → String
  pub has_clamd : Bool

pub data ViewReply : Type 0 where
  failed : ℕ → ViewReply
  wait : Option ℕ → ViewReply
  meta : FileRow → ShareRow → ViewReply
  served : FileRow → InlineDecision → List ℕ → ViewReply

abbrev is_infected : ScanStatus → Bool
is_infected infected = true
is_infected _ = false

abbrev is_clean : ScanStatus → Bool
is_clean clean = true
is_clean _ = false

-- src/scanning/index.ts
abbrev pub is_scan_blocked : Bool → ScanStatus → Bool
is_scan_blocked has_clamd status = is_infected status || (has_clamd && not (is_clean status))

abbrev pub viewer_of : AuthState × Verdict → Option ℕ × AuthState
viewer_of (st, halted code why) = (none, st)
viewer_of (st, assigned a) = (some a.id, st)

abbrev bears_token : Option String → Bool
bears_token none = false
bears_token (some header) = starts_with header "Bearer "

unfoldable pub resolve_viewer_id : Env → Conn → AuthState → Option ℕ × AuthState
unfolding require_auth
resolve_viewer_id env conn st =
    if bears_token conn.authorization
    then viewer_of (require_auth env (record { scope = some "read"; no_oauth = false }) conn st)
    else (none, st)

abbrev pub is_blocked : ℕ → Option RateRow → Bool
is_blocked now none = false
is_blocked now (some r) =
    ltb miss_max r.count && ltb now (r.window_started_at + miss_window_seconds * 1000)

abbrev pub miss_bucket : String → String
miss_bucket ip = String.◌++◌ "share:miss:ip:" ip

-- The share with the token, if its user is in the team of the host.
abbrev team_of : Option UserRow → Option ℕ
team_of none = none
team_of (some u) = some u.team_id

abbrev pub on_host : Db → ℕ → Option ShareRow → Option ShareRow
on_host db host_team none = none
on_host db host_team (some s) =
    if opt_eq (team_of (user_by_id db s.user_id)) host_team then some s else none

unfoldable pub find_share : Db → List ShareRow → View → Option ShareRow
unfolding user_by_id
find_share db shares req = on_host db req.host_team (find (has_token req.token) shares)

abbrev pub is_expired : ℕ → ShareRow → Bool
is_expired now s = elim s.expires_at [ none ↦ false | some expires_at ↦ ltb expires_at now ]

abbrev pub shared_file : Db → ShareRow → Option FileRow
shared_file db s = find (λ (f : FileRow). f.id == s.file_id && is_none f.deleted_at) db.files

abbrev pub is_right : Outside → Option String → String → Bool
is_right out none hash = false
is_right out (some password) hash = not (str_eq password "") && out.verify password hash

module _ (out : Outside) (db : Db) (objects : Objects) (req : View) where
  abbrev pub send : ViewState → FileRow → ViewReply × ViewState
  send st f = elim (fetch_object (whole f.storage_key) objects) [
    | none ↦ (failed 500, st)
    | some bytes ↦ (served f (decide_inline out.encode f.mime f.name req.want_inline) bytes, st)
  ]

  -- The claim of a link that burns deletes its row, if it is still there.
  abbrev pub claim : ViewState → ShareRow → FileRow → ViewReply × ViewState
  claim st s f =
      let burnt = record st { shares = delete_id s.id st.shares } in
      if any (λ (r : ShareRow). r.id == s.id) st.shares then send burnt f else (failed 404, st)

  abbrev pub deliver : ViewState → ShareRow → FileRow → Option ℕ × AuthState → ViewReply × ViewState
  deliver st s f viewer =
      let st' = record st { auth = viewer.1 } in
      if s.burn_on_view && not (opt_eq viewer.0 s.user_id) then claim st' s f else send st' f

  abbrev pub open_file : ViewState → ShareRow → FileRow → ViewReply × ViewState
  open_file st s f = deliver st s f (resolve_viewer_id out.auth req.conn st.auth)

  abbrev pub checked_share :
      ViewState
      → ShareRow
      → FileRow
      → String
      → RateLimitResult × List RateRow
      → ViewReply × ViewState
  checked_share st s f hash rate =
      let st' = record st { rates = rate.1 } in
      if not rate.0.ok
      then (wait (some rate.0.retry_after_seconds), st')
      else if not (is_right out req.password hash)
      then (failed 401, st')
      else open_file st' s f

  abbrev pub checked_ip :
      ViewState
      → ShareRow
      → FileRow
      → String
      → RateLimitResult × List RateRow
      → ViewReply × ViewState
  checked_ip st s f hash rate =
      let st' = record st { rates = rate.1 } in
      if not rate.0.ok
      then (wait (some rate.0.retry_after_seconds), st')
      else checked_share st' s f hash
          (check_rate rate.1 out.auth.now (out.share_bucket s.id) 10 900)

  abbrev pub pass_password : ViewState → ShareRow → FileRow → Option String → ViewReply × ViewState
  pass_password st s f none = open_file st s f
  pass_password st s f (some hash) =
      checked_ip st s f hash
        (check_rate st.rates out.auth.now (String.◌++◌ "share:pw:ip:" req.ip) 30 900)

  abbrev pub view_file : ViewState → ShareRow → Option FileRow → ViewReply × ViewState
  view_file st s none = (failed 404, st)
  view_file st s (some f) =
      if is_scan_blocked out.has_clamd f.scan_status
      then (failed 403, st)
      else if req.is_meta
      then (meta f s, st)
      else pass_password st s f s.password_hash

  abbrev pub miss : ViewState → RateLimitResult × List RateRow → ViewReply × ViewState
  miss st rate =
      let st' = record st { rates = rate.1 } in
      if not rate.0.ok then (wait (some rate.0.retry_after_seconds), st') else (failed 404, st')

  abbrev pub view_share : ViewState → Option ShareRow → ViewReply × ViewState
  view_share st none =
      miss st (check_rate st.rates out.auth.now (miss_bucket req.ip) miss_max miss_window_seconds)
  view_share st (some s) =
      if is_expired out.auth.now s
      then (failed 410, record st { shares = delete_id s.id st.shares })
      else view_file st s (shared_file db s)

  -- GET /s/:token
  unfoldable pub view : ViewState → ViewReply × ViewState
  unfolding find_share resolve_viewer_id check_rate fetch_object decide_inline
  view st =
      if is_blocked out.auth.now (find_bucket st.rates (miss_bucket req.ip))
      then (wait none, st)
      else view_share st (find_share db st.shares req)
