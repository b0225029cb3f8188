-- ===== src/Teams/Request.antt =====
-- src/teams/host.ts and src/teams/request.ts: the host that a request is addressed to, and the team
-- that answers on it. `new URL` and `isIP` of the runtime are arguments.
pub mod Served
use Prim.Native.Char.{Char, code}
use Prim.Native.String
use text.Mathlib.Text.{starts_with}
use stohr.Common.{
  ℕ, Bool, true, false, not, ◌&&◌, ◌||◌, Option, none, some, List, String, ◌==◌, str_eq, is_some,
  is_none, if◌then◌else◌, find,
}
use stohr.Db.{UserRow}
use stohr.Auth.Credentials.{trim}
use stohr.Security.Proxies.{Cidr, is_trusted_proxy, normalize_ip}
use stohr.Teams.Slug.{
  to_lower, ParsedHost, root_host, team_host, invalid_host, parse_host, take_chars,
}
use stohr.Teams.Resolve.{Team, Cache, root_team_id, team_by_slug, team_by_domain, root_team}
use stohr.Teams.Urls.{UrlParts, HostConfig, given_domain, team_base_url}

pub record Request : Type 0 where
  pub path : String
  -- `new URL(req.url).host`
  pub url_host : String
  pub host : Option String
  pub forwarded_host : Option String
  -- the socket's address, or "unknown"
  pub peer : String

-- `s.slice(0, s.indexOf(c))`, or all of `s` without a `c`
abbrev pub before : ℕ → String → String
before c String.[] = String.[]
before c (String.◌∷◌ d s) = if code d == c then String.[] else String.◌∷◌ d (before c s)

abbrev pub contains_char : ℕ → String → Bool
contains_char c String.[] = false
contains_char c (String.◌∷◌ d s) = code d == c || contains_char c s

-- up to the closing bracket and with it, or all of the string
abbrev pub bracketed : String → String
bracketed v = if contains_char 93 v then String.◌++◌ (before 93 v) "]" else v

abbrev pub strip_dot : String → String
strip_dot String.[] = String.[]
strip_dot (String.◌∷◌ c s) =
    if str_eq (String.◌∷◌ c s) "." then String.[] else String.◌∷◌ c (strip_dot s)

unfoldable pub hostname_only : String → String
unfolding to_lower
hostname_only raw =
    let v = to_lower (trim raw) in
    if starts_with v "[" then bracketed v else strip_dot (before 58 v)

-- `forwarded?.split(",")[0]?.trim()`
abbrev first_forwarded : Option String → Option String
first_forwarded none = none
first_forwarded (some s) = given_domain (some (trim (before 44 s)))

abbrev host_or : Option String → String → String
host_or none d = d
host_or (some h) d = h

unfoldable pub socket_peer : Request → String
unfolding normalize_ip
socket_peer req = normalize_ip req.peer

unfoldable pub is_loopback_peer : Request → Bool
unfolding socket_peer
is_loopback_peer req = str_eq (socket_peer req) "::1" || starts_with (socket_peer req) "127."

module _ (to_number : String → Option ℕ) (trusted : List Cidr) where
  unfoldable pub is_trusted_peer : Request → Bool
  unfolding is_trusted_proxy socket_peer
  is_trusted_peer req = is_trusted_proxy to_number trusted (socket_peer req)

  -- A forwarded host is believed only from a trusted proxy.
  unfoldable pub effective_host : Request → String
  unfolding hostname_only is_trusted_proxy socket_peer
  effective_host req =
      let forwarded =
        if is_trusted_proxy to_number trusted (socket_peer req) then req.forwarded_host else none in
      hostname_only
        (host_or (first_forwarded forwarded) (host_or (given_domain req.host) req.url_host))

abbrev pub infra_path : String → Bool
infra_path path =
    str_eq path "/healthz"
    || str_eq path "/readyz"
    || str_eq path "/metrics"
    || str_eq path "/internal/tls/allow"
    || str_eq path "/internal/domains/resolve"

pub record ResolvedTeam : Type 0 where
  pub team : Team
  pub is_root : Bool
  pub base_url : String

-- `passed`: handed on without a team; `failed`: `new URL(cfg.appUrl)` throws.
pub data Answer : Type 0 where
  passed : Answer
  failed : Answer
  unknown_team : Answer
  suspended_team : Answer
  served : ResolvedTeam → Answer

abbrev drop_open : String → String
drop_open String.[] = String.[]
drop_open (String.◌∷◌ c s) = if code c == 91 then s else String.◌∷◌ c s

abbrev drop_close : String → String
drop_close String.[] = String.[]
drop_close (String.◌∷◌ c s) =
    if str_eq (String.◌∷◌ c s) "]" then String.[] else String.◌∷◌ c (drop_close s)

abbrev pub is_root_name : HostConfig → String → Bool
is_root_name cfg host = elim cfg.root_domain [
  | none ↦ false
  | some root ↦ str_eq host (to_lower root)
]

abbrev pub local_host : (String → Bool) → String → Bool
local_host is_ip host =
    str_eq host "localhost" || not (contains_char 46 host) || is_ip (drop_close (drop_open host))

module _ (parse_url : String → Option UrlParts) (is_ip : String → Bool) where
  abbrev pub base_of : HostConfig → String → Bool → Team → String
  base_of cfg host custom team =
      if custom
      then String.◌++◌ "https://" host
      else team_base_url parse_url cfg (record team { custom_domain = none })

  abbrev pub admit : HostConfig → String → Bool → Option Team → Answer
  admit cfg host custom none = unknown_team
  admit cfg host custom (some team) =
      if is_some team.suspended_at
      then suspended_team
      else served (record {
        team = team;
        is_root = team.id == root_team_id;
        base_url = base_of cfg host custom team;
      })

  abbrev pub admit_with : HostConfig → String → Option Team × Cache → Answer × Cache
  admit_with cfg host found = (admit cfg host false found.0, found.1)

  abbrev pub admit_root : HostConfig → ℕ → List Team → String → Cache → Answer × Cache
  admit_root cfg now teams host c =
      let found = root_team now teams c in (admit cfg host false (some found.0), found.1)

  -- A host outside the root domain is a team's own domain, or it is unknown.
  abbrev pub admit_custom : HostConfig → String → Option Team → Cache → Answer × Cache
  admit_custom cfg host none c = (unknown_team, c)
  admit_custom cfg host (some team) c = (admit cfg host true (some team), c)

  abbrev pub admit_parsed :
      HostConfig → ℕ → List Team → String → Bool → ParsedHost → Cache → Answer × Cache
  admit_parsed cfg now teams host is_root invalid_host c = (unknown_team, c)
  admit_parsed cfg now teams host is_root (team_host slug) c =
      admit_with cfg host (team_by_slug now teams slug c)
  admit_parsed cfg now teams host is_root root_host c =
      if is_some (given_domain cfg.root_domain) && not is_root && not (local_host is_ip host)
      then admit_custom cfg host (team_by_domain teams host) c
      else admit_root cfg now teams host c

  abbrev pub resolve_host : HostConfig → ℕ → List Team → String → Bool → Cache → Answer × Cache
  resolve_host cfg now teams host is_root c =
      let parsed = if is_root then root_host else parse_host host cfg.root_domain in
      admit_parsed cfg now teams host is_root parsed c

  unfoldable pub with_teams :
      (String → Option ℕ)
      → List Cidr
      → HostConfig
      → ℕ
      → List Team
      → Request
      → Cache
      → Answer × Cache
  unfolding effective_host parse_host team_by_slug team_by_domain root_team team_base_url
  with_teams to_number trusted cfg now teams req c =
      let host = effective_host to_number trusted req in
      if infra_path req.path
      then (passed, c)
      else if is_root_name cfg host
      then resolve_host cfg now teams host true c
      else elim (parse_url cfg.app_url) [
        | none ↦ (failed, c)
        | some u ↦ resolve_host cfg now teams host (str_eq host (to_lower u.hostname)) c
      ]

-- src/teams/guards.ts
pub data Guarded : Type 0 where
  admitted : Guarded
  not_found : Guarded
  forbidden : Guarded

unfoldable pub root_only : ResolvedTeam → Guarded
root_only r = if r.is_root then admitted else not_found

-- `id` is that of the signed-in user, absent without one.
unfoldable pub team_admin_only : List UserRow → ResolvedTeam → Option ℕ → Guarded
team_admin_only users host none = forbidden
team_admin_only users host (some id) = elim (find (λ u. u.id == id) users) [
  | none ↦ forbidden
  | some u ↦
      if not (u.team_id == host.team.id)
      then forbidden
      else if u.team_admin
      then admitted
      else if u.is_owner && u.team_id == root_team_id
      then admitted
      else forbidden
]
