-- ===== src/Teams/Tests.antt =====
-- Runs of the teams' code at fixed inputs, and the theorems at concrete ones.
use stohr.Common.{
  ℕ, ◌+◌, ◌≤◌, ◌<◌, ◌≡◌, refl, inl, inr, Bool, false, Option, none, some, str_eq, List, [], ◌∷◌,
  String, arith, ltb, ◌==◌, if◌then◌else◌, Bool-cases,
}
use stohr.Security.Proxies.{Cidr, is_trusted_proxy, ipv4_to_int, normalize_ip}
use stohr.Teams.Slug.{
  parse_host, team_host, invalid_host, slug_problem, malformed, is_valid_slug, is_reserved_slug,
  to_lower,
}
use stohr.Teams.Resolve.{
  Team, Cache, empty_cache, team_by_slug, team_by_id, select_by_id, root_sentinel, remember,
  clear_team_cache,
}
use stohr.Teams.Resolve.Staleness.{
  IsKeyed, SlugAnswer, Reaches, boot, wait, looked_up, team_by_id-refines, team_by_slug-refines,
}
use stohr.Teams.Urls.{UrlParts, HostConfig, team_hostname, team_base_url}
use stohr.Teams.Urls.Roundtrip.{parse_host-team_hostname}
use stohr.Teams.Request.{
  Request, ResolvedTeam, served, suspended_team, with_teams, effective_host, hostname_only,
  socket_peer, root_only, not_found,
}
use stohr.Teams.Request.Served.{NamedBy, with_teams-NamedBy}

abbrev acme : Team
acme = record {
  id = 7;
  slug = "acme";
  name = "Acme";
  custom_domain = none;
  domain_verified_at = none;
  quota_bytes = some 500;
  suspended_at = none;
  deleted_at = none;
  created_at = 3;
}

abbrev acme_deleted : Team
acme_deleted = record acme { deleted_at = some 10 }

abbrev acme_suspended : Team
acme_suspended = record acme { suspended_at = some 10 }

-- The team is suspended at time 10.
abbrev table_at : ℕ → List Team
table_at t = root_sentinel ∷ (if ltb t 10 then acme else acme_suspended) ∷ []

abbrev table_at-IsKeyed : (t : ℕ) → IsKeyed (table_at t)
table_at-IsKeyed t = elim (Bool-cases (ltb t 10)) [
  | inl e ↦ rw e ((refl, refl), ((refl, refl), tt))
  | inr e ↦ rw e ((refl, refl), ((refl, refl), tt))
]

abbrev warm : Cache
warm = (team_by_slug 5 (table_at 5) "acme" empty_cache).1

abbrev warm-Reaches : Reaches table_at 20 warm
warm-Reaches = wait (looked_up "acme" boot) (omega arith)

team_by_id-refines_example :
    (t : ℕ) × (t ≤ 20)
    × (20 < t + 30_000)
    × ((team_by_id 20 (table_at 20) 7 warm).0 ≡ select_by_id (table_at t) 7)
team_by_id-refines_example = team_by_id-refines table_at table_at-IsKeyed 20 7 warm warm-Reaches

-- The answer is that of time 5: the suspension is not seen yet.
stale_answer : (team_by_id 20 (table_at 20) 7 warm).0 ≡ some acme
unfolding team_by_id team_by_slug remember is_reserved_slug
stale_answer = refl

expired_answer : (team_by_id 30_005 (table_at 30_005) 7 warm).0 ≡ some acme_suspended
unfolding team_by_id team_by_slug remember is_reserved_slug
expired_answer = refl

cleared_answer :
    (team_by_id 20 (table_at 20) 7 (clear_team_cache (some "acme") warm)).0 ≡ some acme_suspended
unfolding team_by_id team_by_slug remember is_reserved_slug clear_team_cache
cleared_answer = refl

abbrev acme_free : is_reserved_slug "acme" ≡ false
unfolding is_reserved_slug
acme_free = refl

team_by_slug-refines_example :
    (t : ℕ) × (t ≤ 20)
    × (20 < t + 30_000)
    × SlugAnswer table_at t "acme" (team_by_slug 20 (table_at 20) "acme" warm).0
team_by_slug-refines_example =
    team_by_slug-refines table_at table_at-IsKeyed 20 "acme" warm warm-Reaches acme_free

abbrev with_deleted : List Team
with_deleted = root_sentinel ∷ acme_deleted ∷ []

-- A deleted team is not found by its slug, unless it was looked up by its id before.
deleted_not_found : (team_by_slug 20 with_deleted "acme" empty_cache).0 ≡ none
unfolding team_by_slug remember is_reserved_slug
deleted_not_found = refl

deleted_found :
    (team_by_slug 20 with_deleted "acme" (team_by_id 15 with_deleted 7 empty_cache).1).0
    ≡ some acme_deleted
unfolding team_by_slug team_by_id remember is_reserved_slug
deleted_found = refl

abbrev app_parts : UrlParts
app_parts = record { protocol = "https:"; hostname = "app.example"; port = "3001" }

abbrev parse_app : String → Option UrlParts
parse_app url = some app_parts

-- The few numbers that the proxies' addresses have.
abbrev decimal : String → Option ℕ
decimal s =
    if str_eq s "10"
    then some 10
    else if str_eq s "0"
    then some 0
    else if str_eq s "1"
    then some 1
    else if str_eq s "8"
    then some 8
    else none

-- 10.0.0.0/8
abbrev proxies : List Cidr
proxies = record { addr = 167_772_160; mask = 4_278_190_080 } ∷ []

abbrev never_ip : String → Bool
never_ip host = false

abbrev config : HostConfig
config = record { root_domain = some "Example"; app_url = "https://app.example:3001/" }

abbrev acme_good : slug_problem "acme" ≡ none
unfolding slug_problem is_valid_slug is_reserved_slug
acme_good = refl

abbrev acme_hostname : team_hostname parse_app config acme ≡ some "acme.example"
unfolding team_hostname to_lower
acme_hostname = refl

parse_host-team_hostname_example : parse_host "acme.example" (some "Example") ≡ team_host "acme"
parse_host-team_hostname_example =
    parse_host-team_hostname parse_app config acme "Example" "acme.example" refl refl acme_good refl
      (λ e. absurd cc) (refl, (refl, (refl, (refl, (refl, (refl, (refl, tt))))))) acme_hostname

reserved_host : parse_host " WWW.Example" (some "example") ≡ invalid_host
unfolding parse_host is_valid_slug is_reserved_slug to_lower
reserved_host = refl

deep_host : parse_host "a.b.example" (some "example") ≡ invalid_host
unfolding parse_host is_valid_slug is_reserved_slug to_lower
deep_host = refl

hyphens : slug_problem "-a" ≡ some malformed
unfolding slug_problem is_valid_slug is_reserved_slug
hyphens = refl

acme_url : team_base_url parse_app config acme ≡ "https://acme.example:3001"
unfolding team_base_url to_lower
acme_url = refl

abbrev acme_request : Request
acme_request = record {
  path = "/files";
  url_host = "10.0.0.1";
  host = some "10.0.0.1:3001";
  forwarded_host = some " Acme.Example:443, edge";
  peer = "10.0.0.1";
}

abbrev acme_resolved : ResolvedTeam
acme_resolved = record { team = acme; is_root = false; base_url = "https://acme.example:3001" }

abbrev acme_served :
    (with_teams parse_app never_ip decimal proxies config 5 (table_at 5) acme_request empty_cache).0
    ≡ served acme_resolved
unfolding with_teams effective_host hostname_only socket_peer is_trusted_proxy ipv4_to_int
    normalize_ip parse_host team_by_slug remember team_base_url to_lower is_valid_slug
    is_reserved_slug
acme_served = refl

with_teams-NamedBy_example :
    NamedBy parse_app never_ip config 5
      (table_at 5)
      (effective_host decimal proxies acme_request)
      empty_cache
      acme
    × (acme.suspended_at ≡ none)
    × (false ≡ (acme.id == 1))
with_teams-NamedBy_example =
    with_teams-NamedBy parse_app never_ip config 5 (table_at 5) decimal proxies acme_request
      empty_cache acme_resolved acme_served

-- Without a trusted proxy the forwarded host is not believed: the address is a local host's.
untrusted_forwarding :
    effective_host decimal proxies (record acme_request { peer = "8.8.8.8" }) ≡ "10.0.0.1"
unfolding effective_host hostname_only socket_peer is_trusted_proxy ipv4_to_int normalize_ip
    to_lower
untrusted_forwarding = refl

suspended_answer :
    (with_teams parse_app never_ip decimal proxies config 12
      (table_at 12)
      acme_request
      empty_cache).0
    ≡ suspended_team
unfolding with_teams effective_host hostname_only socket_peer is_trusted_proxy ipv4_to_int
    normalize_ip parse_host team_by_slug remember team_base_url to_lower is_valid_slug
    is_reserved_slug
suspended_answer = refl

tenant_not_root : root_only acme_resolved ≡ not_found
unfolding root_only
tenant_not_root = refl
