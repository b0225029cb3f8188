-- ===== src/Teams/Urls.antt =====
-- src/teams/urls.ts: the host and the address that a team answers on. `new URL` is the argument
-- `parse_url`: the parts of an address, or none where it throws.
pub mod Roundtrip
use Prim.Native.String
use stohr.Common.{
  ℕ, Bool, true, false, Option, none, some, String, ◌==◌, ◌&&◌, ◌||◌, not, str_eq, is_some,
  if◌then◌else◌,
}
use stohr.Teams.Slug.{to_lower}
use stohr.Teams.Resolve.{Team, root_team_id}

-- `hostname`, `protocol` with its colon, and `port`, which is empty for the scheme's own
pub record UrlParts : Type 0 where
  pub protocol : String
  pub hostname : String
  pub port : String

pub record HostConfig : Type 0 where
  pub root_domain : Option String
  pub app_url : String

-- `url.replace(/\/$/, "")`
abbrev pub strip : String → String
strip String.[] = String.[]
strip (String.◌∷◌ c s) = if str_eq (String.◌∷◌ c s) "/" then String.[] else String.◌∷◌ c (strip s)

-- A string of JavaScript that may be null, as a condition: the empty one counts as null.
abbrev pub given_domain : Option String → Option String
given_domain none = none
given_domain (some d) = if str_eq d "" then none else some d

abbrev pub verified_domain : Team → Option String
verified_domain team =
    if is_some team.domain_verified_at then given_domain team.custom_domain else none

abbrev port_of : String → String
port_of port = if str_eq port "" then "" else String.◌++◌ ":" port

abbrev scheme_of : Option UrlParts → String
scheme_of none = "https:"
scheme_of (some u) = u.protocol

abbrev app_port : Option UrlParts → String
app_port none = ""
app_port (some u) = port_of u.port

abbrev hostname_of : Option UrlParts → Option String
hostname_of none = none
hostname_of (some u) = some (to_lower u.hostname)

abbrev pub sub_host : String → String → String
sub_host slug root = String.◌++◌ slug (String.◌++◌ "." (to_lower root))

module _ (parse_url : String → Option UrlParts) (cfg : HostConfig) where
  abbrev sub_url : Team → String → String
  sub_url team root =
      String.◌++◌ (scheme_of (parse_url cfg.app_url)) (
        String.◌++◌ "//" (String.◌++◌ (sub_host team.slug root) (app_port (parse_url cfg.app_url))))

  unfoldable pub team_base_url : Team → String
  team_base_url team =
      if team.id == root_team_id then strip cfg.app_url else elim (given_domain cfg.root_domain) [
        | none ↦ strip cfg.app_url
        | some root ↦ elim (verified_domain team) [
          | some domain ↦ String.◌++◌ "https://" domain
          | none ↦ sub_url team root
        ]
      ]

  -- The root team's name, with or without a root domain.
  abbrev root_hostname : Option String
  root_hostname = elim (given_domain cfg.root_domain) [
    | some root ↦ some (to_lower root)
    | none ↦ hostname_of (parse_url cfg.app_url)
  ]

  unfoldable pub team_hostname : Team → Option String
  team_hostname team =
      if team.id == root_team_id then root_hostname else elim (given_domain cfg.root_domain) [
        | none ↦ none
        | some root ↦ elim (verified_domain team) [
          | some domain ↦ some domain
          | none ↦ some (sub_host team.slug root)
        ]
      ]
