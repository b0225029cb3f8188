-- ===== src/Teams/Request/Served.antt =====
-- src/teams/request.ts, `withTeams`: which team a request that is handed on with a team has.
use stohr.Common.{
  ℕ, ◌≡◌, refl, ◌⊎◌, inl, inr, Bool, true, false, not, ◌&&◌, Option, none, some, List, String,
  arith, ◌==◌, str_eq, is_some, if◌then◌else◌, Bool-cases, Option-cases,
}
use stohr.Security.Proxies.{Cidr}
use stohr.Teams.Slug.{to_lower, ParsedHost, root_host, team_host, invalid_host, parse_host}
use stohr.Teams.Resolve.{Team, Cache, root_team_id, team_by_slug, team_by_domain, root_team}
use stohr.Teams.Urls.{UrlParts, HostConfig, given_domain}
use stohr.Teams.Request.{
  Request, ResolvedTeam, served, admit, admit_parsed, with_teams, effective_host, local_host,
  is_root_name, infra_path,
}

module _ (parse_url : String → Option UrlParts) (is_ip : String → Bool) (cfg : HostConfig) (now : ℕ)
    (teams : List Team) where
  -- The root domain itself, or the host of the app's address.
  abbrev IsRootHost : String → Type 0
  IsRootHost host =
      (is_root_name cfg host ≡ true)
      ⊎ ((u : UrlParts) × (parse_url cfg.app_url ≡ some u)
          × (str_eq host (to_lower u.hostname) ≡ true))

  -- The team that the name under the root domain stands for, the team whose verified domain the host
  -- is, or the root team.
  pub data NamedBy : String → Cache → Team → Type 0 where
    by_label :
        {host slug : String} {c : Cache} {team : Team}
        → parse_host host cfg.root_domain ≡ team_host slug
        → (team_by_slug now teams slug c).0 ≡ some team
        → NamedBy host c team
    by_domain :
        {host : String} {c : Cache} {team : Team}
        → team_by_domain teams host ≡ some team
        → NamedBy host c team
    by_default :
        {host : String} {c : Cache} {team : Team}
        → team ≡ (root_team now teams c).0
        → IsRootHost host ⊎ (given_domain cfg.root_domain ≡ none) ⊎ (local_host is_ip host ≡ true)
        → NamedBy host c team

  admit-open :
      (host : String) (custom : Bool) (found : Option Team) (r : ResolvedTeam)
      → admit parse_url is_ip cfg host custom found ≡ served r
      → (found ≡ some r.team)
        × (r.team.suspended_at ≡ none)
        × (r.is_root ≡ (r.team.id == root_team_id))
  admit-open host custom none r h = absurd cc
  admit-open host custom (some team) r h = ground arith

  default_host :
      (host : String) (is_root : Bool)
      → (is_root ≡ true → IsRootHost host)
      → is_some (given_domain cfg.root_domain) && not is_root && not (local_host is_ip host) ≡ false
      → IsRootHost host ⊎ (given_domain cfg.root_domain ≡ none) ⊎ (local_host is_ip host ≡ true)
  default_host host true root f = inl (root refl)
  default_host host false root f = elim (Option-cases (given_domain cfg.root_domain)) [
    | inl e ↦ inr (inl e)
    | inr (d, e) ↦ elim (Bool-cases (local_host is_ip host)) [
      | inl l ↦ inr (inr l)
      | inr l ↦ absurd (let bad = rw (e, l) at f in cc)
    ]
  ]

  admit_parsed-NamedBy :
      (host : String) (is_root : Bool) (parsed : ParsedHost) (c : Cache) (r : ResolvedTeam)
      → (if is_root then root_host else parse_host host cfg.root_domain) ≡ parsed
      → (is_root ≡ true → IsRootHost host)
      → (admit_parsed parse_url is_ip cfg now teams host is_root parsed c).0 ≡ served r
      → NamedBy host c r.team
        × (r.team.suspended_at ≡ none)
        × (r.is_root ≡ (r.team.id == root_team_id))
  admit_parsed-NamedBy host is_root invalid_host c r e root h = absurd cc
  admit_parsed-NamedBy host is_root (team_host slug) c r e root h =
      let (found, open_team, flag) = admit-open host false (team_by_slug now teams slug c).0 r h in
      let named : parse_host host cfg.root_domain ≡ team_host slug = ground arith in
      (by_label named found, open_team, flag)
  admit_parsed-NamedBy host is_root root_host c r e root h =
      elim (Bool-cases
        (is_some (given_domain cfg.root_domain) && not is_root && not (local_host is_ip host))) [
          | inl t ↦ elim (Option-cases (team_by_domain teams host)) [
            | inl e' ↦ absurd (let bad = rw (t, e') at h in cc)
            | inr (team, e') ↦
                let (found, open_team, flag) =
                  admit-open host true (some team) r (rw (t, e') at h) in
                let same : team ≡ r.team = cc in (by_domain (rw (← same) e'), open_team, flag)
          ]
          | inr f ↦
              let (found, open_team, flag) =
                admit-open host false (some (root_team now teams c).0) r (rw f at h) in
              let same : r.team ≡ (root_team now teams c).0 = cc in
              (by_default same (default_host host is_root root f), open_team, flag)
        ]

  -- A request that is handed on with a team has one that is not suspended, marked as the root team
  -- exactly if it has its id; it is the team that the label of the host stands for, the team whose
  -- verified domain the host is, or else the root team, and that only for the root domain or the
  -- app's own host, for a local host, or without a root domain.
  pub with_teams-NamedBy :
      (to_number : String → Option ℕ) (trusted : List Cidr) (req : Request) (c : Cache)
      (r : ResolvedTeam)
      → (with_teams parse_url is_ip to_number trusted cfg now teams req c).0 ≡ served r
      → NamedBy (effective_host to_number trusted req) c r.team
        × (r.team.suspended_at ≡ none)
        × (r.is_root ≡ (r.team.id == root_team_id))
  unfolding with_teams
  with_teams-NamedBy to_number trusted req c r h =
      let host = effective_host to_number trusted req in
      elim (Bool-cases (infra_path req.path)) [
        | inl t ↦ absurd (let bad = rw t at h in cc)
        | inr i ↦ elim (Bool-cases (is_root_name cfg host)) [
          | inl t ↦ admit_parsed-NamedBy host true root_host c r refl (λ _. inl t) (rw (i, t) at h)
          | inr f ↦ elim (Option-cases (parse_url cfg.app_url)) [
            | inl e ↦ absurd (let bad = rw (i, f, e) at h in cc)
            | inr (u, e) ↦
                admit_parsed-NamedBy host (str_eq host (to_lower u.hostname)) _ c r refl
                  (λ same. inr (u, e, same)) (rw (i, f, e) at h)
          ]
        ]
      ]
