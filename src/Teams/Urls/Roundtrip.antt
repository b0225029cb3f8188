-- ===== src/Teams/Urls/Roundtrip.antt =====
-- src/teams/urls.ts and src/teams/slug.ts: the host name that is printed for a team names the team.
use Prim.Native.String
use stohr.Common.{
  ◌+◌, ◌-◌, ◌≡◌, ◌≢◌, refl, ap, inl, inr, true, false, Option, none, some, String, arith, ◌==◌,
  str_eq, eq_iff, Bool-cases,
}
use stohr.Auth.Credentials.{trim}
use stohr.Oauth.Scopes.{NoSpace}
use stohr.Oauth.State.{string_length}
use stohr.Teams.Slug.{
  to_lower, is_valid_slug, slug_problem, team_host, parse_host, parse_under, parse_label,
  matches_slug_re,
}
use stohr.Teams.Slug.Letters.{
  to_lower-NoUpper, to_lower-NoSpace, to_lower_of_small, NoUpper-append, NoSpace-append,
  trim_of_NoSpace, string_length-append, ends_with-append, take_chars-append, slug-plain,
  to_lower-ne, slug_problem-none,
}
use stohr.Teams.Resolve.{Team, root_team_id}
use stohr.Teams.Urls.{UrlParts, HostConfig, team_hostname, verified_domain, sub_host}

abbrev dotted : String → String
dotted root = String.◌++◌ "." root

dotted-plain : (root : String) → NoSpace root → NoSpace (dotted root)
dotted-plain root h = NoSpace-append "." root (refl, tt) h

sub_host-plain :
    (slug root : String)
    → is_valid_slug slug ≡ true
    → NoSpace root
    → to_lower (trim (sub_host slug root)) ≡ sub_host slug root
unfolding is_valid_slug
sub_host-plain slug root h ns =
    let re : matches_slug_re slug ≡ true = ground arith in
    let (space, upper) = slug-plain slug re in
    let small = to_lower-NoUpper root in
    let spaces =
      NoSpace-append slug (dotted (to_lower root)) space
        (dotted-plain (to_lower root) (to_lower-NoSpace root ns)) in
    rw (trim_of_NoSpace (sub_host slug root) spaces) (
      to_lower_of_small (sub_host slug root) (
        NoUpper-append slug (dotted (to_lower root)) upper
          (NoUpper-append "." (to_lower root) (refl, tt) small)))

length-sub :
    (slug root : String)
    → string_length (String.◌++◌ slug (dotted root)) ≡ string_length slug + (string_length root + 1)
unfolding string_length
length-sub slug root =
    let dot : string_length (dotted root) ≡ 1 + string_length root =
      string_length-append "." root in
    omega (arith, string_length-append slug (dotted root), dot)

sub-ne-root : (slug root : String) → str_eq (String.◌++◌ slug (dotted root)) root ≡ false
sub-ne-root slug root = elim (Bool-cases (str_eq (String.◌++◌ slug (dotted root)) root)) [
  | inr f ↦ f
  | inl t ↦
      let same : String.◌++◌ slug (dotted root) ≡ root =
        ground (arith, eq_iff (String.◌++◌ slug (dotted root)) root) in
      let lengths = length-sub slug root in
      let e : string_length (String.◌++◌ slug (dotted root)) ≡ string_length root =
        ap string_length same in
      absurd (omega arith)
]

parse_under-sub :
    (slug root : String)
    → root ≢ ""
    → parse_under (String.◌++◌ slug (dotted root)) root ≡ parse_label slug
parse_under-sub slug root ne =
    let full : str_eq root "" ≡ false = ground (arith, eq_iff root "") in
    let size : string_length (String.◌++◌ slug (dotted root)) - (string_length root + 1)
        ≡ string_length slug =
      omega (arith, length-sub slug root) in
    rw
      (
        full,
        sub-ne-root slug root,
        ends_with-append slug (dotted root),
        size,
        take_chars-append slug (dotted root),
      )
      refl

-- The host name that is printed for a team with a host of its own, without a domain of its own and
-- with a valid slug that is not reserved, is read back as that slug, if the root domain is not empty
-- and has no white space.
pub parse_host-team_hostname :
    (parse_url : String → Option UrlParts) (cfg : HostConfig) (team : Team) (root host : String)
    → (team.id == root_team_id) ≡ false
    → verified_domain team ≡ none
    → slug_problem team.slug ≡ none
    → cfg.root_domain ≡ some root
    → root ≢ ""
    → NoSpace root
    → team_hostname parse_url cfg team ≡ some host
    → parse_host host cfg.root_domain ≡ team_host team.slug
unfolding parse_host team_hostname
parse_host-team_hostname parse_url cfg team root host other plain good configured ne ns printed =
    let full : str_eq root "" ≡ false = ground (arith, eq_iff root "") in
    let (valid, free) = slug_problem-none team.slug good in
    let p : some (sub_host team.slug root) ≡ some host =
      rw (other, configured, full, plain) at printed in
    let same : sub_host team.slug root ≡ host = cc in
    let under = parse_under-sub team.slug (to_lower root) (to_lower-ne root ne) in
    let named : parse_label team.slug ≡ team_host team.slug = rw (valid, free) refl in
    rw
      (
        configured,
        full,
        ← same,
        sub_host-plain team.slug root valid ns,
        trim_of_NoSpace root ns,
        under,
      )
      named
