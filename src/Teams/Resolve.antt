-- ===== src/Teams/Resolve.antt =====
-- src/teams/resolve.ts: teams by slug and by id, through two maps with a time to live. A query and
-- the writes to the maps behind it are one step, at one time in milliseconds; `teamFromRow` copies
-- the columns, so a row is a `Team`.
pub mod Maps
pub mod Staleness
use stohr.Common.{
  ℕ, ◌+◌, Bool, false, ◌&&◌, Option, none, some, List, [], ◌∷◌, String, ltb, ◌==◌, str_eq,
  if◌then◌else◌, is_none, is_some, or_else, find, length,
}
use stohr.Teams.Slug.{is_reserved_slug}

abbrev pub root_team_id : ℕ
root_team_id = 1

pub record Team : Type 0 where
  pub id : ℕ
  pub slug : String
  pub name : String
  pub custom_domain : Option String
  pub domain_verified_at : Option ℕ
  pub quota_bytes : Option ℕ
  pub suspended_at : Option ℕ
  pub deleted_at : Option ℕ
  pub created_at : ℕ

abbrev pub ttl_ms : ℕ
ttl_ms = 30_000

abbrev pub max_entries : ℕ
max_entries = 10_000

-- A cached answer, which may be that there is no such team.
pub record Entry : Type 0 where
  pub team : Option Team
  pub expires : ℕ

module _ {K : Type 0} (eq : K → K → Bool) where
  abbrev pub map_get : K → List (K × Entry) → Option Entry
  map_get k [] = none
  map_get k (e ∷ m) = if eq e.0 k then some e.1 else map_get k m

  abbrev pub map_set : K → Entry → List (K × Entry) → List (K × Entry)
  map_set k v [] = (k, v) ∷ []
  map_set k v (e ∷ m) = if eq e.0 k then (k, v) ∷ m else e ∷ map_set k v m

  abbrev pub map_delete : K → List (K × Entry) → List (K × Entry)
  map_delete k [] = []
  map_delete k (e ∷ m) = if eq e.0 k then m else e ∷ map_delete k m

abbrev pub num_eq : ℕ → ℕ → Bool
num_eq a b = a == b

pub record Cache : Type 0 where
  pub by_slug : List (String × Entry)
  pub by_id : List (ℕ × Entry)

abbrev pub empty_cache : Cache
empty_cache = record { by_slug = []; by_id = [] }

-- `if (m.size > MAX_ENTRIES) m.clear()`
abbrev pub make_room : {A : Type 0} → List A → List A
make_room m = if ltb max_entries (length m) then [] else m

abbrev pub set_slug : Option String → Entry → List (String × Entry) → List (String × Entry)
set_slug none entry m = m
set_slug (some slug) entry m = map_set str_eq slug entry m

abbrev pub set_id : Option ℕ → Entry → List (ℕ × Entry) → List (ℕ × Entry)
set_id none entry m = m
set_id (some id) entry m = map_set num_eq id entry m

abbrev pub slug_of : Option Team → Option String
slug_of none = none
slug_of (some team) = some team.slug

abbrev pub id_of : Option Team → Option ℕ
id_of none = none
id_of (some team) = some team.id

unfoldable pub remember : ℕ → Option Team → Option String → Option ℕ → Cache → Cache
remember now team slug id c =
    let entry : Entry = record { team = team; expires = now + ttl_ms } in
    record {
      by_slug = set_slug (slug_of team) entry (set_slug slug entry (make_room c.by_slug));
      by_id = set_id (id_of team) entry (set_id id entry (make_room c.by_id));
    }

abbrev pub live : ℕ → Option Entry → Option Entry
live now none = none
live now (some entry) = if ltb now entry.expires then some entry else none

abbrev pub delete_team : Option Entry → List (ℕ × Entry) → List (ℕ × Entry)
delete_team none m = m
delete_team (some entry) m = elim entry.team [ none ↦ m | some team ↦ map_delete num_eq team.id m ]

unfoldable pub clear_team_cache : Option String → Cache → Cache
clear_team_cache none c = empty_cache
clear_team_cache (some slug) c = record {
  by_slug = map_delete str_eq slug c.by_slug;
  by_id = delete_team (map_get str_eq slug c.by_slug) c.by_id;
}

-- The two queries on the table of teams.
abbrev pub select_by_slug : List Team → String → Option Team
select_by_slug teams slug = find (λ t. str_eq t.slug slug && is_none t.deleted_at) teams

abbrev pub select_by_id : List Team → ℕ → Option Team
select_by_id teams id = find (λ t. t.id == id) teams

abbrev pub hit_or : Option Entry → Option Team × Cache → Cache → Option Team × Cache
hit_or none queried c = queried
hit_or (some entry) queried c = (entry.team, c)

unfoldable pub team_by_slug : ℕ → List Team → String → Cache → Option Team × Cache
unfolding remember
team_by_slug now teams slug c =
    let row = select_by_slug teams slug in
    if is_reserved_slug slug
    then (none, c)
    else hit_or (live now (map_get str_eq slug c.by_slug))
        (row, remember now row (some slug) none c) c

-- Deleted teams are returned too.
unfoldable pub team_by_id : ℕ → List Team → ℕ → Cache → Option Team × Cache
unfolding remember
team_by_id now teams id c =
    let row = select_by_id teams id in
    hit_or (live now (map_get num_eq id c.by_id)) (row, remember now row none (some id) c) c

abbrev pub root_sentinel : Team
root_sentinel = record {
  id = root_team_id;
  slug = "root";
  name = "Stohr";
  custom_domain = none;
  domain_verified_at = none;
  quota_bytes = none;
  suspended_at = none;
  deleted_at = none;
  created_at = 0;
}

unfoldable pub root_team : ℕ → List Team → Cache → Team × Cache
unfolding team_by_id
root_team now teams c =
    let answer = team_by_id now teams root_team_id c in (or_else answer.0 root_sentinel, answer.1)

abbrev has_domain : String → Option String → Bool
has_domain domain none = false
has_domain domain (some d) = str_eq d domain

unfoldable pub team_by_domain : List Team → String → Option Team
team_by_domain teams domain =
    find
      (λ t.
        has_domain domain t.custom_domain && is_some t.domain_verified_at && is_none t.deleted_at)
      teams
