-- ===== src/Usage.antt =====
-- src/usage/index.ts, src/uploads/quota.ts and `computeTeamUsage` of src/teams/members.ts: what
-- is measured against the two storage caps, and the checks before and after a write.
pub mod Checks
pub mod Tests
use stohr.Common.{
  ℕ, ◌+◌, Bool, true, false, not, ◌&&◌, Option, none, some, List, [], ◌∷◌, ◌==◌, ltb, find, filter,
  any, sum_by, or_else, is_none, is_some, if◌then◌else◌,
}
use stohr.Db.{Db, UserRow, TeamRow, FileRow, FileVersionRow, user_by_id}

-- `UsageBreakdown` and `TeamUsage`
pub record Breakdown : Type 0 where
  pub active : ℕ
  pub trash : ℕ
  pub versions : ℕ
  pub total : ℕ

abbrev pub breakdown_of : ℕ → ℕ → ℕ → Breakdown
breakdown_of active trash versions = record {
  active = active;
  trash = trash;
  versions = versions;
  total = active + trash + versions;
}

abbrev pub active_file : (ℕ → Bool) → FileRow → Bool
active_file counts f = counts f.user_id && is_none f.deleted_at

abbrev pub trashed_file : (ℕ → Bool) → FileRow → Bool
trashed_file counts f = counts f.user_id && is_some f.deleted_at

-- A version joined with its file.
abbrev pub version_size : (ℕ → Bool) → List FileRow → FileVersionRow → ℕ
version_size counts files fv =
    sum_by (λ f. fv.size) (filter (λ f. f.id == fv.file_id && counts f.user_id) files)

-- The three sums, over the files whose `user_id` counts.
abbrev pub usage_where : Db → (ℕ → Bool) → Breakdown
usage_where db counts =
    breakdown_of (sum_by (λ f. f.size) (filter (active_file counts) db.files))
      (sum_by (λ f. f.size) (filter (trashed_file counts) db.files))
      (sum_by (version_size counts db.files) db.file_versions)

unfoldable pub compute_usage : Db → ℕ → Breakdown
compute_usage db user_id = usage_where db (λ owner. owner == user_id)

-- `user_id IN (SELECT id FROM users WHERE team_id = $1)`
abbrev pub in_team : List UserRow → ℕ → ℕ → Bool
in_team users team_id user_id = any (λ u. u.id == user_id && u.team_id == team_id) users

unfoldable pub compute_team_usage : Db → ℕ → Breakdown
compute_team_usage db team_id = usage_where db (in_team db.users team_id)

-- 0 means unlimited
unfoldable pub user_quota : Db → ℕ → ℕ
user_quota db user_id = elim (user_by_id db user_id) [ none ↦ 0 | some u ↦ u.storage_quota_bytes ]

unfoldable pub team_quota_of : Db → ℕ → ℕ × ℕ
team_quota_of db user_id = elim (user_by_id db user_id) [
  | none ↦ (1, 0)
  | some u ↦ elim (find (λ (t : TeamRow). t.id == u.team_id) db.teams) [
    | none ↦ (1, 0)
    | some t ↦ (t.id, or_else t.quota_bytes 0)
  ]
]

pub data Scope : Type 0 where
  user team : Scope

pub record QuotaDenied : Type 0 where
  pub scope : Scope
  pub quota_bytes : ℕ
  pub used_bytes : ℕ
  pub attempted_bytes : ℕ
  pub breakdown : Breakdown

abbrev pub denied : Scope → ℕ → ℕ → Breakdown → QuotaDenied
denied scope quota attempted breakdown = record {
  scope = scope;
  quota_bytes = quota;
  used_bytes = breakdown.total;
  attempted_bytes = attempted;
  breakdown = breakdown;
}

-- One cap: nothing is refused under a cap of 0.
abbrev pub over_cap : Scope → ℕ → ℕ → ℕ → Breakdown → Option QuotaDenied
over_cap scope quota incoming attempted breakdown =
    if ltb 0 quota && ltb quota (breakdown.total + incoming)
    then some (denied scope quota attempted breakdown)
    else none

abbrev pub first_denied : Option QuotaDenied → Option QuotaDenied → Option QuotaDenied
first_denied (some d) e = some d
first_denied none e = e

-- `none` is `{ ok: true }`
unfoldable pub check_quota : Db → ℕ → ℕ → ℕ → Option QuotaDenied
check_quota db user_id quota_bytes incoming =
    let (team_id, team_quota) = team_quota_of db user_id in
    first_denied (over_cap user quota_bytes incoming incoming (compute_usage db user_id))
      (over_cap team team_quota incoming incoming (compute_team_usage db team_id))

unfoldable pub team_over_quota : Db → ℕ → Option QuotaDenied
team_over_quota db user_id =
    let (team_id, team_quota) = team_quota_of db user_id in
    over_cap team team_quota 0 0 (compute_team_usage db team_id)

abbrev pub with_attempted : ℕ → Option QuotaDenied → Option QuotaDenied
with_attempted attempted none = none
with_attempted attempted (some d) = some (record d { attempted_bytes = attempted })

-- src/uploads/quota.ts
unfoldable pub quota_after_write : Db → ℕ → ℕ → ℕ → Option QuotaDenied
unfolding team_over_quota
quota_after_write db owner_id quota_bytes attempted =
    first_denied (over_cap user quota_bytes 0 attempted (compute_usage db owner_id))
      (with_attempted attempted (team_over_quota db owner_id))
