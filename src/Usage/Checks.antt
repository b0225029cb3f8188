-- ===== src/Usage/Checks.antt =====
-- src/usage/index.ts and src/uploads/quota.ts: the checks decide exactly whether both caps hold.
use stohr.Common.{ℕ, ◌+◌, ◌≤◌, ◌<◌, ◌≡◌, refl, ap, ◌↔◌, Option, none, some, arith}
use stohr.Db.{Db}
use stohr.Usage.{
  Breakdown, Scope, user, team, QuotaDenied, compute_usage, compute_team_usage, team_quota_of,
  check_quota, quota_after_write, over_cap, first_denied, with_attempted,
}

-- A use is within a cap; 0 is no cap.
abbrev pub Within : ℕ → ℕ → Type 0
Within quota used = 0 < quota → used ≤ quota

-- Both caps of an account hold with `incoming` more bytes.
pub record WithinCaps (db : Db) (user_id quota incoming : ℕ) : Type 0 where
  pub own : Within quota ((compute_usage db user_id).total + incoming)
  pub shared :
      Within
        (team_quota_of db user_id).1
        ((compute_team_usage db (team_quota_of db user_id).0).total + incoming)

over_cap-none :
    (scope : Scope) (quota incoming attempted : ℕ) (b : Breakdown)
    → (over_cap scope quota incoming attempted b ≡ none) ↔ Within quota (b.total + incoming)
over_cap-none scope quota incoming attempted b = (λ h p. ground arith, λ h. ground arith)

first_denied-none :
    (a b : Option QuotaDenied) → (first_denied a b ≡ none) ↔ ((a ≡ none) × (b ≡ none))
first_denied-none none b = (λ h. (refl, h), λ h. h.1)
first_denied-none (some d) b = (λ h. absurd (ground arith), λ h. absurd (ground arith))

with_attempted-none : (n : ℕ) (a : Option QuotaDenied) → with_attempted n a ≡ none → a ≡ none
with_attempted-none n none h = refl
with_attempted-none n (some d) h = absurd (ground arith)

-- The check before a write passes exactly if the user's cap and the team's cap both hold with the
-- incoming bytes added, where a cap of 0 always holds.
pub check_quota-none_iff :
    (db : Db) (user_id quota incoming : ℕ)
    → (check_quota db user_id quota incoming ≡ none) ↔ WithinCaps db user_id quota incoming
unfolding check_quota
check_quota-none_iff db user_id quota incoming =
    let own = over_cap-none user quota incoming incoming (compute_usage db user_id) in
    let (team_id, cap) = team_quota_of db user_id in
    let shared = over_cap-none team cap incoming incoming (compute_team_usage db team_id) in
    (
      λ h.
          let (a, b) = (first_denied-none _ _).0 h in record { own = own.0 a; shared = shared.0 b },
      λ w. (first_denied-none _ _).1 (own.1 w.own, shared.1 w.shared),
    )

-- The check after a write passes exactly if both caps hold for what is stored.
pub quota_after_write-none_iff :
    (db : Db) (user_id quota attempted : ℕ)
    → (quota_after_write db user_id quota attempted ≡ none) ↔ WithinCaps db user_id quota 0
unfolding quota_after_write
quota_after_write-none_iff db user_id quota attempted =
    let own = over_cap-none user quota 0 attempted (compute_usage db user_id) in
    let (team_id, cap) = team_quota_of db user_id in
    let shared = over_cap-none team cap 0 0 (compute_team_usage db team_id) in
    (
      λ h.
          let (a, b) = (first_denied-none _ _).0 h in
          record { own = own.0 a; shared = shared.0 (with_attempted-none attempted _ b) },
      λ w.
          (first_denied-none _ _).1
            (own.1 w.own, ap (with_attempted attempted) (shared.1 w.shared)),
    )
