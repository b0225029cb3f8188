-- ===== src/Security/Rates.antt =====
-- src/security/ratelimit.ts: counting requests in fixed windows. The upsert is one step; times are
-- milliseconds, and the epoch of a window is rounded to seconds, as the database does it.
pub mod Windows
use stohr.Common.{
  ℕ, zero, suc, ◌+◌, ◌-◌, ◌*◌, ◌/◌, ◌≤◌, ◌<◌, ◌≡◌, refl, min, max, inl, inr, Bool, true, false,
  Option, none, some, List, [], ◌∷◌, String, arith, ltb, leb, str_eq, if◌then◌else◌, find,
  delete_where, Bool-cases, Option-cases,
}

pub record RateRow : Type 0 where
  pub bucket : String
  pub count : ℕ
  pub window_started_at : ℕ

pub record RateLimitResult : Type 0 where
  pub ok : Bool
  pub count : ℕ
  pub retry_after_seconds : ℕ

abbrev pub find_bucket : List RateRow → String → Option RateRow
find_bucket rows bucket = find (λ (r : RateRow). str_eq r.bucket bucket) rows

-- The row that the upsert writes.
abbrev pub counted : ℕ → String → ℕ → Option RateRow → RateRow
counted now bucket window_seconds none = record {
  bucket = bucket;
  count = 1;
  window_started_at = now;
}
counted now bucket window_seconds (some r) =
    if ltb (r.window_started_at + window_seconds * 1000) now
    then record { bucket = bucket; count = 1; window_started_at = now }
    else record { bucket = bucket; count = r.count + 1; window_started_at = r.window_started_at }

-- What is left of the window, at least a second and at most all of it.
abbrev pub retry_after : ℕ → ℕ → RateRow → ℕ
retry_after now window_seconds r =
    let started = (r.window_started_at + 500) / 1000 in
    min window_seconds (max 1 (window_seconds - (now / 1000 - started)))

abbrev pub result_of : ℕ → ℕ → ℕ → RateRow → RateLimitResult
result_of now max_count window_seconds r =
    if leb r.count max_count
    then record { ok = true; count = r.count; retry_after_seconds = 0 }
    else record {
      ok = false;
      count = r.count;
      retry_after_seconds = retry_after now window_seconds r;
    }

unfoldable pub check_rate : List RateRow → ℕ → String → ℕ → ℕ → RateLimitResult × List RateRow
check_rate rows now bucket max_count window_seconds =
    let row = counted now bucket window_seconds (find_bucket rows bucket) in
    (
      result_of now max_count window_seconds row,
      row ∷ delete_where (λ (r : RateRow). str_eq r.bucket bucket) rows,
    )

abbrev retention_ms : ℕ
retention_ms = 24 * 60 * 60 * 1000

unfoldable pub sweep_rate_limits : ℕ → List RateRow → List RateRow
sweep_rate_limits now rows =
    delete_where (λ (r : RateRow). ltb (r.window_started_at + retention_ms) now) rows
