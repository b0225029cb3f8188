-- ===== src/Security/Rates/Windows.antt =====
-- src/security/ratelimit.ts: how many requests of a window pass.
use stohr.Common.{
  ℕ, ◌+◌, ◌-◌, ◌*◌, ◌≤◌, ◌≡◌, refl, inl, inr, ◌⊎◌, true, false, some, List, [], ◌∷◌, String, arith,
  ltb, leb, str_eq, if◌then◌else◌, delete_where, Bool-cases, All, leb→le, eq_iff,
}
use stohr.Security.Rates.{RateRow, RateLimitResult, find_bucket, counted, result_of, check_rate}

module _ (bucket : String) (max_count window_seconds : ℕ) where
  -- The replies to requests of one bucket at these times.
  abbrev pub replies : List RateRow → List ℕ → List RateLimitResult
  replies rows [] = []
  replies rows (t ∷ times) =
      let answer = check_rate rows t bucket max_count window_seconds in
      answer.0 ∷ replies answer.1 times

  abbrev pub passed : List RateLimitResult → ℕ
  passed [] = 0
  passed (r ∷ results) = (if r.ok then 1 else 0) + passed results

  found_again :
      (row : RateRow) (rows : List RateRow)
      → row.bucket ≡ bucket
      → find_bucket (row ∷ rows) bucket ≡ some row
  found_again row rows e = ground (arith, eq_iff row.bucket bucket)

  -- Within a window at most as many requests pass as are left of the limit.
  replies-bounded :
      (rows : List RateRow) (r : RateRow) (times : List ℕ)
      → find_bucket rows bucket ≡ some r
      → All (λ t. t ≤ r.window_started_at + window_seconds * 1000) times
      → passed (replies rows times) ≤ max_count - r.count
  unfolding check_rate
  replies-bounded rows r [] found h = omega arith
  replies-bounded rows r (t ∷ times) found (le, h) =
      let next : RateRow = record {
        bucket = bucket;
        count = r.count + 1;
        window_started_at = r.window_started_at;
      } in
      let open_window : ltb (r.window_started_at + window_seconds * 1000) t ≡ false =
        ground arith in
      let others = delete_where (λ (x : RateRow). str_eq x.bucket bucket) rows in
      let rest = replies-bounded (next ∷ others) next times (found_again next others refl) h in
      rw (found, open_window)
        (elim (Bool-cases (leb (r.count + 1) max_count)) [
          | inl t ↦ rw t (omega (arith, rest, leb→le _ _ t))
          | inr f ↦ rw f (omega (arith, rest))
        ])

  -- A refusal names a time to wait within the window.
  abbrev pub IsPolite : RateLimitResult → Type 0
  IsPolite r =
      (r.ok ≡ true) ⊎ ((1 ≤ r.retry_after_seconds) × (r.retry_after_seconds ≤ window_seconds))

  result_of-IsPolite :
      (now : ℕ) (r : RateRow)
      → 1 ≤ window_seconds
      → IsPolite (result_of now max_count window_seconds r)
  result_of-IsPolite now r h = elim (Bool-cases (leb r.count max_count)) [
    | inl t ↦ inl (rw t refl)
    | inr f ↦ inr (rw f (omega arith, omega arith))
  ]

  replies-IsPolite :
      (rows : List RateRow) (times : List ℕ)
      → 1 ≤ window_seconds
      → All IsPolite (replies rows times)
  unfolding check_rate
  replies-IsPolite rows [] h = tt
  replies-IsPolite rows (t ∷ times) h = (
    result_of-IsPolite t (counted t bucket window_seconds (find_bucket rows bucket)) h,
    replies-IsPolite (check_rate rows t bucket max_count window_seconds).1 times h,
  )

  -- Of the requests of one bucket until the end of its window no more pass than are left of the
  -- limit, and each request that does not pass is told to wait a second at least and the window's
  -- length at most, if that is not 0.
  pub check_rate-bounded :
      (rows : List RateRow) (r : RateRow) (times : List ℕ)
      → 1 ≤ window_seconds
      → find_bucket rows bucket ≡ some r
      → All (λ t. t ≤ r.window_started_at + window_seconds * 1000) times
      → (passed (replies rows times) ≤ max_count - r.count) × All IsPolite (replies rows times)
  check_rate-bounded rows r times positive found within =
      (replies-bounded rows r times found within, replies-IsPolite rows times positive)
