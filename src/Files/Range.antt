-- ===== src/Files/Range.antt =====
-- src/files/range.ts: the `Range` header of a download.
use Prim.Native.Char.{code}
use text.Mathlib.Text.{starts_with}
use stohr.Common.{
  ℕ, ◌+◌, ◌-◌, ◌*◌, ◌^◌, ◌≤◌, ◌<◌, ◌≡◌, min, Bool, not, ◌&&◌, ◌||◌, Option, none, some, List, [],
  ◌∷◌, String, arith, ltb, leb, ◌==◌, str_eq, if◌then◌else◌, Bool-cases, inl, inr,
}
use stohr.Auth.Credentials.{trim, skip}
use stohr.Security.Proxies.{split, all_digits}

pub data RangeResult : Type 0 where
  no_range : RangeResult
  satisfiable : ℕ → ℕ → RangeResult
  unsatisfiable : RangeResult

abbrev number_from : ℕ → String → ℕ
number_from n String.[] = n
number_from n (String.◌∷◌ c s) = number_from (n * 10 + (code c - 48)) s

abbrev pub number_of : String → ℕ
number_of s = number_from 0 s

-- `Number.isFinite` of a number that was read: from here on it rounds to Infinity.
unfoldable pub is_finite : ℕ → Bool
is_finite n = ltb n (2 ^ 1024 - 2 ^ 970)

abbrev pub range_between : ℕ → ℕ → RangeResult
range_between start last = if ltb last start then unsatisfiable else satisfiable start last

-- `bytes=-500`: the last 500 bytes.
abbrev pub suffix_range : ℕ → ℕ → RangeResult
suffix_range size suffix =
    if not (is_finite suffix) || suffix == 0
    then unsatisfiable
    else range_between (size - suffix) (size - 1)

abbrev pub range_end : ℕ → String → ℕ
range_end size raw_end = if str_eq raw_end "" then size - 1 else min (number_of raw_end) (size - 1)

abbrev pub range_of : ℕ → String → String → RangeResult
range_of size raw_start raw_end =
    if size == 0
    then unsatisfiable
    else if str_eq raw_start ""
    then suffix_range size (number_of raw_end)
    else if not (is_finite (number_of raw_start))
    then no_range
    else if leb size (number_of raw_start)
    then unsatisfiable
    else if not (is_finite (number_of raw_end))
    then no_range
    else range_between (number_of raw_start) (range_end size raw_end)

-- `/^bytes=(\d*)-(\d*)$/`
abbrev pub parse_bytes : ℕ → List String → RangeResult
parse_bytes size (raw_start ∷ raw_end ∷ []) =
    if all_digits raw_start && all_digits raw_end then range_of size raw_start raw_end else no_range
parse_bytes size _ = no_range

unfoldable pub parse_range : Option String → ℕ → RangeResult
parse_range none size = no_range
parse_range (some header) size =
    if starts_with (trim header) "bytes="
    then parse_bytes size (split 45 (skip 6 (trim header)))
    else no_range

range_of-bounds :
    (size start last : ℕ) (raw_start raw_end : String)
    → range_of size raw_start raw_end ≡ satisfiable start last
    → (start ≤ last) × (last < size)
range_of-bounds size start last raw_start raw_end h = ground arith

parse_bytes-bounds :
    (size start last : ℕ) (pieces : List String)
    → parse_bytes size pieces ≡ satisfiable start last
    → (start ≤ last) × (last < size)
parse_bytes-bounds size start last [] h = absurd cc
parse_bytes-bounds size start last (a ∷ []) h = absurd cc
parse_bytes-bounds size start last (a ∷ b ∷ c ∷ rest) h = absurd cc
parse_bytes-bounds size start last (a ∷ b ∷ []) h =
    elim (Bool-cases (all_digits a && all_digits b)) [
      | inr f ↦ absurd (let bad = rw f at h in cc)
      | inl t ↦ range_of-bounds size start last a b (rw t at h)
    ]

-- A range that is found satisfiable starts no later than it ends, and it ends within the object.
pub parse_range-bounds :
    (header : Option String) (size start last : ℕ)
    → parse_range header size ≡ satisfiable start last
    → (start ≤ last) × (last < size)
unfolding parse_range
parse_range-bounds none size start last h = absurd cc
parse_range-bounds (some header) size start last h =
    elim (Bool-cases (starts_with (trim header) "bytes=")) [
      | inr f ↦ absurd (let bad = rw f at h in cc)
      | inl t ↦ parse_bytes-bounds size start last (split 45 (skip 6 (trim header))) (rw t at h)
    ]
