-- ===== src/Security/Tests.antt =====
-- Runs of the proxies', the limits' and the downloads' code at fixed inputs, and the theorems at
-- concrete ones.
use Prim.Native.Char.{code}
use stohr.Common.{
  ℕ, ◌+◌, ◌-◌, ◌*◌, ◌≤◌, ◌≡◌, refl, true, false, ◌&&◌, Option, none, some, List, [], ◌∷◌, String,
  arith, leb, if◌then◌else◌, All,
}
use stohr.Teams.Slug.{to_lower}
use stohr.Security.Proxies.{
  Cidr, split, hops_of, last_untrusted, parse_trusted_proxies, parse_cidr, is_trusted_proxy,
  ipv4_to_int, normalize_ip, forwarded_client_ip, client_ip,
}
use stohr.Security.Rates.{RateRow, check_rate, sweep_rate_limits}
use stohr.Security.Rates.Windows.{replies, passed, IsPolite, check_rate-bounded}
use stohr.Security.Inline.{decide_inline, is_safe_inline_mime}

abbrev value_from : ℕ → String → Option ℕ
value_from n String.[] = some n
value_from n (String.◌∷◌ c s) =
    let rest = value_from (n * 10 + (code c - 48)) s in
    if leb 48 (code c) && leb (code c) 57 then rest else none

-- Decimal numbers only.
abbrev decimal : String → Option ℕ
decimal s = value_from 0 s

abbrev trusted : List Cidr
trusted = record { addr = 167_772_160; mask = 4_278_190_080 } ∷ []

trusted_list : parse_trusted_proxies decimal (some "10.1.2.3/8, nonsense, 10.0.0.1/33") ≡ trusted
unfolding parse_trusted_proxies parse_cidr ipv4_to_int
trusted_list = refl

abbrev client_is_last :
    last_untrusted decimal trusted (hops_of decimal (split 44 "203.0.113.9, ::FFFF:10.0.0.2"))
    ≡ some "203.0.113.9"
unfolding is_trusted_proxy ipv4_to_int normalize_ip to_lower
client_is_last = refl

only_proxies : client_ip decimal trusted "10.0.0.1" (some "10.0.0.7,10.0.0.2") none ≡ "10.0.0.7"
unfolding client_ip forwarded_client_ip is_trusted_proxy ipv4_to_int normalize_ip to_lower
only_proxies = refl

untrusted_peer :
    client_ip decimal trusted "::ffff:8.8.8.8" (some "1.2.3.4") (some "5.6.7.8") ≡ "8.8.8.8"
unfolding client_ip forwarded_client_ip is_trusted_proxy ipv4_to_int normalize_ip to_lower
untrusted_peer = refl

abbrev login_row : RateRow
login_row = record { bucket = "login"; count = 1; window_started_at = 5_000 }

check_rate-bounded_example :
    (passed "login" 3 60 (replies "login" 3 60 (login_row ∷ []) (6_000 ∷ 7_000 ∷ 65_000 ∷ []))
      ≤ 3 - 1)
    × All
        (IsPolite "login" 3 60)
        (replies "login" 3 60 (login_row ∷ []) (6_000 ∷ 7_000 ∷ 65_000 ∷ []))
check_rate-bounded_example =
    check_rate-bounded "login" 3 60 (login_row ∷ []) login_row (6_000 ∷ 7_000 ∷ 65_000 ∷ [])
      (omega arith) refl (omega arith, (omega arith, (omega arith, tt)))

two_pass :
    passed "login" 3 60 (replies "login" 3 60 (login_row ∷ []) (6_000 ∷ 7_000 ∷ 65_000 ∷ [])) ≡ 2
unfolding check_rate
two_pass = refl

new_window :
    (check_rate (login_row ∷ []) 65_001 "login" 3 60).0
    ≡ record { ok = true; count = 1; retry_after_seconds = 0 }
unfolding check_rate
new_window = refl

old_rows_go : sweep_rate_limits 86_405_001 (login_row ∷ []) ≡ []
unfolding sweep_rate_limits
old_rows_go = refl

svg_is_attached : is_safe_inline_mime " Image/SVG+xml; charset=utf-8" ≡ false
unfolding is_safe_inline_mime to_lower
svg_is_attached = refl

png_is_shown :
    decide_inline (λ s. s) "image/png" "a" true
    ≡ record { content_type = "image/png"; disposition = "inline; filename=\"a\"" }
unfolding decide_inline is_safe_inline_mime to_lower
png_is_shown = refl
