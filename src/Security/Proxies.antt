-- ===== src/Security/Proxies.antt =====
-- src/security/proxies.ts and `clientIp` of src/security/ratelimit.ts: the address of the client behind
-- trusted proxies. `Number` of the runtime is the argument `to_number`: none for what is no integer
-- from 0 up.
pub mod Spoofing
use Prim.Native.Char.{Char, code}
use Prim.Native.Nat.{bit_and}
use Prim.Native.String
use stohr.Common.{
  ℕ, zero, suc, ◌+◌, ◌-◌, ◌*◌, ◌^◌, ◌%◌, Bool, true, false, not, ◌&&◌, ◌||◌, Option, none, some,
  List, [], ◌∷◌, String, ltb, leb, ◌==◌, str_eq, if◌then◌else◌, any, filter, map, or_else, is_none,
}
use stohr.Auth.Credentials.{trim, skip}
use stohr.Teams.Slug.{to_lower, take_chars}

pub record Cidr : Type 0 where
  pub addr : ℕ
  pub mask : ℕ

-- `s.split(c)`: `cur` is the piece that is being read.
abbrev cons_char : Char → List String → List String
cons_char c [] = []
cons_char c (piece ∷ pieces) = String.◌∷◌ c piece ∷ pieces

abbrev pub split : ℕ → String → List String
split sep String.[] = String.[] ∷ []
split sep (String.◌∷◌ c s) =
    let pieces = split sep s in if code c == sep then String.[] ∷ pieces else cons_char c pieces

abbrev is_digit : Char → Bool
is_digit c = leb 48 (code c) && leb (code c) 57

abbrev pub all_digits : String → Bool
all_digits String.[] = true
all_digits (String.◌∷◌ c s) = is_digit c && all_digits s

abbrev digits : String → Bool
digits s = not (str_eq s "") && all_digits s

-- `\d+\.\d+\.\d+\.\d+`
abbrev is_quad : List String → Bool
is_quad (a ∷ b ∷ c ∷ d ∷ []) = digits a && digits b && digits c && digits d
is_quad _ = false

abbrev unmapped : String → String
unmapped ip =
    if str_eq (to_lower (take_chars 7 ip)) "::ffff:" && is_quad (split 46 (skip 7 ip))
    then skip 7 ip
    else ip

unfoldable pub normalize_ip : String → String
unfolding to_lower
normalize_ip ip = unmapped (trim ip)

-- `bits === 0 ? 0 : ~((1 << (32 - bits)) - 1) >>> 0`
abbrev pub mask_of : ℕ → ℕ
mask_of bits = if bits == 0 then 0 else 2 ^ 32 - 2 ^ (32 - bits)

module _ (to_number : String → Option ℕ) where
  abbrev octet : String → Option ℕ
  octet p = elim (to_number p) [ none ↦ none | some v ↦ if ltb 255 v then none else some v ]

  abbrev push_octet : Option ℕ → Option ℕ → Option ℕ
  push_octet none v = none
  push_octet (some n) none = none
  push_octet (some n) (some v) = some (n * 256 + v)

  abbrev quad_to_int : List String → Option ℕ
  quad_to_int (a ∷ b ∷ c ∷ d ∷ []) =
      push_octet (push_octet (push_octet (push_octet (some 0) (octet a)) (octet b)) (octet c))
        (octet d)
  quad_to_int _ = none

  unfoldable pub ipv4_to_int : String → Option ℕ
  ipv4_to_int ip = quad_to_int (split 46 ip)

  abbrev cidr_of : Option ℕ → ℕ → Option Cidr
  cidr_of none bits = none
  cidr_of (some addr) bits =
      some (record { addr = bit_and addr (mask_of bits); mask = mask_of bits })

  abbrev parse_parts : List String → Option Cidr
  parse_parts [] = none
  parse_parts (ip ∷ []) = if str_eq ip "" then none else cidr_of (ipv4_to_int ip) 32
  parse_parts (ip ∷ prefix ∷ rest) = if str_eq ip "" then none else elim (to_number prefix) [
    | none ↦ none
    | some bits ↦ if ltb 32 bits then none else cidr_of (ipv4_to_int ip) bits
  ]

  unfoldable pub parse_cidr : String → Option Cidr
  unfolding ipv4_to_int
  parse_cidr raw = parse_parts (split 47 raw)

  abbrev cons_cidr : Option Cidr → List Cidr → List Cidr
  cons_cidr none cidrs = cidrs
  cons_cidr (some c) cidrs = c ∷ cidrs

  abbrev parse_all : List String → List Cidr
  parse_all [] = []
  parse_all (s ∷ rest) =
      let cidrs = parse_all rest in
      if str_eq (trim s) "" then cidrs else cons_cidr (parse_cidr (trim s)) cidrs

  unfoldable pub parse_trusted_proxies : Option String → List Cidr
  unfolding parse_cidr
  parse_trusted_proxies raw = parse_all (split 44 (or_else raw ""))

  unfoldable pub is_trusted_proxy : List Cidr → String → Bool
  unfolding ipv4_to_int normalize_ip
  is_trusted_proxy trusted ip = elim (ipv4_to_int (normalize_ip ip)) [
    | none ↦ false
    | some n ↦ any (λ (c : Cidr). bit_and n c.mask == c.addr) trusted
  ]

  abbrev pub hops_of : List String → List String
  hops_of [] = []
  hops_of (s ∷ pieces) =
      let hops = hops_of pieces in
      if str_eq (normalize_ip s) "" then hops else normalize_ip s ∷ hops

  -- The loop from the right: the last hop that is not trusted.
  abbrev pub last_untrusted : List Cidr → List String → Option String
  last_untrusted trusted [] = none
  last_untrusted trusted (hop ∷ hops) = elim (last_untrusted trusted hops) [
    | some ip ↦ some ip
    | none ↦ if is_trusted_proxy trusted hop then none else some hop
  ]

  abbrev first_of : List String → Option String
  first_of [] = none
  first_of (hop ∷ hops) = some hop

  abbrev pub pick_hop : List Cidr → List String → Option String
  pick_hop trusted hops = elim (last_untrusted trusted hops) [
    | some ip ↦ some ip
    | none ↦ first_of hops
  ]

  unfoldable pub forwarded_client_ip : List Cidr → Option String → Option String
  unfolding is_trusted_proxy normalize_ip
  forwarded_client_ip trusted none = none
  forwarded_client_ip trusted (some header) =
      if str_eq header "" then none else pick_hop trusted (hops_of (split 44 header))

  abbrev real_or : Option String → String → String
  real_or none peer = peer
  real_or (some real) peer = if str_eq (trim real) "" then peer else normalize_ip (trim real)

  -- `peer` is the socket's address, or "unknown".
  unfoldable pub client_ip : List Cidr → String → Option String → Option String → String
  unfolding is_trusted_proxy normalize_ip forwarded_client_ip
  client_ip trusted peer forwarded real =
      if not (is_trusted_proxy trusted (normalize_ip peer))
      then normalize_ip peer
      else or_else (forwarded_client_ip trusted forwarded) (real_or real (normalize_ip peer))
