-- ===== src/Teams/Slug.antt =====
-- src/teams/slug.ts: slugs, and what a host name means under the root domain. A string is its code
-- points; white space and capital letters are the ASCII ones, as host names have no others.
pub mod Letters
use Prim.Native.Char.{Char, char, IsScalar, code}
use Prim.Native.Nat.{Ordering, compare}
use Prim.Native.String
use stohr.Common.{
  ℕ, zero, suc, ◌+◌, ◌-◌, ◌≡◌, refl, Bool, true, false, not, ◌&&◌, ◌||◌, Option, none, some, List,
  [], ◌∷◌, String, arith, ltb, leb, ◌==◌, str_eq, if◌then◌else◌, any,
}
use stohr.Auth.Credentials.{trim}
use stohr.Oauth.State.{string_length}

abbrev pub is_upper : Char → Bool
is_upper c = leb 65 (code c) && leb (code c) 90

pub upper-IsScalar : (c : Char) → is_upper c ≡ true → IsScalar (code c + 32)
upper-IsScalar c h =
    let below : ltb (code c + 32) 55296 ≡ true = ground arith in
    let e : compare (code c + 32) 55296 ≡ Ordering.lt = ground arith in rw e tt

pub lower_if : (c : Char) (b : Bool) → (b ≡ true → IsScalar (code c + 32)) → Char
lower_if c true h = char (code c + 32) (h refl)
lower_if c false h = c

pub lower_char : Char → Char
unfolding lower_if
lower_char c = lower_if c (is_upper c) (upper-IsScalar c)

-- `toLowerCase()`
unfoldable pub to_lower : String → String
unfolding lower_char
to_lower String.[] = String.[]
to_lower (String.◌∷◌ c s) = String.◌∷◌ (lower_char c) (to_lower s)

abbrev pub is_alnum : Char → Bool
is_alnum c = (leb 97 (code c) && leb (code c) 122) || (leb 48 (code c) && leb (code c) 57)

abbrev pub is_label_char : Char → Bool
is_label_char c = is_alnum c || code c == 45

-- `[a-z0-9-]*[a-z0-9]`
abbrev pub label_tail : String → Bool
label_tail String.[] = false
label_tail (String.◌∷◌ c s) = is_label_char c && (if str_eq s "" then is_alnum c else label_tail s)

-- `SLUG_RE.test(slug)`: at most 61 characters stand between the first and the last.
abbrev pub matches_slug_re : String → Bool
matches_slug_re String.[] = false
matches_slug_re (String.◌∷◌ c s) =
    is_alnum c && (str_eq s "" || (leb (string_length s) 62 && label_tail s))

unfoldable pub normalize_slug : String → String
unfolding to_lower
normalize_slug raw = to_lower (trim raw)

unfoldable pub is_valid_slug : String → Bool
unfolding string_length
is_valid_slug slug =
    leb 2 (string_length slug) && leb (string_length slug) 63 && matches_slug_re slug

abbrev reserved_slugs : List String
reserved_slugs =
    "root" ∷ "www" ∷ "api" ∷ "admin" ∷ "app" ∷ "mail" ∷ "static" ∷ "s3" ∷ "webdav" ∷ "mcp" ∷ "cdn"
    ∷ "assets" ∷ "docs" ∷ "status" ∷ "ftp" ∷ "smtp" ∷ "imap" ∷ "pop" ∷ "mx" ∷ "ns" ∷ "ns1" ∷ "ns2"
    ∷ "autoconfig" ∷ "autodiscover" ∷ "localhost" ∷ "internal" ∷ "dev" ∷ "staging" ∷ "test"
    ∷ "login" ∷ "auth" ∷ "oauth" ∷ "sso" ∷ "support" ∷ "help" ∷ "blog" ∷ "team" ∷ "teams" ∷ "owner"
    ∷ "system" ∷ "stohr" ∷ []

unfoldable pub is_reserved_slug : String → Bool
is_reserved_slug slug = any (str_eq slug) reserved_slugs

pub data SlugProblem : Type 0 where
  malformed reserved : SlugProblem

unfoldable pub slug_problem : String → Option SlugProblem
unfolding is_valid_slug is_reserved_slug
slug_problem slug =
    if not (is_valid_slug slug)
    then some malformed
    else if is_reserved_slug slug
    then some reserved
    else none

pub data ParsedHost : Type 0 where
  root_host : ParsedHost
  team_host : String → ParsedHost
  invalid_host : ParsedHost

abbrev pub ends_with : String → String → Bool
ends_with String.[] suffix = str_eq String.[] suffix
ends_with (String.◌∷◌ c s) suffix = str_eq (String.◌∷◌ c s) suffix || ends_with s suffix

abbrev pub take_chars : ℕ → String → String
take_chars zero s = String.[]
take_chars (suc n) String.[] = String.[]
take_chars (suc n) (String.◌∷◌ c s) = String.◌∷◌ c (take_chars n s)

-- The label left of `.root`; `slice(0, -(root.length + 1))` takes all but so many characters.
abbrev pub parse_label : String → ParsedHost
parse_label label =
    if not (is_valid_slug label) || is_reserved_slug label then invalid_host else team_host label

abbrev pub parse_under : String → String → ParsedHost
parse_under host root =
    if str_eq root "" || str_eq host root
    then root_host
    else if not (ends_with host (String.◌++◌ "." root))
    then root_host
    else parse_label (take_chars (string_length host - (string_length root + 1)) host)

unfoldable pub parse_host : String → Option String → ParsedHost
unfolding is_valid_slug is_reserved_slug to_lower string_length
parse_host hostname none = root_host
parse_host hostname (some root_domain) =
    if str_eq root_domain ""
    then root_host
    else parse_under (to_lower (trim hostname)) (to_lower (trim root_domain))
