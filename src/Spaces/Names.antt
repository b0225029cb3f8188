-- ===== src/Spaces/Names.antt =====
-- src/spaces/index.ts: the slug of a space, from its name, and one that no space has.
use Prim.Native.Char.{Char, code}
use Prim.Native.String
use stohr.Common.{
  ◌-◌, Bool, true, false, not, ◌&&◌, ◌||◌, Option, none, some, List, [], ◌∷◌, String, leb, ◌==◌,
  str_eq, if◌then◌else◌, any,
}
use stohr.Db.{SpaceRow}
use stohr.Oauth.State.{string_length}
use stohr.Teams.Slug.{to_lower, is_alnum, label_tail, take_chars}

-- `SLUG_RE.test(s)`: one character, or 3 to 40 of them
unfoldable pub is_valid_space_slug : String → Bool
is_valid_space_slug String.[] = false
is_valid_space_slug (String.◌∷◌ c s) =
    is_alnum c
    && (str_eq s "" || (leb 2 (string_length s) && leb (string_length s) 39 && label_tail s))

abbrev dash : Char
dash = "-"

-- `replace(/[^a-z0-9]+/g, "-")`; `joined` says that the last character was replaced too
abbrev hyphenate : Bool → String → String
hyphenate joined String.[] = String.[]
hyphenate joined (String.◌∷◌ c s) =
    let kept = String.◌∷◌ c (hyphenate false s) in
    let rest = hyphenate true s in
    if is_alnum c then kept else if joined then rest else String.◌∷◌ dash rest

abbrev strip_start : String → String
strip_start String.[] = String.[]
strip_start (String.◌∷◌ c s) =
    let rest = strip_start s in if code c == 45 then rest else String.◌∷◌ c s

abbrev strip_end : String → String
strip_end String.[] = String.[]
strip_end (String.◌∷◌ c s) =
    let rest = strip_end s in
    if code c == 45 && str_eq rest "" then String.[] else String.◌∷◌ c rest

abbrev or_space : String → String
or_space s = if str_eq s "" then "space" else s

unfoldable pub slug_from_name : String → String
unfolding to_lower
slug_from_name name =
    or_space (take_chars 40 (strip_end (strip_start (hyphenate false (to_lower name)))))

abbrev taken : List SpaceRow → String → Bool
taken spaces candidate = any (λ (s : SpaceRow). str_eq s.slug candidate) spaces

abbrev suffixed : String → String → String
suffixed base suffix =
    String.◌++◌ (take_chars (40 - string_length suffix - 1) base) (String.◌++◌ "-" suffix)

-- One drawn suffix for each round; none are left where the function throws.
unfoldable pub unique_slug_from : List SpaceRow → String → String → List String → Option String
unfolding string_length
unique_slug_from spaces base candidate [] = none
unique_slug_from spaces base candidate (suffix ∷ draws) =
    let rest = unique_slug_from spaces base (suffixed base suffix) draws in
    if not (taken spaces candidate) then some candidate else rest

unfoldable pub unique_slug : List SpaceRow → String → List String → Option String
unfolding unique_slug_from
unique_slug spaces base draws = unique_slug_from spaces base base draws
