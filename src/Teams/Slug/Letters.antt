-- ===== src/Teams/Slug/Letters.antt =====
-- src/teams/slug.ts: small letters, white space and the ends of a host name.
use Prim.Native.Char.{Char, code, IsScalar}
use Prim.Native.String
use text.Mathlib.TextLemmas.{nil-append, cons-append}
use text.Mathlib.TextPositions.{eq_refl}
use stohr.Common.{
  ◌+◌, ◌≡◌, ◌≢◌, refl, ap, inl, inr, none, Bool, true, false, String, arith, str_eq, eq_iff,
  Bool-cases,
}
use stohr.Auth.Credentials.{trim, trim_start, trim_end}
use stohr.Oauth.Scopes.{is_space, NoSpace}
use stohr.Oauth.State.{string_length}
use stohr.Teams.Slug.{
  is_upper, lower_if, lower_char, to_lower, label_tail, matches_slug_re, ends_with, take_chars,
  is_valid_slug, is_reserved_slug, slug_problem,
}

-- No capital letter: what `to_lower` leaves alone.
abbrev pub NoUpper : String → Type 0
NoUpper String.[] = Unit
NoUpper (String.◌∷◌ c s) = (is_upper c ≡ false) × NoUpper s

lower_if-NoUpper :
    (c : Char) (b : Bool) (h : b ≡ true → IsScalar (code c + 32))
    → is_upper c ≡ b
    → is_upper (lower_if c b h) ≡ false
unfolding lower_if
lower_if-NoUpper c true h e = ground arith
lower_if-NoUpper c false h e = e

lower_if-small :
    (c : Char) (b : Bool) (h : b ≡ true → IsScalar (code c + 32)) → b ≡ false → lower_if c b h ≡ c
unfolding lower_if
lower_if-small c true h e = absurd (ground arith)
lower_if-small c false h e = refl

lower_if-space :
    (c : Char) (b : Bool) (h : b ≡ true → IsScalar (code c + 32))
    → is_upper c ≡ b
    → is_space c ≡ false
    → is_space (lower_if c b h) ≡ false
unfolding lower_if
lower_if-space c true h e s = ground arith
lower_if-space c false h e s = s

pub to_lower-NoUpper : (s : String) → NoUpper (to_lower s)
unfolding to_lower lower_char
to_lower-NoUpper String.[] = tt
to_lower-NoUpper (String.◌∷◌ c s) = (lower_if-NoUpper c (is_upper c) _ refl, to_lower-NoUpper s)

pub to_lower-NoSpace : (s : String) → NoSpace s → NoSpace (to_lower s)
unfolding to_lower lower_char
to_lower-NoSpace String.[] h = tt
to_lower-NoSpace (String.◌∷◌ c s) (p, h) =
    (lower_if-space c (is_upper c) _ refl p, to_lower-NoSpace s h)

pub to_lower_of_small : (s : String) → NoUpper s → to_lower s ≡ s
unfolding to_lower lower_char
to_lower_of_small String.[] h = refl
to_lower_of_small (String.◌∷◌ c s) (p, h) =
    let head : lower_char c ≡ c = lower_if-small c (is_upper c) _ p in
    rw (head, to_lower_of_small s h) refl

pub NoUpper-append : (s t : String) → NoUpper s → NoUpper t → NoUpper (String.◌++◌ s t)
NoUpper-append String.[] t h k = rw nil-append k
NoUpper-append (String.◌∷◌ c s) t (p, h) k = rw cons-append (p, NoUpper-append s t h k)

pub NoSpace-append : (s t : String) → NoSpace s → NoSpace t → NoSpace (String.◌++◌ s t)
NoSpace-append String.[] t h k = rw nil-append k
NoSpace-append (String.◌∷◌ c s) t (p, h) k = rw cons-append (p, NoSpace-append s t h k)

trim_start_of_NoSpace : (s : String) → NoSpace s → trim_start s ≡ s
trim_start_of_NoSpace String.[] h = refl
trim_start_of_NoSpace (String.◌∷◌ c s) (p, h) = rw p refl

trim_end_of_NoSpace : (s : String) → NoSpace s → trim_end s ≡ s
trim_end_of_NoSpace String.[] h = refl
trim_end_of_NoSpace (String.◌∷◌ c s) (p, h) = rw (p, trim_end_of_NoSpace s h) refl

pub trim_of_NoSpace : (s : String) → NoSpace s → trim s ≡ s
trim_of_NoSpace s h = rw (trim_start_of_NoSpace s h) (trim_end_of_NoSpace s h)

pub string_length-append :
    (s t : String) → string_length (String.◌++◌ s t) ≡ string_length s + string_length t
unfolding string_length
string_length-append String.[] t = rw nil-append (omega arith)
string_length-append (String.◌∷◌ c s) t = rw cons-append (omega (arith, string_length-append s t))

pub ends_with-append : (s t : String) → ends_with (String.◌++◌ s t) t ≡ true
ends_with-append String.[] String.[] = refl
ends_with-append String.[] (String.◌∷◌ c t) = rw (nil-append, eq_refl) refl
ends_with-append (String.◌∷◌ c s) t = rw cons-append (ground (arith, ends_with-append s t))

pub take_chars-append : (s t : String) → take_chars (string_length s) (String.◌++◌ s t) ≡ s
unfolding string_length
take_chars-append String.[] t = refl
take_chars-append (String.◌∷◌ c s) t = rw cons-append (ap (String.◌∷◌ c) (take_chars-append s t))

-- The letters of a slug are small and are not white space.
label_tail-plain : (s : String) → label_tail s ≡ true → NoSpace s × NoUpper s
label_tail-plain String.[] h = (tt, tt)
label_tail-plain (String.◌∷◌ c s) h = elim (Bool-cases (str_eq s "")) [
  | inl t ↦
      let empty : s ≡ "" = ground (arith, eq_iff s "") in
      rw empty ((ground arith, tt), (ground arith, tt))
  | inr f ↦
      let rest : label_tail s ≡ true = ground arith in
      let (n, u) = label_tail-plain s rest in ((ground arith, n), (ground arith, u))
]

pub slug-plain : (s : String) → matches_slug_re s ≡ true → NoSpace s × NoUpper s
slug-plain String.[] h = (tt, tt)
slug-plain (String.◌∷◌ c s) h = elim (Bool-cases (str_eq s "")) [
  | inl t ↦
      let empty : s ≡ "" = ground (arith, eq_iff s "") in
      rw empty ((ground arith, tt), (ground arith, tt))
  | inr f ↦
      let rest : label_tail s ≡ true = ground arith in
      let (n, u) = label_tail-plain s rest in ((ground arith, n), (ground arith, u))
]

pub to_lower-ne : (s : String) → s ≢ "" → to_lower s ≢ ""
unfolding to_lower
to_lower-ne String.[] h = h
to_lower-ne (String.◌∷◌ c s) h = λ e. absurd cc

pub slug_problem-none :
    (slug : String)
    → slug_problem slug ≡ none
    → (is_valid_slug slug ≡ true) × (is_reserved_slug slug ≡ false)
unfolding slug_problem
slug_problem-none slug h = elim (Bool-cases (is_valid_slug slug)) [
  | inr v ↦ absurd (let bad = rw v at h in cc)
  | inl v ↦ elim (Bool-cases (is_reserved_slug slug)) [
    | inl r ↦ absurd (let bad = rw (v, r) at h in cc)
    | inr r ↦ (v, r)
  ]
]
