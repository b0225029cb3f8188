-- ===== src/Oauth/Scopes.antt =====
-- src/oauth/helpers.ts: scope strings. A scope string is its code points, as the native string is;
-- white space is the ASCII part of the regular expression's class.
use Prim.Native.Char.{Char, code}
use Prim.Native.String
use text.Mathlib.TextLemmas.{nil-append, cons-append, append_assoc, append-nil}
use stohr.Common.{
  ◌≡◌, ◌≢◌, refl, ◌∙◌, ap, inl, inr, Bool, true, false, ◌&&◌, ◌||◌, List, [], ◌∷◌, String, arith,
  ◌==◌, leb, str_eq, eq_iff, if◌then◌else◌, any, all, filter, All, Bool-cases,
}

abbrev pub is_space : Char → Bool
is_space c = code c == 32 || (leb 9 (code c) && leb (code c) 13)

abbrev one : Char → String
one c = String.◌∷◌ c String.[]

abbrev push : String → Char → String
push s c = String.◌++◌ s (one c)

-- `filter(s => s.length > 0)`: an empty piece is passed over.
abbrev cons_word : String → List String → List String
cons_word w words = if str_eq w "" then words else w ∷ words

-- The pieces between white space; `cur` is the piece that is being read.
unfoldable pub words_from : String → String → List String
words_from cur String.[] = cons_word cur []
words_from cur (String.◌∷◌ c s) =
    let closed = cons_word cur (words_from "" s) in
    let longer = words_from (push cur c) s in if is_space c then closed else longer

unfoldable pub parse_scope : String → List String
unfolding words_from
parse_scope raw = words_from "" raw

-- `scopes.join(" ")`
unfoldable pub format_scope : List String → String
format_scope [] = ""
format_scope (s ∷ []) = s
format_scope (s ∷ t ∷ scopes) = String.◌++◌ s (String.◌++◌ " " (format_scope (t ∷ scopes)))

abbrev pub includes : List String → String → Bool
includes scopes s = any (λ t. str_eq t s) scopes

unfoldable pub includes_scopes : List String → List String → Bool
includes_scopes allowed requested = all (includes allowed) requested

-- A scope token: not empty, and without white space.
abbrev pub NoSpace : String → Type 0
NoSpace String.[] = Unit
NoSpace (String.◌∷◌ c s) = (is_space c ≡ false) × NoSpace s

abbrev pub IsScope : String → Type 0
IsScope s = (s ≢ "") × NoSpace s

NoSpace-push : (s : String) (c : Char) → NoSpace s → is_space c ≡ false → NoSpace (push s c)
NoSpace-push String.[] c h p = rw nil-append (p, tt)
NoSpace-push (String.◌∷◌ d s) c (q, h) p = rw cons-append (q, NoSpace-push s c h p)

All-cons_word :
    (w : String) (words : List String)
    → NoSpace w
    → All IsScope words
    → All IsScope (cons_word w words)
All-cons_word w words h k = elim (Bool-cases (str_eq w "")) [
  | inl t ↦ rw t k
  | inr f ↦ let ne : w ≢ "" = ground (arith, eq_iff w "") in rw f ((ne, h), k)
]

words_from-IsScope : (cur s : String) → NoSpace cur → All IsScope (words_from cur s)
unfolding words_from
words_from-IsScope cur String.[] h = All-cons_word cur [] h tt
words_from-IsScope cur (String.◌∷◌ c s) h = elim (Bool-cases (is_space c)) [
  | inl t ↦ rw t (All-cons_word cur (words_from "" s) h (words_from-IsScope "" s tt))
  | inr f ↦ rw f (words_from-IsScope (push cur c) s (NoSpace-push cur c h f))
]

-- What `parseScope` returns are scope tokens.
pub parse_scope-IsScope : (raw : String) → All IsScope (parse_scope raw)
unfolding parse_scope
parse_scope-IsScope raw = words_from-IsScope "" raw tt

-- Reading a token goes on behind it.
words_from-token :
    (cur w rest : String)
    → NoSpace w
    → words_from cur (String.◌++◌ w rest) ≡ words_from (String.◌++◌ cur w) rest
unfolding words_from
words_from-token cur String.[] rest h = rw (nil-append, append-nil)
words_from-token cur (String.◌∷◌ c w) rest (p, h) =
    rw (cons-append, p)
      (words_from-token (push cur c) w rest h ∙ rw (append_assoc, cons-append, nil-append))

words_from-space :
    (w rest : String) → IsScope w → words_from w (String.◌++◌ " " rest) ≡ w ∷ words_from "" rest
unfolding words_from
words_from-space w rest (ne, h) =
    let full : str_eq w "" ≡ false = ground (arith, eq_iff w "") in
    let spaced : String.◌++◌ " " rest ≡ String.◌∷◌ " " rest = rw (cons-append, nil-append) in
    rw (spaced, full)

words_from-end : (w : String) → IsScope w → words_from w "" ≡ w ∷ []
unfolding words_from
words_from-end w (ne, h) = let full : str_eq w "" ≡ false = ground (arith, eq_iff w "") in rw full

-- Scope tokens survive being joined and parsed again.
pub parse-format_scope :
    (scopes : List String) → All IsScope scopes → parse_scope (format_scope scopes) ≡ scopes
unfolding parse_scope format_scope
parse-format_scope [] h = refl
parse-format_scope (s ∷ []) (h, hs) =
    let token = words_from-token "" s "" h.1 in
    let alone : words_from "" s ≡ words_from s "" = rw (append-nil, nil-append) at token in
    alone ∙ words_from-end s h
parse-format_scope (s ∷ t ∷ scopes) (h, hs) =
    let rest : String = format_scope (t ∷ scopes) in
    words_from-token "" s (String.◌++◌ " " rest) h.1
    ∙ rw nil-append (words_from-space s rest h ∙ ap (◌∷◌ s) (parse-format_scope (t ∷ scopes) hs))

All-filter :
    (p : String → Bool) (scopes : List String) → All IsScope scopes → All IsScope (filter p scopes)
All-filter p [] h = tt
All-filter p (s ∷ scopes) (h, hs) = ground (arith, All-filter p scopes hs)

all-filter : (p : String → Bool) (scopes : List String) → all p (filter p scopes) ≡ true
all-filter p [] = refl
all-filter p (s ∷ scopes) = ground (arith, all-filter p scopes)

-- The part of a request that was granted, joined and parsed again, is a part of the grant.
pub narrowed-includes :
    (original requested : String)
    → includes_scopes (parse_scope original) (
        parse_scope
          (format_scope (filter (includes (parse_scope original)) (parse_scope requested))))
      ≡ true
unfolding includes_scopes
narrowed-includes original requested =
    let p : String → Bool = includes (parse_scope original) in
    rw
      (parse-format_scope (filter p (parse_scope requested))
        (All-filter p (parse_scope requested) (parse_scope-IsScope requested)))
      (all-filter p (parse_scope requested))

any_more :
    (scopes : List String) (s t : String)
    → includes scopes t ≡ true
    → includes (s ∷ scopes) t ≡ true
any_more scopes s t h = ground arith

all_more :
    (scopes : List String) (s : String) (ts : List String)
    → all (includes scopes) ts ≡ true
    → all (includes (s ∷ scopes)) ts ≡ true
all_more scopes s [] h = refl
all_more scopes s (t ∷ ts) h = ground (arith, all_more scopes s ts)

-- A list of scopes is a part of itself.
pub includes_scopes_self : (scopes : List String) → includes_scopes scopes scopes ≡ true
unfolding includes_scopes
includes_scopes_self [] = refl
includes_scopes_self (s ∷ scopes) =
    let rest : all (includes scopes) scopes ≡ true = includes_scopes_self scopes in
    ground (arith, eq_iff s s, all_more scopes s scopes rest)
