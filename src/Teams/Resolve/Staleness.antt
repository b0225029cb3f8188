-- ===== src/Teams/Resolve/Staleness.antt =====
-- src/teams/resolve.ts: what the cached look-ups answer, against the table of teams over time.
use stohr.Common.{
  ℕ, ◌+◌, ◌≤◌, ◌<◌, ◌≡◌, refl, sym, ◌⊎◌, inl, inr, Bool, true, false, ◌&&◌, Option, none, some,
  List, [], ◌∷◌, String, arith, ltb, str_eq, Bool-cases, Option-cases, All, All-map, is_none,
  is_some, find, find-All,
}
use stohr.Teams.Slug.{is_reserved_slug}
use stohr.Teams.Resolve.{
  Team, Entry, Cache, empty_cache, ttl_ms, map_get, live, num_eq, remember, slug_of, id_of,
  select_by_slug, select_by_id, team_by_slug, team_by_id, clear_team_cache, delete_team,
}
use stohr.Teams.Resolve.Maps.{
  map_get-All, map_delete-All, make_room-All, set_slug-All, set_id-All, num_eq_sound, str_eq_sound,
}

-- The primary key and the unique column: a row is found by its id and by its slug.
abbrev pub IsKeyed : List Team → Type 0
IsKeyed teams =
    All
      (λ r. (select_by_id teams r.id ≡ some r) × (find (λ t. str_eq t.slug r.slug) teams ≡ some r))
      teams

find-and :
    {A : Type 0} (p q : A → Bool) (xs : List A) (a : A)
    → find p xs ≡ some a
    → q a ≡ true
    → find (λ x. p x && q x) xs ≡ some a
find-and p q [] a h k = absurd cc
find-and p q (x ∷ xs) a h k = ground (arith, find-and p q xs a)

module _ (tables : ℕ → List Team) where
  -- The row with the slug at a time, or a deleted row with it that was found by its id.
  abbrev pub SlugAnswer : ℕ → String → Option Team → Type 0
  SlugAnswer t slug answer =
      (answer ≡ select_by_slug (tables t) slug)
      ⊎ ((team : Team) × (answer ≡ some team)
          × (team.slug ≡ slug)
          × (is_some team.deleted_at ≡ true)
          × (select_by_id (tables t) team.id ≡ some team))

  abbrev IdAnswer : ℕ → ℕ → Option Team → Type 0
  IdAnswer t id answer = answer ≡ select_by_id (tables t) id

  abbrev SlugEntry : ℕ → String × Entry → Type 0
  SlugEntry now e = (t : ℕ) × (e.1.expires ≡ t + ttl_ms) × (t ≤ now) × SlugAnswer t e.0 e.1.team

  abbrev IdEntry : ℕ → ℕ × Entry → Type 0
  IdEntry now e = (t : ℕ) × (e.1.expires ≡ t + ttl_ms) × (t ≤ now) × IdAnswer t e.0 e.1.team

  abbrev IsTimed : ℕ → Cache → Type 0
  IsTimed now c = All (SlugEntry now) c.by_slug × All (IdEntry now) c.by_id

  -- The caches of a replica that looks teams up and clears its maps while time passes.
  pub data Reaches : ℕ → Cache → Type 0 where
    boot : {now : ℕ} → Reaches now empty_cache
    wait : {now later : ℕ} {c : Cache} → Reaches now c → now ≤ later → Reaches later c
    looked_up :
        {now : ℕ} {c : Cache} (slug : String)
        → Reaches now c
        → Reaches now (team_by_slug now (tables now) slug c).1
    looked_up_id :
        {now : ℕ} {c : Cache} (id : ℕ)
        → Reaches now c
        → Reaches now (team_by_id now (tables now) id c).1
    cleared :
        {now : ℕ} {c : Cache} (slug : Option String)
        → Reaches now c
        → Reaches now (clear_team_cache slug c)

  wait-IsTimed : (now later : ℕ) (c : Cache) → now ≤ later → IsTimed now c → IsTimed later c
  wait-IsTimed now later c le (s, i) = (
    All-map (SlugEntry now) (SlugEntry later)
        (λ e p. let (t, x, l, a) = p in (t, x, omega arith, a)) c.by_slug s,
    All-map (IdEntry now) (IdEntry later) (λ e p. let (t, x, l, a) = p in (t, x, omega arith, a))
        c.by_id i,
  )

  delete_team-All :
      (now : ℕ) (found : Option Entry) (m : List (ℕ × Entry))
      → All (IdEntry now) m
      → All (IdEntry now) (delete_team found m)
  delete_team-All now none m h = h
  delete_team-All now (some entry) m h = elim (Option-cases entry.team) [
    | inl e ↦ rw e h
    | inr (team, e) ↦ rw e (map_delete-All num_eq num_eq_sound (IdEntry now) team.id m h)
  ]

  clear-IsTimed :
      (now : ℕ) (c : Cache) (slug : Option String)
      → IsTimed now c
      → IsTimed now (clear_team_cache slug c)
  unfolding clear_team_cache
  clear-IsTimed now c none h = (tt, tt)
  clear-IsTimed now c (some slug) (s, i) = (
    map_delete-All str_eq str_eq_sound (SlugEntry now) slug c.by_slug s,
    delete_team-All now (map_get str_eq slug c.by_slug) c.by_id i,
  )

  -- Entries that hold what the table says now are kept among timed ones.
  remember-IsTimed :
      (now : ℕ) (row : Option Team) (slug : Option String) (id : Option ℕ) (c : Cache)
      → IsTimed now c
      → ((s : String) → slug ≡ some s → SlugAnswer now s row)
      → ((s : String) → slug_of row ≡ some s → SlugAnswer now s row)
      → ((i : ℕ) → id ≡ some i → IdAnswer now i row)
      → ((i : ℕ) → id_of row ≡ some i → IdAnswer now i row)
      → IsTimed now (remember now row slug id c)
  unfolding remember
  remember-IsTimed now row slug id c (s, i) hs hs' hi hi' =
      let entry : Entry = record { team = row; expires = now + ttl_ms } in
      let le : now ≤ now = omega arith in
      (
        set_slug-All (SlugEntry now) (slug_of row) entry _
            (set_slug-All (SlugEntry now) slug entry _ (make_room-All (SlugEntry now) c.by_slug s)
              (λ k e. (now, refl, le, hs k e)))
            (λ k e. (now, refl, le, hs' k e)),
        set_id-All (IdEntry now) (id_of row) entry _
            (set_id-All (IdEntry now) id entry _ (make_room-All (IdEntry now) c.by_id i)
              (λ k e. (now, refl, le, hi k e)))
            (λ k e. (now, refl, le, hi' k e)),
      )

  module _ (keyed : (t : ℕ) → IsKeyed (tables t)) where
    keys :
        (now : ℕ) (p : Team → Bool) (team : Team)
        → find p (tables now) ≡ some team
        → (select_by_id (tables now) team.id ≡ some team)
          × (find (λ t. str_eq t.slug team.slug) (tables now) ≡ some team)
    keys now p team h = find-All _ p (tables now) team (keyed now) h

    slug_answer :
        (now : ℕ) (p : Team → Bool) (team : Team)
        → find p (tables now) ≡ some team
        → SlugAnswer now team.slug (some team)
    slug_answer now p team h = elim (Bool-cases (is_none team.deleted_at)) [
      | inl l ↦
          let found =
            find-and (λ t. str_eq t.slug team.slug) (λ t. is_none t.deleted_at) (tables now) team
              (keys now p team h).1 l in
          inl (sym found)
      | inr d ↦ inr (team, refl, refl, ground arith, (keys now p team h).0)
    ]

    row_slug :
        (now : ℕ) (p : Team → Bool) (row : Option Team) (s : String)
        → find p (tables now) ≡ row
        → slug_of row ≡ some s
        → SlugAnswer now s row
    row_slug now p none s h e = absurd cc
    row_slug now p (some team) s h e =
        let same : team.slug ≡ s = cc in rw (← same) (slug_answer now p team h)

    row_id :
        (now : ℕ) (p : Team → Bool) (row : Option Team) (i : ℕ)
        → find p (tables now) ≡ row
        → id_of row ≡ some i
        → IdAnswer now i row
    row_id now p none i h e = absurd cc
    row_id now p (some team) i h e =
        let same : team.id ≡ i = cc in rw (← same) (sym (keys now p team h).0)

    by_slug-IsTimed :
        (now : ℕ) (slug : String) (c : Cache)
        → IsTimed now c
        → IsTimed now (team_by_slug now (tables now) slug c).1
    unfolding team_by_slug
    by_slug-IsTimed now slug c h = elim (Bool-cases (is_reserved_slug slug)) [
      | inl t ↦ rw t h
      | inr f ↦ rw f (elim (Option-cases (live now (map_get str_eq slug c.by_slug))) [
        | inr (entry, e) ↦ rw e h
        | inl e ↦
            let row = select_by_slug (tables now) slug in
            rw e (
              remember-IsTimed now row (some slug) none c h
                (λ s e. let same : slug ≡ s = cc in rw (← same) (inl refl))
                (λ s e. row_slug now _ row s refl e) (λ i e. absurd cc)
                (λ i e. row_id now _ row i refl e))
      ])
    ]

    by_id-IsTimed :
        (now id : ℕ) (c : Cache) → IsTimed now c → IsTimed now (team_by_id now (tables now) id c).1
    unfolding team_by_id
    by_id-IsTimed now id c h = elim (Option-cases (live now (map_get num_eq id c.by_id))) [
      | inr (entry, e) ↦ rw e h
      | inl e ↦
          let row = select_by_id (tables now) id in
          rw e (
            remember-IsTimed now row none (some id) c h (λ s e. absurd cc)
              (λ s e. row_slug now _ row s refl e)
              (λ i e. let same : id ≡ i = cc in rw (← same) refl)
              (λ i e. row_id now _ row i refl e))
    ]

    Reaches-IsTimed : (now : ℕ) (c : Cache) → Reaches now c → IsTimed now c
    Reaches-IsTimed now c boot = (tt, tt)
    Reaches-IsTimed now c (wait {now = past} r le) =
        wait-IsTimed past now c le (Reaches-IsTimed past c r)
    Reaches-IsTimed now c (looked_up {c = c'} slug r) =
        by_slug-IsTimed now slug c' (Reaches-IsTimed now c' r)
    Reaches-IsTimed now c (looked_up_id {c = c'} id r) =
        by_id-IsTimed now id c' (Reaches-IsTimed now c' r)
    Reaches-IsTimed now c (cleared {c = c'} slug r) =
        clear-IsTimed now c' slug (Reaches-IsTimed now c' r)

    -- Whatever was looked up and cleared before, and whenever, the look-up of an id answers what
    -- the table said for it at a time less than 30 seconds ago, if ids and slugs are unique in the
    -- table at all times.
    pub team_by_id-refines :
        (now id : ℕ) (c : Cache)
        → Reaches now c
        → (t : ℕ) × (t ≤ now)
          × (now < t + 30_000)
          × ((team_by_id now (tables now) id c).0 ≡ select_by_id (tables t) id)
    unfolding team_by_id
    team_by_id-refines now id c r = elim (Option-cases (map_get num_eq id c.by_id)) [
      | inl e ↦ rw e (now, omega arith, omega arith, refl)
      | inr (entry, e) ↦ elim (Bool-cases (ltb now entry.expires)) [
        | inr f ↦ rw (e, f) (now, omega arith, omega arith, refl)
        | inl l ↦
            let timed = (Reaches-IsTimed now c r).1 in
            let (t, x, le, answer) =
              map_get-All num_eq num_eq_sound (IdEntry now) id c.by_id entry timed e in
            rw (e, l) (t, le, ground arith, answer)
      ]
    ]

    -- Whatever was looked up and cleared before, and whenever, the look-up of a slug that is not
    -- reserved answers what the table said at a time less than 30 seconds ago, if ids and slugs are
    -- unique in the table at all times: the team with the slug that was not deleted, if there was
    -- one, or else nothing or the deleted row with the slug.
    pub team_by_slug-refines :
        (now : ℕ) (slug : String) (c : Cache)
        → Reaches now c
        → is_reserved_slug slug ≡ false
        → (t : ℕ) × (t ≤ now)
          × (now < t + 30_000)
          × SlugAnswer t slug (team_by_slug now (tables now) slug c).0
    unfolding team_by_slug
    team_by_slug-refines now slug c r free = elim (Option-cases (map_get str_eq slug c.by_slug)) [
      | inl e ↦ rw (free, e) (now, omega arith, omega arith, inl refl)
      | inr (entry, e) ↦ elim (Bool-cases (ltb now entry.expires)) [
        | inr f ↦ rw (free, e, f) (now, omega arith, omega arith, inl refl)
        | inl l ↦
            let timed = (Reaches-IsTimed now c r).0 in
            let (t, x, le, answer) =
              map_get-All str_eq str_eq_sound (SlugEntry now) slug c.by_slug entry timed e in
            rw (free, e, l) (t, le, ground arith, answer)
      ]
    ]
