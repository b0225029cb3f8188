-- ===== src/Shares/Burned.antt =====
-- src/shares/index.ts, `GET /s/:token`: links that burn on view.
use mathlib.Core.Path.{subst}
use stohr.Common.{
  ℕ, ◌≡◌, ◌≢◌, refl, sym, ap, ◌∙◌, inl, inr, true, false, Option, none, some, List, [], ◌∷◌, String,
  arith, ◌==◌, opt_eq, eq_iff, find, Bool-cases, All, All-map,
}
use stohr.Db.{Db, FileRow, ShareRow}
use stohr.Uploads.Store.{Objects}
use stohr.Security.Inline.{InlineDecision}
use stohr.Shares.Routes.{has_token, delete_id}
use stohr.Shares.View.{
  ViewState, View, Outside, served, view, find_share, resolve_viewer_id, on_host,
}
use stohr.Shares.Viewed.{Burns, viewer, view-IsViewed}

-- The unique column: a row is found by its token.
abbrev pub TokensAreUnique : List ShareRow → Type 0
TokensAreUnique shares = All (λ s. find (has_token s.token) shares ≡ some s) shares

find-delete_id :
    (token : String) (s : ShareRow) (shares : List ShareRow)
    → All (λ r. has_token token r ≡ true → r.id ≡ s.id) shares
    → find (has_token token) (delete_id s.id shares) ≡ none
find-delete_id token s [] h = refl
find-delete_id token s (r ∷ shares) (same, h) = elim (Bool-cases (r.id == s.id)) [
  | inl t ↦ rw t (find-delete_id token s shares h)
  | inr f ↦ elim (Bool-cases (has_token token r)) [
    | inl has ↦ let e = same has in absurd (ground arith)
    | inr other ↦ rw (f, other) (find-delete_id token s shares h)
  ]
]

token_row :
    (shares : List ShareRow) (token : String) (s : ShareRow)
    → TokensAreUnique shares
    → find (has_token token) shares ≡ some s
    → All (λ r. has_token token r ≡ true → r.id ≡ s.id) shares
token_row shares token s unique found =
    All-map _ _
      (λ r at_own has.
        let same : r.token ≡ token = ground (arith, eq_iff r.token token) in
        let own : find (has_token token) shares ≡ some r =
          ap (λ k. find (has_token k) shares) (sym same) ∙ at_own in
        let row : r ≡ s = cc in ap (λ (x : ShareRow). x.id) row)
      shares unique

on_host-row :
    (db : Db) (host_team : ℕ) (found : Option ShareRow) (s : ShareRow)
    → on_host db host_team found ≡ some s
    → found ≡ some s
on_host-row db host_team none s h = absurd cc
on_host-row db host_team (some r) s h = ground arith

found_token :
    (db : Db) (shares : List ShareRow) (req : View) (s : ShareRow)
    → find_share db shares req ≡ some s
    → find (has_token req.token) shares ≡ some s
unfolding find_share
found_token db shares req s h = on_host-row db req.host_team (find (has_token req.token) shares) s h

-- Once a link that burns on view has sent its file to a viewer who is not its owner, no request with
-- its token is sent a file again in a state with the shares left behind, whatever else has changed,
-- if tokens are unique.
pub view-burns :
    (out later : Outside) (db db' : Db) (objects objects' : Objects) (req again : View)
    (st st' : ViewState) (s : ShareRow) (f f' : FileRow) (d d' : InlineDecision)
    (bytes bytes' : List ℕ)
    → TokensAreUnique st.shares
    → find (has_token req.token) st.shares ≡ some s
    → s.burn_on_view ≡ true
    → opt_eq (resolve_viewer_id out.auth req.conn st.auth).0 s.user_id ≡ false
    → (view out db objects req st).0 ≡ served f d bytes
    → st'.shares ≡ (view out db objects req st).1.shares
    → again.token ≡ req.token
    → (view later db' objects' again st').0 ≢ served f' d' bytes'
view-burns out later db db' objects objects' req again st st' s f f' d d' bytes bytes' unique found
      burns stranger sent left same_token resent =
    let first = view-IsViewed out db objects req st f d bytes sent in
    let second = view-IsViewed later db' objects' again st' f' d' bytes' resent in
    let row : some first.share ≡ some s =
      sym (found_token db st.shares req first.share first.is_found) ∙ found in
    let same : first.share ≡ s = cc in
    let burnt : Burns out db objects req s (viewer out db objects req st) =
      rw (burns, stranger) refl in
    let gone : st'.shares ≡ delete_id s.id st.shares =
      left
      ∙ subst
          (λ (x : ShareRow).
            Burns out db objects req x (viewer out db objects req st)
            → (view out db objects req st).1.shares ≡ delete_id x.id st.shares)
          same first.burnt burnt in
    let none_left =
      find-delete_id req.token s st.shares (token_row st.shares req.token s unique found) in
    let refound = found_token db' st'.shares again second.share second.is_found in
    let refound' : find (has_token req.token) (delete_id s.id st.shares) ≡ some second.share =
      rw (same_token, gone) at refound in
    absurd cc
