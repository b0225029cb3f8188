-- ===== src/Security/Inline.antt =====
-- src/security/inline.ts: which downloads a browser may show in place. `encodeURIComponent` of the
-- runtime is the argument `encode`.
use Prim.Native.String
use text.Mathlib.Text.{starts_with}
use stohr.Common.{Bool, false, ◌&&◌, ◌||◌, String, str_eq, if◌then◌else◌}
use stohr.Auth.Credentials.{trim}
use stohr.Teams.Slug.{to_lower}
use stohr.Teams.Request.{before}

-- Up to the first semicolon, in small letters.
abbrev pub mime_essence : String → String
mime_essence mime = trim (before 59 (to_lower mime))

unfoldable pub is_safe_inline_mime : String → Bool
unfolding to_lower
is_safe_inline_mime mime =
    let m = mime_essence mime in
    if str_eq m "image/svg+xml"
    then false
    else str_eq m "application/pdf"
      || str_eq m "text/plain"
      || starts_with m "image/"
      || starts_with m "video/"
      || starts_with m "audio/"

pub record InlineDecision : Type 0 where
  pub content_type : String
  pub disposition : String

unfoldable pub decide_inline : (String → String) → String → String → Bool → InlineDecision
unfolding is_safe_inline_mime
decide_inline encode stored_mime filename want_inline =
    let name = String.◌++◌ (encode filename) "\"" in
    if want_inline && is_safe_inline_mime stored_mime
    then record { content_type = stored_mime; disposition = String.◌++◌ "inline; filename=\"" name }
    else record {
      content_type = "application/octet-stream";
      disposition = String.◌++◌ "attachment; filename=\"" name;
    }
