-- ===== src/Authz/Texts.antt =====
-- Permission texts "object:action": the middleware's parser, the adapter's parser and printer.
use goscratch.Base.{◌≡◌, refl, sym, ◌∙◌, false, none, some, [], ◌∷◌, arith, Str, lit, has_byte}
use goscratch.Casbin.Adapter.{format_permission, parse_permission, cut_at, prepend}
use goscratch.Authz.{parse_from}

parse_from-cut_at :
    (perm : Str) → parse_from perm ≡ elim (cut_at b':' perm) [ some p ↦ p | none ↦ (perm, lit "*") ]
unfolding parse_from cut_at prepend
parse_from-cut_at [] = refl
parse_from-cut_at (b ∷ perm) = ground (arith, parse_from-cut_at perm)

parse_from-format :
    (obj act : Str)
    → has_byte b':' obj ≡ false
    → parse_from (format_permission obj act) ≡ (obj, act)
unfolding parse_from format_permission has_byte
parse_from-format [] act h = ground arith
parse_from-format (b ∷ obj) act h = ground (arith, parse_from-format obj act)

-- The middleware and the Casbin adapter read every permission text alike, and both read the text
-- that FormatPermission makes of an object without a colon and any action back as these two.
pub parse_permission-format :
    (perm obj act : Str)
    → has_byte b':' obj ≡ false
    → (parse_from perm ≡ parse_permission perm)
      × (parse_from (format_permission obj act) ≡ (obj, act))
      × (parse_permission (format_permission obj act) ≡ (obj, act))
unfolding parse_permission
parse_permission-format perm obj act h = (
  parse_from-cut_at perm,
  parse_from-format obj act h,
  sym (parse_from-cut_at (format_permission obj act)) ∙ parse_from-format obj act h,
)
