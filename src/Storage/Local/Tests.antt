-- ===== src/Storage/Local/Tests.antt =====
-- The default base directory, and a path that tries to leave it.
use goscratch.Base.{◌≡◌, refl, ◌⊎◌, arith, [], ◌∷◌, ◌++◌, All, Str, lit, str_eq, split_on}
use goscratch.Apperr.{ok}
use goscratch.Storage.{sanitize_path}
use goscratch.Storage.Paths.{IsPlain}
use goscratch.Storage.Tests.{library, attack}
use goscratch.Storage.Local.{clean, clean_segments, push, push_all, resolve_within_base}
use goscratch.Storage.Local.Resolve.{IsProper, sanitized_resolves}

abbrev uploads : Str
uploads = lit "./uploads"

segments : clean_segments uploads ≡ lit "uploads" ∷ []
unfolding clean_segments push_all push split_on str_eq lit
segments = refl

proper : IsProper uploads
unfolding lit
proper = (λ h. ground arith, λ h. ground (arith, segments))

sanitized_resolves_example :
    let key = sanitize_path library attack in
    (key ≡ [])
    ⊎ ((resolve_within_base uploads key ≡ ok (clean uploads ++ b'/' ∷ key))
        × All IsPlain (split_on b'/' key))
sanitized_resolves_example = sanitized_resolves library uploads attack proper
