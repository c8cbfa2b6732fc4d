-- ===== src/Storage/Local/Resolve.antt =====
-- A plain key is found below the base directory.
use mathlib.Core.List.{reverse, reverse-cons, append_assoc, append-nil}
use goscratch.Base.{
  ℕ, ◌≡◌, ◌≢◌, ◌⊎◌, inl, inr, refl, ap, sym, ◌∙◌, arith, Bool, true, false, Bool-cases, List, [],
  ◌∷◌, ◌++◌, Str, lit, str_eq, split_on, join_with, join_with-split_on, split_on-sep,
  split_on-nonempty, has_prefix-sep_self, All,
}
use goscratch.Apperr.{ok}
use goscratch.Storage.{Library, sanitize_path}
use goscratch.Storage.Paths.{IsPlain, sanitize_path-IsPlain}
use goscratch.Storage.Local.Clean.{clean-clean, push-plain, push_all-append}
use goscratch.Storage.Local.{
  push, push_all, is_rooted, clean_segments, path_text, clean, join, resolve_within_base,
}

-- plain segments all stay
push_all-plain :
    (rooted : Bool) (stack segs : List Str)
    → All IsPlain segs
    → reverse (push_all rooted stack segs) ≡ reverse stack ++ segs
unfolding push_all
push_all-plain rooted stack [] plain = sym (append-nil (reverse stack))
push_all-plain rooted stack (seg ∷ segs) plain =
    ap (λ t. reverse (push_all rooted t segs)) (push-plain rooted stack seg plain.0)
    ∙ push_all-plain rooted (seg ∷ stack) segs plain.1
    ∙ ap (λ t. t ++ segs) (reverse-cons seg stack)
    ∙ append_assoc (reverse stack) (seg ∷ []) segs

join_with-append :
    (b : ℕ) (xs ys : List Str)
    → xs ≢ []
    → ys ≢ []
    → join_with b (xs ++ ys) ≡ join_with b xs ++ b ∷ join_with b ys
unfolding join_with
join_with-append b [] ys ne ne' = absurd (ne refl)
join_with-append b (x ∷ []) [] ne ne' = absurd (ne' refl)
join_with-append b (x ∷ []) (y ∷ ys) ne ne' = refl
join_with-append b (x ∷ x' ∷ xs) ys ne ne' =
    ap (λ t. x ++ b ∷ t) (join_with-append b (x' ∷ xs) ys (λ h. ground arith) ne')
    ∙ sym (append_assoc x (b ∷ join_with b (x' ∷ xs)) (b ∷ join_with b ys))

path_text-append :
    (rooted : Bool) (segs key : List Str)
    → segs ≢ []
    → key ≢ []
    → path_text rooted (segs ++ key) ≡ path_text rooted segs ++ b'/' ∷ join_with b'/' key
unfolding path_text
path_text-append true segs key ne ne' = ap (λ t. b'/' ∷ t) (join_with-append b'/' segs key ne ne')
path_text-append false [] key ne ne' = absurd (ne refl)
path_text-append false (seg ∷ segs) key ne ne' = join_with-append b'/' (seg ∷ segs) key ne ne'

-- a base directory that is neither the root nor the current one
abbrev pub IsProper : Str → Type 0
IsProper base = (base ≢ []) × (clean_segments base ≢ [])

nothing : clean_segments [] ≡ []
unfolding clean_segments push_all push split_on str_eq lit
nothing = refl

join-plain :
    (base key : Str)
    → IsProper base
    → All IsPlain (split_on b'/' key)
    → join base key ≡ clean base ++ b'/' ∷ key
unfolding join clean clean_segments
join-plain [] key proper plain = absurd (proper.0 refl)
join-plain (b ∷ base) key proper plain =
    let rooted = is_rooted (b ∷ base) in
    let segs = split_on b'/' (b ∷ base) in
    let parts = split_on b'/' key in
    let split : reverse (push_all rooted [] (split_on b'/' ((b ∷ base) ++ b'/' ∷ key)))
        ≡ clean_segments (b ∷ base) ++ parts =
      ap (λ t. reverse (push_all rooted [] t)) (split_on-sep b'/' (b ∷ base) key)
      ∙ ap reverse (push_all-append rooted [] segs parts)
      ∙ push_all-plain rooted (push_all rooted [] segs) parts plain in
    ap (path_text rooted) split
    ∙ path_text-append rooted (clean_segments (b ∷ base)) parts proper.1
        (split_on-nonempty b'/' key)
    ∙ ap (λ t. clean (b ∷ base) ++ b'/' ∷ t) (join_with-split_on b'/' key)

clean-below :
    (base key : Str)
    → IsProper base
    → All IsPlain (split_on b'/' key)
    → clean (base ++ b'/' ∷ key) ≡ clean base ++ b'/' ∷ key
unfolding join
clean-below [] key proper plain = absurd (proper.0 refl)
clean-below (b ∷ base) key proper plain = join-plain (b ∷ base) key proper plain

accepted :
    (base key : Str)
    → clean (join base key) ≡ clean base ++ b'/' ∷ key
    → resolve_within_base base key ≡ ok (clean base ++ b'/' ∷ key)
unfolding resolve_within_base
accepted base key full = elim (Bool-cases (str_eq (clean base ++ b'/' ∷ key) (clean base))) [
  | inl same ↦ rw (full, same) refl
  | inr other ↦ rw (full, other, has_prefix-sep_self b'/' (clean base) key) refl
]

clean-nonempty : (base : Str) → clean_segments base ≢ [] → clean base ≢ []
clean-nonempty base ne empty = ne (sym (clean-clean base ne).1 ∙ ap clean_segments empty ∙ nothing)

-- For a base directory that is neither the root nor the current directory, and a key whose segments
-- are plain: the key is accepted, and resolved to the cleaned path of the base, a slash and the
-- key.
pub resolve_within_base-plain :
    (base key : Str)
    → IsProper base
    → All IsPlain (split_on b'/' key)
    → resolve_within_base base key ≡ ok (clean base ++ b'/' ∷ key)
resolve_within_base-plain base key proper plain =
    let root = clean base in
    let again = clean-clean base proper.1 in
    let below : clean (root ++ b'/' ∷ key) ≡ root ++ b'/' ∷ key =
      clean-below root key (clean-nonempty base proper.1, λ h. proper.1 (sym again.1 ∙ h)) plain
      ∙ ap (λ t. t ++ b'/' ∷ key) again.0 in
    let joined : join base key ≡ root ++ b'/' ∷ key = join-plain base key proper plain in
    let full : clean (join base key) ≡ root ++ b'/' ∷ key = ap clean joined ∙ below in
    accepted base key full

-- For such a base directory: whatever path a client gives, what sanitizePath makes of it is empty,
-- or resolves to the cleaned path of the base, a slash, and segments none of which is "..", "." or
-- empty, so that it lies below the base.
pub sanitized_resolves :
    (lib : Library) (base path : Str)
    → IsProper base
    → let key = sanitize_path lib path in
      (key ≡ [])
      ⊎ ((resolve_within_base base key ≡ ok (clean base ++ b'/' ∷ key))
          × All IsPlain (split_on b'/' key))
sanitized_resolves lib base path proper = elim (sanitize_path-IsPlain lib path) [
  | inl empty ↦ inl empty
  | inr plain ↦ inr (resolve_within_base-plain base (sanitize_path lib path) proper plain, plain)
]
