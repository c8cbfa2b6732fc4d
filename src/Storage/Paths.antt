-- ===== src/Storage/Paths.antt =====
-- Cleaned paths have plain segments.
use goscratch.Base.{
  ◌≡◌, ◌⊎◌, inl, inr, refl, subst, sym, true, List, [], ◌∷◌, filter_by, All, All-filter_by, Str,
  split_on, join_with, HasNone, split_on-HasNone, split_on-join_with, if_ind,
}
use goscratch.Storage.{Library, sanitize_path, is_plain, trim_left, remove_nul}

abbrev pub IsPlain : Str → Type 0
IsPlain part = is_plain part ≡ true

filter_by-IsPlain : (parts : List Str) → All IsPlain (filter_by is_plain parts)
unfolding filter_by
filter_by-IsPlain [] = tt
filter_by-IsPlain (p ∷ parts) =
    let rest = filter_by-IsPlain parts in
    if_ind (All IsPlain) (is_plain p) (λ e. (e, rest)) (λ _. rest)

joined :
    (parts : List Str)
    → All (HasNone b'/') parts
    → All IsPlain parts
    → (join_with b'/' parts ≡ []) ⊎ All IsPlain (split_on b'/' (join_with b'/' parts))
unfolding join_with
joined [] none plain = inl refl
joined (p ∷ parts) none plain =
    inr (subst (All IsPlain) (sym (split_on-join_with b'/' p parts none)) plain)

-- Whatever filepath.Clean does: a cleaned path is empty, or none of the segments between its
-- slashes is "..", "." or empty, so that it climbs to no parent and does not begin with a slash.
pub sanitize_path-IsPlain :
    (lib : Library) (path : Str)
    → (sanitize_path lib path ≡ []) ⊎ (All IsPlain (split_on b'/' (sanitize_path lib path)))
unfolding sanitize_path
sanitize_path-IsPlain lib path =
    let parts = split_on b'/' (trim_left (lib.clean (remove_nul path))) in
    joined (filter_by is_plain parts)
      (All-filter_by (HasNone b'/') is_plain parts
        (split_on-HasNone b'/' (trim_left (lib.clean (remove_nul path)))))
      (filter_by-IsPlain parts)
