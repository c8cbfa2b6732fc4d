-- ===== src/Storage/Guards.antt =====
-- What the use cases let through to the storage.
use goscratch.Base.{
  ℕ, ◌≤◌, ◌≡◌, ◌≢◌, ◌⊎◌, inl, inr, refl, subst, sym, true, false, Option, some, [], ◌∷◌, ◌++◌,
  arith, ltb, take, All, All-append, Str, lit, str_eq, split_on, split_on-sep, split_on-join_with,
  HasNone, Bool-cases, Option-cases,
}
use goscratch.Base.Int.{ℤ}
use goscratch.Apperr.{ok, err, Result-cases}
use goscratch.Storage.{
  Storage, Library, Config, File, UploadResponse, upload, storage_path, sanitize_path,
  effective_max_size, effective_allowed, is_allowed, base_type, existing, delete, download, get_url,
  file_not_found,
}
use goscratch.Storage.Paths.{IsPlain, sanitize_path-IsPlain}

is_empty : (s : Str) → str_eq s (lit "") ≡ true → s ≡ []
unfolding str_eq lit
is_empty [] h = refl
is_empty (b ∷ s) h = absurd (ground arith)

not_given : (dir : Str) → dir ≡ [] → str_eq dir (lit "") ≢ false
unfolding str_eq lit
not_given dir e h = ground arith

module _ (st : Storage) (lib : Library) (cfg : Option Config) where
  storage_path-IsPlain :
      (directory name : Str)
      → HasNone b'/' name
      → IsPlain name
      → All IsPlain (split_on b'/' (storage_path st lib cfg directory name))
  unfolding storage_path
  storage_path-IsPlain directory name no_slash plain =
      let dir = sanitize_path lib directory in
      let one : All IsPlain (split_on b'/' name) =
        subst (All IsPlain) (sym (split_on-join_with b'/' name [] (no_slash, tt))) (plain, tt) in
      elim (Bool-cases (str_eq dir (lit ""))) [
        | inl empty ↦ rw (empty, storage_path) one
        | inr given ↦ elim (sanitize_path-IsPlain lib directory) [
          | inl empty ↦ absurd (not_given dir empty given)
          | inr segments ↦
              rw (given, storage_path)
                (subst (All IsPlain) (sym (split_on-sep b'/' dir name))
                  (All-append IsPlain (split_on b'/' dir) (split_on b'/' name) segments one))
        ]
      ]

  -- the content type that is sniffed of a file
  abbrev pub sniffed : File → Str
  sniffed file = base_type lib (lib.detect_content_type (take 512 file.content))

  -- An upload leaves the storage as it was, or it has passed every guard (the size is within the
  -- limit, the sniffed content type is on the list) and has made one upload, of the whole content,
  -- to a path none of whose segments is "..", "." or empty, when the UUID with the extension is a
  -- plain name. An upload that returns a response is of the second kind.
  pub upload_guarded :
      (file : File) (size : ℕ) (filename directory uuid : Str) (s : st.State)
      → HasNone b'/' (uuid ++ lib.ext filename)
      → IsPlain (uuid ++ lib.ext filename)
      → let r = upload st lib cfg file size filename directory uuid s in
        let path = storage_path st lib cfg directory (uuid ++ lib.ext filename) in
        ((r.1 ≡ s) × ((u : UploadResponse) → r.0 ≢ ok u))
        ⊎ ((size ≤ effective_max_size cfg)
            × (is_allowed (sniffed file) (effective_allowed cfg) ≡ true)
            × (r.1 ≡ (st.upload path file.content (sniffed file) s).1)
            × All IsPlain (split_on b'/' path))
  unfolding upload
  upload_guarded file size filename directory uuid s no_slash plain =
      let name = uuid ++ lib.ext filename in
      let path = storage_path st lib cfg directory name in
      elim (Bool-cases (ltb (effective_max_size cfg) size)) [
        | inl large ↦ inl (rw (large, upload), λ u h. absurd (ground arith))
        | inr fits ↦ elim (Option-cases file.read_error) [
          | inr (e, failed) ↦ inl (ground arith, λ u h. absurd (ground arith))
          | inl read ↦ elim (Bool-cases (is_allowed (sniffed file) (effective_allowed cfg))) [
            | inr refused ↦ inl (ground arith, λ u h. absurd (ground arith))
            | inl allowed ↦ inr (
              ground arith,
              allowed,
              elim (Result-cases (st.upload path file.content (sniffed file) s).0) [
                | inl (p, stored) ↦ ground arith
                | inr (e, failed) ↦ ground arith
              ],
              storage_path-IsPlain directory name no_slash plain,
            )
          ]
        ]
      ]

  absent :
      (path : Str) (s : st.State)
      → sanitize_path lib path ≢ []
      → st.exists (sanitize_path lib path) s ≡ ok false
      → existing st lib cfg path s ≡ err (file_not_found (sanitize_path lib path))
  unfolding existing
  absent path s given missing = elim (Bool-cases (str_eq (sanitize_path lib path) (lit ""))) [
    | inl empty ↦ absurd (given (is_empty (sanitize_path lib path) empty))
    | inr nonempty ↦ rw (nonempty, missing, existing)
  ]

  -- For a file that is not in the storage the deletion, the download and the request for a URL give
  -- one and the same 404, naming the cleaned path, and the deletion changes nothing.
  pub absent_file_refused :
      (path : Str) (expires : ℤ) (s : st.State)
      → sanitize_path lib path ≢ []
      → st.exists (sanitize_path lib path) s ≡ ok false
      → let e = file_not_found (sanitize_path lib path) in
        (delete st lib cfg path s ≡ (some e, s))
        × (download st lib cfg path s ≡ err e)
        × (get_url st lib cfg path expires s ≡ err e)
  unfolding delete download get_url
  absent_file_refused path expires s given missing =
      let h = absent path s given missing in (rw (h, delete), rw (h, download), rw (h, get_url))
