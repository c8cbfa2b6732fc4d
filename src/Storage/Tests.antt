-- ===== src/Storage/Tests.antt =====
-- A storage in memory, and a library whose Clean leaves paths as they are.
use goscratch.Base.{
  has_byte, str_eq_instance, ◌≤◌, ◌≡◌, ◌≢◌, ◌⊎◌, refl, Bool, true, false, Option, none, some, [],
  ◌++◌, arith, All, Str, lit, split_on,
}
use goscratch.Base.Dict
use goscratch.Base.Dict.{Dict}
use goscratch.Apperr.{plain, Result, ok, err}
use goscratch.Storage.{
  is_plain, Storage, Library, File, UploadResponse, upload, storage_path, sanitize_path,
  effective_max_size, effective_allowed, is_allowed,
}
use goscratch.Storage.Paths.{IsPlain}
use goscratch.Storage.Guards.{sniffed, upload_guarded}

abbrev content_of : Option Str → Result Str
content_of none = err (plain (lit "file not found"))
content_of (some c) = ok c

abbrev is_there : Option Str → Result Bool
is_there none = ok false
is_there (some c) = ok true

abbrev memory : Storage
memory = record {
  State = Dict Str Str;
  upload = λ path content t s. (ok path, Dict.put path content s);
  download = λ path s. content_of (Dict.get path s);
  delete = λ path s. (none, Dict.remove path s);
  exists = λ path s. is_there (Dict.get path s);
  get_url = λ path expires s. ok (lit "/uploads/" ++ path);
  list = λ prefix s. ok [];
}

abbrev pub library : Library
library = record {
  clean = λ s. s;
  ext = λ s. lit ".png";
  trim_space = λ s. s;
  to_lower = λ s. s;
  detect_content_type = λ s. lit "image/png";
  show_number = λ n. lit "n";
  quote = λ s. s;
  format_time = λ n. lit "t";
}

abbrev pub attack : Str
attack = lit "/../etc/./../passwd"

sanitized : sanitize_path library attack ≡ lit "etc/passwd"
unfolding sanitize_path lit
sanitized = refl

given : sanitize_path library attack ≢ []
unfolding sanitize_path lit
given h = absurd (ground arith)

abbrev photo : File
photo = record { content = lit "png"; read_error = none }

upload_guarded_example :
    let r = upload memory library none photo 3 (lit "a.png") attack (lit "1") [] in
    let path = storage_path memory library none attack (lit "1" ++ lit ".png") in
    ((r.1 ≡ []) × ((u : UploadResponse) → r.0 ≢ ok u))
    ⊎ ((3 ≤ effective_max_size none)
        × (is_allowed (sniffed memory library none photo) (effective_allowed none) ≡ true)
        × (r.1 ≡ (memory.upload path photo.content (sniffed memory library none photo) []).1)
        × All IsPlain (split_on b'/' path))
unfolding has_byte lit is_plain
upload_guarded_example =
    upload_guarded memory library none photo 3 (lit "a.png") attack (lit "1") [] refl refl
