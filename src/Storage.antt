-- ===== src/Storage.antt =====
-- internal/module/storage/usecase/storage_usecase.go: uploads, downloads and the cleaning of paths.
-- The storage itself and the standard library's filepath.Clean, filepath.Ext, strings.TrimSpace,
-- strings.ToLower, http.DetectContentType and the formatting of numbers, quotes and times are
-- parameters. The content of a file is a text; `read_error` is a failure of Peek other than the end
-- of the file. Durations are nanoseconds.
pub mod Paths
pub mod Guards
pub mod Local
pub mod Tests
use goscratch.Base.{
  str_eq_instance, ℕ, zero, suc, ◌*◌, Bool, true, false, not, ◌&&◌, ◌||◌, Option, none, some, List,
  [], ◌∷◌, ◌++◌, if◌then◌else◌, ◌==◌, ltb, take, filter_by, Str, lit, str_eq, split_on, join_with,
}
use goscratch.Base.Dict
use goscratch.Base.Dict.{Dict}
use goscratch.Base.Int.{ℤ, pos, negsuc}
use goscratch.Apperr.{
  GoError, app, error_text, Result, ok, err, bad_requestf, not_foundf, internalf,
  unsupported_media_typef,
}

pub record FileInfo : Type 0 where
  pub path : Str
  pub size : ℕ
  pub content_type : Str
  pub modified_at : ℕ

-- port.Storage: `upload` is given the path, the content and the content type
pub record Storage : Type 1 where
  pub State : Type 0
  pub upload : Str → Str → Str → State → Result Str × State
  pub download : Str → State → Result Str
  pub delete : Str → State → Option GoError × State
  pub exists : Str → State → Result Bool
  pub get_url : Str → ℕ → State → Result Str
  pub list : Str → State → Result (List FileInfo)

pub record Library : Type 0 where
  pub clean : Str → Str
  pub ext : Str → Str
  pub trim_space : Str → Str
  pub to_lower : Str → Str
  pub detect_content_type : Str → Str
  pub show_number : ℕ → Str
  pub quote : Str → Str
  pub format_time : ℕ → Str

pub record File : Type 0 where
  pub content : Str
  pub read_error : Option GoError

pub record UploadResponse : Type 0 where
  pub path : Str
  pub url : Str
  pub size : ℕ

pub record FileResponse : Type 0 where
  pub path : Str
  pub size : ℕ
  pub content_type : Str
  pub url : Str
  pub mod_time : Str

pub record Config : Type 0 where
  pub max_file_size : ℤ
  pub allowed_content_types : Dict Str Bool

abbrev pub default_allowed : Dict Str Bool
default_allowed =
    (lit "image/jpeg", true)
    ∷ (lit "image/png", true)
    ∷ (lit "image/gif", true)
    ∷ (lit "image/webp", true)
    ∷ (lit "application/pdf", true)
    ∷ []

-- the limits of NewUseCase
unfoldable pub effective_max_size : Option Config → ℕ
effective_max_size none = 10485760
effective_max_size (some cfg) = elim cfg.max_file_size [
  | pos zero ↦ 10485760
  | pos (suc n) ↦ suc n
  | negsuc n ↦ 10485760
]

unfoldable pub effective_allowed : Option Config → Dict Str Bool
effective_allowed none = default_allowed
effective_allowed (some cfg) = elim cfg.allowed_content_types [
  | [] ↦ default_allowed
  | ◌∷◌ t ts ↦ t ∷ ts
]

-- allowedContentTypes[t], which is false for a missing key
unfoldable pub is_allowed : Str → Dict Str Bool → Bool
unfolding Dict.get
is_allowed t types = elim (Dict.get t types) [ none ↦ false | some allowed ↦ allowed ]

-- strings.ReplaceAll(path, "\x00", "")
unfoldable pub remove_nul : Str → Str
unfolding filter_by
remove_nul = filter_by (λ b. not (b == 0))

-- strings.TrimLeft(path, "/.")
unfoldable pub trim_left : Str → Str
trim_left [] = []
trim_left (b ∷ s) = if b == b'/' || b == b'.' then trim_left s else b ∷ s

unfoldable pub is_plain : Str → Bool
unfolding str_eq lit
is_plain part = not (str_eq part (lit "..") || str_eq part (lit ".") || str_eq part (lit ""))

unfoldable pub sanitize_path : Library → Str → Str
unfolding remove_nul trim_left is_plain filter_by split_on join_with
sanitize_path lib path =
    join_with b'/' (filter_by is_plain (split_on b'/' (trim_left (lib.clean (remove_nul path)))))

-- the base type before the first ";"
unfoldable pub base_type : Library → Str → Str
unfolding split_on
base_type lib t = elim (split_on b';' t) [
  | [] ↦ t
  | ◌∷◌ head rest ↦ elim rest [ [] ↦ t | ◌∷◌ _ _ ↦ lib.trim_space head ]
]

unfoldable pub type_of_extension : Str → Str
unfolding str_eq lit
type_of_extension e =
    if str_eq e (lit ".jpg") || str_eq e (lit ".jpeg")
    then lit "image/jpeg"
    else if str_eq e (lit ".png")
    then lit "image/png"
    else if str_eq e (lit ".gif")
    then lit "image/gif"
    else if str_eq e (lit ".webp")
    then lit "image/webp"
    else if str_eq e (lit ".pdf")
    then lit "application/pdf"
    else lit "application/octet-stream"

abbrev pub invalid_file_path : GoError
invalid_file_path = app (bad_requestf (lit "invalid file path"))

abbrev pub file_not_found : Str → GoError
file_not_found path = app (not_foundf (lit "file not found: " ++ path))

abbrev pub failed_to : Str → GoError → GoError
failed_to what e = app (internalf (lit "failed to " ++ what ++ lit ": " ++ error_text e))

module _ (st : Storage) (lib : Library) (cfg : Option Config) where
  open st use {State}

  -- the path that a directory and a unique name make
  unfoldable pub storage_path : Str → Str → Str
  unfolding sanitize_path
  storage_path directory name =
      let dir = sanitize_path lib directory in
      if str_eq dir (lit "") then name else (dir ++ b'/' ∷ name)

  -- `size` and `filename` are the header's, `uuid` is a fresh UUID.
  unfoldable pub upload : File → ℕ → Str → Str → Str → State → Result UploadResponse × State
  unfolding effective_max_size effective_allowed is_allowed base_type storage_path
  upload file size filename directory uuid s =
      if ltb (effective_max_size cfg) size
      then (
        err (
            app (
              bad_requestf (
                lit "file size "
                ++ lib.show_number size
                ++ lit " exceeds maximum allowed size "
                ++ lib.show_number (effective_max_size cfg)))),
        s,
      )
      else elim file.read_error [
        | some e ↦ (err (failed_to (lit "inspect uploaded file") e), s)
        | none ↦
            let t = base_type lib (lib.detect_content_type (take 512 file.content)) in
            if not (is_allowed t (effective_allowed cfg))
            then (
              err (
                  app (
                    unsupported_media_typef
                      (lit "content type " ++ lib.quote t ++ lit " is not allowed"))),
              s,
            )
            else (let (stored, s') =
                  st.upload (storage_path directory (uuid ++ lib.ext filename)) file.content t s in
                elim stored [
                  | err e ↦ (err (failed_to (lit "upload file") e), s')
                  | ok path ↦ (
                    ok (record {
                      path = path;
                      url = elim (st.get_url path 86400000000000 s') [ ok u ↦ u | err _ ↦ lit "" ];
                      size = size;
                    }),
                    s',
                  )
                ])
      ]

  -- what Download, Delete and GetURL do first: the cleaned path of a file that is there
  unfoldable pub existing : Str → State → Result Str
  unfolding sanitize_path
  existing path s =
      let p = sanitize_path lib path in
      if str_eq p (lit "") then err invalid_file_path else elim (st.exists p s) [
        | err e ↦ err (failed_to (lit "check file existence") e)
        | ok there ↦ if not there then err (file_not_found p) else ok p
      ]

  unfoldable pub download : Str → State → Result (Str × Str)
  unfolding existing type_of_extension
  download path s = elim (existing path s) [
    | err e ↦ err e
    | ok p ↦ elim (st.download p s) [
      | err e ↦ err (failed_to (lit "download file") e)
      | ok content ↦ ok (content, type_of_extension (lib.to_lower (lib.ext p)))
    ]
  ]

  unfoldable pub delete : Str → State → Option GoError × State
  unfolding existing
  delete path s = elim (existing path s) [
    | err e ↦ (some e, s)
    | ok p ↦
        let (failure, s') = st.delete p s in
        elim failure [ none ↦ (none, s') | some e ↦ (some (failed_to (lit "delete file") e), s') ]
  ]

  -- a duration that is not positive is replaced by one hour
  unfoldable pub effective_expires : ℤ → ℕ
  effective_expires (pos zero) = 3600000000000
  effective_expires (pos (suc n)) = suc n
  effective_expires (negsuc n) = 3600000000000

  unfoldable pub get_url : Str → ℤ → State → Result FileResponse
  unfolding existing effective_expires
  get_url path expires s = elim (existing path s) [
    | err e ↦ err e
    | ok p ↦ elim (st.get_url p (effective_expires expires) s) [
      | err e ↦ err (failed_to (lit "generate URL") e)
      | ok u ↦ ok (record { path = p; size = 0; content_type = lit ""; url = u; mod_time = lit "" })
    ]
  ]

  unfoldable pub file_responses : List FileInfo → List FileResponse
  file_responses [] = []
  file_responses (f ∷ files) =
      record {
        path = f.path;
        size = f.size;
        content_type = f.content_type;
        url = lit "";
        mod_time = lib.format_time f.modified_at;
      }
      ∷ file_responses files

  unfoldable pub list : Str → State → Result (List FileResponse)
  unfolding sanitize_path file_responses
  list prefix s = elim (st.list (sanitize_path lib prefix) s) [
    | err e ↦ err (failed_to (lit "list files") e)
    | ok files ↦ ok (file_responses files)
  ]
