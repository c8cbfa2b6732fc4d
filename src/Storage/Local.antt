-- ===== src/Storage/Local.antt =====
-- internal/adapter/storage/local.go: files below a base directory. filepath.Clean and filepath.Join
-- are those of Unix, on the segments between the slashes. The file system is the parameter `Disk`,
-- whose errors say whether os.IsNotExist holds of them; os.MkdirAll, os.Create with io.Copy,
-- os.Open, os.Remove, os.Stat and filepath.Walk are its calls. The options of an upload are not
-- used.
pub mod Clean
pub mod Resolve
mod Tests
use mathlib.Core.List.{reverse}
use goscratch.Base.{
  ℕ, Bool, true, false, not, ◌&&◌, ◌||◌, Option, none, some, List, [], ◌∷◌, ◌++◌, map,
  if◌then◌else◌, ◌==◌, Str, lit, str_eq, has_prefix, split_on, join_with,
}
use goscratch.Apperr.{GoError, plain, wrapped, Result, ok, err}
use goscratch.Storage.{FileInfo}

-- filepath.Clean: the segments that stay, the last one first
unfoldable pub push : Bool → List Str → Str → List Str
unfolding str_eq lit
push rooted stack seg =
    if str_eq seg (lit "") || str_eq seg (lit ".")
    then stack
    else if str_eq seg (lit "..")
    then elim stack [
      | [] ↦ if rooted then [] else seg ∷ []
      | top ∷ below ↦ if str_eq top (lit "..") then seg ∷ top ∷ below else below
    ]
    else seg ∷ stack

unfoldable pub push_all : Bool → List Str → List Str → List Str
unfolding push
push_all rooted stack [] = stack
push_all rooted stack (seg ∷ segs) = push_all rooted (push rooted stack seg) segs

abbrev pub is_rooted : Str → Bool
is_rooted [] = false
is_rooted (c ∷ s) = c == b'/'

unfoldable pub clean_segments : Str → List Str
unfolding push_all
clean_segments path = reverse (push_all (is_rooted path) [] (split_on b'/' path))

unfoldable pub path_text : Bool → List Str → Str
path_text true segs = b'/' ∷ join_with b'/' segs
path_text false [] = lit "."
path_text false (seg ∷ segs) = join_with b'/' (seg ∷ segs)

unfoldable pub clean : Str → Str
unfolding clean_segments path_text
clean path = path_text (is_rooted path) (clean_segments path)

-- filepath.Join of two elements
unfoldable pub join : Str → Str → Str
unfolding clean
join [] [] = []
join [] (c ∷ key) = clean (c ∷ key)
join (b ∷ base) key = clean ((b ∷ base) ++ b'/' ∷ key)

abbrev pub err_path_escapes_base : GoError
err_path_escapes_base = plain (lit "storage: path escapes base directory")

unfoldable pub resolve_within_base : Str → Str → Result Str
unfolding join clean
resolve_within_base base key =
    let full = clean (join base key) in
    if str_eq full (clean base)
    then ok full
    else if not (has_prefix full (clean base ++ b'/' ∷ []))
    then err err_path_escapes_base
    else ok full

-- an error of the file system
pub record DiskError : Type 0 where
  pub error : GoError
  pub not_exist : Bool

pub record Disk : Type 1 where
  pub State : Type 0
  -- os.MkdirAll of a directory, or of that of a file
  pub mkdir_all : Str → State → Option GoError × State
  pub mkdir_parent : Str → State → Option GoError × State
  pub create : Str → State → Option GoError × State
  -- io.Copy of a content
  pub copy : Str → Str → State → Option GoError × State
  pub remove : Str → State → Option DiskError × State
  pub open_file : Str → State → Option DiskError × Str
  pub stat : Str → State → Option DiskError
  -- the files below a path as List gives them, with the error that ended the walk
  pub walk : Str → Str → State → Option DiskError × List FileInfo

pub record LocalStorage : Type 0 where
  pub base_path : Str
  pub base_url : Str

-- strings.TrimSuffix(s, "/")
unfoldable pub trim_slash : Str → Str
trim_slash [] = []
trim_slash (c ∷ []) = if c == b'/' then [] else c ∷ []
trim_slash (c ∷ d ∷ s) = c ∷ trim_slash (d ∷ s)

module _ (D : Disk) where
  open D use {State}

  unfoldable pub new_local_storage : Str → Str → State → Result LocalStorage × State
  unfolding trim_slash
  new_local_storage base_path base_url s =
      let (failure, s') = D.mkdir_all base_path s in
      elim failure [
        | some e ↦ (err (wrapped (lit "failed to create storage directory") e), s')
        | none ↦ (ok (record { base_path = base_path; base_url = trim_slash base_url }), s')
      ]

  unfoldable pub upload : LocalStorage → Str → Str → State → Result Str × State
  unfolding resolve_within_base
  upload l path content s = elim (resolve_within_base l.base_path path) [
    | err e ↦ (err e, s)
    | ok full ↦
        let (failure, s₁) = D.mkdir_parent full s in
        elim failure [
          | some e ↦ (err (wrapped (lit "failed to create directory") e), s₁)
          | none ↦
              let (failure', s₂) = D.create full s₁ in
              elim failure' [
                | some e ↦ (err (wrapped (lit "failed to create file") e), s₂)
                | none ↦
                    let (failure'', s₃) = D.copy full content s₂ in
                    elim failure'' [
                      | some e ↦
                          (err (wrapped (lit "failed to write file") e), (D.remove full s₃).1)
                      | none ↦ (ok path, s₃)
                    ]
              ]
        ]
  ]

  unfoldable pub download : LocalStorage → Str → State → Result Str
  unfolding resolve_within_base
  download l path s = elim (resolve_within_base l.base_path path) [
    | err e ↦ err e
    | ok full ↦
        let (failure, content) = D.open_file full s in
        elim failure [
          | none ↦ ok content
          | some e ↦
              if e.not_exist
              then err (plain (lit "file not found: " ++ path))
              else err (wrapped (lit "failed to open file") e.error)
        ]
  ]

  unfoldable pub delete : LocalStorage → Str → State → Option GoError × State
  unfolding resolve_within_base
  delete l path s = elim (resolve_within_base l.base_path path) [
    | err e ↦ (some e, s)
    | ok full ↦
        let (failure, s') = D.remove full s in
        elim failure [
          | none ↦ (none, s')
          | some e ↦
              if e.not_exist
              then (none, s')
              else (some (wrapped (lit "failed to delete file") e.error), s')
        ]
  ]

  unfoldable pub exists : LocalStorage → Str → State → Result Bool
  unfolding resolve_within_base
  exists l path s = elim (resolve_within_base l.base_path path) [
    | err e ↦ err e
    | ok full ↦ elim (D.stat full s) [
      | none ↦ ok true
      | some e ↦
          if e.not_exist then ok false else err (wrapped (lit "failed to check file") e.error)
    ]
  ]

  unfoldable pub get_url : LocalStorage → Str → Str
  get_url l path =
      if not (str_eq l.base_url (lit ""))
      then l.base_url ++ b'/' ∷ path
      else lit "/uploads/" ++ path

  unfoldable pub list : LocalStorage → Str → State → Result (List FileInfo)
  unfolding resolve_within_base
  list l prefix s = elim (resolve_within_base l.base_path prefix) [
    | err e ↦ err e
    | ok full ↦
        let (failure, files) = D.walk l.base_path full s in
        elim failure [
          | none ↦ ok files
          | some e ↦
              if not e.not_exist
              then err (wrapped (lit "failed to list files") e.error)
              else ok files
        ]
  ]
