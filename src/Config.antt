-- ===== src/Config.antt =====
-- internal/platform/config/config.go: the configuration, its overrides by environment variables and
-- its validation. applyEnvOverrides walks the struct by reflection; a struct is here what the
-- reflection sees, the list of its fields with the json key and the env tag of each. Reading the
-- file, godotenv and json.Unmarshal are parameters. Of the spaces that strings.TrimSpace cuts off
-- the ASCII ones are modelled.
pub mod Shape
pub mod Overrides
pub mod Validation
mod Tests
use goscratch.Base.{
  ℕ, zero, suc, ◌+◌, ◌-◌, ◌*◌, Bool, true, false, not, ◌&&◌, ◌||◌, Option, none, some, List, [],
  ◌∷◌, ◌++◌, map, if◌then◌else◌, ltb, leb, ◌==◌, length, filter_by, Str, lit, str_eq, split_on,
}
use goscratch.Base.Int64.{mul_64, lt_64}
use goscratch.Apperr.{GoError, plain, wrapped, Result, ok, err}
use mathlib.Core.List.{reverse}

mutual
  -- the fields of a struct; a nested struct has no env tag, which is the empty one
  pub data Fields : Type 0 where
    no_fields : Fields
    field : Str → Str → Value → Fields → Fields

  -- an int is its 64 bits
  pub data Value : Type 0 where
    text : Str → Value
    number : ℕ → Value
    flag : Bool → Value
    texts : List Str → Value
    struct : Fields → Value

-- strconv.ParseInt(s, 10, 64): the 64 bits of the number, `none` on an error
unfoldable pub digits : ℕ → Str → Option ℕ
digits n [] = some n
digits n (c ∷ s) =
    let rest = digits (n * 10 + (c - 48)) s in if leb 48 c && leb c 57 then rest else none

unfoldable pub magnitude : Str → Option ℕ
unfolding digits
magnitude [] = none
magnitude (c ∷ s) = digits 0 (c ∷ s)

unfoldable pub parse_int : Str → Option ℕ
unfolding magnitude
parse_int [] = none
parse_int (c ∷ s) =
    if c == 45
    then elim (magnitude s) [
      | none ↦ none
      | some n ↦
          if n == 0
          then some 0
          else if leb n 9223372036854775808
          then some (18446744073709551616 - n)
          else none
    ]
    else elim (magnitude (if c == 43 then s else c ∷ s)) [
      | none ↦ none
      | some n ↦ if ltb n 9223372036854775808 then some n else none
    ]

-- strings.ToLower, as far as a comparison with an ASCII word sees it
unfoldable pub to_lower : Str → Str
to_lower = map (λ c. if leb 65 c && leb c 90 then c + 32 else c)

unfoldable pub is_space : ℕ → Bool
is_space c = (c == 32) || (leb 9 c && leb c 13)

unfoldable pub trim_left : Str → Str
unfolding is_space
trim_left [] = []
trim_left (c ∷ s) = let rest = trim_left s in if is_space c then rest else c ∷ s

unfoldable pub trim_space : Str → Str
unfolding trim_left
trim_space s = reverse (trim_left (reverse (trim_left s)))

unfoldable pub trimmed_parts : Str → List Str
unfolding trim_space
trimmed_parts s = filter_by (λ p. not (str_eq p (lit ""))) (map trim_space (split_on b',' s))

-- the value of a field that a non-empty variable sets
unfoldable pub set_value : Str → Value → Value
unfolding parse_int to_lower trimmed_parts
set_value env_value (text s) = text env_value
set_value env_value (number n) = elim (parse_int env_value) [ some k ↦ number k | none ↦ number n ]
set_value env_value (flag b) =
    flag (str_eq (to_lower env_value) (lit "true") || str_eq env_value (lit "1"))
set_value env_value (texts ss) = texts (trimmed_parts env_value)
set_value env_value (struct fs) = struct fs

module _ (getenv : Str → Str) where
  unfoldable pub override : Str → Value → Value
  unfolding set_value
  override tag v =
      if str_eq tag (lit "")
      then v
      else if str_eq (getenv tag) (lit "")
      then v
      else set_value (getenv tag) v

  unfoldable mutual
    unfolding override

    pub apply_env_overrides : Fields → Fields
    apply_env_overrides no_fields = no_fields
    apply_env_overrides (field key tag v rest) =
        field key tag (apply_to_value tag v) (apply_env_overrides rest)

    pub apply_to_value : Str → Value → Value
    apply_to_value tag (struct fs) = struct (apply_env_overrides fs)
    apply_to_value tag (text s) = override tag (text s)
    apply_to_value tag (number n) = override tag (number n)
    apply_to_value tag (flag b) = override tag (flag b)
    apply_to_value tag (texts ss) = override tag (texts ss)

-- the field of a struct with a json key: its env tag and its value
unfoldable pub get : Str → Fields → Option (Str × Value)
get key no_fields = none
get key (field k tag v rest) =
    let later = get key rest in if str_eq k key then some (tag, v) else later

-- the field of a nested struct, when it is a text
unfoldable pub text_of : Option (Str × Value) → Str
text_of none = []
text_of (some (tag, text s)) = s
text_of (some (tag, v)) = []

unfoldable pub field_of : Str → Option (Str × Value) → Option (Str × Value)
unfolding get
field_of key none = none
field_of key (some (tag, struct fs)) = get key fs
field_of key (some (tag, v)) = none

unfoldable pub text_at : Str → Str → Fields → Str
unfolding get text_of field_of
text_at outer inner cfg = text_of (field_of inner (get outer cfg))

-- Load; godotenv has filled the environment before
unfoldable pub load :
    (Str → Result Str) → (Str → Fields → Result Fields) → (Str → Str) → Fields → Str → Result Fields
unfolding apply_env_overrides
load read_file unmarshal getenv zero_value path = elim (read_file path) [
  | err e ↦ err (wrapped (lit "failed to read config file") e)
  | ok data' ↦ elim (unmarshal data' zero_value) [
    | err e ↦ err (wrapped (lit "failed to parse config file") e)
    | ok cfg ↦ ok (apply_env_overrides getenv cfg)
  ]
]

abbrev pub placeholder_jwt_secret : Str
placeholder_jwt_secret = lit "your-super-secret-key-change-in-production"

abbrev pub min_jwt_secret_len : ℕ
min_jwt_secret_len = 32

-- Validate; the number of bytes of a secret that is too short is left out of the error
unfoldable pub validate : Fields → Option GoError
unfolding text_at
validate cfg =
    let secret = text_at (lit "jwt") (lit "secret") cfg in
    if str_eq secret (lit "")
    then some (
        plain (
          lit
            "jwt.secret is required: set the JWT_SECRET env override to a value of at least 32 bytes"))
    else if str_eq secret placeholder_jwt_secret
    then some (plain (lit "jwt.secret is the committed placeholder"))
    else if ltb (length secret) min_jwt_secret_len
    then some (plain (lit "jwt.secret is too short; minimum is 32"))
    else if str_eq (text_at (lit "jwt") (lit "issuer") cfg) (lit "")
    then some (plain (lit "jwt.issuer is required"))
    else if str_eq (text_at (lit "jwt") (lit "audience") cfg) (lit "")
    then some (plain (lit "jwt.audience is required"))
    else none

unfoldable pub is_development : Fields → Bool
unfolding text_at
is_development cfg = str_eq (text_at (lit "app") (lit "env") cfg) (lit "development")

unfoldable pub is_production : Fields → Bool
unfolding text_at
is_production cfg = str_eq (text_at (lit "app") (lit "env") cfg) (lit "production")

-- AccessTokenDuration and RefreshTokenDuration: minutes, in nanoseconds
unfoldable pub token_duration : ℕ → ℕ
token_duration minutes = mul_64 minutes 60000000000

-- ReadinessTimeout: seconds, in nanoseconds
unfoldable pub readiness_timeout : ℕ → ℕ
readiness_timeout seconds =
    if lt_64 0 seconds then mul_64 seconds 1000000000 else mul_64 2 1000000000
