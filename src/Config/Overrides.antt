-- ===== src/Config/Overrides.antt =====
-- The overrides by environment variables: once is enough, and a set variable wins.
use goscratch.Base.{◌≡◌, ◌≢◌, refl, arith, some, if◌then◌else◌, Str, lit, str_eq, str_eq_iff}
use goscratch.Config.{
  Fields, no_fields, field, Value, text, number, flag, texts, struct, set_value, override,
  apply_env_overrides, apply_to_value, get, field_of, text_of, text_at,
}

set_value-twice : (e : Str) (v : Value) → set_value e (set_value e v) ≡ set_value e v
unfolding set_value
set_value-twice e (text s) = refl
set_value-twice e (number n) = ground arith
set_value-twice e (flag b) = refl
set_value-twice e (texts ss) = refl
set_value-twice e (struct fs) = refl

module _ (getenv : Str → Str) where
  override-twice :
      (tag : Str) (v : Value) → override getenv tag (override getenv tag v) ≡ override getenv tag v
  unfolding override
  override-twice tag v = ground (arith, set_value-twice (getenv tag) v)

  -- the value that a leaf gets is a leaf, which the walk overrides again
  apply_to_leaf :
      (tag : Str) (v : Value)
      → ((fs : Fields) → v ≢ struct fs)
      → apply_to_value getenv tag v ≡ override getenv tag v
  unfolding apply_to_value
  apply_to_leaf tag (text s) leaf = refl
  apply_to_leaf tag (number n) leaf = refl
  apply_to_leaf tag (flag b) leaf = refl
  apply_to_leaf tag (texts ss) leaf = refl
  apply_to_leaf tag (struct fs) leaf = absurd (leaf fs refl)

  override-leaf :
      (tag : Str) (v : Value)
      → ((fs : Fields) → v ≢ struct fs)
      → (fs : Fields) → override getenv tag v ≢ struct fs
  unfolding override set_value
  override-leaf tag (text s) leaf fs h = ground arith
  override-leaf tag (number n) leaf fs h = ground arith
  override-leaf tag (flag b) leaf fs h = ground arith
  override-leaf tag (texts ss) leaf fs h = ground arith
  override-leaf tag (struct gs) leaf fs h = absurd (leaf gs refl)

  leaf-twice :
      (tag : Str) (v : Value)
      → ((fs : Fields) → v ≢ struct fs)
      → apply_to_value getenv tag (apply_to_value getenv tag v) ≡ apply_to_value getenv tag v
  leaf-twice tag v leaf =
      rw
        (
          apply_to_leaf tag v leaf,
          apply_to_leaf tag (override getenv tag v) (override-leaf tag v leaf),
        )
        (override-twice tag v)

  same_field :
      (k tag : Str) (v v' : Value) (rest rest' : Fields)
      → v ≡ v'
      → rest ≡ rest'
      → field k tag v rest ≡ field k tag v' rest'
  same_field k tag v v' rest rest' p q = cc

  -- Applying the overrides a second time changes nothing, whatever the struct and the environment.
  pub apply_env_overrides-twice :
      (cfg : Fields)
      → apply_env_overrides getenv (apply_env_overrides getenv cfg) ≡ apply_env_overrides getenv cfg
  unfolding apply_env_overrides
  apply_env_overrides-twice no_fields = refl
  apply_env_overrides-twice (field k tag (struct fs) rest) =
      rw (apply_env_overrides-twice fs, apply_env_overrides-twice rest) refl
  apply_env_overrides-twice (field k tag (text s) rest) =
      same_field k tag _ _ _ _ (leaf-twice tag (text s) (λ fs h. ground arith))
        (apply_env_overrides-twice rest)
  apply_env_overrides-twice (field k tag (number n) rest) =
      same_field k tag _ _ _ _ (leaf-twice tag (number n) (λ fs h. ground arith))
        (apply_env_overrides-twice rest)
  apply_env_overrides-twice (field k tag (flag b) rest) =
      same_field k tag _ _ _ _ (leaf-twice tag (flag b) (λ fs h. ground arith))
        (apply_env_overrides-twice rest)
  apply_env_overrides-twice (field k tag (texts ss) rest) =
      same_field k tag _ _ _ _ (leaf-twice tag (texts ss) (λ fs h. ground arith))
        (apply_env_overrides-twice rest)

  -- the walk leaves keys and tags, and overrides each value
  get-apply_env_overrides :
      (key : Str) (cfg : Fields) (tag : Str) (v : Value)
      → get key cfg ≡ some (tag, v)
      → get key (apply_env_overrides getenv cfg) ≡ some (tag, apply_to_value getenv tag v)
  unfolding get apply_env_overrides
  get-apply_env_overrides key no_fields tag v h = absurd (ground arith)
  get-apply_env_overrides key (field k t w rest) tag v h =
      ground (arith, get-apply_env_overrides key rest tag v)

  text_set :
      (tag s : Str)
      → tag ≢ lit ""
      → text_of (some (tag, override getenv tag (text s)))
        ≡ (if str_eq (getenv tag) (lit "") then s else getenv tag)
  unfolding override set_value text_of
  text_set tag s tagged = ground (arith, str_eq_iff tag (lit ""))

  -- A text in a nested struct that has an env tag is, after the overrides, the value of that
  -- variable when it is set to a text that is not empty, and as before when it is not.
  pub text_at-apply_env_overrides :
      (outer inner tag tag' s : Str) (cfg fs : Fields)
      → get outer cfg ≡ some (tag, struct fs)
      → get inner fs ≡ some (tag', text s)
      → tag' ≢ lit ""
      → text_at outer inner (apply_env_overrides getenv cfg)
        ≡ (if str_eq (getenv tag') (lit "") then s else getenv tag')
  unfolding text_at field_of apply_to_value
  text_at-apply_env_overrides outer inner tag tag' s cfg fs found found' tagged =
      rw
        (
          get-apply_env_overrides outer cfg tag (struct fs) found,
          field_of,
          get-apply_env_overrides inner fs tag' (text s) found',
        )
        (text_set tag' s tagged)
