-- ===== src/Cursor/Tokens.antt =====
-- The tokens that a page carries lead back to its items.
use goscratch.Base.{
  ◌≡◌, ◌≢◌, refl, Bool, true, ◌&&◌, Option, none, some, [], ◌∷◌, arith, if◌then◌else◌, ltb, Str,
  str_eq, str_eq_iff, Bool-cases, inl, inr,
}
use goscratch.Apperr.{ok}
use goscratch.Cursor.{Cursor, Codec, encode, decode_cursor, token_of}

unfoldable pub is_ascii : Str → Bool
is_ascii [] = true
is_ascii (b ∷ s) = ltb b 128 && is_ascii s

-- What the encoders promise: a cursor can be marshalled, the JSON of a cursor of ASCII texts is
-- read back (of bytes that are not UTF-8 it need not be), base64 is read back, and encodes a JSON
-- text as a text that is not empty.
pub record IsLossless (codec : Codec) : Type 0 where
  pub json : Cursor → Str
  pub marshals : (c : Cursor) → codec.marshal c ≡ some (json c)
  pub unmarshals :
      (c : Cursor)
      → is_ascii c.last_id ≡ true
      → is_ascii c.direction ≡ true
      → codec.unmarshal (json c) ≡ ok c
  pub decodes : (s : Str) → codec.of_base64 (codec.to_base64 s) ≡ ok s
  pub nonempty : (c : Cursor) → codec.to_base64 (json c) ≢ []

module _ (codec : Codec) (L : IsLossless codec) where
  -- With such encoders, decoding an encoded cursor of ASCII texts gives the cursor back if it names
  -- an item, and no cursor (without an error) if its last_id is empty.
  pub decode_cursor-encode :
      (c : Cursor)
      → is_ascii c.last_id ≡ true
      → is_ascii c.direction ≡ true
      → decode_cursor codec (encode codec c)
        ≡ (if str_eq c.last_id [] then ok none else ok (some c))
  unfolding decode_cursor encode
  decode_cursor-encode c id_ascii direction_ascii = elim (Bool-cases (str_eq c.last_id [])) [
    | inl empty ↦ rw (empty, encode) (unfold str_eq in refl)
    | inr named ↦ ground (
      arith,
      L.marshals c,
      L.unmarshals c id_ascii direction_ascii,
      L.decodes (L.json c),
      str_eq_iff (codec.to_base64 (L.json c)) [],
      L.nonempty c,
    )
  ]

  -- With such encoders the token of an item that has an ASCII id decodes to the item's cursor, with
  -- the direction that the page put into it.
  pub decode_cursor-token_of {ℓ} :
      {T : Type ℓ} (cursor_fn : T → Option Cursor) (direction : Str) (item : T) (c : Cursor)
      → cursor_fn item ≡ some c
      → c.last_id ≢ []
      → is_ascii c.last_id ≡ true
      → is_ascii direction ≡ true
      → (token : Str) × (token_of codec cursor_fn direction (some item) ≡ some token)
        × (decode_cursor codec token ≡ ok (some (record c { direction = direction })))
  unfolding token_of
  decode_cursor-token_of cursor_fn direction item c made named id_ascii direction_ascii = (
    encode codec (record c { direction = direction }),
    rw (made, token_of),
    ground (
      arith,
      decode_cursor-encode (record c { direction = direction }) id_ascii direction_ascii,
      str_eq_iff c.last_id [],
    ),
  )
