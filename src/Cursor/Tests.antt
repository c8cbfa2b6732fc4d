-- ===== src/Cursor/Tests.antt =====
-- Pages and tokens with a length-prefixed text in place of JSON.
use goscratch.Base.{
  ◌≡◌, refl, ap, true, Option, some, List, [], ◌∷◌, ◌++◌, arith, Str, lit, str_eq, length, take,
  drop,
}
use goscratch.Base.Int.{pos}
use goscratch.Apperr.{Result, ok, err, plain}
use goscratch.Cursor.{Cursor, Codec, CursorPage, new_bidirectional_page, direction_prev}
use goscratch.Cursor.Pages.{IsWindow, bidirectional_page_window}
use goscratch.Cursor.Tokens.{IsLossless}

abbrev framed : Cursor → Str
framed c = length c.last_id ∷ c.last_id ++ c.direction

abbrev unframed : Str → Result Cursor
unframed [] = err (plain [])
unframed (n ∷ s) = ok (record { last_id = take n s; direction = drop n s })

abbrev pub codec : Codec
codec = record {
  marshal = λ c. some (framed c);
  unmarshal = unframed;
  to_base64 = λ s. s;
  of_base64 = λ s. ok s;
}

take-length : (s t : Str) → take (length s) (s ++ t) ≡ s
take-length [] t = refl
take-length (a ∷ s) t = ap (λ r. a ∷ r) (take-length s t)

drop-length : (s t : Str) → drop (length s) (s ++ t) ≡ t
drop-length [] t = refl
drop-length (a ∷ s) t = drop-length s t

pub codec-IsLossless : IsLossless codec
codec-IsLossless = record {
  json = framed;
  marshals = λ c. refl;
  unmarshals = λ c _ _. cc (take-length c.last_id c.direction, drop-length c.last_id c.direction);
  decodes = λ s. refl;
  nonempty = λ c h. ground arith;
}

abbrev by_id : Str → Option Cursor
by_id id = some (record { last_id = id; direction = [] })

abbrev rows : List Str
rows = lit "a" ∷ lit "b" ∷ lit "c" ∷ []

bidirectional_page_window_example :
    (p : CursorPage Str) × (new_bidirectional_page codec rows (pos 2) direction_prev true by_id
      ≡ some p)
    × IsWindow codec by_id rows 2 (str_eq direction_prev direction_prev) true p
bidirectional_page_window_example =
    bidirectional_page_window codec by_id rows 2 direction_prev true (omega arith) (omega arith)
