-- ===== src/Casbin/Cache/Order.antt =====
-- The linked list of the cache: what each list operation does to the elements found by handle.
use goscratch.Base.{
  nat_eq, str_eq_instance, ℕ, ◌≤◌, ◌<◌, ◌≡◌, refl, Bool, Option, none, some, [], ◌∷◌, arith, ◌==◌,
  if◌then◌else◌, Str, length, last?, Option-cases, inl, inr,
}
use goscratch.Base.Dict
use goscratch.Base.Dict.{Dict, get-remove, get-put}
use goscratch.Casbin.Cache.{Entry, entry_key, entry_value, move_to_front, set_value}

abbrev pub key_at : ℕ → Dict ℕ Entry → Option Str
key_at i order = entry_key (Dict.get i order)

abbrev pub value_at : ℕ → Dict ℕ Entry → Option Bool
value_at i order = entry_value (Dict.get i order)

-- no handle stands twice
abbrev pub Distinct : Dict ℕ Entry → Type 0
Distinct [] = Unit
Distinct ((i, e) ∷ order) = (Dict.get i order ≡ none) × Distinct order

pub get-move_to_front :
    (i j : ℕ) (order : Dict ℕ Entry) → Dict.get i (move_to_front j order) ≡ Dict.get i order
unfolding move_to_front
get-move_to_front i j order = elim (Option-cases (Dict.get j order)) [
  | inl absent ↦ ground arith
  | inr (e, found) ↦ ground (arith, get-put j i e order)
]

pub key_at-set_value :
    (i j : ℕ) (v : Bool) (order : Dict ℕ Entry) → key_at i (set_value j v order) ≡ key_at i order
unfolding set_value Dict.get
key_at-set_value i j v [] = refl
key_at-set_value i j v ((k, e) ∷ order) = ground (arith, key_at-set_value i j v order)

pub value_at-set_value :
    (i j : ℕ) (v : Bool) (order : Dict ℕ Entry) (k : Str)
    → key_at i order ≡ some k
    → value_at i (set_value j v order) ≡ (if i == j then some v else value_at i order)
unfolding set_value Dict.get
value_at-set_value i j v [] k h = ground arith
value_at-set_value i j v ((h, e) ∷ order) k p = ground (arith, value_at-set_value i j v order k)

get_none-set_value :
    (i j : ℕ) (v : Bool) (order : Dict ℕ Entry)
    → Dict.get i order ≡ none
    → Dict.get i (set_value j v order) ≡ none
get_none-set_value i j v order h = ground (arith, key_at-set_value i j v order)

pub set_value-Distinct :
    (j : ℕ) (v : Bool) (order : Dict ℕ Entry) → Distinct order → Distinct (set_value j v order)
unfolding set_value
set_value-Distinct j v [] d = tt
set_value-Distinct j v ((i, e) ∷ order) d =
    (get_none-set_value i j v order d.0, set_value-Distinct j v order d.1)

pub remove-Distinct :
    (j : ℕ) (order : Dict ℕ Entry) → Distinct order → Distinct (Dict.remove j order)
unfolding Dict.remove
remove-Distinct j [] d = tt
remove-Distinct j ((i, e) ∷ order) d = ground (arith, remove-Distinct j order, get-remove j i order)

pub move_to_front-Distinct :
    (j : ℕ) (order : Dict ℕ Entry) → Distinct order → Distinct (move_to_front j order)
unfolding move_to_front Dict.put
move_to_front-Distinct j order d = elim (Option-cases (Dict.get j order)) [
  | inl absent ↦ ground arith
  | inr (e, found) ↦ ground (arith, remove-Distinct j order d, get-remove j j order)
]

pub length-remove : (j : ℕ) (order : Dict ℕ Entry) → length (Dict.remove j order) ≤ length order
unfolding Dict.remove
length-remove j [] = ground arith
length-remove j ((i, e) ∷ order) = ground (arith, length-remove j order)

pub length-remove_found :
    (j : ℕ) (order : Dict ℕ Entry) (e : Entry)
    → Dict.get j order ≡ some e
    → length (Dict.remove j order) < length order
unfolding Dict.remove Dict.get
length-remove_found j [] e h = ground arith
length-remove_found j ((i, f) ∷ order) e h =
    ground (arith, length-remove j order, length-remove_found j order e)

pub length-move_to_front :
    (j : ℕ) (order : Dict ℕ Entry) → length (move_to_front j order) ≤ length order
unfolding move_to_front Dict.put
length-move_to_front j order = elim (Option-cases (Dict.get j order)) [
  | inl absent ↦ ground arith
  | inr (e, found) ↦ ground (arith, length-remove_found j order e found)
]

pub length-set_value :
    (j : ℕ) (v : Bool) (order : Dict ℕ Entry) → length (set_value j v order) ≡ length order
unfolding set_value
length-set_value j v [] = refl
length-set_value j v ((i, e) ∷ order) = ground (arith, length-set_value j v order)

-- the back of the list is found by its own handle
pub get-last :
    (order : Dict ℕ Entry) (i : ℕ) (e : Entry)
    → Distinct order
    → last? order ≡ some (i, e)
    → Dict.get i order ≡ some e
unfolding Dict.get
get-last [] i e d h = ground arith
get-last ((j, f) ∷ []) i e d h = ground arith
get-last ((j, f) ∷ (k, g) ∷ order) i e d h = ground (arith, get-last ((k, g) ∷ order) i e d.1 h)
