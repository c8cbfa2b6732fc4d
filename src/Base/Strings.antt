-- ===== src/Base/Strings.antt =====
-- Go strings as byte sequences: equality, literals, and the operations of Go's `strings` that the
-- program calls (HasPrefix, ContainsRune of one byte, Split on a one-byte separator, Join).
use Prim.Native.Nat.{ℕ}
use Prim.Native.Char.{code}
use Prim.Native.String.{String}
use mathlib.Core.Path.{◌≡◌, refl, ap, ◌∙◌}
use mathlib.Core.Logic.{◌↔◌, ◌≢◌}
use mathlib.Core.Bool.{Bool, true, false, ◌&&◌, ◌||◌}
use mathlib.Core.List.{List, [], ◌∷◌, ◌++◌}
use native.Mathlib.Omega.{arith}
use goscratch.Base.Lists.{All}
use goscratch.Base.Tests.{◌==◌, Eq, if◌then◌else◌, if_ind}

abbrev pub Str : Type 0
Str = List ℕ

-- The bytes of an ASCII literal.
unfoldable pub lit : String → Str
lit String.[] = []
lit (String.◌∷◌ c s) = code c ∷ lit s

unfoldable pub str_eq : Str → Str → Bool
str_eq [] [] = true
str_eq (a ∷ s) (b ∷ t) = a == b && str_eq s t
str_eq _ _ = false

str_eq→eq : (s t : Str) → str_eq s t ≡ true → s ≡ t
unfolding str_eq
str_eq→eq [] [] h = refl
str_eq→eq [] (b ∷ t) h = ground arith
str_eq→eq (a ∷ s) [] h = ground arith
str_eq→eq (a ∷ s) (b ∷ t) h = ground (arith, str_eq→eq s t)

pub str_eq_refl : (s : Str) → str_eq s s ≡ true
unfolding str_eq
str_eq_refl [] = refl
str_eq_refl (a ∷ s) = ground (arith, str_eq_refl s)

pub str_eq_iff : (s t : Str) → (str_eq s t ≡ true) ↔ (s ≡ t)
str_eq_iff s t = (str_eq→eq s t, λ e. rw e (str_eq_refl t))

instance abbrev pub str_eq_instance : Eq Str
str_eq_instance = record { beq = str_eq; beq_iff = str_eq_iff }

-- strings.HasPrefix(s, p)
unfoldable pub has_prefix : Str → Str → Bool
has_prefix s [] = true
has_prefix [] (b ∷ p) = false
has_prefix (a ∷ s) (b ∷ p) = a == b && has_prefix s p

-- strings.ContainsRune(s, b) for a one-byte rune
unfoldable pub has_byte : ℕ → Str → Bool
has_byte b [] = false
has_byte b (a ∷ s) = a == b || has_byte b s

pub has_prefix-append : (p s : Str) → has_prefix (p ++ s) p ≡ true
unfolding has_prefix
has_prefix-append [] s = refl
has_prefix-append (a ∷ p) s = ground (arith, has_prefix-append p s)

-- Two texts that a separator follows and that do not hold it agree with their rests.
pub append_sep_injective :
    (b : ℕ) (s t u v : Str)
    → has_byte b s ≡ false
    → has_byte b t ≡ false
    → s ++ b ∷ u ≡ t ++ b ∷ v
    → (s ≡ t) × (u ≡ v)
unfolding has_byte
append_sep_injective b [] [] u v hs ht e = ground arith
append_sep_injective b [] (c ∷ t) u v hs ht e = ground arith
append_sep_injective b (a ∷ s) [] u v hs ht e = ground arith
append_sep_injective b (a ∷ s) (c ∷ t) u v hs ht e = ground (arith, append_sep_injective b s t u v)

-- A text that begins with `t` and the separator has `t` as its first part.
pub has_prefix-sep :
    (b : ℕ) (s t u : Str)
    → has_byte b s ≡ false
    → has_byte b t ≡ false
    → has_prefix (s ++ b ∷ u) (t ++ b ∷ []) ≡ str_eq s t
unfolding has_byte has_prefix str_eq
has_prefix-sep b [] [] u hs ht = ground arith
has_prefix-sep b [] (c ∷ t) u hs ht = ground arith
has_prefix-sep b (a ∷ s) [] u hs ht = ground arith
has_prefix-sep b (a ∷ s) (c ∷ t) u hs ht = ground (arith, has_prefix-sep b s t u)

-- strings.Split(s, sep) for a one-byte separator: the parts, of which there is at least one.
prepend_to_first : ℕ → List Str → List Str
prepend_to_first a [] = (a ∷ []) ∷ []
prepend_to_first a (p ∷ ps) = (a ∷ p) ∷ ps

unfoldable pub split_on : ℕ → Str → List Str
unfolding prepend_to_first
split_on b [] = [] ∷ []
split_on b (a ∷ s) =
    let rest = split_on b s in if a == b then [] ∷ rest else prepend_to_first a rest

-- strings.Join(parts, sep) for a one-byte separator
unfoldable pub join_with : ℕ → List Str → Str
join_with b [] = []
join_with b (p ∷ []) = p
join_with b (p ∷ q ∷ ps) = p ++ b ∷ join_with b (q ∷ ps)

-- A text that begins with `s` and the separator begins with just that.
pub has_prefix-sep_self : (b : ℕ) (s u : Str) → has_prefix (s ++ (b ∷ u)) (s ++ (b ∷ [])) ≡ true
unfolding has_prefix
has_prefix-sep_self b [] u = ground arith
has_prefix-sep_self b (a ∷ s) u = ground (arith, has_prefix-sep_self b s u)

abbrev pub HasNone : ℕ → Str → Type 0
HasNone b s = has_byte b s ≡ false

prepend_to_first-HasNone :
    (b a : ℕ) (ps : List Str)
    → (a == b) ≡ false
    → All (HasNone b) ps
    → All (HasNone b) (prepend_to_first a ps)
unfolding prepend_to_first has_byte
prepend_to_first-HasNone b a [] ne h = (ground arith, tt)
prepend_to_first-HasNone b a (p ∷ ps) ne h = (ground (arith, h.0), h.1)

-- No part of a split text holds the separator.
pub split_on-HasNone : (b : ℕ) (s : Str) → All (HasNone b) (split_on b s)
unfolding split_on has_byte
split_on-HasNone b [] = (refl, tt)
split_on-HasNone b (a ∷ s) =
    if_ind (All (HasNone b)) (a == b) (λ _. (refl, split_on-HasNone b s))
      (λ ne. prepend_to_first-HasNone b a (split_on b s) ne (split_on-HasNone b s))

split_on-part : (b : ℕ) (p : Str) → HasNone b p → split_on b p ≡ p ∷ []
unfolding split_on has_byte prepend_to_first
split_on-part b [] h = refl
split_on-part b (a ∷ p) h = ground (arith, split_on-part b p)

split_on-append : (b : ℕ) (p s : Str) → HasNone b p → split_on b (p ++ (b ∷ s)) ≡ p ∷ split_on b s
unfolding split_on has_byte prepend_to_first
split_on-append b [] s h = ground arith
split_on-append b (a ∷ p) s h = ground (arith, split_on-append b p s)

-- Parts without the separator are found again in the joined text.
pub split_on-join_with :
    (b : ℕ) (p : Str) (ps : List Str)
    → All (HasNone b) (p ∷ ps)
    → split_on b (join_with b (p ∷ ps)) ≡ p ∷ ps
unfolding join_with
split_on-join_with b p [] h = split_on-part b p h.0
split_on-join_with b p (q ∷ ps) h =
    split_on-append b p (join_with b (q ∷ ps)) h.0
    ∙ ap (λ qs. p ∷ qs) (split_on-join_with b q ps h.1)

prepend_to_first-append :
    (a : ℕ) (ps qs : List Str)
    → ps ≢ []
    → prepend_to_first a (ps ++ qs) ≡ prepend_to_first a ps ++ qs
unfolding prepend_to_first
prepend_to_first-append a [] qs ne = absurd (ne refl)
prepend_to_first-append a (p ∷ ps) qs ne = refl

pub split_on-nonempty : (b : ℕ) (s : Str) → split_on b s ≢ []
unfolding split_on prepend_to_first
split_on-nonempty b [] h = ground arith
split_on-nonempty b (a ∷ s) h = ground (arith, split_on-nonempty b s)

-- A separator between two texts splits them apart.
pub split_on-sep : (b : ℕ) (s t : Str) → split_on b (s ++ (b ∷ t)) ≡ split_on b s ++ split_on b t
unfolding split_on
split_on-sep b [] t = ground arith
split_on-sep b (a ∷ s) t = ground (
  arith,
  split_on-sep b s t,
  prepend_to_first-append a (split_on b s) (split_on b t) (split_on-nonempty b s),
)

join_with-prepend :
    (b a : ℕ) (ps : List Str) → ps ≢ [] → join_with b (prepend_to_first a ps) ≡ a ∷ join_with b ps
unfolding join_with prepend_to_first
join_with-prepend b a [] ne = absurd (ne refl)
join_with-prepend b a (p ∷ []) ne = refl
join_with-prepend b a (p ∷ q ∷ ps) ne = refl

join_with-empty : (b : ℕ) (ps : List Str) → ps ≢ [] → join_with b ([] ∷ ps) ≡ b ∷ join_with b ps
unfolding join_with
join_with-empty b [] ne = absurd (ne refl)
join_with-empty b (p ∷ ps) ne = refl

-- A text that is split is joined again.
pub join_with-split_on : (b : ℕ) (s : Str) → join_with b (split_on b s) ≡ s
unfolding split_on join_with
join_with-split_on b [] = refl
join_with-split_on b (a ∷ s) = ground (
  arith,
  join_with-split_on b s,
  join_with-prepend b a (split_on b s) (split_on-nonempty b s),
  join_with-empty b (split_on b s) (split_on-nonempty b s),
)
