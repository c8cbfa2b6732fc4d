-- ===== src/Storage/Local/Clean.antt =====
-- filepath.Clean on a path that it has cleaned.
use mathlib.Core.List.{reverse, reverse-cons}
use goscratch.Base.{
  ◌≡◌, ◌≢◌, ◌⊎◌, inl, inr, refl, ap, sym, subst, ◌∙◌, arith, Bool, true, false, ◌||◌, Bool-cases,
  List-cases, List, [], ◌∷◌, ◌++◌, Str, lit, str_eq, str_eq_iff, split_on, join_with, split_on-sep,
  split_on-join_with, split_on-HasNone, HasNone, has_byte, All, All-append, All-weaken,
}
use goscratch.Storage.{is_plain}
use goscratch.Storage.Paths.{IsPlain}
use goscratch.Storage.Local.{push, push_all, is_rooted, clean_segments, path_text, clean}

abbrev Ups : List Str → Type 0
Ups = All (λ s. s ≡ lit "..")

-- What a stack of segments is: plain ones on top, and parents below them when the path is relative.
abbrev Normal : Bool → List Str → Type 0
Normal rooted [] = Unit
Normal rooted (x ∷ st) =
    HasNone b'/' x × ((IsPlain x ⊎ ((x ≡ lit "..") × (rooted ≡ false) × Ups st)) × Normal rooted st)

pub push_all-append :
    (rooted : Bool) (stack xs ys : List Str)
    → push_all rooted stack (xs ++ ys) ≡ push_all rooted (push_all rooted stack xs) ys
unfolding push_all
push_all-append rooted stack [] ys = refl
push_all-append rooted stack (x ∷ xs) ys = push_all-append rooted (push rooted stack x) xs ys

pub push-plain :
    (rooted : Bool) (stack : List Str) (seg : Str)
    → IsPlain seg
    → push rooted stack seg ≡ seg ∷ stack
unfolding push is_plain
push-plain rooted stack seg plain = ground arith

push_up :
    (rooted : Bool) (st : List Str)
    → rooted ≡ false
    → Ups st
    → push rooted st (lit "..") ≡ lit ".." ∷ st
unfolding push str_eq lit
push_up rooted [] relative ups = rw relative refl
push_up rooted (top ∷ below) relative ups = rw ups.0 refl

push-same :
    (rooted : Bool) (st : List Str) (x : Str) → Normal rooted (x ∷ st) → push rooted st x ≡ x ∷ st
push-same rooted st x h = elim h.1.0 [
  | inl plain ↦ push-plain rooted st x plain
  | inr (up, relative, ups) ↦ rw up (push_up rooted st relative ups)
]

-- a stack comes out again when its segments are pushed
push_all-same :
    (rooted : Bool) (st : List Str) → Normal rooted st → push_all rooted [] (reverse st) ≡ st
unfolding push_all
push_all-same rooted [] h = refl
push_all-same rooted (x ∷ st) h =
    ap (push_all rooted []) (reverse-cons x st)
    ∙ push_all-append rooted [] (reverse st) (x ∷ [])
    ∙ ap (λ t. push rooted t x) (push_all-same rooted st h.1.1)
    ∙ push-same rooted st x h

IsPlain-other :
    (x : Str)
    → str_eq x (lit "") ≡ false
    → str_eq x (lit ".") ≡ false
    → str_eq x (lit "..") ≡ false
    → IsPlain x
unfolding is_plain
IsPlain-other x h h' h'' = ground arith

parent_not_plain : is_plain (lit "..") ≡ false
unfolding is_plain str_eq lit
parent_not_plain = refl

-- below a parent there are only parents
Ups-below :
    (rooted : Bool) (top : Str) (below : List Str)
    → top ≡ lit ".."
    → Normal rooted (top ∷ below)
    → (rooted ≡ false) × Ups (top ∷ below)
Ups-below rooted top below up h = elim h.1.0 [
  | inl plain ↦ absurd (ground (arith, parent_not_plain, ap is_plain up, plain))
  | inr (_, relative, ups) ↦ (relative, (up, ups))
]

push_skip :
    (rooted : Bool) (st : List Str) (x : Str)
    → (str_eq x (lit "") || str_eq x (lit ".")) ≡ true
    → push rooted st x ≡ st
unfolding push
push_skip rooted st x skip = rw skip refl

push_pop :
    (rooted : Bool) (top : Str) (below : List Str)
    → str_eq top (lit "..") ≡ false
    → push rooted (top ∷ below) (lit "..") ≡ below
unfolding push str_eq lit
push_pop rooted top below other = rw other refl

parent_HasNone : HasNone b'/' (lit "..")
unfolding has_byte lit
parent_HasNone = refl

push_root : push true [] (lit "..") ≡ []
unfolding push str_eq lit
push_root = refl

pushed_up :
    (rooted : Bool) (st : List Str) → Normal rooted st → Normal rooted (push rooted st (lit ".."))
pushed_up true [] h = rw push_root tt
pushed_up false [] h = rw (push_up false [] refl tt) (parent_HasNone, (inr (refl, refl, tt), tt))
pushed_up rooted (top ∷ below) h = elim (Bool-cases (str_eq top (lit ".."))) [
  | inl up ↦
      let (relative, ups) = Ups-below rooted top below ((str_eq_iff top (lit "..")).0 up) h in
      rw (push_up rooted (top ∷ below) relative ups)
        (parent_HasNone, (inr (refl, relative, ups), h))
  | inr other ↦ rw (push_pop rooted top below other) h.1.1
]

push-Normal :
    (rooted : Bool) (st : List Str) (x : Str)
    → HasNone b'/' x
    → Normal rooted st
    → Normal rooted (push rooted st x)
push-Normal rooted st x none h = elim (Bool-cases (str_eq x (lit "") || str_eq x (lit "."))) [
  | inl skip ↦ rw (push_skip rooted st x skip) h
  | inr go ↦ elim (Bool-cases (str_eq x (lit ".."))) [
    | inr other ↦
        let plain = IsPlain-other x (ground arith) (ground arith) other in
        rw (push-plain rooted st x plain) (none, (inl plain, h))
    | inl up ↦ rw ((str_eq_iff x (lit "..")).0 up) (pushed_up rooted st h)
  ]
]

push_all-Normal :
    (rooted : Bool) (st segs : List Str)
    → All (HasNone b'/') segs
    → Normal rooted st
    → Normal rooted (push_all rooted st segs)
unfolding push_all
push_all-Normal rooted st [] none h = h
push_all-Normal rooted st (x ∷ segs) none h =
    push_all-Normal rooted (push rooted st x) segs none.1 (push-Normal rooted st x none.0 h)

reverse-HasNone :
    (rooted : Bool) (st : List Str) → Normal rooted st → All (HasNone b'/') (reverse st)
reverse-HasNone rooted [] h = tt
reverse-HasNone rooted (x ∷ st) h =
    rw (reverse-cons x st)
      (All-append (HasNone b'/') (reverse st) (x ∷ []) (reverse-HasNone rooted st h.1.1) (h.0, tt))

-- the segments of a stack are not empty and hold no slash
abbrev IsSegment : Str → Type 0
IsSegment s = HasNone b'/' s × (s ≢ [])

plain-given : (x : Str) → IsPlain x ⊎ (x ≡ lit "..") → x ≢ []
unfolding is_plain str_eq lit
plain-given [] (inl plain) h = ground arith
plain-given [] (inr up) h = ground arith
plain-given (c ∷ x) shape h = ground arith

reverse-IsSegment : (rooted : Bool) (st : List Str) → Normal rooted st → All IsSegment (reverse st)
reverse-IsSegment rooted [] h = tt
reverse-IsSegment rooted (x ∷ st) h =
    let given : x ≢ [] =
      plain-given x (elim h.1.0 [ inl plain ↦ inl plain | inr (up, _, _) ↦ inr up ]) in
    rw (reverse-cons x st) (
      All-append IsSegment (reverse st) (x ∷ []) (reverse-IsSegment rooted st h.1.1)
        ((h.0, given), tt))

is_rooted-join :
    (s : Str) (segs : List Str) → IsSegment s → is_rooted (join_with b'/' (s ∷ segs)) ≡ false
unfolding join_with has_byte
is_rooted-join [] segs h = absurd (h.1 refl)
is_rooted-join (c ∷ s) [] h = ground (arith, h.0)
is_rooted-join (c ∷ s) (t ∷ segs) h = ground (arith, h.0)

push_empty : (rooted : Bool) (st : List Str) → push rooted st [] ≡ st
unfolding push str_eq lit
push_empty rooted st = refl

-- the text of normal segments is read as these
read_back :
    (rooted : Bool) (s : Str) (segs : List Str)
    → All IsSegment (s ∷ segs)
    → (is_rooted (path_text rooted (s ∷ segs)) ≡ rooted)
      × (push_all rooted [] (split_on b'/' (path_text rooted (s ∷ segs)))
          ≡ push_all rooted [] (s ∷ segs))
unfolding path_text push_all split_on
read_back false s segs h = (
  is_rooted-join s segs h.0,
  ap (push_all false []) (
      split_on-join_with b'/' s segs
        (All-weaken IsSegment (HasNone b'/') (λ x p. p.0) (s ∷ segs) h)),
)
read_back true s segs h = (
  ground arith,
  ap (push_all true []) (
        split_on-sep b'/' [] (join_with b'/' (s ∷ segs))
        ∙ ap (λ t. [] ∷ t)
            (split_on-join_with b'/' s segs
              (All-weaken IsSegment (HasNone b'/') (λ x p. p.0) (s ∷ segs) h)))
      ∙ ap (λ t. push_all true t (s ∷ segs)) (push_empty true []),
)

stack_back :
    (rooted : Bool) (st : List Str)
    → Normal rooted st
    → reverse st ≢ []
    → (is_rooted (path_text rooted (reverse st)) ≡ rooted)
      × (push_all rooted [] (split_on b'/' (path_text rooted (reverse st))) ≡ st)
stack_back rooted st normal ne = elim (List-cases (reverse st)) [
  | inl empty ↦ absurd (ne empty)
  | inr (s, segs, e) ↦
      let back =
        read_back rooted s segs (subst (All IsSegment) e (reverse-IsSegment rooted st normal)) in
      (
        ap (λ t. is_rooted (path_text rooted t)) e ∙ back.0,
        ap (λ t. push_all rooted [] (split_on b'/' (path_text rooted t))) e
            ∙ back.1
            ∙ ap (push_all rooted []) (sym e)
            ∙ push_all-same rooted st normal,
      )
]

-- A cleaned path with segments is cleaned to itself, with the same segments.
pub clean-clean :
    (base : Str)
    → clean_segments base ≢ []
    → (clean (clean base) ≡ clean base) × (clean_segments (clean base) ≡ clean_segments base)
unfolding clean clean_segments
clean-clean base ne =
    let rooted = is_rooted base in
    let st = push_all rooted [] (split_on b'/' base) in
    let normal = push_all-Normal rooted [] (split_on b'/' base) (split_on-HasNone b'/' base) tt in
    let back = stack_back rooted st normal ne in
    let text = path_text rooted (reverse st) in
    let segments : clean_segments text ≡ reverse st =
      ap (λ r. reverse (push_all r [] (split_on b'/' text))) back.0 ∙ ap reverse back.1 in
    (ap (λ r. path_text r (clean_segments text)) back.0 ∙ ap (path_text rooted) segments, segments)
