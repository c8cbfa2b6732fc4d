-- ===== src/Config/Validation.antt =====
-- What a validated configuration is.
use goscratch.Base.{
  ◌≡◌, ◌≢◌, ◌≤◌, ◌↔◌, refl, arith, false, none, length, Str, lit, str_eq, str_eq_iff, inl, inr,
  Bool-cases, subst, le→ltb,
}
use goscratch.Config.{Fields, text_at, validate, placeholder_jwt_secret}

not_same : (s t : Str) → (str_eq s t ≡ false) ↔ (s ≢ t)
not_same s t = (
  λ h e. ground (arith, str_eq_iff s t),
  λ ne. elim (Bool-cases (str_eq s t)) [
    | inl same ↦ absurd (ne ((str_eq_iff s t).0 same))
    | inr other ↦ other
  ],
)

long_enough : (s : Str) → 32 ≤ length s → str_eq s (lit "") ≡ false
unfolding lit
long_enough s h = elim (Bool-cases (str_eq s (lit ""))) [
  | inr other ↦ other
  | inl empty ↦
      absurd (omega (arith, subst (λ t. 32 ≤ length t) ((str_eq_iff s (lit "")).0 empty) h))
]

-- Validate accepts a configuration exactly when the secret for the tokens has at least 32 bytes and
-- is not the one that the default file comes with, and neither the issuer nor the audience is
-- empty.
pub validate_iff :
    (cfg : Fields)
    → (validate cfg ≡ none) ↔ (
        (32 ≤ length (text_at (lit "jwt") (lit "secret") cfg))
        × (text_at (lit "jwt") (lit "secret") cfg ≢ placeholder_jwt_secret)
        × (text_at (lit "jwt") (lit "issuer") cfg ≢ lit "")
        × (text_at (lit "jwt") (lit "audience") cfg ≢ lit ""))
unfolding validate
validate_iff cfg =
    let secret = text_at (lit "jwt") (lit "secret") cfg in
    let issuer = text_at (lit "jwt") (lit "issuer") cfg in
    let audience = text_at (lit "jwt") (lit "audience") cfg in
    (
      λ accepted. (
        ground arith,
        (not_same secret placeholder_jwt_secret).0 (ground arith),
        (not_same issuer (lit "")).0 (ground arith),
        (not_same audience (lit "")).0 (ground arith),
      ),
      λ h.
          rw
            (
              long_enough secret h.0,
              (not_same secret placeholder_jwt_secret).1 h.1,
              le→ltb (length secret) 32 h.0,
              (not_same issuer (lit "")).1 h.2,
              (not_same audience (lit "")).1 h.3,
              validate,
            )
            refl,
    )
