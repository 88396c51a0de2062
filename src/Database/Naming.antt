-- ===== src/Database/Naming.antt =====
-- strings.TrimSpace, as Create and findByName of internal/database/repository/instance_repository.go use
-- it one after the other.
use mathlib.Core.List.{reverse, reverse-append, reverse-cons, reverse-reverse}
use arandu_whatsapp.Prelude.{
  Bool, [], ap, arith, false, inl, inr, refl, subst, sym, true, ℕ, ◌++◌, ◌∙◌, ◌∷◌, ◌≡◌, ◌⊎◌,
}
use arandu_whatsapp.Prelude.Text.{Text, Unicode, trim_left, trim_space}

module _ (p : ℕ → Bool) where
  trim_left-twice : (s : Text) → trim_left p (trim_left p s) ≡ trim_left p s
  unfolding trim_left
  trim_left-twice [] = refl
  trim_left-twice (c ∷ s) = ground (arith, trim_left-twice s)

  trim_left-append :
      (s : Text) (c : ℕ) → p c ≡ false → trim_left p (s ++ c ∷ []) ≡ trim_left p s ++ c ∷ []
  unfolding trim_left
  trim_left-append [] c h = ground arith
  trim_left-append (d ∷ s) c h = ground (arith, trim_left-append s c h)

  trim_left-cases :
      (s : Text)
      → (trim_left p s ≡ [])
        ⊎ ((c : ℕ) × (rest : Text) × (trim_left p s ≡ c ∷ rest) × (p c ≡ false))
  unfolding trim_left
  trim_left-cases [] = inl refl
  trim_left-cases (c ∷ s) =
      (elim (p c)
          as (λ b.
            p c ≡ b
            → (trim_left p (c ∷ s) ≡ [])
              ⊎ ((d : ℕ) × (rest : Text) × (trim_left p (c ∷ s) ≡ d ∷ rest) × (p d ≡ false))) [
                | true ↦ λ e.
                    subst
                      (λ x. (x ≡ []) ⊎ ((d : ℕ) × (rest : Text) × (x ≡ d ∷ rest) × (p d ≡ false)))
                      {x = trim_left p s} (ground arith) (trim_left-cases s)
                | false ↦ λ e. inr (c, s, ground arith, e)
              ])
        refl

  trim_right-cons :
      (c : ℕ) (s : Text)
      → p c ≡ false
      → reverse (trim_left p (reverse (c ∷ s))) ≡ c ∷ reverse (trim_left p (reverse s))
  trim_right-cons c s h =
      ap (λ x. reverse (trim_left p x)) (reverse-cons c s)
      ∙ ap reverse (trim_left-append (reverse s) c h)
      ∙ reverse-append (trim_left p (reverse s)) (c ∷ [])

pub trim_space-twice : (u : Unicode) (s : Text) → trim_space u (trim_space u s) ≡ trim_space u s
unfolding trim_space
trim_space-twice u s = elim (trim_left-cases u.is_space s) [
  | inl e ↦
      let gone : trim_space u s ≡ [] = ap (λ x. reverse (trim_left u.is_space (reverse x))) e in
      ap (trim_space u) gone ∙ sym gone
  | inr (c, rest, e, h) ↦
      let kept : Text = c ∷ reverse (trim_left u.is_space (reverse rest)) in
      let once : trim_space u s ≡ kept =
        ap (λ x. reverse (trim_left u.is_space (reverse x))) e
        ∙ trim_right-cons u.is_space c rest h in
      let same : trim_left u.is_space kept ≡ kept = ground (arith, h) in
      ap (trim_space u) once
      ∙ ap (λ x. reverse (trim_left u.is_space (reverse x))) same
      ∙ trim_right-cons u.is_space c (reverse (trim_left u.is_space (reverse rest))) h
      ∙ ap (λ x. c ∷ reverse (trim_left u.is_space x))
          (reverse-reverse (trim_left u.is_space (reverse rest)))
      ∙ ap (λ x. c ∷ reverse x) (trim_left-twice u.is_space (reverse rest))
      ∙ sym once
]
