-- ===== src/Csv/Rounds.antt =====
-- The loop over the values of a line ends within the rounds that `moveNext` is given here.
use werk.Prelude.{
  ℕ, zero, suc, ◌≤◌, ◌<◌, ◌≡◌, refl, ap, subst, [], ◌∷◌, Option, none, some, ◌==◌, length,
  Option-cases, inl, inr, arith, Bool-cases,
}
use mathlib.Core.Option.{none-ne-some, some-injective}
use werk.Prelude.Keys.{Text}
use werk.Csv.Line.{cons_first, until_comma, after_quote, split_value, unquote, fields}

-- What is left of a line of a length.
abbrev Shorter : ℕ → Text × Option Text → Type 0
Shorter n (s, none) = Unit
Shorter n (s, some rest) = length rest < n

cons_first-Shorter :
    (c n : ℕ) (p : Text × Option Text) → Shorter n p → Shorter (suc n) (cons_first c p)
cons_first-Shorter c n (s, none) h = tt
cons_first-Shorter c n (s, some rest) h = omega arith

until_comma-Shorter : (t : Text) → Shorter (length t) (until_comma t)
unfolding until_comma
until_comma-Shorter [] = tt
until_comma-Shorter (c ∷ cs) = elim (Bool-cases (c == b',')) [
  | inl e ↦ rw (e, until_comma) (omega arith)
  | inr e ↦
      rw (e, until_comma)
        (cons_first-Shorter c (length cs) (until_comma cs) (until_comma-Shorter cs))
]

after_quote-Shorter : (t : Text) → Shorter (length t) (after_quote t)
unfolding after_quote
after_quote-Shorter [] = tt
after_quote-Shorter (c ∷ cs) = elim (Bool-cases (c == b'"')) [
  | inl e ↦
      rw (e, after_quote)
        (cons_first-Shorter c (length cs) (until_comma cs) (until_comma-Shorter cs))
  | inr e ↦
      rw (e, after_quote)
        (cons_first-Shorter c (length cs) (after_quote cs) (after_quote-Shorter cs))
]

split_value-Shorter : (t : Text) → Shorter (length t) (split_value t)
unfolding split_value
split_value-Shorter [] = tt
split_value-Shorter (c ∷ cs) = elim (Bool-cases (c == b'"')) [
  | inl e ↦
      rw (e, split_value)
        (cons_first-Shorter c (length cs) (after_quote cs) (after_quote-Shorter cs))
  | inr e ↦ rw (e, split_value) (until_comma-Shorter (c ∷ cs))
]

Shorter-rest :
    (n : ℕ) (p : Text × Option Text) (rest : Text) → p.1 ≡ some rest → Shorter n p → length rest < n
Shorter-rest n (s, none) rest e h = absurd (none-ne-some rest e)
Shorter-rest n (s, some r) rest e h = subst (λ q. length q < n) (some-injective _ _ e) h

-- For any line, more rounds than the line has bytes give the same values.
pub fields-rounds :
    (trim : Text → Text) (n m : ℕ) (t : Text)
    → length t ≤ n
    → length t ≤ m
    → fields trim n t ≡ fields trim m t
unfolding fields
fields-rounds trim zero zero t hn hm = refl
fields-rounds trim zero (suc m) [] hn hm = refl
fields-rounds trim (suc n) zero [] hn hm = refl
fields-rounds trim (suc n) (suc m) t hn hm =
    ap (λ vs. unquote (trim (split_value t).0) ∷ vs)
      (elim (Option-cases (split_value t).1) [
        | inl e ↦ rw e refl
        | inr (rest, e) ↦
            let less = Shorter-rest (length t) (split_value t) rest e (split_value-Shorter t) in
            rw e (fields-rounds trim n m rest (omega arith) (omega arith))
      ])
fields-rounds trim zero (suc m) (c ∷ cs) hn hm = elim hn [ ]
fields-rounds trim (suc n) zero (c ∷ cs) hn hm = elim hm [ ]
