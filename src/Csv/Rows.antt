-- ===== src/Csv/Rows.antt =====
-- Rows as they are written, and what `moveNext` makes of them.
use werk.Prelude.{
  ℕ, zero, suc, ◌≤◌, ◌≡◌, refl, ◌∙◌, ap, sym, subst, List, [], ◌∷◌, ◌++◌, Option, none, some, Bool,
  true, false, ◌==◌, if◌then◌else◌, length, arith, All, length-append,
}
use werk.Prelude.Words.{add_u64}
use werk.Prelude.Keys.{Text, Lacks, last_of-append, without_last-append}
use werk.Csv.Line.{cons_first, until_comma, after_quote, split_value, unquote, fields}
use werk.Csv.{
  CsvParser, is_even, values, last_values, next_line, store_values, lines_left, drained,
  move_next_line, move_next,
}

-- A value without commas, or one in quotes.
pub data Cell : Type 0 where
  plain quoted : Text → Cell

abbrev pub content : Cell → Text
content (plain s) = s
content (quoted s) = s

abbrev pub cell_text : Cell → Text
cell_text (plain s) = s
cell_text (quoted s) = b'"' ∷ (s ++ (b'"' ∷ []))

abbrev StartsPlain : Text → Type 0
StartsPlain [] = Unit
StartsPlain (c ∷ cs) = (c == b'"') ≡ false

abbrev pub IsCell : (Text → Text) → Cell → Type 0
IsCell trim (plain s) = StartsPlain s × Lacks b',' s × (trim s ≡ s)
IsCell trim (quoted s) =
    Lacks b'"' s × (trim (b'"' ∷ (s ++ (b'"' ∷ []))) ≡ b'"' ∷ (s ++ (b'"' ∷ [])))

abbrev pub row_text : Cell → List Cell → Text
row_text c [] = cell_text c ++ []
row_text c (d ∷ ds) = cell_text c ++ (b',' ∷ row_text d ds)

abbrev tail : Option Text → Text
tail none = []
tail (some rest) = b',' ∷ rest

until_comma-tail : (o : Option Text) → until_comma (tail o) ≡ ([], o)
unfolding until_comma
until_comma-tail none = refl
until_comma-tail (some rest) = refl

until_comma-plain : (s : Text) (o : Option Text) → Lacks b',' s → until_comma (s ++ tail o) ≡ (s, o)
unfolding until_comma
until_comma-plain [] o h = until_comma-tail o
until_comma-plain (c ∷ s) o h = rw (h.0, until_comma, until_comma-plain s o h.1) refl

after_quote-quoted :
    (s : Text) (o : Option Text)
    → Lacks b'"' s
    → after_quote ((s ++ (b'"' ∷ [])) ++ tail o) ≡ (s ++ (b'"' ∷ []), o)
unfolding after_quote
after_quote-quoted [] o h = ap (cons_first b'"') (until_comma-tail o)
after_quote-quoted (c ∷ s) o h = rw (h.0, after_quote, after_quote-quoted s o h.1) refl

split_value-cell :
    (trim : Text → Text) (c : Cell) (o : Option Text)
    → IsCell trim c
    → split_value (cell_text c ++ tail o) ≡ (cell_text c, o)
unfolding split_value until_comma
split_value-cell trim (plain []) none h = refl
split_value-cell trim (plain []) (some rest) h = refl
split_value-cell trim (plain (c ∷ s)) o (start, lacks, same) =
    rw (start, split_value) (until_comma-plain (c ∷ s) o lacks)
split_value-cell trim (quoted s) o (lacks, same) =
    ap (cons_first b'"') (after_quote-quoted s o lacks)

unquote-cell :
    (trim : Text → Text) (c : Cell) → IsCell trim c → unquote (trim (cell_text c)) ≡ content c
unfolding unquote
unquote-cell trim (plain []) (start, lacks, same) = rw same refl
unquote-cell trim (plain (c ∷ [])) (start, lacks, same) = rw same refl
unquote-cell trim (plain (c ∷ d ∷ s)) (start, lacks, same) = rw (same, start, unquote) refl
unquote-cell trim (quoted []) (lacks, same) = rw same refl
unquote-cell trim (quoted (c ∷ s)) (lacks, same) =
    rw (same, last_of-append s c b'"', unquote, without_last-append (c ∷ s) b'"') refl

abbrev pub IsRow : (Text → Text) → List Cell → Type 0
IsRow trim = All (IsCell trim)

abbrev pub contents : List Cell → List Text
contents [] = []
contents (c ∷ cs) = content c ∷ contents cs

fields-row :
    (trim : Text → Text) (c : Cell) (cs : List Cell) (fuel : ℕ)
    → length cs ≤ fuel
    → IsRow trim (c ∷ cs)
    → fields trim fuel (row_text c cs) ≡ contents (c ∷ cs)
unfolding fields
fields-row trim c [] zero le (h, hs) =
    ap (λ p. unquote (trim p.0) ∷ []) (split_value-cell trim c none h)
    ∙ ap (λ s. s ∷ []) (unquote-cell trim c h)
fields-row trim c [] (suc fuel) le (h, hs) =
    rw (split_value-cell trim c none h, fields) (ap (λ s. s ∷ []) (unquote-cell trim c h))
fields-row trim c (d ∷ ds) zero le (h, hs) = elim le [ ]
fields-row trim c (d ∷ ds) (suc fuel) le (h, hs) =
    rw
      (
        split_value-cell trim c (some (row_text d ds)) h,
        fields,
        unquote-cell trim c h,
        fields-row trim d ds fuel (omega arith) hs,
      )
      refl

length-row_text : (c : Cell) (cs : List Cell) → length cs ≤ length (row_text c cs)
length-row_text c [] = omega arith
length-row_text c (d ∷ ds) =
    omega (arith, length-row_text d ds, length-append (cell_text c) (b',' ∷ row_text d ds))

-- The two buffers.
parity : (n : ℕ) → is_even (add_u64 n 1) ≡ (if is_even n then false else true)
parity n = ground arith

store_values-buffers :
    (vs : List Text) (p : CsvParser)
    → (values (store_values false vs p) ≡ vs)
      × (last_values (store_values false vs p) ≡ values p)
      × ((store_values false vs p).headers ≡ p.headers)
      × ((store_values false vs p).lines ≡ p.lines)
unfolding store_values values last_values
store_values-buffers vs p = ground (arith, parity p.values_n)

abbrev pub blank : ℕ → List Text
blank zero = []
blank (suc n) = [] ∷ blank n

next_line-blank : (n : ℕ) (ls : List Text) → next_line (blank n ++ ls) ≡ next_line ls
unfolding next_line
next_line-blank zero ls = refl
next_line-blank (suc n) ls = next_line-blank n ls

next_line-text : (s : Text) (ls : List Text) → ¬ (s ≡ []) → next_line (s ∷ ls) ≡ some (s, ls)
unfolding next_line
next_line-text [] ls h = absurd (h refl)
next_line-text (c ∷ cs) ls h = refl

-- Behind any number of blank lines, a written row is what `values` gives after `moveNext`, and the
-- values of before are what `lastValues` gives; the headers stay, and the row is taken off the file.
pub move_next-row :
    (trim : Text → Text) (n : ℕ) (c : Cell) (cs : List Cell) (ls : List Text) (p : CsvParser)
    → p.lines ≡ some (blank n ++ (row_text c cs ∷ ls))
    → ¬ (row_text c cs ≡ [])
    → IsRow trim (c ∷ cs)
    → let (success, p') = move_next trim false p in
      (success ≡ true)
      × (values p' ≡ contents (c ∷ cs))
      × (last_values p' ≡ values p)
      × (p'.headers ≡ p.headers)
      × (p'.lines ≡ some ls)
unfolding move_next lines_left values
move_next-row trim n c cs ls p h text row = subst (Moved p) (sym moved) (
  refl,
  buffers.0 ∙ fields-row trim c cs (length (row_text c cs)) (length-row_text c cs) row,
  buffers.1,
  buffers.2,
  buffers.3,
)
  where
    Moved : CsvParser → Bool × CsvParser → Type 0
    Moved p (success, p') =
        (success ≡ true)
        × (values p' ≡ contents (c ∷ cs))
        × (last_values p' ≡ values p)
        × (p'.headers ≡ p.headers)
        × (p'.lines ≡ some ls)

    moved : move_next trim false p ≡ move_next_line trim false (some (row_text c cs, ls)) p
    moved =
        ap (λ o. move_next_line trim false (next_line (lines_left o)) p) h
        ∙ ap (λ o. move_next_line trim false o p)
            (next_line-blank n (row_text c cs ∷ ls) ∙ next_line-text (row_text c cs) ls text)

    buffers :
        let p' =
          store_values false
            (fields trim (length (row_text c cs)) (row_text c cs))
            (record p { lines = some ls; line = row_text c cs }) in
        (values p' ≡ fields trim (length (row_text c cs)) (row_text c cs))
        × (last_values p' ≡ values p)
        × (p'.headers ≡ p.headers)
        × (p'.lines ≡ some ls)
    buffers =
        store_values-buffers (fields trim (length (row_text c cs)) (row_text c cs))
          (record p { lines = some ls; line = row_text c cs })

-- At the end of the file, behind any number of blank lines, `moveNext` fails; `values` is then empty
-- and `lastValues` keeps the last row.
pub move_next-end :
    (trim : Text → Text) (n : ℕ) (p : CsvParser)
    → p.lines ≡ some (blank n)
    → let (success, p') = move_next trim false p in
      (success ≡ false) × (values p' ≡ []) × (last_values p' ≡ values p) × (p'.headers ≡ p.headers)
unfolding move_next lines_left values next_line
move_next-end trim n p h = subst (Ended p) (sym moved) (refl, buffers.0, buffers.1, buffers.2)
  where
    Ended : CsvParser → Bool × CsvParser → Type 0
    Ended p (success, p') =
        (success ≡ false)
        × (values p' ≡ [])
        × (last_values p' ≡ values p)
        × (p'.headers ≡ p.headers)

    next_line-none : (n : ℕ) → next_line (blank n) ≡ none
    next_line-none zero = refl
    next_line-none (suc n) = next_line-none n

    moved : move_next trim false p ≡ move_next_line trim false none p
    moved =
        ap (λ o. move_next_line trim false (next_line (lines_left o)) p) h
        ∙ ap (λ o. move_next_line trim false o p) (next_line-none n)

    buffers :
        let p' = store_values false [] (record p { lines = drained p.lines; line = [] }) in
        (values p' ≡ [])
        × (last_values p' ≡ values p)
        × (p'.headers ≡ p.headers)
        × (p'.lines ≡ drained p.lines)
    buffers = store_values-buffers [] (record p { lines = drained p.lines; line = [] })
