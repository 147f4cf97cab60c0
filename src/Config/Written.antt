-- ===== src/Config/Written.antt =====
-- Ini files as they are written: sections of keys with values.
use werk.Prelude.{List, [], ◌∷◌, ◌++◌, some, true, false, ◌≡◌, refl, ◌∙◌, ap, All, All-append, ◌==◌}
use werk.Prelude.Keys.{
  Text, text_eq, insert, Lacks, Lacks-append, last_of-append, without_last-append,
}
use werk.Config.Ini.{
  lines_of, reload_lines, reload_ini, classify, skip_blanks, header, assignment, split_equal,
  dotted, scope, assign,
}
use werk.Config.Source.{ConfigValues, insert_all, insert_all-append}

-- Lines with an end behind each.
abbrev pub unlines : List Text → Text
unlines [] = []
unlines (l ∷ ls) = l ++ (10 ∷ unlines ls)

lines_of-line : (l rest : Text) → Lacks 10 l → lines_of (l ++ (10 ∷ rest)) ≡ l ∷ lines_of rest
unfolding lines_of
lines_of-line [] rest h = refl
lines_of-line (ch ∷ l) rest h = rw (h.0, lines_of, lines_of-line l rest h.1) refl

pub lines_of-unlines : (ls : List Text) → All (Lacks 10) ls → lines_of (unlines ls) ≡ ls
unfolding lines_of
lines_of-unlines [] h = refl
lines_of-unlines (l ∷ ls) h =
    lines_of-line l (unlines ls) h.0 ∙ ap (λ r. l ∷ r) (lines_of-unlines ls h.1)

split_equal-key :
    (key value : Text) → Lacks b'=' key → split_equal (key ++ (b'=' ∷ value)) ≡ some (key, value)
unfolding split_equal
split_equal-key [] value h = refl
split_equal-key (ch ∷ key) value h = rw (h.0, split_equal, split_equal-key key value h.1) refl

-- A line that is read as it is written: a key that does not begin like another kind of line, or a
-- scope.
abbrev pub StartsKey : Text → Type 0
StartsKey [] = Unit
StartsKey (ch ∷ chs) = ((ch == b' ') ≡ false) × ((ch == b'#') ≡ false) × ((ch == b'[') ≡ false)

assignment-key :
    (key value : Text) → Lacks b'=' key → assignment (key ++ (b'=' ∷ value)) ≡ assign key value
unfolding assignment
assignment-key key value h = rw (split_equal-key key value h, assignment) refl

classify-key :
    (key value : Text)
    → StartsKey key
    → Lacks b'=' key
    → classify (skip_blanks (key ++ (b'=' ∷ value))) ≡ assign key value
unfolding classify split_equal
classify-key [] value s h = refl
classify-key (ch ∷ key) value s h =
    rw (s.0, skip_blanks, s.1, s.2, classify) (assignment-key (ch ∷ key) value h)

classify-scope : (s : Text) → classify (skip_blanks ((b'[' ∷ s) ++ (b']' ∷ []))) ≡ scope s
unfolding classify header
classify-scope s = rw (last_of-append s b'[' b']', header, without_last-append s b']') refl

-- A section is its scope with its keys and values.
abbrev pub Section : Type 0
Section = Text × ConfigValues

abbrev pub entry_lines : ConfigValues → List Text
entry_lines [] = []
entry_lines ((k, v) ∷ es) = (k ++ (b'=' ∷ v)) ∷ entry_lines es

abbrev pub written_lines : List Section → List Text
written_lines [] = []
written_lines ((s, es) ∷ ss) = ((b'[' ∷ s) ++ (b']' ∷ [])) ∷ (entry_lines es ++ written_lines ss)

abbrev pub written : List Section → Text
written ss = unlines (written_lines ss)

abbrev pub qualified : Text → ConfigValues → ConfigValues
qualified p [] = []
qualified p ((k, v) ∷ es) = (p ++ k, v) ∷ qualified p es

abbrev pub section_entries : List Section → ConfigValues
section_entries [] = []
section_entries ((s, es) ∷ ss) = qualified (dotted s) es ++ section_entries ss

module _ (trim : Text → Text) where
  -- What can be written: no ends of lines, and keys that are trimmed and have no `=`.
  abbrev pub IsWritten : Text × Text → Type 0
  IsWritten (k, v) = StartsKey k × Lacks b'=' k × Lacks 10 k × Lacks 10 v × (trim k ≡ k)

  abbrev pub IsSection : Section → Type 0
  IsSection (s, es) = Lacks 10 s × All IsWritten es

  entry_lines-Lacks : (es : ConfigValues) → All IsWritten es → All (Lacks 10) (entry_lines es)
  entry_lines-Lacks [] h = tt
  entry_lines-Lacks ((k, v) ∷ es) ((start, equal, key, value, same), h) =
      (Lacks-append 10 k (b'=' ∷ v) key (refl, value), entry_lines-Lacks es h)

  written_lines-Lacks : (ss : List Section) → All IsSection ss → All (Lacks 10) (written_lines ss)
  written_lines-Lacks [] h = tt
  written_lines-Lacks ((s, es) ∷ ss) ((hs, he), h) = (
    (refl, Lacks-append 10 s (b']' ∷ []) hs (refl, tt)),
    All-append (Lacks 10) (entry_lines es) (written_lines ss) (entry_lines-Lacks es he)
        (written_lines-Lacks ss h),
  )

  reload_lines-entries :
      (es : ConfigValues) (rest : List Text) (p : Text) (values : ConfigValues)
      → All IsWritten es
      → reload_lines trim (entry_lines es ++ rest) p values
        ≡ reload_lines trim rest p (insert_all (qualified p es) values)
  unfolding reload_lines insert_all
  reload_lines-entries [] rest p values h = refl
  reload_lines-entries ((k, v) ∷ es) rest p values ((start, equal, key, value, same), h) =
      rw (classify-key k v start equal, reload_lines, same)
        (reload_lines-entries es rest p (insert (p ++ k) v values) h)

  reload_lines-written :
      (ss : List Section) (p : Text) (values : ConfigValues)
      → All IsSection ss
      → reload_lines trim (written_lines ss) p values
        ≡ (true, insert_all (section_entries ss) values)
  unfolding reload_lines insert_all
  reload_lines-written [] p values h = refl
  reload_lines-written ((s, es) ∷ ss) p values ((hs, he), h) =
      rw
        (
          classify-scope s,
          reload_lines,
          reload_lines-entries es (written_lines ss) (dotted s) values he,
          reload_lines-written ss (dotted s) (insert_all (qualified (dotted s) es) values) h,
          insert_all-append (qualified (dotted s) es) (section_entries ss) values,
        )
        refl

  -- Reading a file that was written from sections, where no name, key or value has an end of line,
  -- and each key is trimmed, has no "=" and does not begin with "#", "[" or a blank, succeeds and
  -- gives each of their keys, behind its scope and a dot, its value; a later entry wins over an
  -- earlier one.
  pub reload_ini-written :
      (ss : List Section) (values : ConfigValues)
      → All IsSection ss
      → reload_ini trim (some (written ss)) values ≡ (true, insert_all (section_entries ss) values)
  unfolding reload_ini
  reload_ini-written ss values h =
      ap (λ ls. reload_lines trim ls [] values)
        (lines_of-unlines (written_lines ss) (written_lines-Lacks ss h))
      ∙ reload_lines-written ss [] values h
