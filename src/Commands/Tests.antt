-- ===== src/Commands/Tests.antt =====
-- The manager at concrete lines, with a plain tokenizer in place of boost's functions.
use werk.Prelude.{ℕ, ◌≡◌, refl, List, [], ◌∷◌, ◌++◌, some, true, false, ◌==◌}
use werk.Prelude.Keys.{Text, text_eq, lookup}
use werk.Commands.{
  Event, Tools, redo, echo, info, received, echoed, Manager, line, redo_name, execute,
}

abbrev flush : Text → List Text → List Text
flush [] ts = ts
flush (c ∷ cs) ts = (c ∷ cs) ∷ ts

abbrev tokens : Text → Text → List Text
tokens acc [] = flush acc []
tokens acc (c ∷ cs) = elim (c == b' ') [
  | true ↦ flush acc (tokens [] cs)
  | false ↦ tokens (acc ++ (c ∷ [])) cs
]

abbrev join : List Text → Text
join [] = []
join (t ∷ []) = t
join (t ∷ u ∷ ts) = t ++ (b' ' ∷ join (u ∷ ts))

abbrev plain_tools : Tools
plain_tools = record {
  trim = λ t. t;
  split = tokens [];
  split_plain = tokens [];
  join = join;
  custom = λ c args. true;
  stale = λ h l. l;
}

abbrev echo_name : Text
echo_name = b'e' ∷ b'c' ∷ b'h' ∷ b'o' ∷ []

abbrev greeting : Text
greeting = b'H' ∷ b'i' ∷ []

abbrev shortcut : Text
shortcut = b'a' ∷ b'b' ∷ b'c' ∷ []

abbrev echo_line : Text
echo_line = echo_name ++ (b' ' ∷ greeting)

-- "redo " with a blank behind it
abbrev redo_blank : Text
redo_blank = redo_name ++ (b' ' ∷ [])

abbrev manager : List (ℕ × Text) → Manager
manager history = record {
  commands = (redo_name, redo) ∷ (echo_name, echo info) ∷ [];
  history = history;
  events = [];
}

echo_then_redo :
    execute plain_tools 4 9 (line redo_name) (manager ((8, echo_line) ∷ []))
    ≡ some (
      true,
      record (manager ((9, echo_line) ∷ (9, redo_name) ∷ (8, echo_line) ∷ [])) {
        events = echoed info greeting ∷ received echo_line ∷ received redo_name ∷ [];
      },
    )
unfolding execute lookup
echo_then_redo = refl

-- A vector with no room for the line that is redone: the reference reads something else.
abbrev moved_tools : Tools
moved_tools = record plain_tools { stale = λ h l. greeting }

redo_moved :
    execute moved_tools 4 9 (line redo_name) (manager ((8, echo_line) ∷ []))
    ≡ some (
      false,
      record (manager ((9, echo_line) ∷ (9, redo_name) ∷ (8, echo_line) ∷ [])) {
        events = Event.not_found greeting ∷ received greeting ∷ received redo_name ∷ [];
      },
    )
unfolding execute lookup
redo_moved = refl
