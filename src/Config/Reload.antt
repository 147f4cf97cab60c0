-- ===== src/Config/Reload.antt =====
-- What `Config::execute` loads, and what `reloadConfigurables` tells.
use werk.Prelude.{
  ℕ, List, [], ◌∷◌, ◌++◌, Option, none, some, Bool, true, false, ◌≡◌, refl, ◌∙◌, ap, sym, subst,
  if◌then◌else◌, inl, inr, ◌⊎◌, Option-cases, Bool-cases, ◌&&◌,
}
use werk.Prelude.Keys.{Text, text_eq, lookup, insert, lookup-insert}
use werk.Config.{
  Config, active_values, get_string_raw, store_values, load_all, execute, reload_each,
  reload_configurables, Event, failed_to_load,
}
use werk.Config.Ini.{
  reload_lines, reload_ini, lines_of, classify, skip_blanks, dotted, Line, skip, missing_bracket,
  missing_equal, scope, assign,
}
use werk.Config.Source.{
  ConfigValues, ConfigSource, map_source, ini_source, insert_all, insert_all-append, reload_source,
}

-- The last value that a list of entries gives a key.
abbrev pub last_value : Text → ConfigValues → Option Text
last_value key [] = none
last_value key ((k, v) ∷ es) = elim (last_value key es) [
  | none ↦ if text_eq.beq k key then some v else none
  | some w ↦ some w
]

abbrev pub or_else : Option Text → Option Text → Option Text
or_else none o = o
or_else (some v) o = some v

pub or_else-none : (o : Option Text) → or_else o none ≡ o
or_else-none none = refl
or_else-none (some v) = refl

lookup-insert_all :
    (key : Text) (es values : ConfigValues)
    → lookup key (insert_all es values) ≡ or_else (last_value key es) (lookup key values)
unfolding insert_all
lookup-insert_all key [] values = refl
lookup-insert_all key ((k, v) ∷ es) values = elim (Option-cases (last_value key es)) [
  | inl e ↦ elim (Bool-cases (text_eq.beq k key)) [
    | inl b ↦
        lookup-insert_all key es (insert k v values) ∙ rw (e, lookup-insert k key v values, b) refl
    | inr b ↦
        lookup-insert_all key es (insert k v values) ∙ rw (e, lookup-insert k key v values, b) refl
  ]
  | inr (w, e) ↦ lookup-insert_all key es (insert k v values) ∙ rw e refl
]

Line-cases :
    (x : Line)
    → (x ≡ skip)
      ⊎ (x ≡ missing_bracket)
      ⊎ (x ≡ missing_equal)
      ⊎ ((s : Text) × (x ≡ scope s))
      ⊎ ((k v : Text) × (x ≡ assign k v))
Line-cases skip = inl refl
Line-cases missing_bracket = inr (inl refl)
Line-cases missing_equal = inr (inr (inl refl))
Line-cases (scope s) = inr (inr (inr (inl (s, refl))))
Line-cases (assign k v) = inr (inr (inr (inr (k, v, refl))))

module _ (trim : Text → Text) where
  -- The entries of an ini file, up to the first line that is refused, and whether there is none.
  abbrev pub entries_of_lines : List Text → Text → Bool × ConfigValues
  entries_of_lines [] scope_prefix = (true, [])
  entries_of_lines (l ∷ ls) scope_prefix = elim (classify (skip_blanks l)) [
    | skip ↦ entries_of_lines ls scope_prefix
    | missing_bracket ↦ (false, [])
    | missing_equal ↦ (false, [])
    | scope s ↦ entries_of_lines ls (dotted s)
    | assign k v ↦
        let (success, es) = entries_of_lines ls scope_prefix in
        (success, (scope_prefix ++ trim k, v) ∷ es)
  ]

  abbrev pub entries_of : ConfigSource → Bool × ConfigValues
  entries_of (map_source m) = (true, m)
  entries_of (ini_source none) = (false, [])
  entries_of (ini_source (some file)) = entries_of_lines (lines_of file) []

  reload_lines_lem :
      (ls : List Text) (p : Text) (values : ConfigValues)
      → reload_lines trim ls p values
        ≡ ((entries_of_lines ls p).0, insert_all (entries_of_lines ls p).1 values)
  unfolding reload_lines insert_all
  reload_lines_lem [] p values = refl
  reload_lines_lem (l ∷ ls) p values = elim (Line-cases (classify (skip_blanks l))) [
    | inl e ↦ rw (e, reload_lines, entries_of_lines) (reload_lines_lem ls p values)
    | inr (inl e) ↦ rw (e, reload_lines, entries_of_lines) refl
    | inr (inr (inl e)) ↦ rw (e, reload_lines, entries_of_lines) refl
    | inr (inr (inr (inl (s, e)))) ↦
        rw (e, reload_lines, entries_of_lines) (reload_lines_lem ls (dotted s) values)
    | inr (inr (inr (inr (k, v, e)))) ↦
        rw (e, reload_lines, entries_of_lines)
          (reload_lines_lem ls p (insert (p ++ trim k) v values))
  ]

  reload_source_lem :
      (s : ConfigSource) (values : ConfigValues)
      → reload_source trim s values ≡ ((entries_of s).0, insert_all (entries_of s).1 values)
  unfolding reload_source reload_ini insert_all
  reload_source_lem (map_source m) values = refl
  reload_source_lem (ini_source none) values = refl
  reload_source_lem (ini_source (some file)) values = reload_lines_lem (lines_of file) [] values

  -- The entries of all sources, one source behind the other, and an entry of the log for each that
  -- fails.
  abbrev pub all_entries : List ConfigSource → ConfigValues
  all_entries [] = []
  all_entries (s ∷ ss) = (entries_of s).1 ++ all_entries ss

  abbrev pub failures : List ConfigSource → List Event → List Event
  failures [] log = log
  failures (s ∷ ss) log = failures ss (if (entries_of s).0 then log else failed_to_load ∷ log)

  load_all_lem :
      (ss : List ConfigSource) (values : ConfigValues) (log : List Event)
      → load_all trim ss values log ≡ (insert_all (all_entries ss) values, failures ss log)
  unfolding load_all insert_all
  load_all_lem [] values log = refl
  load_all_lem (s ∷ ss) values log =
      rw
        (
          reload_source_lem s values,
          load_all_lem ss (insert_all (entries_of s).1 values)
              (if (entries_of s).0 then log else failed_to_load ∷ log),
          insert_all-append (entries_of s).1 (all_entries ss) values,
        )
        refl

-- The map that `_values` does not point to.
abbrev pub inactive_values : Config → ConfigValues
inactive_values c = if c.values1_active then c.values2 else c.values1

-- What a reload leaves: the new values, the old ones in the other map, the log and the flags.
pub record Reloaded (values : ConfigValues) (log : List Event) (c c' : Config) : Type 0 where
  pub now : active_values c' ≡ values
  pub before : inactive_values c' ≡ active_values c
  pub logged : c'.log ≡ log
  pub flagged : c'.changed ≡ true
  pub done : c'.reload_config ≡ false

store_values-Reloaded :
    (values : ConfigValues) (log : List Event) (c : Config)
    → Reloaded values log c (store_values values (record c { reload_config = false; log = log }))
unfolding store_values active_values
store_values-Reloaded values log c = elim (Bool-cases c.values1_active) [
  | inl e ↦
      rw (e, store_values)
        (record { now = refl; before = refl; logged = refl; flagged = refl; done = refl })
  | inr e ↦
      rw (e, store_values)
        (record { now = refl; before = refl; logged = refl; flagged = refl; done = refl })
]

module _ (trim : Text → Text) where
  execute-loads :
      (c : Config)
      → c.reload_config ≡ true
      → execute trim c
        ≡ store_values
            (insert_all (all_entries trim c.sources) [])
            (record c { reload_config = false; log = failures trim c.sources c.log })
  unfolding execute
  execute-loads c h =
      ap
        (λ b.
          if b
          then (let (values, log) = load_all trim c.sources [] c.log in
              store_values values (record c { reload_config = false; log = log }))
          else c)
        h
      ∙ ap (λ p. store_values p.0 (record c { reload_config = false; log = p.1 }))
          (load_all_lem trim c.sources [] c.log)

  execute-Reloaded :
      (c : Config)
      → c.reload_config ≡ true
      → Reloaded
          (insert_all (all_entries trim c.sources) [])
          (failures trim c.sources c.log)
          c
          (execute trim c)
  execute-Reloaded c h =
      subst
        (Reloaded (insert_all (all_entries trim c.sources) []) (failures trim c.sources c.log) c)
        (sym (execute-loads c h))
        (store_values-Reloaded (insert_all (all_entries trim c.sources) [])
          (failures trim c.sources c.log) c)

  -- A reload that was asked for makes each key read as the last value that the sources give it,
  -- where an ini file gives the entries before its first bad line. The old values stay in the other
  -- map, the log gets an entry for each source that fails, and the flags say that it is done and
  -- that the values changed.
  pub execute_lem :
      (c : Config)
      → c.reload_config ≡ true
      → ((key : Text)
          → get_string_raw key (execute trim c) ≡ last_value key (all_entries trim c.sources))
        × (inactive_values (execute trim c) ≡ active_values c)
        × ((execute trim c).log ≡ failures trim c.sources c.log)
        × ((execute trim c).changed ≡ true)
        × ((execute trim c).reload_config ≡ false)
  unfolding get_string_raw lookup
  execute_lem c h =
      let r = execute-Reloaded c h in
      (
        λ key.
            ap (lookup key) r.now
            ∙ lookup-insert_all key (all_entries trim c.sources) []
            ∙ or_else-none (last_value key (all_entries trim c.sources)),
        r.before,
        r.logged,
        r.flagged,
        r.done,
      )

-- Whether all of a list of configurables reload, asked in order.
abbrev pub all_reload : (ℕ → Config → Bool) → Config → List ℕ → Bool
all_reload reload c [] = true
all_reload reload c (k ∷ ks) = reload k c && all_reload reload c ks

reload_each_lem :
    (reload : ℕ → Config → Bool) (c : Config) (ks : List ℕ) (success : Bool)
    → reload_each reload c ks success ≡ (success && all_reload reload c ks, ks)
unfolding reload_each
reload_each_lem reload c [] true = refl
reload_each_lem reload c [] false = refl
reload_each_lem reload c (k ∷ ks) success =
    rw (reload_each_lem reload c ks (if reload k c then success else false))
      (ap (λ b. (b, k ∷ ks)) (and_lem success (reload k c) (all_reload reload c ks)))
  where
    and_lem : (s r a : Bool) → ((if r then s else false) && a) ≡ (s && (r && a))
    and_lem true true a = refl
    and_lem true false a = refl
    and_lem false true a = refl
    and_lem false false a = refl

-- After a change, every configurable is told, in the order in which they were added and whether or
-- not one before it failed; the result says whether all succeeded, and a second call tells none.
pub reload_configurables_lem :
    (reload : ℕ → Config → Bool) (c : Config)
    → c.changed ≡ true
    → (reload_configurables reload c ≡ (
      all_reload reload (record c { changed = false }) c.configurables,
      c.configurables,
      record c { changed = false },
    ))
      × (reload_configurables reload (reload_configurables reload c).2
          ≡ (true, [], record c { changed = false }))
unfolding reload_configurables
reload_configurables_lem reload c h =
    let told =
      ap (reload_if c) h
      ∙ ap (λ p. (p.0, p.1, record c { changed = false }))
          (reload_each_lem reload (record c { changed = false }) c.configurables true) in
    (told, ap (λ r. reload_configurables reload r.2) told)
  where
    reload_if : Config → Bool → Bool × List ℕ × Config
    reload_if c b =
        if b
        then (let c' = record c { changed = false } in
            let (success, ks) = reload_each reload c' c.configurables true in (success, ks, c'))
        else (true, [], c)
