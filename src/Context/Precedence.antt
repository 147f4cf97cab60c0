-- ===== src/Context/Precedence.antt =====
-- Which file a value of the configuration comes from.
use werk.Prelude.{
  ◌≡◌, refl, sym, ap, ◌∙◌, inl, inr, Option, none, some, List, [], ◌∷◌, ◌++◌, map, Option-cases,
}
use werk.Prelude.Keys.{Text}
use mathlib.Core.List.{append-nil, append_assoc}
use werk.Context.{config_paths_key}
use werk.Context.Bootstrap.{
  ini_at, optional_sources, add_sources, reload_now, load_primary, load_all_paths, load_config,
}
use werk.Config.{
  Config, new_config, add_config_source, clear_config_sources, add_configurable, request_reload,
  get_string_raw,
}
use werk.Config.Source.{ConfigValues, ConfigSource}
use werk.Config.Getters.{Conversions, get_strings, get_string, or_default, split_into}
use werk.Config.Reload.{execute_lem, last_value, all_entries, entries_of, or_else, or_else-none}

last_value-append :
    (key : Text) (es fs : ConfigValues)
    → last_value key (es ++ fs) ≡ or_else (last_value key fs) (last_value key es)
last_value-append key [] fs = sym (or_else-none (last_value key fs))
last_value-append key ((k, v) ∷ es) fs = elim (Option-cases (last_value key fs)) [
  | inl e ↦ rw (last_value-append key es fs, e) refl
  | inr (w, e) ↦ rw (last_value-append key es fs, e) refl
]

module _ {Double : Type 0} (trim : Text → Text) (lib : Conversions Double)
    (files : Text → Option Text) where
  add_sources-sources :
      (ss : List ConfigSource) (c : Config)
      → (add_sources trim lib files ss c).sources ≡ c.sources ++ ss
  unfolding add_sources add_config_source
  add_sources-sources [] c = sym (append-nil c.sources)
  add_sources-sources (s ∷ ss) c =
      add_sources-sources ss (add_config_source (some s) c) ∙ append_assoc c.sources (s ∷ []) ss

  reload_now-raw :
      (c : Config) (key : Text)
      → get_string_raw key (reload_now trim lib files c)
        ≡ last_value key (all_entries trim c.sources)
  unfolding reload_now request_reload
  reload_now-raw c key = (execute_lem trim (request_reload c) refl).0 key

  -- The sources at the end: the files that are named, and behind them the first two.
  abbrev pub layered : Text → Option Text → List Text → List ConfigSource
  layered primary secondary paths =
      map (ini_at trim lib files) paths
      ++ (ini_at trim lib files primary ∷ optional_sources trim lib files secondary)

  -- The files that the first two name, by the entries that these have.
  abbrev pub named_paths : Text → Option Text → List Text
  named_paths primary secondary =
      split_into lib (b',' ∷ [])
        (last_value config_paths_key (all_entries trim (layered primary secondary []))) []

  load_all_paths-raw :
      (primary : Text) (secondary : Option Text) (paths : List Text) (c : Config) (key : Text)
      → get_string_raw key (load_all_paths trim lib files primary secondary paths c)
        ≡ last_value key (all_entries trim (layered primary secondary paths))
  unfolding load_all_paths clear_config_sources
  load_all_paths-raw primary secondary paths c key =
      let cleared =
        clear_config_sources (add_sources trim lib files (map (ini_at trim lib files) paths) c) in
      reload_now-raw (add_sources trim lib files (layered primary secondary paths) cleared) key
      ∙ ap (λ ss. last_value key (all_entries trim ss))
          (add_sources-sources (layered primary secondary paths) cleared)

  load_primary-raw :
      (primary : Text) (secondary : Option Text) (c : Config) (key : Text)
      → c.sources ≡ []
      → get_string_raw key (load_primary trim lib files primary secondary c)
        ≡ last_value key (all_entries trim (layered primary secondary []))
  unfolding load_primary
  load_primary-raw primary secondary c key e =
      let ss = layered primary secondary [] in
      reload_now-raw (add_sources trim lib files ss c) key
      ∙ ap (λ ss. last_value key (all_entries trim ss))
          (add_sources-sources ss c ∙ ap (λ xs. xs ++ ss) e)

  get_strings-paths :
      (key : Text) (c : Config)
      → (get_strings lib key [] none (b',' ∷ []) none c).1
        ≡ split_into lib (b',' ∷ []) (get_string_raw key c) []
  unfolding get_strings get_string or_default
  get_strings-paths key c = elim (Option-cases (get_string_raw key c)) [
    | inl e ↦ rw (e, or_default) refl
    | inr (v, e) ↦ rw (e, or_default) refl
  ]

  load_config-raw :
      (primary : Text) (secondary : Option Text) (key : Text)
      → get_string_raw key (load_config trim lib files primary secondary)
        ≡ last_value key
            (all_entries trim (layered primary secondary (named_paths primary secondary)))
  unfolding load_config add_configurable new_config
  load_config-raw primary secondary key =
      let c =
        load_primary trim lib files primary secondary (add_configurable (some 0) new_config) in
      let r = get_strings lib config_paths_key [] none (b',' ∷ []) none c in
      load_all_paths-raw primary secondary r.1 r.2 key
      ∙ ap (λ ps. last_value key (all_entries trim (layered primary secondary ps)))
          (get_strings-paths config_paths_key c
            ∙ ap (λ v. split_into lib (b',' ∷ []) v [])
                (load_primary-raw primary secondary (add_configurable (some 0) new_config)
                  config_paths_key refl))

  -- The value that a file gives a key.
  abbrev pub value_in : Text → ConfigSource → Option Text
  value_in key s = last_value key (entries_of trim s).1

  abbrev pub value_in_optional : Text → Option Text → Option Text
  value_in_optional key none = none
  value_in_optional key (some path) = value_in key (ini_at trim lib files path)

  all_entries-append :
      (ss ts : List ConfigSource)
      → all_entries trim (ss ++ ts) ≡ all_entries trim ss ++ all_entries trim ts
  all_entries-append [] ts = refl
  all_entries-append (s ∷ ss) ts =
      ap (λ es. (entries_of trim s).1 ++ es) (all_entries-append ss ts)
      ∙ sym (append_assoc (entries_of trim s).1 (all_entries trim ss) (all_entries trim ts))

  optional_sources-value :
      (key : Text) (secondary : Option Text)
      → last_value key (all_entries trim (optional_sources trim lib files secondary))
        ≡ value_in_optional key secondary
  optional_sources-value key none = refl
  optional_sources-value key (some path) =
      ap (last_value key) (append-nil (entries_of trim (ini_at trim lib files path)).1)

  or_else_assoc : (a b c : Option Text) → or_else (or_else a b) c ≡ or_else a (or_else b c)
  or_else_assoc none b c = refl
  or_else_assoc (some v) b c = refl

  layered-value :
      (primary : Text) (secondary : Option Text) (paths : List Text) (key : Text)
      → last_value key (all_entries trim (layered primary secondary paths))
        ≡ or_else (value_in_optional key secondary) (
            or_else
              (value_in key (ini_at trim lib files primary))
              (last_value key (all_entries trim (map (ini_at trim lib files) paths))))
  layered-value primary secondary paths key =
      let named = map (ini_at trim lib files) paths in
      let p = ini_at trim lib files primary in
      let behind = optional_sources trim lib files secondary in
      ap (last_value key) (all_entries-append named (p ∷ behind))
      ∙ last_value-append key (all_entries trim named) (all_entries trim (p ∷ behind))
      ∙ ap (λ v. or_else v (last_value key (all_entries trim named)))
          (last_value-append key (entries_of trim p).1 (all_entries trim behind)
            ∙ ap (λ v. or_else v (value_in key p)) (optional_sources-value key secondary))
      ∙ or_else_assoc (value_in_optional key secondary) (value_in key p)
          (last_value key (all_entries trim named))

  -- The constructor's configuration reads a key as the last value that the secondary file gives it,
  -- where there is one; else as the last value in the primary file; else as the last value in the
  -- files that these two name, one behind the other.
  pub load_config_lem :
      (primary : Text) (secondary : Option Text) (key : Text)
      → get_string_raw key (load_config trim lib files primary secondary)
        ≡ or_else (value_in_optional key secondary) (
            or_else (value_in key (ini_at trim lib files primary)) (
              last_value key
                (all_entries trim (map (ini_at trim lib files) (named_paths primary secondary)))))
  load_config_lem primary secondary key =
      load_config-raw primary secondary key
      ∙ layered-value primary secondary (named_paths primary secondary) key
