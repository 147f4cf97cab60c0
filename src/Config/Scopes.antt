-- ===== src/Config/Scopes.antt =====
-- Which value a key has through scopes.
use werk.Prelude.{
  ℕ, List, [], ◌∷◌, ◌++◌, Option, none, some, ◌≡◌, refl, ◌∙◌, ap, sym, inl, inr, Option-cases,
}
use werk.Prelude.Keys.{Text}
use werk.Units.{parse_units, storage_units, time_units}
use werk.Config.{Config, get_string_raw}
use werk.Config.Getters.{Conversions, get_string, get_number, or_default}
use werk.Config.Scoped.{
  ScopedConfig, find_in_scopes, find_scoped_key, scoped_string, scoped_uint64,
  scoped_storage_amount, scoped_time_amount, or_specific,
}

-- The value of the first scope that has one; a config without scopes reads the key itself.
abbrev pub first_value : List Text → Text → Config → Option Text
first_value [] key c = none
first_value (scope ∷ scopes) key c = elim (get_string_raw (scope ++ key) c) [
  | some value ↦ some value
  | none ↦ first_value scopes key c
]

abbrev pub scoped_value : ScopedConfig → Text → Config → Option Text
scoped_value [] key c = get_string_raw key c
scoped_value (scope ∷ scopes) key c = first_value (scope ∷ scopes) key c

-- What a search gives: a key that has the value, or nothing and no value.
abbrev Finds : Option Text → Option Text → Config → Type 0
Finds none v c = v ≡ none
Finds (some found) v c = get_string_raw found c ≡ v

find_in_scopes-Finds :
    (scopes : List Text) (key : Text) (c : Config)
    → Finds (find_in_scopes scopes key c) (first_value scopes key c) c
unfolding find_in_scopes
find_in_scopes-Finds [] key c = refl
find_in_scopes-Finds (scope ∷ scopes) key c =
    elim (Option-cases (get_string_raw (scope ++ key) c)) [
      | inl e ↦ rw (e, find_in_scopes, first_value) (find_in_scopes-Finds scopes key c)
      | inr (v, e) ↦ rw (e, find_in_scopes, first_value) e
    ]

or_specific-Finds :
    (specific : Text) (o v : Option Text) (c : Config)
    → Finds o v c
    → get_string_raw specific c ≡ none
    → get_string_raw (or_specific specific o).1 c ≡ v
or_specific-Finds specific none v c h e = e ∙ sym h
or_specific-Finds specific (some found) v c h e = h

find_scoped_key-raw :
    (s : ScopedConfig) (key : Text) (c : Config)
    → get_string_raw (find_scoped_key s key c).1 c ≡ scoped_value s key c
unfolding find_scoped_key find_in_scopes
find_scoped_key-raw [] key c = refl
find_scoped_key-raw (scope ∷ scopes) key c = elim (Option-cases (get_string_raw (scope ++ key) c)) [
  | inl e ↦
      rw (e, find_scoped_key, find_in_scopes, first_value)
        (or_specific-Finds (scope ++ key) (find_in_scopes scopes key c) (first_value scopes key c) c
          (find_in_scopes-Finds scopes key c) e)
  | inr (v, e) ↦ rw (e, find_scoped_key, find_in_scopes, first_value) e
]

-- What a number accessor returns for a value, and what it leaves to the default.
abbrev pub parsed : {A : Type 0} → (Text → Option A) → Option Text → A → Option A
parsed parse none default = some default
parsed parse (some s) default = parse s

abbrev pub result : {A : Type 0} → Option (A × Config) → Option A
result none = none
result (some (a, c)) = some a

get_number-result :
    {A : Type 0} (parse : Text → Option A) (key : Text) (default : A) (specific : Option Text)
    (c : Config)
    → result (get_number parse key default specific c) ≡ parsed parse (get_string_raw key c) default
unfolding get_number
get_number-result parse key default specific c = elim (Option-cases (get_string_raw key c)) [
  | inl e ↦ rw (e, get_number) refl
  | inr (s, e) ↦ elim (Option-cases (parse s)) [
    | inl e' ↦ rw (e, get_number, e') refl
    | inr (a, e') ↦ rw (e, get_number, e') refl
  ]
]

-- Through scopes, getString, getUint64, getStorageAmount and getTimeAmount read the value of the
-- first scope that has one, and give the default where no scope has one, even if the key without a
-- scope has a value; without scopes they read the key itself.
pub scoped_values :
    {Double : Type 0} (lib : Conversions Double) (s : ScopedConfig) (key : Text)
    (text : Option Text) (n : ℕ) (c : Config)
    → ((scoped_string s key text c).0 ≡ (or_default (scoped_value s key c) text).0)
      × (result (scoped_uint64 lib s key n c) ≡ parsed lib.stoull (scoped_value s key c) n)
      × (result (scoped_storage_amount lib s key n c)
          ≡ parsed (λ v. parse_units lib.stoull lib.scale v storage_units) (scoped_value s key c) n)
      × (result (scoped_time_amount lib s key n c)
          ≡ parsed (λ v. parse_units lib.stoull lib.scale v time_units) (scoped_value s key c) n)
unfolding scoped_string scoped_uint64 scoped_storage_amount scoped_time_amount get_string
scoped_values lib s key text n c =
    let found = find_scoped_key-raw s key c in
    let number : (parse : Text → Option ℕ)
        → result
            (get_number parse (find_scoped_key s key c).1 n (some (find_scoped_key s key c).0) c)
          ≡ parsed parse (scoped_value s key c) n =
      λ parse.
        get_number-result parse (find_scoped_key s key c).1 n (some (find_scoped_key s key c).0) c
        ∙ ap (λ v. parsed parse v n) found in
    (
      ap (λ v. (or_default v text).0) found,
      number lib.stoull,
      number (λ v. parse_units lib.stoull lib.scale v storage_units),
      number (λ v. parse_units lib.stoull lib.scale v time_units),
    )
