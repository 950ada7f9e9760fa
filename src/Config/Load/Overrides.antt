-- ===== src/Config/Load/Overrides.antt =====
-- src/file_monitor/config.py: what the loop over ENV_OVERRIDES leaves in the sections.
use file_monitor.Prelude.{
  ◌≡◌, refl, ap, subst, ◌∙◌, Bool, true, false, ◌&&◌, Option, none, some, List, [], ◌∷◌, arith,
  if◌then◌else◌, All, ok, err, >>=-eq-ok,
}
use file_monitor.Python.Text.{Text}
use file_monitor.Python.Equality.{◌==◌, nat_eq, list_eq, list_beq_iff}
use file_monitor.Python.Dict.{Dict, get, put, get-put}
use file_monitor.Python.Decimal.{Unicode}
use file_monitor.Config.Load.{
  Cast, Override, Document, Environ, cast_value, set_in, set_item, override_with, override_all,
}
use file_monitor.Config.Load.Values.{Value, Section, table, not_table}

abbrev pub is_table : Option Section → Bool
is_table (some (table entries)) = true
is_table _ = false

abbrev pub entry_of : Option Section → Text → Option Value
entry_of (some (table entries)) key = get entries key
entry_of _ key = none

-- what a key of a section holds
abbrev pub lookup : Document → Text → Text → Option Value
lookup sections section key = entry_of (get sections section) key

-- the value of a conversion that succeeded, or the value that was there
abbrev pub cast_or : Unicode → Cast → Option Text → Option Value → Option Value
cast_or unicode cast none v = v
cast_or unicode cast (some t) v = elim (cast_value unicode cast t) [ ok w ↦ some w | err e ↦ v ]

abbrev pub matches : Override → Text → Text → Bool
matches o section key = o.section == section && o.key == key

-- what a key holds behind the overrides
abbrev pub overridden :
    Unicode → Environ → List Override → Text → Text → Option Value → Option Value
overridden unicode environment [] section key v = v
overridden unicode environment (o ∷ os) section key v =
    overridden unicode environment os section key (
      if matches o section key
      then cast_or unicode o.cast (get environment o.env_var_name) v
      else v)

-- A variable that is set can be converted.
abbrev pub CastOk : Unicode → Cast → Option Text → Type 0
CastOk unicode cast none = Unit
CastOk unicode cast (some t) = (value : Value) × (cast_value unicode cast t ≡ ok value)

-- what an assignment to a key changes
record IsAssigned (sections sections' : Document) (name key : Text) (value : Value) : Type 0 where
  pub was_table : is_table (get sections name) ≡ true
  pub tables : (s : Text) → is_table (get sections' s) ≡ is_table (get sections s)
  pub values :
      (s k : Text)
      → lookup sections' s k ≡ (if name == s && key == k then some value else lookup sections s k)

set-tables :
    (sections : Document) (name s : Text) (entries entries' : Dict Text Value)
    → get sections name ≡ some (table entries)
    → is_table (get (put sections name (table entries')) s) ≡ is_table (get sections s)
set-tables sections name s entries entries' here =
    ground (arith, get-put sections name s (table entries'), list_beq_iff name s)

set-values :
    (sections : Document) (name key s k : Text) (entries : Dict Text Value) (value : Value)
    → get sections name ≡ some (table entries)
    → lookup (put sections name (table (put entries key value))) s k
      ≡ (if name == s && key == k then some value else lookup sections s k)
set-values sections name key s k entries value here = ground (
  arith,
  get-put sections name s (table (put entries key value)),
  get-put entries key k value,
  list_beq_iff name s,
)

set_in-IsAssigned :
    (sections sections' : Document) (name key : Text) (value : Value) (o : Option Section)
    → get sections name ≡ o
    → set_in sections name o key value ≡ ok sections'
    → IsAssigned sections sections' name key value
set_in-IsAssigned sections sections' name key value none here done = absurd (cc)
set_in-IsAssigned sections sections' name key value (some not_table) here done = absurd (cc)
set_in-IsAssigned sections sections' name key value (some (table entries)) here done =
    let same : put sections name (table (put entries key value)) ≡ sections' = cc in
    subst (λ r. IsAssigned sections r name key value) same
      (record {
        was_table = rw here refl;
        tables = λ s. set-tables sections name s entries (put entries key value) here;
        values = λ s k. set-values sections name key s k entries value here;
      })

-- what an override changes
record IsOverridden (unicode : Unicode) (o : Override) (t : Option Text)
    (sections sections' : Document) : Type 0 where
  pub converts : CastOk unicode o.cast t
  pub tables : (s : Text) → is_table (get sections' s) ≡ is_table (get sections s)
  pub values :
      (s k : Text)
      → lookup sections' s k ≡ (
          if matches o s k
          then cast_or unicode o.cast t (lookup sections s k)
          else lookup sections s k)

same_either_way : (b : Bool) (v : Option Value) → v ≡ (if b then v else v)
same_either_way true v = refl
same_either_way false v = refl

override_with-IsOverridden :
    (unicode : Unicode) (o : Override) (t : Option Text) (sections sections' : Document)
    → override_with unicode o t sections ≡ ok sections'
    → IsOverridden unicode o t sections sections'
override_with-IsOverridden unicode o none sections sections' done =
    let same : sections ≡ sections' = cc in
    subst (λ r. IsOverridden unicode o none sections r) same
      (record {
        converts = tt;
        tables = λ s. refl;
        values = λ s k. same_either_way (matches o s k) (lookup sections s k);
      })
override_with-IsOverridden unicode o (some t) sections sections' done =
    let (value, converted, stored) =
      >>=-eq-ok (cast_value unicode o.cast t) (set_item sections o.section o.key) done in
    let is_set =
      set_in-IsAssigned sections sections' o.section o.key value (get sections o.section) refl
        stored in
    record {
      converts = (value, converted);
      tables = is_set.tables;
      values = λ s k. rw (converted, cast_or) (is_set.values s k);
    }

-- what the loop changes
pub record AreOverridden (unicode : Unicode) (environment : Environ) (os : List Override)
    (sections sections' : Document) : Type 0 where
  pub converts : All (λ o. CastOk unicode o.cast (get environment o.env_var_name)) os
  pub tables : (s : Text) → is_table (get sections' s) ≡ is_table (get sections s)
  pub values :
      (s k : Text)
      → lookup sections' s k ≡ overridden unicode environment os s k (lookup sections s k)

pub override_all-AreOverridden :
    (unicode : Unicode) (environment : Environ) (os : List Override) (sections sections' : Document)
    → override_all unicode environment os sections ≡ ok sections'
    → AreOverridden unicode environment os sections sections'
unfolding override_all
override_all-AreOverridden unicode environment [] sections sections' done =
    let same : sections ≡ sections' = cc in
    subst (λ r. AreOverridden unicode environment [] sections r) same
      (record { converts = tt; tables = λ s. refl; values = λ s k. refl })
override_all-AreOverridden unicode environment (o ∷ os) sections sections' done =
    let (middle, first, rest) =
      >>=-eq-ok (override_with unicode o (get environment o.env_var_name) sections)
        (override_all unicode environment os) done in
    let one =
      override_with-IsOverridden unicode o (get environment o.env_var_name) sections middle first in
    let all = override_all-AreOverridden unicode environment os middle sections' rest in
    record {
      converts = (one.converts, all.converts);
      tables = λ s. all.tables s ∙ one.tables s;
      values = λ s k. all.values s k ∙ ap (overridden unicode environment os s k) (one.values s k);
    }

set_in-total :
    (sections : Document) (name key : Text) (value : Value) (o : Option Section)
    → is_table o ≡ true
    → (sections' : Document) × (set_in sections name o key value ≡ ok sections')
set_in-total sections name key value none is = absurd (cc)
set_in-total sections name key value (some not_table) is = absurd (cc)
set_in-total sections name key value (some (table entries)) is = (_, refl)

override_with-total :
    (unicode : Unicode) (o : Override) (t : Option Text) (sections : Document)
    → CastOk unicode o.cast t
    → is_table (get sections o.section) ≡ true
    → (sections' : Document) × (override_with unicode o t sections ≡ ok sections')
override_with-total unicode o none sections converts is = (sections, refl)
override_with-total unicode o (some t) sections (value, converted) is =
    let (sections', stored) =
      set_in-total sections o.section o.key value (get sections o.section) is in
    (sections', rw converted stored)

tables-kept :
    (sections sections' : Document) (os : List Override)
    → ((s : Text) → is_table (get sections' s) ≡ is_table (get sections s))
    → All (λ o. is_table (get sections o.section) ≡ true) os
    → All (λ o. is_table (get sections' o.section) ≡ true) os
tables-kept sections sections' [] same are = tt
tables-kept sections sections' (o ∷ os) same (is, are) =
    (same o.section ∙ is, tables-kept sections sections' os same are)

-- The loop raises nothing if every variable that is set can be converted and the sections are tables.
pub override_all-total :
    (unicode : Unicode) (environment : Environ) (os : List Override) (sections : Document)
    → All (λ o. CastOk unicode o.cast (get environment o.env_var_name)) os
    → All (λ o. is_table (get sections o.section) ≡ true) os
    → (sections' : Document) × (override_all unicode environment os sections ≡ ok sections')
unfolding override_all
override_all-total unicode environment [] sections converts are = (sections, refl)
override_all-total unicode environment (o ∷ os) sections (converts, further) (is, are) =
    let (middle, first) =
      override_with-total unicode o (get environment o.env_var_name) sections converts is in
    let one =
      override_with-IsOverridden unicode o (get environment o.env_var_name) sections middle first in
    let (sections', rest) =
      override_all-total unicode environment os middle further
        (tables-kept sections middle os one.tables are) in
    (sections', rw first rest)
