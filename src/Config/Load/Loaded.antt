-- ===== src/Config/Load/Loaded.antt =====
-- src/file_monitor/config.py: which configurations load_config returns.
use file_monitor.Prelude.{
  ◌≡◌, ◌≢◌, ◌↔◌, refl, sym, ap, subst, ◌∙◌, ◌&◌, true, Option, none, some, All, Result, ok, ◌>>=◌,
  >>=-eq-ok,
}
use file_monitor.Python.Text.{Text}
use file_monitor.Python.Equality.{nat_eq, list_eq, list_beq}
use file_monitor.Python.Dict.{get}
use file_monitor.Python.Paths.{FilePath}
use file_monitor.Python.Decimal.{Unicode}
use file_monitor.Config.{AppConfig, Entry, validate_config}
use file_monitor.Config.Load.{
  to_int, to_str, env_overrides, Document, Environ, or_default, require, get_default, app_config,
  section_data_by_name, override_all, load_config,
}
use file_monitor.Config.Load.Keys.{
  default_rate_ceiling_bps, paths_section, pacing_section, fec_section, senders_section,
  watch_path_key, rate_ceiling_bps_key, fec_k_key, target_host_key, watch_path_env_var,
  socket_path_env_var, rate_ceiling_bps_env_var, rate_floor_bps_env_var, fec_k_env_var,
  fec_n_env_var, fec_symbol_bytes_env_var, target_host_env_var, base_port_env_var,
  binary_path_env_var, sender_count_env_var, default_target_host,
}
use file_monitor.Config.Load.Values.{Value, text, integer, Section, table, not_table, int, str}
use file_monitor.Config.Load.Overrides.{
  is_table, CastOk, override_all-AreOverridden, override_all-total,
}
use file_monitor.Config.Load.Settings.{first_of, mandatory, assemble, specified}
use file_monitor.Config.Load.Effective.{
  IsOk, assemble-reads, set_default-table, table-set_default, app_config-specified,
}

-- Each of the four sections is a table, or missing.
abbrev pub HasTables : Document → Type 0
HasTables document =
    (get document paths_section ≢ some not_table)
    × (get document pacing_section ≢ some not_table)
    × (get document fec_section ≢ some not_table)
    × (get document senders_section ≢ some not_table)

require-table :
    {A : Type 0} (o : Option Section) (key : Text) (f : Value → Result A)
    → IsOk (require o key >>= f)
    → is_table o ≡ true
require-table none key f (a, e) = absurd (cc)
require-table (some not_table) key f (a, e) = absurd (cc)
require-table (some (table entries)) key f e = refl

get_default-table :
    {A : Type 0} (o : Option Section) (key : Text) (default : Value) (f : Value → Result A)
    → IsOk (get_default o key default >>= f)
    → is_table o ≡ true
get_default-table none key default f (a, e) = absurd (cc)
get_default-table (some not_table) key default f (a, e) = absurd (cc)
get_default-table (some (table entries)) key default f e = refl

app_config-tables :
    (unicode : Unicode) (config_dir : FilePath) (sections : Document) (c : AppConfig)
    → app_config unicode config_dir sections ≡ ok c
    → (is_table (get sections paths_section) ≡ true)
      × (is_table (get sections pacing_section) ≡ true)
      × (is_table (get sections fec_section) ≡ true)
      × (is_table (get sections senders_section) ≡ true)
unfolding app_config assemble
app_config-tables unicode config_dir sections c done =
    let (r1, r3, r4, r5, r6, r7, r8, r9, r11) =
      assemble-reads config_dir _ _ _ _ _ _ _ _ _ _ _ c done in
    (
      require-table (get sections paths_section) watch_path_key str r1,
      get_default-table (get sections pacing_section) rate_ceiling_bps_key
          (integer default_rate_ceiling_bps) (int unicode) r3,
      require-table (get sections fec_section) fec_k_key (int unicode) r5,
      get_default-table (get sections senders_section) target_host_key (text default_target_host)
          str r8,
    )

-- A variable that is read as a number can be converted.
mandatory-CastOk :
    (unicode : Unicode) (t : Option Text) (v : Option Value)
    → IsOk (mandatory (first_of t v) >>= int unicode)
    → CastOk unicode to_int t
unfolding int
mandatory-CastOk unicode none v e = tt
mandatory-CastOk unicode (some t) v (z, e) = (integer z, rw e refl)

optional-CastOk :
    (unicode : Unicode) (t : Option Text) (v : Option Value) (default : Value)
    → IsOk (int unicode (or_default (first_of t v) default))
    → CastOk unicode to_int t
unfolding int
optional-CastOk unicode none v default e = tt
optional-CastOk unicode (some t) v default (z, e) = (integer z, rw e refl)

text-CastOk : (unicode : Unicode) (t : Option Text) → CastOk unicode to_str t
text-CastOk unicode none = tt
text-CastOk unicode (some t) = (text t, refl)

module _ (unicode : Unicode) (config_dir : FilePath) (environment : Environ) (document : Document)
    (c : AppConfig) where
  specified-CastOk :
      specified unicode config_dir environment document ≡ ok c
      → All (λ o. CastOk unicode o.cast (get environment o.env_var_name)) env_overrides
  unfolding specified
  specified-CastOk done =
      let (r1, r3, r4, r5, r6, r7, r8, r9, r11) =
        assemble-reads config_dir _ _ _ _ _ _ _ _ _ _ _ c done in
      let var : Text → Option Text = λ env_var. get environment env_var in
      text-CastOk unicode (var watch_path_env_var)
      & text-CastOk unicode (var socket_path_env_var)
      & optional-CastOk unicode (var rate_ceiling_bps_env_var) _ _ r3
      & optional-CastOk unicode (var rate_floor_bps_env_var) _ _ r4
      & mandatory-CastOk unicode (var fec_k_env_var) _ r5
      & mandatory-CastOk unicode (var fec_n_env_var) _ r6
      & mandatory-CastOk unicode (var fec_symbol_bytes_env_var) _ r7
      & text-CastOk unicode (var target_host_env_var)
      & optional-CastOk unicode (var base_port_env_var) _ _ r9
      & text-CastOk unicode (var binary_path_env_var)
      & optional-CastOk unicode (var sender_count_env_var) _ _ r11
      & tt

  -- The sections of an environment over a file are read as they are specified, and raise nothing where
  -- the specification gives a configuration.
  loaded_from :
      HasTables document
      → specified unicode config_dir environment document ≡ ok c
      → (sections : Document) × (override_all unicode environment env_overrides
            (section_data_by_name document)
          ≡ ok sections)
        × (app_config unicode config_dir sections ≡ ok c)
  unfolding get list_beq
  loaded_from (paths, pacing, fec, senders) done =
      let p = set_default-table (get document paths_section) paths in
      let a = set_default-table (get document pacing_section) pacing in
      let f = set_default-table (get document fec_section) fec in
      let s = set_default-table (get document senders_section) senders in
      let (sections, overrides) =
        override_all-total unicode environment env_overrides (section_data_by_name document)
          (specified-CastOk done) (p & p & a & a & f & f & f & s & s & s & s & tt) in
      let after =
        override_all-AreOverridden unicode environment env_overrides (section_data_by_name document)
          sections overrides in
      (
        sections,
        overrides,
        app_config-specified unicode environment document sections after config_dir
              (after.tables paths_section ∙ p) (after.tables pacing_section ∙ a)
              (after.tables fec_section ∙ f) (after.tables senders_section ∙ s)
            ∙ done,
      )

  specified_from :
      (sections : Document)
      → override_all unicode environment env_overrides (section_data_by_name document) ≡ ok sections
      → app_config unicode config_dir sections ≡ ok c
      → HasTables document × (specified unicode config_dir environment document ≡ ok c)
  unfolding get list_beq
  specified_from sections overrides done =
      let (p, a, f, s) = app_config-tables unicode config_dir sections c done in
      let after =
        override_all-AreOverridden unicode environment env_overrides (section_data_by_name document)
          sections overrides in
      (
        (
          table-set_default (get document paths_section) (sym (after.tables paths_section) ∙ p),
          table-set_default (get document pacing_section) (sym (after.tables pacing_section) ∙ a),
          table-set_default (get document fec_section) (sym (after.tables fec_section) ∙ f),
          table-set_default (get document senders_section) (sym (after.tables senders_section) ∙ s),
        ),
        sym (app_config-specified unicode environment document sections after config_dir p a f s)
            ∙ done,
      )

-- load_config returns a configuration exactly if the file can be read, its four sections are tables or
-- missing, every setting is there and converts (the variable of the environment if it is set, otherwise
-- the key of the file, otherwise the default, where there is one), the configuration is made of these
-- values, with relative paths taken from the directory of the file, and validate_config accepts it.
pub load_config_iff :
    (unicode : Unicode) (read : Result Document) (config_dir : FilePath) (environment : Environ)
    (entry : FilePath → Entry) (c : AppConfig)
    → (load_config unicode read config_dir environment entry ≡ ok c) ↔ (
        (document : Document) × (read ≡ ok document)
        × HasTables document
        × (specified unicode config_dir environment document ≡ ok c)
        × (validate_config (entry c.paths.watch_path) c ≡ ok tt))
unfolding load_config
load_config_iff unicode read config_dir environment entry c = (
  λ done.
      let (document, is_read, k1) = >>=-eq-ok read _ done in
      let (sections, overrides, k2) =
        >>=-eq-ok (override_all unicode environment env_overrides (section_data_by_name document)) _
          k1 in
      let (c', configured, k3) = >>=-eq-ok (app_config unicode config_dir sections) _ k2 in
      let (u, valid, is_c) = >>=-eq-ok (validate_config (entry c'.paths.watch_path) c') _ k3 in
      let same : c' ≡ c = cc in
      let (tables, is_specified) =
        specified_from unicode config_dir environment document c sections overrides
          (configured ∙ ap ok same) in
      (
        document,
        is_read,
        tables,
        is_specified,
        subst (λ d. validate_config (entry d.paths.watch_path) d ≡ ok tt) same valid,
      ),
  λ (document, is_read, tables, is_specified, valid).
      let (sections, overrides, configured) =
        loaded_from unicode config_dir environment document c tables is_specified in
      rw (is_read, overrides, configured, valid) refl,
)
