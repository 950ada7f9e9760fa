-- ===== src/Config/Load/Effective.antt =====
-- src/file_monitor/config.py: a configuration is that of the environment over the file.
use file_monitor.Prelude.{
  ◌≡◌, ◌≢◌, refl, ap, ◌∙◌, true, Option, none, some, ℤ, Result, ok, ◌>>=◌, >>=-eq-ok,
}
use file_monitor.Python.Text.{Text}
use file_monitor.Python.Equality.{nat_eq, list_eq, list_beq}
use file_monitor.Python.Dict.{get}
use file_monitor.Python.Paths.{FilePath}
use file_monitor.Python.Decimal.{Unicode}
use file_monitor.Config.{AppConfig}
use file_monitor.Config.Load.{
  Cast, to_int, to_str, env_overrides, Document, Environ, or_default, require, get_default,
  app_config, section_data_by_name, set_default,
}
use file_monitor.Config.Load.Keys.{
  default_rate_ceiling_bps, default_rate_floor_bps, paths_section, pacing_section, fec_section,
  senders_section, watch_path_key, socket_path_key, rate_ceiling_bps_key, rate_floor_bps_key,
  fec_k_key, fec_n_key, fec_symbol_bytes_key, target_host_key, base_port_key, binary_path_key,
  sender_count_key, watch_path_env_var, socket_path_env_var, rate_ceiling_bps_env_var,
  rate_floor_bps_env_var, fec_k_env_var, fec_n_env_var, fec_symbol_bytes_env_var,
  target_host_env_var, base_port_env_var, binary_path_env_var, sender_count_env_var,
  default_target_host, default_base_port, default_sender_binary_path, default_sender_count,
}
use file_monitor.Config.Load.Values.{Value, text, integer, Section, table, not_table, int, str}
use file_monitor.Config.Load.Overrides.{is_table, entry_of, lookup, cast_or, CastOk, AreOverridden}
use file_monitor.Config.Load.Settings.{
  setting, mandatory, assemble, specified, mandatory-int, optional_int, text_same, require_lem,
  get_default_lem,
}

abbrev pub IsOk {ℓ} : {A : Type ℓ} → Result A → Type ℓ
IsOk {A = A} r = (a : A) × (r ≡ ok a)

pub assemble-reads :
    (config_dir : FilePath) (r1 r2 : Result Text) (r3 r4 r5 r6 r7 : Result ℤ) (r8 : Result Text)
    → (r9 : Result ℤ) (r10 : Result Text) (r11 : Result ℤ) (c : AppConfig)
    → assemble config_dir r1 r2 r3 r4 r5 r6 r7 r8 r9 r10 r11 ≡ ok c
    → IsOk r1 × IsOk r3 × IsOk r4 × IsOk r5 × IsOk r6 × IsOk r7 × IsOk r8 × IsOk r9 × IsOk r11
unfolding assemble
assemble-reads config_dir r1 r2 r3 r4 r5 r6 r7 r8 r9 r10 r11 c done =
    let (v1, e1, k1) = >>=-eq-ok r1 _ done in
    let (v2, e2, k2) = >>=-eq-ok r2 _ k1 in
    let (v3, e3, k3) = >>=-eq-ok r3 _ k2 in
    let (v4, e4, k4) = >>=-eq-ok r4 _ k3 in
    let (v5, e5, k5) = >>=-eq-ok r5 _ k4 in
    let (v6, e6, k6) = >>=-eq-ok r6 _ k5 in
    let (v7, e7, k7) = >>=-eq-ok r7 _ k6 in
    let (v8, e8, k8) = >>=-eq-ok r8 _ k7 in
    let (v9, e9, k9) = >>=-eq-ok r9 _ k8 in
    let (v10, e10, k10) = >>=-eq-ok r10 _ k9 in
    let (v11, e11, k11) = >>=-eq-ok r11 _ k10 in
    ((v1, e1), (v3, e3), (v4, e4), (v5, e5), (v6, e6), (v7, e7), (v8, e8), (v9, e9), (v11, e11))

set_default_lem :
    (o : Option Section) (key : Text) → entry_of (some (set_default o)) key ≡ entry_of o key
unfolding get
set_default_lem none key = refl
set_default_lem (some s) key = refl

pub set_default-table :
    (o : Option Section) → o ≢ some not_table → is_table (some (set_default o)) ≡ true
set_default-table none h = refl
set_default-table (some (table entries)) h = refl
set_default-table (some not_table) h = absurd (h refl)

pub table-set_default :
    (o : Option Section) → is_table (some (set_default o)) ≡ true → o ≢ some not_table
table-set_default none h k = cc
table-set_default (some (table entries)) h k = cc
table-set_default (some not_table) h k = cc

module _ (unicode : Unicode) (environment : Environ) (document : Document) where
  held :
      (cast : Cast) (env_var section key : Text)
      → cast_or unicode cast
          (get environment env_var)
          (entry_of (some (set_default (get document section))) key)
        ≡ cast_or unicode cast (get environment env_var) (lookup document section key)
  held cast env_var section key =
      ap (cast_or unicode cast (get environment env_var))
        (set_default_lem (get document section) key)

  module _ (sections : Document)
      (after : AreOverridden unicode environment env_overrides
        (section_data_by_name document)
        sections) where
    -- The override of a key is the last word on it, and the other ones leave it alone.
    module _ (cast : Cast) (env_var section key : Text)
        (value : lookup sections section key
          ≡ cast_or unicode cast (get environment env_var) (lookup document section key))
        (is : is_table (get sections section) ≡ true) where
      required :
          require (get sections section) key
          ≡ mandatory (cast_or unicode cast (get environment env_var) (lookup document section key))
      required = require_lem (get sections section) key is ∙ ap mandatory value

      defaulted :
          (default : Value)
          → get_default (get sections section) key default
            ≡ ok (
                or_default
                  (cast_or unicode cast (get environment env_var) (lookup document section key))
                  default)
      defaulted default =
          get_default_lem (get sections section) key default is
          ∙ ap (λ v. ok (or_default v default)) value

    read_text :
        (env_var section key : Text)
        → lookup sections section key
          ≡ cast_or unicode to_str (get environment env_var) (lookup document section key)
        → is_table (get sections section) ≡ true
        → (require (get sections section) key >>= str)
          ≡ (mandatory (setting environment document env_var section key) >>= str)
    read_text env_var section key value is =
        ap (λ r. r >>= str) (required to_str env_var section key value is)
        ∙ ap (λ v. mandatory v >>= str)
            (text_same unicode (get environment env_var) (lookup document section key))

    read_text_or :
        (env_var section key : Text)
        → lookup sections section key
          ≡ cast_or unicode to_str (get environment env_var) (lookup document section key)
        → is_table (get sections section) ≡ true
        → (default : Value)
        → (get_default (get sections section) key default >>= str)
          ≡ str (or_default (setting environment document env_var section key) default)
    read_text_or env_var section key value is default =
        ap (λ r. r >>= str) (defaulted to_str env_var section key value is default)
        ∙ ap (λ v. str (or_default v default))
            (text_same unicode (get environment env_var) (lookup document section key))

    read_int :
        (env_var section key : Text)
        → lookup sections section key
          ≡ cast_or unicode to_int (get environment env_var) (lookup document section key)
        → is_table (get sections section) ≡ true
        → CastOk unicode to_int (get environment env_var)
        → (require (get sections section) key >>= int unicode)
          ≡ (mandatory (setting environment document env_var section key) >>= int unicode)
    read_int env_var section key value is converts =
        ap (λ r. r >>= int unicode) (required to_int env_var section key value is)
        ∙ mandatory-int unicode (get environment env_var) (lookup document section key) converts

    read_int_or :
        (env_var section key : Text)
        → lookup sections section key
          ≡ cast_or unicode to_int (get environment env_var) (lookup document section key)
        → is_table (get sections section) ≡ true
        → (default : Value) → CastOk unicode to_int (get environment env_var)
        → (get_default (get sections section) key default >>= int unicode)
          ≡ int unicode (or_default (setting environment document env_var section key) default)
    read_int_or env_var section key value is default converts =
        ap (λ r. r >>= int unicode) (defaulted to_int env_var section key value is default)
        ∙ optional_int unicode (get environment env_var) (lookup document section key) default
            converts

    pub app_config-specified :
        (config_dir : FilePath)
        → is_table (get sections paths_section) ≡ true
        → is_table (get sections pacing_section) ≡ true
        → is_table (get sections fec_section) ≡ true
        → is_table (get sections senders_section) ≡ true
        → app_config unicode config_dir sections ≡ specified unicode config_dir environment document
    unfolding app_config specified assemble get list_beq
    app_config-specified config_dir paths pacing fec senders =
        let (c1, (c2, (c3, (c4, (c5, (c6, (c7, (c8, (c9, (c10, (c11, over))))))))))) =
          after.converts in
        let e1 =
          read_text watch_path_env_var paths_section watch_path_key
            (after.values paths_section watch_path_key
              ∙ held to_str watch_path_env_var paths_section watch_path_key)
            paths in
        let e2 =
          read_text socket_path_env_var paths_section socket_path_key
            (after.values paths_section socket_path_key
              ∙ held to_str socket_path_env_var paths_section socket_path_key)
            paths in
        let e3 =
          read_int_or rate_ceiling_bps_env_var pacing_section rate_ceiling_bps_key
            (after.values pacing_section rate_ceiling_bps_key
              ∙ held to_int rate_ceiling_bps_env_var pacing_section rate_ceiling_bps_key)
            pacing (integer default_rate_ceiling_bps) c3 in
        let e4 =
          read_int_or rate_floor_bps_env_var pacing_section rate_floor_bps_key
            (after.values pacing_section rate_floor_bps_key
              ∙ held to_int rate_floor_bps_env_var pacing_section rate_floor_bps_key)
            pacing (integer default_rate_floor_bps) c4 in
        let e5 =
          read_int fec_k_env_var fec_section fec_k_key
            (after.values fec_section fec_k_key ∙ held to_int fec_k_env_var fec_section fec_k_key)
            fec c5 in
        let e6 =
          read_int fec_n_env_var fec_section fec_n_key
            (after.values fec_section fec_n_key ∙ held to_int fec_n_env_var fec_section fec_n_key)
            fec c6 in
        let e7 =
          read_int fec_symbol_bytes_env_var fec_section fec_symbol_bytes_key
            (after.values fec_section fec_symbol_bytes_key
              ∙ held to_int fec_symbol_bytes_env_var fec_section fec_symbol_bytes_key)
            fec c7 in
        let e8 =
          read_text_or target_host_env_var senders_section target_host_key
            (after.values senders_section target_host_key
              ∙ held to_str target_host_env_var senders_section target_host_key)
            senders (text default_target_host) in
        let e9 =
          read_int_or base_port_env_var senders_section base_port_key
            (after.values senders_section base_port_key
              ∙ held to_int base_port_env_var senders_section base_port_key)
            senders (integer default_base_port) c9 in
        let e10 =
          read_text_or binary_path_env_var senders_section binary_path_key
            (after.values senders_section binary_path_key
              ∙ held to_str binary_path_env_var senders_section binary_path_key)
            senders (text default_sender_binary_path) in
        let e11 =
          read_int_or sender_count_env_var senders_section sender_count_key
            (after.values senders_section sender_count_key
              ∙ held to_int sender_count_env_var senders_section sender_count_key)
            senders (integer default_sender_count) c11 in
        λ i.
          assemble config_dir (e1 i) (e2 i) (e3 i) (e4 i) (e5 i) (e6 i) (e7 i) (e8 i) (e9 i) (e10 i)
            (e11 i)
