-- ===== src/Config/Load.antt =====
-- src/file_monitor/config.py, load_config, with the names and defaults of
-- src/file_monitor/constants.py: a configuration file, overridden by the environment.
pub mod Values
pub mod Keys
pub mod Overrides
pub mod Settings
pub mod Effective
pub mod Loaded
pub mod Absolute
use file_monitor.Prelude.{
  ℕ, ◌≡◌, Option, none, some, List, [], ◌∷◌, ℤ, pos, Result, ok, err, Error, ◌>>=◌, ◌>>◌, or_raise,
  attribute_error, type_error, key_error, missing_key,
}
use file_monitor.Python.Text.{Text, codes}
use file_monitor.Python.Equality.{nat_eq, list_eq}
use file_monitor.Python.Dict.{Dict, get, put}
use file_monitor.Python.Paths.{FilePath, as_posix}
use file_monitor.Python.Decimal.{Unicode}
use file_monitor.Config.{AppConfig, Entry, resolve_path, validate_config}
use Values.{Value, text, integer, Section, table, not_table, int, str}
use Keys.*

-- a conversion of ENV_OVERRIDES: `str` or `int`
pub data Cast : Type 0 where
  to_str to_int : Cast

pub record Override : Type 0 where
  pub env_var_name : Text
  pub section : Text
  pub key : Text
  pub cast : Cast

abbrev override : Text → Text → Text → Cast → Override
override env_var_name section key cast = record {
  env_var_name = env_var_name;
  section = section;
  key = key;
  cast = cast;
}

abbrev pub env_overrides : List Override
env_overrides =
    override watch_path_env_var paths_section watch_path_key to_str
    ∷ override socket_path_env_var paths_section socket_path_key to_str
    ∷ override rate_ceiling_bps_env_var pacing_section rate_ceiling_bps_key to_int
    ∷ override rate_floor_bps_env_var pacing_section rate_floor_bps_key to_int
    ∷ override fec_k_env_var fec_section fec_k_key to_int
    ∷ override fec_n_env_var fec_section fec_n_key to_int
    ∷ override fec_symbol_bytes_env_var fec_section fec_symbol_bytes_key to_int
    ∷ override target_host_env_var senders_section target_host_key to_str
    ∷ override base_port_env_var senders_section base_port_key to_int
    ∷ override binary_path_env_var senders_section binary_path_key to_str
    ∷ override sender_count_env_var senders_section sender_count_key to_int
    ∷ []

-- what `tomllib.load` returns
abbrev pub Document : Type 0
Document = Dict Text Section

abbrev pub Environ : Type 0
Environ = Dict Text Text

-- data.setdefault(name, {})
abbrev pub set_default : Option Section → Section
set_default none = table []
set_default (some section) = section

abbrev pub section_data_by_name : Document → Document
section_data_by_name document =
    (paths_section, set_default (get document paths_section))
    ∷ (pacing_section, set_default (get document pacing_section))
    ∷ (fec_section, set_default (get document fec_section))
    ∷ (senders_section, set_default (get document senders_section))
    ∷ []

abbrev pub cast_value : Unicode → Cast → Text → Result Value
cast_value unicode to_str t = ok (text t)
cast_value unicode to_int t = do z ← int unicode (text t); ok (integer z)

-- sections[section][key] = value.
abbrev set_in : Document → Text → Option Section → Text → Value → Result Document
set_in sections name none key value = err key_error
set_in sections name (some not_table) key value = err type_error
set_in sections name (some (table entries)) key value =
    ok (put sections name (table (put entries key value)))

abbrev pub set_item : Document → Text → Text → Value → Result Document
set_item sections name key value = set_in sections name (get sections name) key value

abbrev pub override_with : Unicode → Override → Option Text → Document → Result Document
override_with unicode o none sections = ok sections
override_with unicode o (some t) sections = do
  value ← cast_value unicode o.cast t
  set_item sections o.section o.key value

-- the loop over ENV_OVERRIDES
unfoldable pub override_all : Unicode → Environ → List Override → Document → Result Document
override_all unicode environment [] sections = ok sections
override_all unicode environment (o ∷ os) sections = do
  sections' ← override_with unicode o (get environment o.env_var_name) sections
  override_all unicode environment os sections'

-- `_require`
abbrev pub require : Option Section → Text → Result Value
require none key = err key_error
require (some not_table) key = err missing_key
require (some (table entries)) key = or_raise (get entries key) missing_key

abbrev pub or_default : Option Value → Value → Value
or_default none default = default
or_default (some value) default = value

-- mapping.get(key, default)
abbrev pub get_default : Option Section → Text → Value → Result Value
get_default none key default = err key_error
get_default (some not_table) key default = err attribute_error
get_default (some (table entries)) key default = ok (or_default (get entries key) default)

-- The AppConfig that is made of the four sections.
unfoldable pub app_config : Unicode → FilePath → Document → Result AppConfig
app_config unicode config_dir sections = do
  let paths_data = get sections paths_section
  let pacing_data = get sections pacing_section
  let fec_data = get sections fec_section
  let senders_data = get sections senders_section
  watch_path ← require paths_data watch_path_key >>= str
  socket_path ← require paths_data socket_path_key >>= str
  rate_ceiling_bps ←
      get_default pacing_data rate_ceiling_bps_key (integer default_rate_ceiling_bps)
      >>= int unicode
  rate_floor_bps ←
      get_default pacing_data rate_floor_bps_key (integer default_rate_floor_bps) >>= int unicode
  k ← require fec_data fec_k_key >>= int unicode
  n ← require fec_data fec_n_key >>= int unicode
  symbol_bytes ← require fec_data fec_symbol_bytes_key >>= int unicode
  target_host ← get_default senders_data target_host_key (text default_target_host) >>= str
  base_port ← get_default senders_data base_port_key (integer default_base_port) >>= int unicode
  binary_path ← get_default senders_data binary_path_key (text default_sender_binary_path) >>= str
  sender_count ←
      get_default senders_data sender_count_key (integer default_sender_count) >>= int unicode
  ok (record {
    paths = record {
      watch_path = resolve_path config_dir watch_path;
      socket_path = resolve_path config_dir socket_path;
    };
    pacing = record { rate_ceiling_bps = rate_ceiling_bps; rate_floor_bps = rate_floor_bps };
    fec = record { k = k; n = n; symbol_bytes = symbol_bytes };
    senders = record {
      target_host = target_host;
      base_port = base_port;
      binary_path = as_posix (resolve_path config_dir binary_path);
      sender_count = sender_count;
    };
  })

-- `read` is what opening and parsing the file gives, `config_dir` the directory of the resolved path of
-- the file, and `entry` what the file system holds at a path.
unfoldable pub load_config :
    Unicode
    → (read : Result Document) → (config_dir : FilePath) → Environ
    → (entry : FilePath → Entry) → Result AppConfig
load_config unicode read config_dir environment entry = do
  document ← read
  sections ← override_all unicode environment env_overrides (section_data_by_name document)
  config ← app_config unicode config_dir sections
  validate_config (entry config.paths.watch_path) config
  ok config
