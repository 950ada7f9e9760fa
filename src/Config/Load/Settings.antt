-- ===== src/Config/Load/Settings.antt =====
-- src/file_monitor/config.py: where each setting of a configuration comes from.
use file_monitor.Prelude.{
  ◌≡◌, refl, true, Option, none, some, ℤ, Result, ok, ◌>>=◌, >>=-eq-ok, or_raise, missing_key,
}
use file_monitor.Python.Text.{Text}
use file_monitor.Python.Equality.{nat_eq, list_eq}
use file_monitor.Python.Dict.{get}
use file_monitor.Python.Paths.{FilePath, as_posix}
use file_monitor.Python.Decimal.{Unicode, int_of_text}
use file_monitor.Config.{AppConfig, resolve_path}
use file_monitor.Config.Load.{to_int, to_str, Document, Environ, or_default, require, get_default}
use file_monitor.Config.Load.Keys.{
  default_rate_ceiling_bps, default_rate_floor_bps, paths_section, pacing_section, fec_section,
  senders_section, watch_path_key, socket_path_key, rate_ceiling_bps_key, rate_floor_bps_key,
  fec_k_key, fec_n_key, fec_symbol_bytes_key, target_host_key, base_port_key, binary_path_key,
  sender_count_key, watch_path_env_var, socket_path_env_var, rate_ceiling_bps_env_var,
  rate_floor_bps_env_var, fec_k_env_var, fec_n_env_var, fec_symbol_bytes_env_var,
  target_host_env_var, base_port_env_var, binary_path_env_var, sender_count_env_var,
  default_target_host, default_base_port, default_sender_binary_path, default_sender_count,
}
use file_monitor.Config.Load.Values.{Value, text, integer, Section, table, not_table, int, str}
use file_monitor.Config.Load.Overrides.{is_table, entry_of, lookup, cast_or, CastOk}

-- The variable of the environment if it is set, and the key of the file otherwise.
abbrev pub first_of : Option Text → Option Value → Option Value
first_of (some t) v = some (text t)
first_of none v = v

abbrev pub setting : Environ → Document → Text → Text → Text → Option Value
setting environment document env_var_name section key =
    first_of (get environment env_var_name) (lookup document section key)

abbrev pub mandatory : Option Value → Result Value
mandatory v = or_raise v missing_key

-- A configuration of eleven values, which are read in this order.
unfoldable pub assemble :
    FilePath
    → (watch_path socket_path : Result Text)
      (rate_ceiling_bps rate_floor_bps k n symbol_bytes : Result ℤ)
    → (target_host : Result Text) (base_port : Result ℤ) (binary_path : Result Text)
    → (sender_count : Result ℤ) → Result AppConfig
assemble config_dir r1 r2 r3 r4 r5 r6 r7 r8 r9 r10 r11 = do
  watch_path ← r1
  socket_path ← r2
  rate_ceiling_bps ← r3
  rate_floor_bps ← r4
  k ← r5
  n ← r6
  symbol_bytes ← r7
  target_host ← r8
  base_port ← r9
  binary_path ← r10
  sender_count ← r11
  ok (record {
    paths = record {
      watch_path = resolve_path config_dir watch_path;
      socket_path = resolve_path config_dir socket_path;
    };
    pacing = record { rate_ceiling_bps = rate_ceiling_bps; rate_floor_bps = rate_floor_bps };
    fec = record { k = k; n = n; symbol_bytes = symbol_bytes };
    senders = record {
      target_host = target_host;
      base_port = base_port;
      binary_path = as_posix (resolve_path config_dir binary_path);
      sender_count = sender_count;
    };
  })

-- The configuration of an environment and a file.
unfoldable pub specified : Unicode → FilePath → Environ → Document → Result AppConfig
specified unicode config_dir environment document =
    let set = setting environment document in
    assemble config_dir (mandatory (set watch_path_env_var paths_section watch_path_key) >>= str)
      (mandatory (set socket_path_env_var paths_section socket_path_key) >>= str)
      (int unicode (
        or_default (set rate_ceiling_bps_env_var pacing_section rate_ceiling_bps_key)
          (integer default_rate_ceiling_bps)))
      (int unicode (
        or_default (set rate_floor_bps_env_var pacing_section rate_floor_bps_key)
          (integer default_rate_floor_bps)))
      (mandatory (set fec_k_env_var fec_section fec_k_key) >>= int unicode)
      (mandatory (set fec_n_env_var fec_section fec_n_key) >>= int unicode)
      (mandatory (set fec_symbol_bytes_env_var fec_section fec_symbol_bytes_key) >>= int unicode)
      (str (
        or_default (set target_host_env_var senders_section target_host_key)
          (text default_target_host)))
      (int unicode (
        or_default (set base_port_env_var senders_section base_port_key)
          (integer default_base_port)))
      (str (
        or_default (set binary_path_env_var senders_section binary_path_key)
          (text default_sender_binary_path)))
      (int unicode (
        or_default (set sender_count_env_var senders_section sender_count_key)
          (integer default_sender_count)))

-- A value that was converted before it was stored reads like the text of the variable.
pub mandatory-int :
    (unicode : Unicode) (t : Option Text) (v : Option Value)
    → CastOk unicode to_int t
    → (mandatory (cast_or unicode to_int t v) >>= int unicode)
      ≡ (mandatory (first_of t v) >>= int unicode)
unfolding int
mandatory-int unicode none v c = refl
mandatory-int unicode (some t) v (w, c) =
    let (z, is_z, is_w) = >>=-eq-ok (int_of_text unicode t) (λ z. ok (integer z)) c in
    rw (is_z, cast_or) refl

pub optional_int :
    (unicode : Unicode) (t : Option Text) (v : Option Value) (default : Value)
    → CastOk unicode to_int t
    → int unicode (or_default (cast_or unicode to_int t v) default)
      ≡ int unicode (or_default (first_of t v) default)
unfolding int
optional_int unicode none v default c = refl
optional_int unicode (some t) v default (w, c) =
    let (z, is_z, is_w) = >>=-eq-ok (int_of_text unicode t) (λ z. ok (integer z)) c in
    rw (is_z, cast_or) refl

pub text_same :
    (unicode : Unicode) (t : Option Text) (v : Option Value)
    → cast_or unicode to_str t v ≡ first_of t v
text_same unicode none v = refl
text_same unicode (some t) v = refl

pub require_lem :
    (o : Option Section) (key : Text)
    → is_table o ≡ true
    → require o key ≡ mandatory (entry_of o key)
require_lem none key is = absurd (cc)
require_lem (some not_table) key is = absurd (cc)
require_lem (some (table entries)) key is = refl

pub get_default_lem :
    (o : Option Section) (key : Text) (default : Value)
    → is_table o ≡ true
    → get_default o key default ≡ ok (or_default (entry_of o key) default)
get_default_lem none key default is = absurd (cc)
get_default_lem (some not_table) key default is = absurd (cc)
get_default_lem (some (table entries)) key default is = refl
