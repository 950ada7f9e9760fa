-- ===== src/Tests/Load.antt =====
-- Runs of load_config of src/file_monitor/config.py, and of src/file_monitor/main.py, on the repository's
-- config.toml.
use file_monitor.Prelude.{
  ◌≡◌, ◌↔◌, refl, none, [], ◌∷◌, true, false, pos, Result, ok, err, bad_int, type_error,
  attribute_error, missing_key,
}
use file_monitor.Python.Text.{codes}
use file_monitor.Python.Equality.{list_beq}
use file_monitor.Python.Dict.{get, put}
use file_monitor.Python.Paths.{FilePath, parse, is_absolute, as_posix, join}
use file_monitor.Python.Decimal.{Unicode, int_of_text}
use file_monitor.Config.{AppConfig, Entry, directory, validate_config, resolve_path}
use file_monitor.Config.Load.{Document, Environ, override_all, app_config, load_config}
use file_monitor.Config.Load.Values.{text, integer, other, table, not_table, int, str}
use file_monitor.Config.Load.Settings.{specified}
use file_monitor.Config.Load.Loaded.{HasTables, load_config_iff}
use file_monitor.Config.Load.Absolute.{load_config-absolute}

abbrev pub unicode : Unicode
unicode = record { is_space = λ c. false; decimal = λ c. none }

abbrev pub config_toml : Document
config_toml =
    (
      codes "paths",
      table (
          (codes "watch_path", text (codes "./watch"))
          ∷ (codes "socket_path", text (codes "./run/file-monitor.sock"))
          ∷ []),
    )
    ∷ (
      codes "pacing",
      table (
          (codes "rate_ceiling_bps", integer (pos 20000000))
          ∷ (codes "rate_floor_bps", integer (pos 5000000))
          ∷ []),
    )
    ∷ (
      codes "fec",
      table (
          (codes "k", integer (pos 200))
          ∷ (codes "n", integer (pos 255))
          ∷ (codes "symbol_bytes", integer (pos 1400))
          ∷ []),
    )
    ∷ (codes "senders", table ((codes "base_port", integer (pos 9000)) ∷ []))
    ∷ []

abbrev pub config_dir : FilePath
config_dir = parse (codes "/etc/nexus")

-- a blank and an underscore are read over
abbrev pub environment : Environ
environment =
    (codes "NEXUS_SENDERS_SENDER_COUNT", codes " 1_2 ")
    ∷ (codes "NEXUS_SENDERS_BINARY_PATH", codes "/bin/nexus-sender")
    ∷ []

abbrev pub expected : AppConfig
expected = record {
  paths = record {
    watch_path = parse (codes "/etc/nexus/watch");
    socket_path = parse (codes "/etc/nexus/run/file-monitor.sock");
  };
  pacing = record { rate_ceiling_bps = pos 20000000; rate_floor_bps = pos 5000000 };
  fec = record { k = pos 200; n = pos 255; symbol_bytes = pos 1400 };
  senders = record {
    target_host = codes "127.0.0.1";
    base_port = pos 9000;
    binary_path = codes "/bin/nexus-sender";
    sender_count = pos 12;
  };
}

abbrev pub entry : FilePath → Entry
entry p = directory

pub loads : load_config unicode (ok config_toml) config_dir environment entry ≡ ok expected
unfolding load_config override_all app_config get put list_beq int str int_of_text resolve_path
    parse is_absolute join as_posix validate_config
loads = refl

load_config_iff_example :
    (load_config unicode (ok config_toml) config_dir environment entry ≡ ok expected) ↔ (
      (document : Document) × (◌≡◌ {A = Result Document} (ok config_toml) (ok document))
      × HasTables document
      × (specified unicode config_dir environment document ≡ ok expected)
      × (validate_config (entry expected.paths.watch_path) expected ≡ ok tt))
load_config_iff_example =
    load_config_iff unicode (ok config_toml) config_dir environment entry expected

load_config-absolute_example :
    (is_absolute expected.paths.watch_path ≡ true)
    × (is_absolute expected.paths.socket_path ≡ true)
    × (binary_path : FilePath) × (expected.senders.binary_path ≡ as_posix binary_path)
    × (is_absolute binary_path ≡ true)
unfolding is_absolute parse
load_config-absolute_example =
    load_config-absolute unicode (ok config_toml) config_dir environment entry expected refl loads

-- what `load_config` raises with this environment over this file
abbrev pub raised : Environ → Document → Result AppConfig
raised env document = load_config unicode (ok document) config_dir env entry

bad_number : raised ((codes "NEXUS_FEC_K", codes "4__0") ∷ []) config_toml ≡ err bad_int
unfolding load_config override_all get put list_beq int int_of_text
bad_number = refl

no_section : raised [] [] ≡ err missing_key
unfolding load_config override_all app_config get put list_beq
no_section = refl

-- The two exceptions that `main` does not expect.
number_for_section : raised [] ((codes "pacing", not_table) ∷ config_toml) ≡ err attribute_error
unfolding load_config override_all app_config get put list_beq int str
number_for_section = refl

array_for_number :
    raised []
      ((codes "pacing", table ((codes "rate_floor_bps", other (codes "[1]")) ∷ [])) ∷ config_toml)
    ≡ err type_error
unfolding load_config override_all app_config get put list_beq int str
array_for_number = refl
