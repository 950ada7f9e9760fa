-- ===== src/Tests/Process.antt =====
-- Runs of `main` of src/file_monitor/main.py.
use file_monitor.Prelude.{
  ℕ, ◌≡◌, ◌↔◌, ◌⊎◌, refl, some, [], ◌∷◌, true, ok, err, Error, attribute_error, os_error,
}
use file_monitor.Python.Text.{codes}
use file_monitor.Python.Equality.{list_beq}
use file_monitor.Python.Dict.{get, put}
use file_monitor.Python.Paths.{parse, is_absolute, as_posix, join}
use file_monitor.Python.Names.{insert, sorted, text_leb}
use file_monitor.Python.Decimal.{int_of_text}
use file_monitor.Ipc.Handshake.{compute_proto_hash, update_all, ends_with}
use file_monitor.Config.{AppConfig, validate_config, resolve_path}
use file_monitor.Config.Valid
use file_monitor.Config.Load.{override_all, app_config, load_config}
use file_monitor.Config.Load.Values.{not_table, int, str}
use file_monitor.Main.Process.{
  World, runs_tasks, shuts_down_supervisor, unlinks_socket, build_sender_specs, is_config_error,
  loaded, run, main,
}
use file_monitor.Main.Process.Status.{IsClean, IsOrderly, main_iff, main-IsOrderly}
use file_monitor.Python.Text.{Text}
use file_monitor.Tests.Hashing.{adder, listing, zeros}
use file_monitor.Tests.Load.{unicode, config_toml, config_dir, environment, entry, expected}

-- everything goes well
abbrev world : World
world = record {
  environment = environment;
  read = λ path. ok config_toml;
  directory_of = λ path. config_dir;
  entry = entry;
  proto_contract = λ path. some listing;
  watch = λ path. ok tt;
  tasks = λ hash config. [];
  unlink = λ path. ok tt;
}

ends_well : main unicode adder world ≡ (
  ok 0,
  runs_tasks (6 ∷ zeros) (build_sender_specs expected)
      ∷ shuts_down_supervisor
      ∷ unlinks_socket expected.paths.socket_path
      ∷ [],
)
unfolding main run load_config override_all app_config get put list_beq int str int_of_text
    resolve_path parse is_absolute join as_posix validate_config compute_proto_hash update_all
    ends_with sorted insert text_leb
ends_well = refl

unreadable_file : main unicode adder (record world { read = λ path. err os_error }) ≡ (ok 78, [])
unfolding main load_config
unreadable_file = refl

-- A section that is a number ends the process with a traceback.
not_caught :
    main unicode adder
      (record world { read = λ path. ok ((codes "pacing", not_table) ∷ config_toml) })
    ≡ (err attribute_error, [])
unfolding main load_config override_all app_config get put list_beq int str int_of_text
not_caught = refl

main_iff_example :
    (((main unicode adder world).0 ≡ ok 0)
      ↔ ((config : AppConfig) × (loaded unicode world ≡ ok config) × IsClean adder world config))
    × (((main unicode adder world).0 ≡ ok 78)
        ↔ ((e : Error) × (loaded unicode world ≡ err e) × (is_config_error e ≡ true)))
    × ((status : ℕ)
        → (main unicode adder world).0 ≡ ok status
        → (status ≡ 0) ⊎ (status ≡ 1) ⊎ (status ≡ 78))
main_iff_example = main_iff unicode adder world

main-IsOrderly_example :
    ((main unicode adder world).1 ≡ [])
    ⊎ ((config : AppConfig) × (loaded unicode world ≡ ok config)
        × Valid.IsValid config
        × IsOrderly adder world config (main unicode adder world).1)
main-IsOrderly_example = main-IsOrderly unicode adder world
