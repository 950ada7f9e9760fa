-- ===== src/Main/Configured.antt =====
-- src/file_monitor/main.py: a dispatcher that is set up from an accepted configuration.
use file_monitor.Prelude.{
  ℕ, suc, ◌-◌, ◌*◌, ◌^◌, ◌≤◌, ◌<◌, ◌≡◌, ap, ◌∙◌, true, Option, arith, ℤ, pos, pos-mul, ok,
}
use native.Mathlib.Nat.{mul-le-mul_right}
use file_monitor.Python.Text.{Text, Bytes}
use file_monitor.Python.Paths.{FilePath}
use file_monitor.Domain.Models.{block_size}
use file_monitor.Ipc.Messages
use file_monitor.Ipc.Messages.{Ranges, AssignSession}
use file_monitor.Ipc.Codec.{Protobuf}
use file_monitor.Services.Planner.{SessionId}
use file_monitor.Services.Registry.Active
use file_monitor.Services.Dispatcher.{Environment, State, dispatch}
use file_monitor.Services.Dispatcher.Total.{IsSound, IsFile, dispatch-ok}
use file_monitor.Config.{AppConfig, Entry, validate_config}
use file_monitor.Config.Valid.{IsValid, validate_config_iff}
use file_monitor.Main.{dispatcher_settings}

-- All numbers fit the fields of the messages.
pub record AreWide (ranges : Ranges) : Type 0 where
  pub manifests : (m : Messages.Manifest) → ranges.manifest_fits m ≡ true
  pub sessions : (m : AssignSession) → ranges.assign_session_fits m ≡ true

product-pos : (k s : ℕ) → 0 < k → 0 < s → 0 < k * s
product-pos k s hk hs = grind arith

product-le : (k s : ℕ) → k ≤ 255 → s ≤ 1442 → k * s ≤ 2 ^ 1074
product-le k s hk hs = omega (arith, mul-le-mul_right s hk)

pos-eq-suc : (z : ℤ) (n : ℕ) → z ≡ pos n → 0 < n → z ≡ pos (suc (n - 1))
pos-eq-suc z n e h = e ∙ ap pos (omega arith)

IsValid-IsSound :
    (ranges : Ranges) (protobuf : Protobuf) (config : AppConfig)
    → AreWide ranges
    → IsValid config
    → IsSound (dispatcher_settings ranges protobuf config)
IsValid-IsSound ranges protobuf config wide v = record {
  size = v.k * v.symbol_bytes;
  is_size = unfold block_size in rw (v.is_k, v.is_symbol_bytes) (pos-mul v.k v.symbol_bytes);
  size_pos = product-pos v.k v.symbol_bytes v.k_pos v.symbol_pos;
  size_fits = product-le v.k v.symbol_bytes (omega (arith, v.k_lt, v.n_le)) v.symbol_le;
  port = v.port - 1;
  is_port = pos-eq-suc config.senders.base_port v.port v.is_port v.port_pos;
  manifests = wide.manifests;
  sessions = wide.sessions;
}

-- With a configuration that validate_config accepts, a dispatch raises nothing for a file of less than
-- 2 ^ 53 bytes below the watched directory whose hash is the digest in hexadecimal, if the numbers
-- fit the fields of the messages, whatever the senders and the other tasks do, as long as the registry
-- they leave holds each sender once.
pub validate_config-dispatch_ok :
    {S : Type 0} (entry : Entry) (config : AppConfig) (ranges : Ranges) (protobuf : Protobuf)
    → (env : Environment S) (now : ℕ) (random_bytes : Bytes) (size : ℤ) (hash : Text)
    → (path : FilePath) (s : State S) → validate_config entry config ≡ ok tt
    → AreWide ranges
    → IsFile
        (dispatcher_settings ranges protobuf config)
        (record { path = path; size_bytes = size; file_hash = hash })
    → Active.IsValid (env.during_hash (s.registry, s.ipc)).0
    → (r : Option SessionId) × ((dispatch env
          (dispatcher_settings ranges protobuf config)
          now
          random_bytes
          (ok size)
          (ok hash)
          path
          s).0
        ≡ ok r)
validate_config-dispatch_ok entry config ranges protobuf env now random_bytes size hash path s valid
      wide is_file kept =
    dispatch-ok env (dispatcher_settings ranges protobuf config) now random_bytes size hash path s
      (IsValid-IsSound ranges protobuf config wide ((validate_config_iff entry config).0 valid).1)
      is_file kept
