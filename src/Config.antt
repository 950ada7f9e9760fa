-- ===== src/Config.antt =====
-- src/file_monitor/config.py and the limits of src/file_monitor/constants.py: the records of a
-- configuration, _resolve_path, and validate_config. Reading TOML and the environment is left out.
pub mod Valid
pub mod Load
use file_monitor.Prelude.{
  ℕ, ◌-◌, ◌≡◌, Bool, true, false, ◌&&◌, ◌||◌, not, null, ℤ, pos, ltb_ℤ, leb_ℤ, if◌then◌else◌,
  Result, ok, err, Error, ◌>>=◌, ◌>>◌, raise_if, watch_path_not_directory, bad_rate_floor,
  bad_rate_ceiling, bad_fec, too_many_shares, bad_fec_order, symbol_too_long, empty_binary_path,
  bad_sender_count, base_port_out_of_range,
}
use file_monitor.Python.Text.{Text}
use file_monitor.Python.Paths.{FilePath, is_absolute, join, parse}
use file_monitor.Domain.Models.{FecParams}

abbrev pub gf256_max_shares : ℤ
gf256_max_shares = pos 255

abbrev pub ethernet_mtu_bytes : ℕ
ethernet_mtu_bytes = 1500

abbrev pub ip_header_bytes : ℕ
ip_header_bytes = 20

abbrev pub udp_header_bytes : ℕ
udp_header_bytes = 8

abbrev pub frame_prefix_bytes : ℕ
frame_prefix_bytes = 12

abbrev pub protobuf_overhead_bytes : ℕ
protobuf_overhead_bytes = 18

abbrev pub max_symbol_bytes : ℤ
max_symbol_bytes = pos (
    ethernet_mtu_bytes - ip_header_bytes - udp_header_bytes - frame_prefix_bytes
    - protobuf_overhead_bytes)

abbrev pub min_port : ℤ
min_port = pos 1

abbrev pub max_port : ℤ
max_port = pos 65535

pub record PathsConfig : Type 0 where
  pub watch_path : FilePath
  pub socket_path : FilePath

pub record PacingConfig : Type 0 where
  pub rate_ceiling_bps : ℤ
  pub rate_floor_bps : ℤ

pub record SendersConfig : Type 0 where
  pub target_host : Text
  pub base_port : ℤ
  pub binary_path : Text
  pub sender_count : ℤ

pub record AppConfig : Type 0 where
  pub paths : PathsConfig
  pub pacing : PacingConfig
  pub fec : FecParams
  pub senders : SendersConfig

unfoldable pub resolve_path : FilePath → Text → FilePath
resolve_path base_dir value =
    let path = parse value in if is_absolute path then path else join base_dir path

-- What the file system holds at `watch_path`: a directory, something else, or nothing, and then what
-- `mkdir` does.
pub data Entry : Type 0 where
  directory other : Entry
  missing : (mkdir : Result (Unit {0})) → Entry

check_watch_path : Entry → Result (Unit {0})
check_watch_path directory = ok tt
check_watch_path other = err watch_path_not_directory
check_watch_path (missing mkdir) = mkdir

unfoldable pub validate_config : Entry → AppConfig → Result (Unit {0})
unfolding check_watch_path
validate_config entry c = do
  check_watch_path entry
  raise_if (leb_ℤ c.pacing.rate_floor_bps (pos 0)) bad_rate_floor
  raise_if (ltb_ℤ c.pacing.rate_ceiling_bps c.pacing.rate_floor_bps) bad_rate_ceiling
  raise_if (leb_ℤ c.fec.k (pos 0) || leb_ℤ c.fec.n (pos 0) || leb_ℤ c.fec.symbol_bytes (pos 0))
      bad_fec
  raise_if (ltb_ℤ gf256_max_shares c.fec.n) too_many_shares
  raise_if (leb_ℤ c.fec.n c.fec.k) bad_fec_order
  raise_if (ltb_ℤ max_symbol_bytes c.fec.symbol_bytes) symbol_too_long
  raise_if (null c.senders.binary_path) empty_binary_path
  raise_if (ltb_ℤ c.senders.sender_count (pos 0)) bad_sender_count
  raise_if (not (leb_ℤ min_port c.senders.base_port && leb_ℤ c.senders.base_port max_port))
      base_port_out_of_range
