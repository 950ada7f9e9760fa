-- ===== src/Config/Load/Keys.antt =====
-- src/file_monitor/constants.py: the names of sections, keys and environment variables, and the
-- defaults.
use file_monitor.Prelude.{ℤ, pos}
use file_monitor.Python.Text.{Text, codes}

abbrev pub default_rate_ceiling_bps : ℤ
default_rate_ceiling_bps = pos 20000000

abbrev pub default_rate_floor_bps : ℤ
default_rate_floor_bps = pos 5000000

abbrev pub paths_section : Text
paths_section = codes "paths"

abbrev pub pacing_section : Text
pacing_section = codes "pacing"

abbrev pub fec_section : Text
fec_section = codes "fec"

abbrev pub senders_section : Text
senders_section = codes "senders"

abbrev pub watch_path_key : Text
watch_path_key = codes "watch_path"

abbrev pub socket_path_key : Text
socket_path_key = codes "socket_path"

abbrev pub rate_ceiling_bps_key : Text
rate_ceiling_bps_key = codes "rate_ceiling_bps"

abbrev pub rate_floor_bps_key : Text
rate_floor_bps_key = codes "rate_floor_bps"

abbrev pub fec_k_key : Text
fec_k_key = codes "k"

abbrev pub fec_n_key : Text
fec_n_key = codes "n"

abbrev pub fec_symbol_bytes_key : Text
fec_symbol_bytes_key = codes "symbol_bytes"

abbrev pub target_host_key : Text
target_host_key = codes "target_host"

abbrev pub base_port_key : Text
base_port_key = codes "base_port"

abbrev pub binary_path_key : Text
binary_path_key = codes "binary_path"

abbrev pub sender_count_key : Text
sender_count_key = codes "sender_count"

abbrev pub watch_path_env_var : Text
watch_path_env_var = codes "NEXUS_WATCH_PATH"

abbrev pub socket_path_env_var : Text
socket_path_env_var = codes "NEXUS_SOCKET_PATH"

abbrev pub rate_ceiling_bps_env_var : Text
rate_ceiling_bps_env_var = codes "NEXUS_RATE_CEILING_BPS"

abbrev pub rate_floor_bps_env_var : Text
rate_floor_bps_env_var = codes "NEXUS_RATE_FLOOR_BPS"

abbrev pub fec_k_env_var : Text
fec_k_env_var = codes "NEXUS_FEC_K"

abbrev pub fec_n_env_var : Text
fec_n_env_var = codes "NEXUS_FEC_N"

abbrev pub fec_symbol_bytes_env_var : Text
fec_symbol_bytes_env_var = codes "NEXUS_FEC_SYMBOL_BYTES"

abbrev pub target_host_env_var : Text
target_host_env_var = codes "NEXUS_SENDERS_TARGET_HOST"

abbrev pub base_port_env_var : Text
base_port_env_var = codes "NEXUS_SENDERS_BASE_PORT"

abbrev pub binary_path_env_var : Text
binary_path_env_var = codes "NEXUS_SENDERS_BINARY_PATH"

abbrev pub sender_count_env_var : Text
sender_count_env_var = codes "NEXUS_SENDERS_SENDER_COUNT"

abbrev pub nexus_config_env_var : Text
nexus_config_env_var = codes "NEXUS_CONFIG"

abbrev pub default_config_path : Text
default_config_path = codes "config.toml"

abbrev pub proto_contract_dir_env_var : Text
proto_contract_dir_env_var = codes "NEXUS_PROTO_CONTRACT_DIR"

abbrev pub default_proto_contract_dir : Text
default_proto_contract_dir = codes "libs/nexus-proto/proto"

abbrev pub default_target_host : Text
default_target_host = codes "127.0.0.1"

abbrev pub default_base_port : ℤ
default_base_port = pos 9000

abbrev pub default_sender_binary_path : Text
default_sender_binary_path = codes "./bin/nexus-sender"

abbrev pub default_sender_count : ℤ
default_sender_count = pos 3

abbrev pub config_error_exit_code : ℤ
config_error_exit_code = pos 78
