-- ===== src/Config/Valid.antt =====
-- src/file_monitor/config.py: what validate_config accepts.
use file_monitor.Prelude.{ℕ, ◌≤◌, ◌<◌, ◌≡◌, ◌≢◌, ◌↔◌, [], arith, pos, ok}
use file_monitor.Config.{AppConfig, validate_config, Entry, directory, other, missing}

-- The bounds of a configuration.
pub record IsValid (c : AppConfig) : Type 0 where
  pub floor : ℕ
  pub ceiling : ℕ
  pub is_floor : c.pacing.rate_floor_bps ≡ pos floor
  pub is_ceiling : c.pacing.rate_ceiling_bps ≡ pos ceiling
  pub floor_pos : 0 < floor
  pub floor_le : floor ≤ ceiling
  pub k : ℕ
  pub n : ℕ
  pub symbol_bytes : ℕ
  pub is_k : c.fec.k ≡ pos k
  pub is_n : c.fec.n ≡ pos n
  pub is_symbol_bytes : c.fec.symbol_bytes ≡ pos symbol_bytes
  pub k_pos : 0 < k
  pub k_lt : k < n
  pub n_le : n ≤ 255
  pub symbol_pos : 0 < symbol_bytes
  pub symbol_le : symbol_bytes ≤ 1442
  pub binary_path : c.senders.binary_path ≢ []
  pub sender_count : ℕ
  pub is_sender_count : c.senders.sender_count ≡ pos sender_count
  pub port : ℕ
  pub is_port : c.senders.base_port ≡ pos port
  pub port_pos : 0 < port
  pub port_le : port ≤ 65535

-- Is there a directory at the watched path, or is one made?
abbrev pub IsWatchable : Entry → Type 0
IsWatchable directory = Unit
IsWatchable other = ⊥
IsWatchable (missing mkdir) = mkdir ≡ ok tt

module _ (entry : Entry) (c : AppConfig) where
  module _ (valid : validate_config entry c ≡ ok tt) where
    valid-entry : IsWatchable entry
    unfolding validate_config
    valid-entry = ground arith

    valid-pacing :
        (floor ceiling : ℕ) × (c.pacing.rate_floor_bps ≡ pos floor)
        × (c.pacing.rate_ceiling_bps ≡ pos ceiling)
        × (0 < floor)
        × (floor ≤ ceiling)
    unfolding validate_config
    valid-pacing = ground arith

    valid-fec :
        (k n symbol_bytes : ℕ) × (c.fec.k ≡ pos k)
        × (c.fec.n ≡ pos n)
        × (c.fec.symbol_bytes ≡ pos symbol_bytes)
        × (0 < k)
        × (k < n)
        × (n ≤ 255)
        × (0 < symbol_bytes)
        × (symbol_bytes ≤ 1442)
    unfolding validate_config
    valid-fec = ground arith

    valid-senders :
        (sender_count port : ℕ) × (c.senders.binary_path ≢ [])
        × (c.senders.sender_count ≡ pos sender_count)
        × (c.senders.base_port ≡ pos port)
        × (0 < port)
        × (port ≤ 65535)
    unfolding validate_config
    valid-senders = ground arith

  accept : IsWatchable entry → IsValid c → validate_config entry c ≡ ok tt
  unfolding validate_config
  accept w v = ground arith

-- A configuration is accepted exactly if there is a directory at the watched path, or one is made, and
-- 0 < floor <= ceiling for the rates, 0 < k < n <= 255 and 0 < symbol_bytes <= 1442 for the code, the
-- path of the sender's program is not empty, the number of senders is not negative, and the base port
-- is from 1 to 65535.
pub validate_config_iff :
    (entry : Entry) (c : AppConfig)
    → (validate_config entry c ≡ ok tt) ↔ (IsWatchable entry × IsValid c)
validate_config_iff entry c = (
  λ valid.
      let (floor, ceiling, is_floor, is_ceiling, floor_pos, floor_le) =
        valid-pacing entry c valid in
      let (
        k, n, symbol_bytes, is_k, is_n, is_symbol_bytes, k_pos, k_lt, n_le, symbol_pos, symbol_le,
      ) =
        valid-fec entry c valid in
      let (sender_count, port, binary_path, is_sender_count, is_port, port_pos, port_le) =
        valid-senders entry c valid in
      (
        valid-entry entry c valid,
        record {
          floor = floor;
          ceiling = ceiling;
          is_floor = is_floor;
          is_ceiling = is_ceiling;
          floor_pos = floor_pos;
          floor_le = floor_le;
          k = k;
          n = n;
          symbol_bytes = symbol_bytes;
          is_k = is_k;
          is_n = is_n;
          is_symbol_bytes = is_symbol_bytes;
          k_pos = k_pos;
          k_lt = k_lt;
          n_le = n_le;
          symbol_pos = symbol_pos;
          symbol_le = symbol_le;
          binary_path = binary_path;
          sender_count = sender_count;
          is_sender_count = is_sender_count;
          port = port;
          is_port = is_port;
          port_pos = port_pos;
          port_le = port_le;
        },
      ),
  λ (watchable, valid). accept entry c watchable valid,
)
