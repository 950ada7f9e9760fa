-- ===== src/Services/Planner/Ids.antt =====
-- src/file_monitor/services/planner.py: generate_session_id, and the file hashes that build_manifest
-- takes.
use file_monitor.Prelude.{◌≡◌}
use file_monitor.Python.Text.{Bytes, IsBytes}
use file_monitor.Python.Hex.{from_hex-hex}
use file_monitor.Services.Planner.{generate_session_id}

-- Two session ids are the same only if the random bytes were.
pub generate_session_id-injective :
    (a b : Bytes) → IsBytes a → IsBytes b → generate_session_id a ≡ generate_session_id b → a ≡ b
unfolding generate_session_id
generate_session_id-injective a b is_a is_b e = cc (from_hex-hex a is_a, from_hex-hex b is_b, e)
