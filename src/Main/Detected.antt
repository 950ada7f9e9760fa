-- ===== src/Main/Detected.antt =====
-- src/file_monitor/main.py: a file that is seen, from the event in the watched directory to its dispatch.
use file_monitor.Python.Text.{Text}
use file_monitor.Adapters.Blake3.{Blake3}
use file_monitor.Services.Registry.Active
