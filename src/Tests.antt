-- ===== src/Tests.antt =====
-- Runs of the modelled code on concrete inputs.
mod Planning
mod Registry
mod Planner
mod Wire
mod Codec
mod Dispatcher
mod Supervisor
mod Uds
mod Watcher
mod Main
mod Hashing
mod Load
mod Children
mod INotifyEvents
mod Process
mod Tasks
