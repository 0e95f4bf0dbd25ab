-- ===== src/Tests.antt =====
-- The theorems at concrete inputs, and runs of the definitions.
mod CommandLine
mod Panels
mod Views
mod Acting
mod Configured
mod Collected
mod Shown
mod Alerting
mod Machine
mod Tables
mod Screen
mod Program
