-- ===== src/Tests.antt =====
-- Tests of the modules, and their theorems at concrete inputs.
mod Output
mod Docker
mod Xray
mod Hysteria
mod Mcp
mod NameRules
mod Quote
mod Diagnose
mod Run
mod Repair
mod Log
