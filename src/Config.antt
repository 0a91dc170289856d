-- ===== src/Config.antt =====
-- crates/pulsate-config: from the tree of a configuration file to the configuration that runs.
mod Model
mod Args
mod Blocks
mod Routing
mod Lower
mod Names
mod Check
mod Compile
mod Valid
mod Terminal
mod Handled
mod Accepted
mod Refers
mod Store
mod Publication
mod Retrying
mod Tests
mod Build
mod Built
