-- ===== src/CommandLine.antt =====
-- ProgramOptions.cpp and ramble.cpp: the options and the driver.
pub mod Runs
pub mod Algorithms
pub mod Options
pub mod Learning
pub mod Sizes
pub mod Main
pub mod Success
pub mod Exits
