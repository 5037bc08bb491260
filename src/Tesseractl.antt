-- ===== src/Tesseractl.antt =====
-- cmd/tesseractl and pkg/client: the command line tool, which reads a host cluster and the managed
-- clusters that it runs, and prints.
pub mod Strings
pub mod Host
pub mod Flags
pub mod Tokens
pub mod Discovery
pub mod Output
pub mod Commands
