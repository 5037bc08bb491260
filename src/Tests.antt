-- ===== src/Tests.antt =====
-- The theorems at concrete inputs, over a small world that keeps the promises of the libraries.
mod Fixtures
mod Codec
mod ControllerTests
mod ProviderTests
mod PkiTests
mod AddonTests
mod WorkloadTests
mod UtilsTests
mod AddonResourceTests
mod InterleavingTests
mod CliTests
