-- ===== src/Examples.antt =====
-- Concrete platforms for the examples: floats whose arithmetic gives zero, in a debug build.
pub mod Values
pub mod Blocks
pub mod Machine
pub mod Middleware
pub mod Il
pub mod Runtime
pub mod Streams
use audesys.Base.{ℕ, true, false, Bool, arith, ◌<◌}
use audesys.Base.Words.{Width, w8, w16, w32, w64, modulus}
use audesys.Hal.Platform.{Platform}

abbrev build : Bool → Platform
build checks = record {
  overflow_checks = checks;
  float_add = λ w a b. 0;
  float_sub = λ w a b. 0;
  float_mul = λ w a b. 0;
  float_div = λ w a b. 0;
  float_rem = λ w a b. 0;
}

abbrev pub debug_build : Platform
debug_build = build true
