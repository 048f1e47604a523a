-- ===== src/Multibyte.antt =====
-- The UTF-8 decoder of native-packages/packages/libandroid-support/sources/src/musl-multibyte.
pub mod Table
pub mod Step
pub mod Mbsrtowcs
pub mod Utf8
pub mod Lead
pub mod Arithmetic
pub mod Decode
pub mod Encode
pub mod Words
pub mod Loop
pub mod Strings
mod Runs
mod LimitRuns
mod WholeRuns
pub mod Mbsnrtowcs
pub mod Chunks
pub mod Rounds
pub mod Limits
pub mod Calls
pub mod Resumed
pub mod Skip
pub mod Counting
pub mod Measure
pub mod Text
pub mod Whole
pub mod Overread
