-- ===== src/Width.antt =====
-- wcwidth and wcswidth of native-packages/packages/libandroid-support/sources/src/musl-ctype.
pub mod Table
pub mod ZeroLow
pub mod ZeroHigh
pub mod Wide
pub mod Wcwidth
pub mod Search
pub mod Columns
mod Runs
