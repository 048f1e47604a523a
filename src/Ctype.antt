-- ===== src/Ctype.antt =====
-- Character classes and case mapping, native-packages/packages/libandroid-support/sources/src/musl-ctype.
pub mod Alpha
pub mod Punct
pub mod Class
pub mod CaseMaps
pub mod Pairs
pub mod Case
pub mod ClassLaws
pub mod CaseLaws
mod Runs
pub mod ByName
pub mod NameLaws
