-- ===== src/Iconv.antt =====
-- Character set conversion, native-packages/packages/libandroid-support/sources/src/musl-locale/iconv.c.
pub mod Packed
pub mod Tables
pub mod Charmap
pub mod Special
pub mod Codepages
pub mod Names
pub mod Units
pub mod Select
pub mod Decode
pub mod Encode
pub mod Convert
pub mod UnitLaws
pub mod Step
pub mod Forms
pub mod FormLaws
pub mod Transcode
pub mod TranscodeText
pub mod Bounds
pub mod Kept
pub mod Advance
pub mod Total
pub mod Plain
pub mod Forget
pub mod More
pub mod Resume
pub mod LegacyPacking
pub mod LegacyLaws
mod Runs
pub mod FormSplit
pub mod FormReads
pub mod SelectLaws
pub mod TableSizes
pub mod TableBounds
pub mod NameLaws
pub mod Short
pub mod Malformed
pub mod Defined
