-- ===== src/Iconv/Tables.antt =====
-- The tables of musl-locale, one file of the source after another.
pub mod Big5
pub mod Big51
pub mod Big52
pub mod Big53
pub mod Big54
pub mod Big55
pub mod Gb18030
pub mod Gb180301
pub mod Gb180302
pub mod Gb180303
pub mod Gb180304
pub mod Gb180305
pub mod Gb180306
pub mod Gb180307
pub mod Gb180308
pub mod Gb180309
pub mod Hkscs
pub mod Hkscs1
pub mod Hkscs2
pub mod HkscsPlanes
pub mod Jis0208
pub mod Jis02081
pub mod Jis02082
pub mod Jis02083
pub mod Ksc
pub mod Ksc1
pub mod Ksc2
pub mod Ksc3
pub mod LegacyChars
