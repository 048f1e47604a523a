-- ===== src/Iconv/Tables/Jis0208.antt =====
-- The whole table `jis0208`, 84 rows of 94 entries.
use android_vshell.Base.{◌++◌}
use android_vshell.Iconv.Packed.{Table}
use android_vshell.Iconv.Tables.Jis02081.{jis0208_1}
use android_vshell.Iconv.Tables.Jis02082.{jis0208_2}
use android_vshell.Iconv.Tables.Jis02083.{jis0208_3}

unfoldable pub jis0208 : Table
unfolding jis0208_1 jis0208_2 jis0208_3
jis0208 = record { rows = jis0208_1 ++ (jis0208_2 ++ jis0208_3); width = 94 }
