-- ===== src/Iconv/Tables/Ksc.antt =====
-- The whole table `ksc`, 93 rows of 94 entries.
use android_vshell.Base.{◌++◌}
use android_vshell.Iconv.Packed.{Table}
use android_vshell.Iconv.Tables.Ksc1.{ksc_1}
use android_vshell.Iconv.Tables.Ksc2.{ksc_2}
use android_vshell.Iconv.Tables.Ksc3.{ksc_3}

unfoldable pub ksc : Table
unfolding ksc_1 ksc_2 ksc_3
ksc = record { rows = ksc_1 ++ (ksc_2 ++ ksc_3); width = 94 }
