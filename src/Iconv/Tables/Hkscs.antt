-- ===== src/Iconv/Tables/Hkscs.antt =====
-- The whole table `hkscs`, 31 rows of 157 entries.
use android_vshell.Base.{◌++◌}
use android_vshell.Iconv.Packed.{Table}
use android_vshell.Iconv.Tables.Hkscs1.{hkscs_1}
use android_vshell.Iconv.Tables.Hkscs2.{hkscs_2}

unfoldable pub hkscs : Table
unfolding hkscs_1 hkscs_2
hkscs = record { rows = hkscs_1 ++ hkscs_2; width = 157 }
