-- ===== src/Iconv/Tables/Big5.antt =====
-- The whole table `big5`, 89 rows of 157 entries.
use android_vshell.Base.{◌++◌}
use android_vshell.Iconv.Packed.{Table}
use android_vshell.Iconv.Tables.Big51.{big5_1}
use android_vshell.Iconv.Tables.Big52.{big5_2}
use android_vshell.Iconv.Tables.Big53.{big5_3}
use android_vshell.Iconv.Tables.Big54.{big5_4}
use android_vshell.Iconv.Tables.Big55.{big5_5}

unfoldable pub big5 : Table
unfolding big5_1 big5_2 big5_3 big5_4 big5_5
big5 = record { rows = big5_1 ++ (big5_2 ++ (big5_3 ++ (big5_4 ++ big5_5))); width = 157 }
