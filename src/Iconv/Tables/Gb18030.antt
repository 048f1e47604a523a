-- ===== src/Iconv/Tables/Gb18030.antt =====
-- The whole table `gb18030`, 126 rows of 190 entries.
use android_vshell.Base.{◌++◌}
use android_vshell.Iconv.Packed.{Table}
use android_vshell.Iconv.Tables.Gb180301.{gb18030_1}
use android_vshell.Iconv.Tables.Gb180302.{gb18030_2}
use android_vshell.Iconv.Tables.Gb180303.{gb18030_3}
use android_vshell.Iconv.Tables.Gb180304.{gb18030_4}
use android_vshell.Iconv.Tables.Gb180305.{gb18030_5}
use android_vshell.Iconv.Tables.Gb180306.{gb18030_6}
use android_vshell.Iconv.Tables.Gb180307.{gb18030_7}
use android_vshell.Iconv.Tables.Gb180308.{gb18030_8}
use android_vshell.Iconv.Tables.Gb180309.{gb18030_9}

unfoldable pub gb18030 : Table
unfolding gb18030_1 gb18030_2 gb18030_3 gb18030_4 gb18030_5 gb18030_6 gb18030_7 gb18030_8 gb18030_9
gb18030 = record {
  rows =
      gb18030_1
      ++ (gb18030_2
          ++ (gb18030_3
              ++ (gb18030_4
                  ++ (gb18030_5 ++ (gb18030_6 ++ (gb18030_7 ++ (gb18030_8 ++ gb18030_9)))))));
  width = 190;
}
