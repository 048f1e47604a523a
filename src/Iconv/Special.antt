-- ===== src/Iconv/Special.antt =====
-- The charmaps that iconv.c writes out, whose type is a special code. A type is in decimal here.
use android_vshell.Base.{List, [], ◌∷◌}
use android_vshell.Iconv.Charmap.{Charmap}

unfoldable pub special_charmaps : List Charmap
special_charmaps =
    record { aliases = "utf8" ∷ []; type = 200; table = [] }
    ∷ record { aliases = "wchart" ∷ []; type = 198; table = [] }
    ∷ record { aliases = "ucs2" ∷ "ucs2be" ∷ []; type = 196; table = [] }
    ∷ record { aliases = "ucs2le" ∷ []; type = 197; table = [] }
    ∷ record { aliases = "utf16" ∷ "utf16be" ∷ []; type = 194; table = [] }
    ∷ record { aliases = "utf16le" ∷ []; type = 193; table = [] }
    ∷ record { aliases = "ucs4" ∷ "ucs4be" ∷ "utf32" ∷ "utf32be" ∷ []; type = 192; table = [] }
    ∷ record { aliases = "ucs4le" ∷ "utf32le" ∷ []; type = 195; table = [] }
    ∷ record { aliases = "ascii" ∷ "usascii" ∷ "iso646" ∷ "iso646us" ∷ []; type = 199; table = [] }
    ∷ record { aliases = "eucjp" ∷ []; type = 208; table = [] }
    ∷ record { aliases = "shiftjis" ∷ "sjis" ∷ []; type = 209; table = [] }
    ∷ record { aliases = "gb18030" ∷ []; type = 216; table = [] }
    ∷ record { aliases = "gbk" ∷ []; type = 217; table = [] }
    ∷ record { aliases = "gb2312" ∷ []; type = 218; table = [] }
    ∷ record { aliases = "big5" ∷ "bigfive" ∷ "cp950" ∷ "big5hkscs" ∷ []; type = 224; table = [] }
    ∷ record { aliases = "euckr" ∷ "ksc5601" ∷ "ksx1001" ∷ "cp949" ∷ []; type = 232; table = [] }
    ∷ []
