-- ===== src/Iconv/Tables/HkscsPlanes.antt =====
-- The rest of musl-locale/hkscs.h, from the index 4867 on: a bit for each entry before it.
use android_vshell.Base.{ℕ, List, [], ◌∷◌}

unfoldable pub hkscs_planes : List ℕ
hkscs_planes =
    1312 ∷ 17503 ∷ 21007 ∷ 47234 ∷ 248 ∷ 16384 ∷ 43296 ∷ 1102 ∷ 0 ∷ 0 ∷ 2868 ∷ 1 ∷ 0 ∷ 0 ∷ 0 ∷ 0 ∷ 0
    ∷ 0 ∷ 0 ∷ 3072 ∷ 64 ∷ 0 ∷ 0 ∷ 0 ∷ 1024 ∷ 88 ∷ 60 ∷ 0 ∷ 0 ∷ 23680 ∷ 56493 ∷ 48115 ∷ 17353 ∷ 60910
    ∷ 4004 ∷ 49446 ∷ 30363 ∷ 61426 ∷ 64478 ∷ 63482 ∷ 12815 ∷ 44868 ∷ 61438 ∷ 65277 ∷ 24593 ∷ 176
    ∷ 8448 ∷ 33049 ∷ 4128 ∷ 43144 ∷ 8544 ∷ 9321 ∷ 17408 ∷ 50313 ∷ 0 ∷ 16387 ∷ 53 ∷ 33859 ∷ 20785
    ∷ 26771 ∷ 514 ∷ 0 ∷ 0 ∷ 0 ∷ 0 ∷ 0 ∷ 16384 ∷ 256 ∷ 44160 ∷ 33380 ∷ 35904 ∷ 37025 ∷ 20484 ∷ 54368
    ∷ 53760 ∷ 6186 ∷ 26781 ∷ 38709 ∷ 55375 ∷ 8440 ∷ 33476 ∷ 10268 ∷ 30082 ∷ 660 ∷ 16440 ∷ 41376
    ∷ 4293 ∷ 19825 ∷ 3524 ∷ 47512 ∷ 23390 ∷ 17153 ∷ 39327 ∷ 30723 ∷ 57888 ∷ 2079 ∷ 393 ∷ 16585 ∷ 775
    ∷ 39437 ∷ 21136 ∷ 20433 ∷ 892 ∷ 8450 ∷ 49184 ∷ 4974 ∷ 46467 ∷ 62939 ∷ 30693 ∷ 20368 ∷ 39447
    ∷ 5942 ∷ 12 ∷ 47726 ∷ 12041 ∷ 21600 ∷ 7680 ∷ 26744 ∷ 28706 ∷ 40534 ∷ 62245 ∷ 46990 ∷ 2839
    ∷ 59119 ∷ 6007 ∷ 7003 ∷ 4289 ∷ 36248 ∷ 6162 ∷ 53174 ∷ 12545 ∷ 6770 ∷ 11355 ∷ 49334 ∷ 57888
    ∷ 23747 ∷ 7042 ∷ 56032 ∷ 34254 ∷ 16598 ∷ 21673 ∷ 53259 ∷ 18447 ∷ 16452 ∷ 2320 ∷ 16596 ∷ 15278
    ∷ 7780 ∷ 11076 ∷ 2071 ∷ 33414 ∷ 6198 ∷ 35232 ∷ 40167 ∷ 2139 ∷ 900 ∷ 55810 ∷ 60560 ∷ 34779
    ∷ 49029 ∷ 44450 ∷ 36509 ∷ 39069 ∷ 9504 ∷ 70 ∷ 40774 ∷ 58239 ∷ 51669 ∷ 62596 ∷ 19926 ∷ 58118
    ∷ 6326 ∷ 2322 ∷ 0 ∷ 1024 ∷ 0 ∷ 32 ∷ 0 ∷ 512 ∷ 0 ∷ 0 ∷ 0 ∷ 0 ∷ 8192 ∷ 0 ∷ 0 ∷ 0 ∷ 0 ∷ 0 ∷ 0 ∷ 8
    ∷ 36352 ∷ 28280 ∷ 16223 ∷ 56702 ∷ 63293 ∷ 39932 ∷ 44796 ∷ 65490 ∷ 27535 ∷ 59377 ∷ 47807 ∷ 28334
    ∷ 61207 ∷ 42972 ∷ 46654 ∷ 30645 ∷ 37577 ∷ 42455 ∷ 19126 ∷ 39790 ∷ 33209 ∷ 26445 ∷ 21758 ∷ 39921
    ∷ 65122 ∷ 21103 ∷ 14039 ∷ 49150 ∷ 17705 ∷ 63873 ∷ 26045 ∷ 17062 ∷ 57 ∷ 16896 ∷ 36704 ∷ 37888
    ∷ 16448 ∷ 45010 ∷ 53719 ∷ 219 ∷ 39072 ∷ 31666 ∷ 20998 ∷ 38944 ∷ 51222 ∷ 2365 ∷ 0 ∷ 1 ∷ 0 ∷ 2561
    ∷ 2226 ∷ 128 ∷ 0 ∷ 34820 ∷ 5152 ∷ 19472 ∷ 0 ∷ 4 ∷ 17569 ∷ 16 ∷ 321 ∷ 2048 ∷ 61504 ∷ 20447
    ∷ 22582 ∷ 62961 ∷ 32949 ∷ 26613 ∷ 16512 ∷ 20480 ∷ 16718 ∷ 33992 ∷ 23040 ∷ 55392 ∷ 11009 ∷ 20481
    ∷ 5793 ∷ 16580 ∷ 28402 ∷ 44049 ∷ 14624 ∷ 49348 ∷ 1800 ∷ 2316 ∷ 38552 ∷ 39876 ∷ 7184 ∷ 27800
    ∷ 10886 ∷ 422 ∷ 4422 ∷ 58733 ∷ 50379 ∷ 37568 ∷ 8464 ∷ 4630 ∷ 29341 ∷ 27124 ∷ 5902 ∷ 41514
    ∷ 62593 ∷ 123 ∷ 41992 ∷ 36875 ∷ 11280 ∷ 14796 ∷ 330 ∷ 5872 ∷ 2571 ∷ 3136 ∷ 59933 ∷ 17420 ∷ 17678
    ∷ 2 ∷ []
