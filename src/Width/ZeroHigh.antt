-- ===== src/Width/ZeroHigh.antt =====
-- The second half of the table ZERO_WIDTH of native-packages/packages/libandroid-support/sources/src/musl-ctype/wcwidth.c.
use android_vshell.Base.{List, [], ◌∷◌}
use android_vshell.Width.Table.{Interval, at}

-- The rows from U+1DFB on.
abbrev pub zero_width_high : List Interval
zero_width_high =
    at 0x1dfb 0x1dff
    ∷ at 0x20d0 0x20f0
    ∷ at 0x2cef 0x2cf1
    ∷ at 0x2d7f 0x2d7f
    ∷ at 0x2de0 0x2dff
    ∷ at 0x302a 0x302d
    ∷ at 0x3099 0x309a
    ∷ at 0xa66f 0xa672
    ∷ at 0xa674 0xa67d
    ∷ at 0xa69e 0xa69f
    ∷ at 0xa6f0 0xa6f1
    ∷ at 0xa802 0xa802
    ∷ at 0xa806 0xa806
    ∷ at 0xa80b 0xa80b
    ∷ at 0xa825 0xa826
    ∷ at 0xa82c 0xa82c
    ∷ at 0xa8c4 0xa8c5
    ∷ at 0xa8e0 0xa8f1
    ∷ at 0xa8ff 0xa8ff
    ∷ at 0xa926 0xa92d
    ∷ at 0xa947 0xa951
    ∷ at 0xa980 0xa982
    ∷ at 0xa9b3 0xa9b3
    ∷ at 0xa9b6 0xa9b9
    ∷ at 0xa9bc 0xa9bd
    ∷ at 0xa9e5 0xa9e5
    ∷ at 0xaa29 0xaa2e
    ∷ at 0xaa31 0xaa32
    ∷ at 0xaa35 0xaa36
    ∷ at 0xaa43 0xaa43
    ∷ at 0xaa4c 0xaa4c
    ∷ at 0xaa7c 0xaa7c
    ∷ at 0xaab0 0xaab0
    ∷ at 0xaab2 0xaab4
    ∷ at 0xaab7 0xaab8
    ∷ at 0xaabe 0xaabf
    ∷ at 0xaac1 0xaac1
    ∷ at 0xaaec 0xaaed
    ∷ at 0xaaf6 0xaaf6
    ∷ at 0xabe5 0xabe5
    ∷ at 0xabe8 0xabe8
    ∷ at 0xabed 0xabed
    ∷ at 0xfb1e 0xfb1e
    ∷ at 0xfe00 0xfe0f
    ∷ at 0xfe20 0xfe2f
    ∷ at 0x101fd 0x101fd
    ∷ at 0x102e0 0x102e0
    ∷ at 0x10376 0x1037a
    ∷ at 0x10a01 0x10a03
    ∷ at 0x10a05 0x10a06
    ∷ at 0x10a0c 0x10a0f
    ∷ at 0x10a38 0x10a3a
    ∷ at 0x10a3f 0x10a3f
    ∷ at 0x10ae5 0x10ae6
    ∷ at 0x10d24 0x10d27
    ∷ at 0x10eab 0x10eac
    ∷ at 0x10f46 0x10f50
    ∷ at 0x11001 0x11001
    ∷ at 0x11038 0x11046
    ∷ at 0x1107f 0x11081
    ∷ at 0x110b3 0x110b6
    ∷ at 0x110b9 0x110ba
    ∷ at 0x11100 0x11102
    ∷ at 0x11127 0x1112b
    ∷ at 0x1112d 0x11134
    ∷ at 0x11173 0x11173
    ∷ at 0x11180 0x11181
    ∷ at 0x111b6 0x111be
    ∷ at 0x111c9 0x111cc
    ∷ at 0x111cf 0x111cf
    ∷ at 0x1122f 0x11231
    ∷ at 0x11234 0x11234
    ∷ at 0x11236 0x11237
    ∷ at 0x1123e 0x1123e
    ∷ at 0x112df 0x112df
    ∷ at 0x112e3 0x112ea
    ∷ at 0x11300 0x11301
    ∷ at 0x1133b 0x1133c
    ∷ at 0x11340 0x11340
    ∷ at 0x11366 0x1136c
    ∷ at 0x11370 0x11374
    ∷ at 0x11438 0x1143f
    ∷ at 0x11442 0x11444
    ∷ at 0x11446 0x11446
    ∷ at 0x1145e 0x1145e
    ∷ at 0x114b3 0x114b8
    ∷ at 0x114ba 0x114ba
    ∷ at 0x114bf 0x114c0
    ∷ at 0x114c2 0x114c3
    ∷ at 0x115b2 0x115b5
    ∷ at 0x115bc 0x115bd
    ∷ at 0x115bf 0x115c0
    ∷ at 0x115dc 0x115dd
    ∷ at 0x11633 0x1163a
    ∷ at 0x1163d 0x1163d
    ∷ at 0x1163f 0x11640
    ∷ at 0x116ab 0x116ab
    ∷ at 0x116ad 0x116ad
    ∷ at 0x116b0 0x116b5
    ∷ at 0x116b7 0x116b7
    ∷ at 0x1171d 0x1171f
    ∷ at 0x11722 0x11725
    ∷ at 0x11727 0x1172b
    ∷ at 0x1182f 0x11837
    ∷ at 0x11839 0x1183a
    ∷ at 0x1193b 0x1193c
    ∷ at 0x1193e 0x1193e
    ∷ at 0x11943 0x11943
    ∷ at 0x119d4 0x119d7
    ∷ at 0x119da 0x119db
    ∷ at 0x119e0 0x119e0
    ∷ at 0x11a01 0x11a0a
    ∷ at 0x11a33 0x11a38
    ∷ at 0x11a3b 0x11a3e
    ∷ at 0x11a47 0x11a47
    ∷ at 0x11a51 0x11a56
    ∷ at 0x11a59 0x11a5b
    ∷ at 0x11a8a 0x11a96
    ∷ at 0x11a98 0x11a99
    ∷ at 0x11c30 0x11c36
    ∷ at 0x11c38 0x11c3d
    ∷ at 0x11c3f 0x11c3f
    ∷ at 0x11c92 0x11ca7
    ∷ at 0x11caa 0x11cb0
    ∷ at 0x11cb2 0x11cb3
    ∷ at 0x11cb5 0x11cb6
    ∷ at 0x11d31 0x11d36
    ∷ at 0x11d3a 0x11d3a
    ∷ at 0x11d3c 0x11d3d
    ∷ at 0x11d3f 0x11d45
    ∷ at 0x11d47 0x11d47
    ∷ at 0x11d90 0x11d91
    ∷ at 0x11d95 0x11d95
    ∷ at 0x11d97 0x11d97
    ∷ at 0x11ef3 0x11ef4
    ∷ at 0x16af0 0x16af4
    ∷ at 0x16b30 0x16b36
    ∷ at 0x16f4f 0x16f4f
    ∷ at 0x16f8f 0x16f92
    ∷ at 0x16fe4 0x16fe4
    ∷ at 0x1bc9d 0x1bc9e
    ∷ at 0x1d167 0x1d169
    ∷ at 0x1d17b 0x1d182
    ∷ at 0x1d185 0x1d18b
    ∷ at 0x1d1aa 0x1d1ad
    ∷ at 0x1d242 0x1d244
    ∷ at 0x1da00 0x1da36
    ∷ at 0x1da3b 0x1da6c
    ∷ at 0x1da75 0x1da75
    ∷ at 0x1da84 0x1da84
    ∷ at 0x1da9b 0x1da9f
    ∷ at 0x1daa1 0x1daaf
    ∷ at 0x1e000 0x1e006
    ∷ at 0x1e008 0x1e018
    ∷ at 0x1e01b 0x1e021
    ∷ at 0x1e023 0x1e024
    ∷ at 0x1e026 0x1e02a
    ∷ at 0x1e130 0x1e136
    ∷ at 0x1e2ec 0x1e2ef
    ∷ at 0x1e8d0 0x1e8d6
    ∷ at 0x1e944 0x1e94a
    ∷ at 0xe0100 0xe01ef
    ∷ []
