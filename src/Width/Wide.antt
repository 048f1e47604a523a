-- ===== src/Width/Wide.antt =====
-- The table WIDE_EASTASIAN of native-packages/packages/libandroid-support/sources/src/musl-ctype/wcwidth.c.
use android_vshell.Base.{List, [], ◌∷◌}
use android_vshell.Width.Table.{Interval, at}

-- All rows.
abbrev pub wide_eastasian : List Interval
wide_eastasian =
    at 0x1100 0x115f
    ∷ at 0x231a 0x231b
    ∷ at 0x2329 0x232a
    ∷ at 0x23e9 0x23ec
    ∷ at 0x23f0 0x23f0
    ∷ at 0x23f3 0x23f3
    ∷ at 0x25fd 0x25fe
    ∷ at 0x2614 0x2615
    ∷ at 0x2648 0x2653
    ∷ at 0x267f 0x267f
    ∷ at 0x2693 0x2693
    ∷ at 0x26a1 0x26a1
    ∷ at 0x26aa 0x26ab
    ∷ at 0x26bd 0x26be
    ∷ at 0x26c4 0x26c5
    ∷ at 0x26ce 0x26ce
    ∷ at 0x26d4 0x26d4
    ∷ at 0x26ea 0x26ea
    ∷ at 0x26f2 0x26f3
    ∷ at 0x26f5 0x26f5
    ∷ at 0x26fa 0x26fa
    ∷ at 0x26fd 0x26fd
    ∷ at 0x2705 0x2705
    ∷ at 0x270a 0x270b
    ∷ at 0x2728 0x2728
    ∷ at 0x274c 0x274c
    ∷ at 0x274e 0x274e
    ∷ at 0x2753 0x2755
    ∷ at 0x2757 0x2757
    ∷ at 0x2795 0x2797
    ∷ at 0x27b0 0x27b0
    ∷ at 0x27bf 0x27bf
    ∷ at 0x2b1b 0x2b1c
    ∷ at 0x2b50 0x2b50
    ∷ at 0x2b55 0x2b55
    ∷ at 0x2e80 0x2e99
    ∷ at 0x2e9b 0x2ef3
    ∷ at 0x2f00 0x2fd5
    ∷ at 0x2ff0 0x2ffb
    ∷ at 0x3000 0x303e
    ∷ at 0x3041 0x3096
    ∷ at 0x3099 0x30ff
    ∷ at 0x3105 0x312f
    ∷ at 0x3131 0x318e
    ∷ at 0x3190 0x31e3
    ∷ at 0x31f0 0x321e
    ∷ at 0x3220 0x3247
    ∷ at 0x3250 0x4dbf
    ∷ at 0x4e00 0xa48c
    ∷ at 0xa490 0xa4c6
    ∷ at 0xa960 0xa97c
    ∷ at 0xac00 0xd7a3
    ∷ at 0xf900 0xfaff
    ∷ at 0xfe10 0xfe19
    ∷ at 0xfe30 0xfe52
    ∷ at 0xfe54 0xfe66
    ∷ at 0xfe68 0xfe6b
    ∷ at 0xff01 0xff60
    ∷ at 0xffe0 0xffe6
    ∷ at 0x16fe0 0x16fe4
    ∷ at 0x16ff0 0x16ff1
    ∷ at 0x17000 0x187f7
    ∷ at 0x18800 0x18cd5
    ∷ at 0x18d00 0x18d08
    ∷ at 0x1b000 0x1b11e
    ∷ at 0x1b150 0x1b152
    ∷ at 0x1b164 0x1b167
    ∷ at 0x1b170 0x1b2fb
    ∷ at 0x1f004 0x1f004
    ∷ at 0x1f0cf 0x1f0cf
    ∷ at 0x1f18e 0x1f18e
    ∷ at 0x1f191 0x1f19a
    ∷ at 0x1f200 0x1f202
    ∷ at 0x1f210 0x1f23b
    ∷ at 0x1f240 0x1f248
    ∷ at 0x1f250 0x1f251
    ∷ at 0x1f260 0x1f265
    ∷ at 0x1f300 0x1f320
    ∷ at 0x1f32d 0x1f335
    ∷ at 0x1f337 0x1f37c
    ∷ at 0x1f37e 0x1f393
    ∷ at 0x1f3a0 0x1f3ca
    ∷ at 0x1f3cf 0x1f3d3
    ∷ at 0x1f3e0 0x1f3f0
    ∷ at 0x1f3f4 0x1f3f4
    ∷ at 0x1f3f8 0x1f43e
    ∷ at 0x1f440 0x1f440
    ∷ at 0x1f442 0x1f4fc
    ∷ at 0x1f4ff 0x1f53d
    ∷ at 0x1f54b 0x1f54e
    ∷ at 0x1f550 0x1f567
    ∷ at 0x1f57a 0x1f57a
    ∷ at 0x1f595 0x1f596
    ∷ at 0x1f5a4 0x1f5a4
    ∷ at 0x1f5fb 0x1f64f
    ∷ at 0x1f680 0x1f6c5
    ∷ at 0x1f6cc 0x1f6cc
    ∷ at 0x1f6d0 0x1f6d2
    ∷ at 0x1f6d5 0x1f6d7
    ∷ at 0x1f6eb 0x1f6ec
    ∷ at 0x1f6f4 0x1f6fc
    ∷ at 0x1f7e0 0x1f7eb
    ∷ at 0x1f90c 0x1f93a
    ∷ at 0x1f93c 0x1f945
    ∷ at 0x1f947 0x1f978
    ∷ at 0x1f97a 0x1f9cb
    ∷ at 0x1f9cd 0x1f9ff
    ∷ at 0x1fa70 0x1fa74
    ∷ at 0x1fa78 0x1fa7a
    ∷ at 0x1fa80 0x1fa86
    ∷ at 0x1fa90 0x1faa8
    ∷ at 0x1fab0 0x1fab6
    ∷ at 0x1fac0 0x1fac2
    ∷ at 0x1fad0 0x1fad6
    ∷ at 0x20000 0x2fffd
    ∷ at 0x30000 0x3fffd
    ∷ []
