-- ===== src/Width/ZeroLow.antt =====
-- The first half of the table ZERO_WIDTH of native-packages/packages/libandroid-support/sources/src/musl-ctype/wcwidth.c.
use android_vshell.Base.{List, [], ◌∷◌}
use android_vshell.Width.Table.{Interval, at}

-- The rows up to U+1DF9.
abbrev pub zero_width_low : List Interval
zero_width_low =
    at 0x300 0x36f
    ∷ at 0x483 0x489
    ∷ at 0x591 0x5bd
    ∷ at 0x5bf 0x5bf
    ∷ at 0x5c1 0x5c2
    ∷ at 0x5c4 0x5c5
    ∷ at 0x5c7 0x5c7
    ∷ at 0x610 0x61a
    ∷ at 0x64b 0x65f
    ∷ at 0x670 0x670
    ∷ at 0x6d6 0x6dc
    ∷ at 0x6df 0x6e4
    ∷ at 0x6e7 0x6e8
    ∷ at 0x6ea 0x6ed
    ∷ at 0x711 0x711
    ∷ at 0x730 0x74a
    ∷ at 0x7a6 0x7b0
    ∷ at 0x7eb 0x7f3
    ∷ at 0x7fd 0x7fd
    ∷ at 0x816 0x819
    ∷ at 0x81b 0x823
    ∷ at 0x825 0x827
    ∷ at 0x829 0x82d
    ∷ at 0x859 0x85b
    ∷ at 0x8d3 0x8e1
    ∷ at 0x8e3 0x902
    ∷ at 0x93a 0x93a
    ∷ at 0x93c 0x93c
    ∷ at 0x941 0x948
    ∷ at 0x94d 0x94d
    ∷ at 0x951 0x957
    ∷ at 0x962 0x963
    ∷ at 0x981 0x981
    ∷ at 0x9bc 0x9bc
    ∷ at 0x9c1 0x9c4
    ∷ at 0x9cd 0x9cd
    ∷ at 0x9e2 0x9e3
    ∷ at 0x9fe 0x9fe
    ∷ at 0xa01 0xa02
    ∷ at 0xa3c 0xa3c
    ∷ at 0xa41 0xa42
    ∷ at 0xa47 0xa48
    ∷ at 0xa4b 0xa4d
    ∷ at 0xa51 0xa51
    ∷ at 0xa70 0xa71
    ∷ at 0xa75 0xa75
    ∷ at 0xa81 0xa82
    ∷ at 0xabc 0xabc
    ∷ at 0xac1 0xac5
    ∷ at 0xac7 0xac8
    ∷ at 0xacd 0xacd
    ∷ at 0xae2 0xae3
    ∷ at 0xafa 0xaff
    ∷ at 0xb01 0xb01
    ∷ at 0xb3c 0xb3c
    ∷ at 0xb3f 0xb3f
    ∷ at 0xb41 0xb44
    ∷ at 0xb4d 0xb4d
    ∷ at 0xb55 0xb56
    ∷ at 0xb62 0xb63
    ∷ at 0xb82 0xb82
    ∷ at 0xbc0 0xbc0
    ∷ at 0xbcd 0xbcd
    ∷ at 0xc00 0xc00
    ∷ at 0xc04 0xc04
    ∷ at 0xc3e 0xc40
    ∷ at 0xc46 0xc48
    ∷ at 0xc4a 0xc4d
    ∷ at 0xc55 0xc56
    ∷ at 0xc62 0xc63
    ∷ at 0xc81 0xc81
    ∷ at 0xcbc 0xcbc
    ∷ at 0xcbf 0xcbf
    ∷ at 0xcc6 0xcc6
    ∷ at 0xccc 0xccd
    ∷ at 0xce2 0xce3
    ∷ at 0xd00 0xd01
    ∷ at 0xd3b 0xd3c
    ∷ at 0xd41 0xd44
    ∷ at 0xd4d 0xd4d
    ∷ at 0xd62 0xd63
    ∷ at 0xd81 0xd81
    ∷ at 0xdca 0xdca
    ∷ at 0xdd2 0xdd4
    ∷ at 0xdd6 0xdd6
    ∷ at 0xe31 0xe31
    ∷ at 0xe34 0xe3a
    ∷ at 0xe47 0xe4e
    ∷ at 0xeb1 0xeb1
    ∷ at 0xeb4 0xebc
    ∷ at 0xec8 0xecd
    ∷ at 0xf18 0xf19
    ∷ at 0xf35 0xf35
    ∷ at 0xf37 0xf37
    ∷ at 0xf39 0xf39
    ∷ at 0xf71 0xf7e
    ∷ at 0xf80 0xf84
    ∷ at 0xf86 0xf87
    ∷ at 0xf8d 0xf97
    ∷ at 0xf99 0xfbc
    ∷ at 0xfc6 0xfc6
    ∷ at 0x102d 0x1030
    ∷ at 0x1032 0x1037
    ∷ at 0x1039 0x103a
    ∷ at 0x103d 0x103e
    ∷ at 0x1058 0x1059
    ∷ at 0x105e 0x1060
    ∷ at 0x1071 0x1074
    ∷ at 0x1082 0x1082
    ∷ at 0x1085 0x1086
    ∷ at 0x108d 0x108d
    ∷ at 0x109d 0x109d
    ∷ at 0x135d 0x135f
    ∷ at 0x1712 0x1714
    ∷ at 0x1732 0x1734
    ∷ at 0x1752 0x1753
    ∷ at 0x1772 0x1773
    ∷ at 0x17b4 0x17b5
    ∷ at 0x17b7 0x17bd
    ∷ at 0x17c6 0x17c6
    ∷ at 0x17c9 0x17d3
    ∷ at 0x17dd 0x17dd
    ∷ at 0x180b 0x180d
    ∷ at 0x1885 0x1886
    ∷ at 0x18a9 0x18a9
    ∷ at 0x1920 0x1922
    ∷ at 0x1927 0x1928
    ∷ at 0x1932 0x1932
    ∷ at 0x1939 0x193b
    ∷ at 0x1a17 0x1a18
    ∷ at 0x1a1b 0x1a1b
    ∷ at 0x1a56 0x1a56
    ∷ at 0x1a58 0x1a5e
    ∷ at 0x1a60 0x1a60
    ∷ at 0x1a62 0x1a62
    ∷ at 0x1a65 0x1a6c
    ∷ at 0x1a73 0x1a7c
    ∷ at 0x1a7f 0x1a7f
    ∷ at 0x1ab0 0x1ac0
    ∷ at 0x1b00 0x1b03
    ∷ at 0x1b34 0x1b34
    ∷ at 0x1b36 0x1b3a
    ∷ at 0x1b3c 0x1b3c
    ∷ at 0x1b42 0x1b42
    ∷ at 0x1b6b 0x1b73
    ∷ at 0x1b80 0x1b81
    ∷ at 0x1ba2 0x1ba5
    ∷ at 0x1ba8 0x1ba9
    ∷ at 0x1bab 0x1bad
    ∷ at 0x1be6 0x1be6
    ∷ at 0x1be8 0x1be9
    ∷ at 0x1bed 0x1bed
    ∷ at 0x1bef 0x1bf1
    ∷ at 0x1c2c 0x1c33
    ∷ at 0x1c36 0x1c37
    ∷ at 0x1cd0 0x1cd2
    ∷ at 0x1cd4 0x1ce0
    ∷ at 0x1ce2 0x1ce8
    ∷ at 0x1ced 0x1ced
    ∷ at 0x1cf4 0x1cf4
    ∷ at 0x1cf8 0x1cf9
    ∷ at 0x1dc0 0x1df9
    ∷ []
