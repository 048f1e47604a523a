-- ===== src/Ctype/Pairs.antt =====
-- The table `pairs` of musl-ctype/towctrans.c, without the row of zeros at its end.
use android_vshell.Base.{ℕ, List, [], ◌∷◌}

-- An upper case and a lower case letter.
unfoldable pub pairs : List (ℕ × ℕ)
pairs =
    (0x49, 0x0131)
    ∷ (0x53, 0x017f)
    ∷ (0x0130, 0x69)
    ∷ (0x0178, 0x00ff)
    ∷ (0x0181, 0x0253)
    ∷ (0x0182, 0x0183)
    ∷ (0x0184, 0x0185)
    ∷ (0x0186, 0x0254)
    ∷ (0x0187, 0x0188)
    ∷ (0x0189, 0x0256)
    ∷ (0x018a, 0x0257)
    ∷ (0x018b, 0x018c)
    ∷ (0x018e, 0x01dd)
    ∷ (0x018f, 0x0259)
    ∷ (0x0190, 0x025b)
    ∷ (0x0191, 0x0192)
    ∷ (0x0193, 0x0260)
    ∷ (0x0194, 0x0263)
    ∷ (0x0196, 0x0269)
    ∷ (0x0197, 0x0268)
    ∷ (0x0198, 0x0199)
    ∷ (0x019c, 0x026f)
    ∷ (0x019d, 0x0272)
    ∷ (0x019f, 0x0275)
    ∷ (0x01a6, 0x0280)
    ∷ (0x01a7, 0x01a8)
    ∷ (0x01a9, 0x0283)
    ∷ (0x01ac, 0x01ad)
    ∷ (0x01ae, 0x0288)
    ∷ (0x01af, 0x01b0)
    ∷ (0x01b1, 0x028a)
    ∷ (0x01b2, 0x028b)
    ∷ (0x01b7, 0x0292)
    ∷ (0x01b8, 0x01b9)
    ∷ (0x01bc, 0x01bd)
    ∷ (0x01c4, 0x01c6)
    ∷ (0x01c4, 0x01c5)
    ∷ (0x01c5, 0x01c6)
    ∷ (0x01c7, 0x01c9)
    ∷ (0x01c7, 0x01c8)
    ∷ (0x01c8, 0x01c9)
    ∷ (0x01ca, 0x01cc)
    ∷ (0x01ca, 0x01cb)
    ∷ (0x01cb, 0x01cc)
    ∷ (0x01f1, 0x01f3)
    ∷ (0x01f1, 0x01f2)
    ∷ (0x01f2, 0x01f3)
    ∷ (0x01f4, 0x01f5)
    ∷ (0x01f6, 0x0195)
    ∷ (0x01f7, 0x01bf)
    ∷ (0x0220, 0x019e)
    ∷ (0x0386, 0x03ac)
    ∷ (0x0388, 0x03ad)
    ∷ (0x0389, 0x03ae)
    ∷ (0x038a, 0x03af)
    ∷ (0x038c, 0x03cc)
    ∷ (0x038e, 0x03cd)
    ∷ (0x038f, 0x03ce)
    ∷ (0x0399, 0x0345)
    ∷ (0x0399, 0x1fbe)
    ∷ (0x03a3, 0x03c2)
    ∷ (0x03f7, 0x03f8)
    ∷ (0x03fa, 0x03fb)
    ∷ (0x1e60, 0x1e9b)
    ∷ (0xdf, 0xdf)
    ∷ (0x1e9e, 0xdf)
    ∷ (0x1f59, 0x1f51)
    ∷ (0x1f5b, 0x1f53)
    ∷ (0x1f5d, 0x1f55)
    ∷ (0x1f5f, 0x1f57)
    ∷ (0x1fbc, 0x1fb3)
    ∷ (0x1fcc, 0x1fc3)
    ∷ (0x1fec, 0x1fe5)
    ∷ (0x1ffc, 0x1ff3)
    ∷ (0x23a, 0x2c65)
    ∷ (0x23b, 0x23c)
    ∷ (0x23d, 0x19a)
    ∷ (0x23e, 0x2c66)
    ∷ (0x241, 0x242)
    ∷ (0x243, 0x180)
    ∷ (0x244, 0x289)
    ∷ (0x245, 0x28c)
    ∷ (0x3f4, 0x3b8)
    ∷ (0x3f9, 0x3f2)
    ∷ (0x3fd, 0x37b)
    ∷ (0x3fe, 0x37c)
    ∷ (0x3ff, 0x37d)
    ∷ (0x4c0, 0x4cf)
    ∷ (0x2126, 0x3c9)
    ∷ (0x212a, 0x6b)
    ∷ (0x212b, 0xe5)
    ∷ (0x2132, 0x214e)
    ∷ (0x2183, 0x2184)
    ∷ (0x2c60, 0x2c61)
    ∷ (0x2c62, 0x26b)
    ∷ (0x2c63, 0x1d7d)
    ∷ (0x2c64, 0x27d)
    ∷ (0x2c6d, 0x251)
    ∷ (0x2c6e, 0x271)
    ∷ (0x2c6f, 0x250)
    ∷ (0x2c70, 0x252)
    ∷ (0x2c72, 0x2c73)
    ∷ (0x2c75, 0x2c76)
    ∷ (0x2c7e, 0x23f)
    ∷ (0x2c7f, 0x240)
    ∷ (0x2cf2, 0x2cf3)
    ∷ (0xa77d, 0x1d79)
    ∷ (0xa78b, 0xa78c)
    ∷ (0xa78d, 0x265)
    ∷ (0xa7aa, 0x266)
    ∷ (0x10c7, 0x2d27)
    ∷ (0x10cd, 0x2d2d)
    ∷ (0x376, 0x377)
    ∷ (0x39c, 0xb5)
    ∷ (0x392, 0x3d0)
    ∷ (0x398, 0x3d1)
    ∷ (0x3a6, 0x3d5)
    ∷ (0x3a0, 0x3d6)
    ∷ (0x39a, 0x3f0)
    ∷ (0x3a1, 0x3f1)
    ∷ (0x395, 0x3f5)
    ∷ (0x3cf, 0x3d7)
    ∷ []
