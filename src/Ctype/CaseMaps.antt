-- ===== src/Ctype/CaseMaps.antt =====
-- The tables `casemaps` and `pairs` of musl-ctype/towctrans.c, without the rows of zeros at their ends.
use android_vshell.Base.{ℕ, ◌+◌, ◌-◌, List, [], ◌∷◌}
use android_vshell.Base.Int.{ℤ, sub_ℕ}

-- A row of `casemaps`. `lower` is a signed char.
pub record CaseMap : Type 0 where
  pub upper : ℕ
  pub lower : ℤ
  pub len : ℕ

-- CASEMAP(u1,u2,l)
abbrev pub case_map : ℕ → ℕ → ℕ → CaseMap
case_map u₁ u₂ l = record { upper = u₁; lower = sub_ℕ l u₁; len = u₂ - u₁ + 1 }

-- CASELACE(u1,u2)
abbrev pub case_lace : ℕ → ℕ → CaseMap
case_lace u₁ u₂ = case_map u₁ u₂ (u₁ + 1)

unfoldable pub casemaps : List CaseMap
casemaps =
    case_map 0x41 0x5a 0x61
    ∷ case_map 0xc0 0xde 0xe0
    ∷ case_lace 0x0100 0x012e
    ∷ case_lace 0x0132 0x0136
    ∷ case_lace 0x0139 0x0147
    ∷ case_lace 0x014a 0x0176
    ∷ case_lace 0x0179 0x017d
    ∷ case_lace 0x370 0x372
    ∷ case_map 0x391 0x3a1 0x3b1
    ∷ case_map 0x3a3 0x3ab 0x3c3
    ∷ case_map 0x400 0x40f 0x450
    ∷ case_map 0x410 0x42f 0x430
    ∷ case_lace 0x460 0x480
    ∷ case_lace 0x48a 0x4be
    ∷ case_lace 0x4c1 0x4cd
    ∷ case_lace 0x4d0 0x50e
    ∷ case_lace 0x514 0x526
    ∷ case_map 0x531 0x556 0x561
    ∷ case_lace 0x01a0 0x01a4
    ∷ case_lace 0x01b3 0x01b5
    ∷ case_lace 0x01cd 0x01db
    ∷ case_lace 0x01de 0x01ee
    ∷ case_lace 0x01f8 0x021e
    ∷ case_lace 0x0222 0x0232
    ∷ case_lace 0x03d8 0x03ee
    ∷ case_lace 0x1e00 0x1e94
    ∷ case_lace 0x1ea0 0x1efe
    ∷ case_map 0x1f08 0x1f0f 0x1f00
    ∷ case_map 0x1f18 0x1f1d 0x1f10
    ∷ case_map 0x1f28 0x1f2f 0x1f20
    ∷ case_map 0x1f38 0x1f3f 0x1f30
    ∷ case_map 0x1f48 0x1f4d 0x1f40
    ∷ case_map 0x1f68 0x1f6f 0x1f60
    ∷ case_map 0x1f88 0x1f8f 0x1f80
    ∷ case_map 0x1f98 0x1f9f 0x1f90
    ∷ case_map 0x1fa8 0x1faf 0x1fa0
    ∷ case_map 0x1fb8 0x1fb9 0x1fb0
    ∷ case_map 0x1fba 0x1fbb 0x1f70
    ∷ case_map 0x1fc8 0x1fcb 0x1f72
    ∷ case_map 0x1fd8 0x1fd9 0x1fd0
    ∷ case_map 0x1fda 0x1fdb 0x1f76
    ∷ case_map 0x1fe8 0x1fe9 0x1fe0
    ∷ case_map 0x1fea 0x1feb 0x1f7a
    ∷ case_map 0x1ff8 0x1ff9 0x1f78
    ∷ case_map 0x1ffa 0x1ffb 0x1f7c
    ∷ case_lace 0x246 0x24e
    ∷ case_lace 0x510 0x512
    ∷ case_map 0x2160 0x216f 0x2170
    ∷ case_map 0x2c00 0x2c2e 0x2c30
    ∷ case_lace 0x2c67 0x2c6b
    ∷ case_lace 0x2c80 0x2ce2
    ∷ case_lace 0x2ceb 0x2ced
    ∷ case_lace 0xa640 0xa66c
    ∷ case_lace 0xa680 0xa696
    ∷ case_lace 0xa722 0xa72e
    ∷ case_lace 0xa732 0xa76e
    ∷ case_lace 0xa779 0xa77b
    ∷ case_lace 0xa77e 0xa786
    ∷ case_lace 0xa790 0xa792
    ∷ case_lace 0xa7a0 0xa7a8
    ∷ case_map 0xff21 0xff3a 0xff41
    ∷ []
