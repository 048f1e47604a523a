-- ===== src/Iconv/Forms.antt =====
-- The encoding forms of Unicode that iconv knows without a table, as the standard defines them.
use android_vshell.Base.{ℕ, ◌+◌, ◌-◌, ◌/◌, ◌%◌, ◌<◌, List, [], ◌∷◌, ◌++◌, ltb, if◌then◌else◌}
use android_vshell.Multibyte.Utf8.{IsScalar}

pub data Form : Type 0 where
  utf_32be utf_32le utf_16be utf_16le ucs_2be ucs_2le wide : Form

-- The type of the charmap.
abbrev pub type_of : Form → ℕ
type_of utf_32be = 192
type_of utf_16le = 193
type_of utf_16be = 194
type_of utf_32le = 195
type_of ucs_2be = 196
type_of ucs_2le = 197
type_of wide = 198

abbrev pub two_le : ℕ → List ℕ
two_le u = u % 256 ∷ u / 256 ∷ []

abbrev pub two_be : ℕ → List ℕ
two_be u = u / 256 ∷ u % 256 ∷ []

abbrev pub four_le : ℕ → List ℕ
four_le c = c % 256 ∷ c / 256 % 256 ∷ c / 65536 ∷ 0 ∷ []

abbrev pub four_be : ℕ → List ℕ
four_be c = 0 ∷ c / 65536 ∷ c / 256 % 256 ∷ c % 256 ∷ []

-- The two surrogates of a character beyond the basic plane.
abbrev pub high : ℕ → ℕ
high c = 0xd800 + (c - 0x10000) / 1024

abbrev pub low : ℕ → ℕ
low c = 0xdc00 + (c - 0x10000) % 1024

unfoldable pub form_bytes : Form → ℕ → List ℕ
form_bytes utf_32be c = four_be c
form_bytes utf_32le c = four_le c
form_bytes utf_16be c = if ltb c 0x10000 then two_be c else two_be (high c) ++ two_be (low c)
form_bytes utf_16le c = if ltb c 0x10000 then two_le c else two_le (high c) ++ two_le (low c)
form_bytes ucs_2be c = two_be c
form_bytes ucs_2le c = two_le c
form_bytes wide c = four_le c

-- The characters that a form has: UCS-2 ends with the basic plane.
abbrev pub Holds : Form → ℕ → Type 0
Holds ucs_2be c = IsScalar c × (c < 0x10000)
Holds ucs_2le c = IsScalar c × (c < 0x10000)
Holds _ c = IsScalar c

unfoldable pub text_bytes : Form → List ℕ → List ℕ
text_bytes form [] = []
text_bytes form (c ∷ cs) = form_bytes form c ++ text_bytes form cs
