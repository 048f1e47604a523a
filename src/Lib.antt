-- ===== src/Lib.antt =====
-- The C support code of the application: the libraries that the repository builds for Android,
-- which QEMU and the packages below it are linked against. Paths are from the repository's
-- root; `support` stands for native-packages/packages/libandroid-support/sources/src, and
-- `cpufeatures` for native-packages/packages/libandroid-cpufeatures/sources.
--
-- The parts and their files:
-- - Base: shared names; Boolean tests of C (Tests), lists and memory (Lists), bitwise operations
--   (Bits), int results that may be negative (Int), the bytes of a text (Text).
-- - Width models support/musl-ctype/wcwidth.c and wcswidth.c. Width/ZeroLow, ZeroHigh and Wide
--   are the two tables of intervals, the first in two halves; Width/Table has `intable`,
--   Width/Wcwidth `wcwidth` and `wcswidth`. Proofs: Width/Search and Width/Columns.
-- - Multibyte models support/musl-multibyte/mbsrtowcs.c with the table of internal.c and the
--   macros of internal.h. Multibyte/Table is the table `bittab`, Multibyte/Step one character
--   from either loop, Multibyte/Mbsrtowcs the function. Multibyte/Utf8 defines the encoding that
--   it is compared with. Proofs: Lead, Arithmetic, Decode and Encode for one character, Words
--   and Loop for the loop, Strings for the function, Resumed for a pending state; Skip, Counting
--   and Measure for the loop that only counts. Multibyte/Mbsnrtowcs is mbsnrtowcs.c of the same
--   directory, which calls mbsrtowcs. Proofs: Chunks for a call of mbsrtowcs, Rounds and Limits
--   for the two loops, Calls and Overread for the function, Text and Whole for texts within its
--   limit.
-- - Ctype models the classes and the case mapping of support/musl-ctype: Ctype/Class has
--   iswalpha and the other classes, Ctype/Case `__towcase` of towctrans.c (written towcase) and
--   its callers; Alpha, Punct, CaseMaps and Pairs are the tables; Ctype/ByName has iswctype.c,
--   wctrans.c and iswblank.c. Proofs: ClassLaws, CaseLaws and NameLaws.
-- - Iconv models support/musl-locale: iconv.c with codepages.h, legacychars.h and the tables
--   jis0208.h, gb18030.h, big5.h, hkscs.h and ksc.h. Iconv/Tables has the tables (a row is one
--   number, Packed reads its entries), Charmap, Special and Codepages the array `charmaps` and
--   the loops over it, Names find_charmap, iconv_open and iconv_close, Units get_16 and its kin,
--   Select the loops that count entries, Decode the first switch of iconv (with Decode/Unicode
--   for the forms of Unicode and Decode/EastAsian for the tables), Encode the second, Convert
--   the loop. Forms defines the forms of Unicode that the conversion is compared with. Proofs:
--   UnitLaws, Step, FormLaws, FormSplit, FormReads, Short, Transcode, TranscodeText and Malformed
--   for those forms; TableSizes and TableBounds for reads of the tables, SelectLaws for the counting
--   loops, NameLaws for the names; Bounds, Kept and Defined for the buffers; Advance and Total
--   for the end of the loop; Plain, Forget, More and Resume for a conversion in two calls;
--   LegacyPacking and LegacyLaws for the 8-bit charmaps.
-- - Cpu models cpufeatures/cpu-features.c. Number: parse_number and its callers; CpuList:
--   CpuList and cpulist_parse, whose loop over a range that ends in INT_MAX has no result;
--   Files: get_file_size, read_file, cpulist_read_from, get_cpu_count; Info:
--   extract_cpuinfo_field, has_list_item; HwCaps: the three sources of the hardware
--   capabilities; Arm and Others: the parts of android_cpuInit for each processor; Init: the
--   globals, android_cpuInit and the public functions, whose names are written
--   android_cpu_init, android_get_cpu_features and so on. Proofs: the modules that end in
--   Laws, and InitTotal.
--
-- How the parts interact: wcwidth looks a character up in its tables through intable, and
-- wcswidth adds up wcwidth; the case mapping asks iswalpha first, and iswupper and iswlower
-- ask the case mapping; iswctype asks the class with the number of wctype; mbsrtowcs reads its
-- table for every lead byte, and mbsnrtowcs calls it for as many characters as it takes to be
-- within the limit; iconv asks mbrtowc for UTF-8 and its own tables for all else; in the CPU
-- library the public functions run android_cpuInit at most once, and that calls all the
-- parsers.
--
-- Conventions: unsigned arithmetic wraps at the width that is written out, so an int of
-- parse_number and of get_file_size is its 32-bit pattern; memory is a function from addresses
-- to bytes, and a buffer is the list of its bytes; size_t has 64 bits and words are
-- little-endian. Loops recurse on fuel. The search of a table has one more than the length of
-- the table as fuel, the writing loop of mbsrtowcs one more than the places, and the parsers one
-- more than the bytes: each round takes at least one. The loop of mbsrtowcs that only counts has
-- no bound in the source, so its fuel is an argument. The first loop of mbsnrtowcs has one more
-- than the bytes as fuel, the second one more than the places: a round takes a byte or a place
-- at least. mbrtowc of libc, as mbsnrtowcs calls it, and isblank are arguments, and where a
-- theorem says that mbrtowc reads UTF-8, it reads a character whose bytes are all there and the
-- null, and leaves no pending state; the state that libc keeps for a null `st` is not modelled.
-- The elements that the two loops ever wrote to are recorded beside the variables.
--
-- The loop of iconv has six more than the bytes of the input as fuel, since a round takes a
-- byte at least and the pair that HKSCS calls it for has four bytes. mbrtowc and wctomb of
-- libc are arguments of iconv; the hypotheses on them say that mbrtowc takes a byte at least
-- and no more than there are, and that wctomb writes four bytes at most. A read outside a
-- table, or a byte before the output, is an outcome of its own.
--
-- Not modelled: the assembly of x86_cpuid, dlopen, open and read, whose answers are arguments;
-- the null pointers that a failed allocation inside extract_cpuinfo_field would give; other
-- threads, since pthread_once makes the initialisation atomic; mblen.c and intl.c of support,
-- and its generic headers; the Java application, the build scripts, the patches and the prebuilt
-- images.
pub mod Base
pub mod Width
pub mod Multibyte
pub mod Ctype
pub mod Iconv
pub mod Cpu
