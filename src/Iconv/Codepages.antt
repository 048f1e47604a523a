-- ===== src/Iconv/Codepages.antt =====
-- The charmaps of musl-locale/codepages.h, whose type is the number of elided entries.
use android_vshell.Base.{List, [], ◌∷◌}
use android_vshell.Iconv.Charmap.{Charmap, bytes}

unfoldable pub codepages : List Charmap
codepages =
    record { aliases = "iso88591" ∷ "latin1" ∷ []; type = 128; table = [] }
    ∷ record {
      aliases = "iso88592" ∷ [];
      type = 32;
      table =
          bytes 120
            0x00d810cb1a00a4110800001c52c822a000408a2800dc300b1b00a821082c0020620823a1d452ca287b0000000d00948103003e008004004a0000001042b411070000dc0100007f5402c02500009008007c0000400d00989103003f009004004b0000401043b821070000e001000080580200260000a0882c;
    }
    ∷ record {
      aliases = "iso88593" ∷ [];
      type = 32;
      table =
          bytes 120
            0x0058110b00000440050000785188136000108028005c0100000000500500007c61c813610010c028000000400000f0a0030000000000000000000000010000000000400100004c00000000004c320800000000400000f4b0030000000000000000000000010000000000440100004d00000000005042882c;
    }
    ∷ record {
      aliases = "iso88594" ∷ [];
      type = 32;
      table =
          bytes 120
            0x00d840461f0060710600001c4284148d00400a0000dc308b1f006481062c002052c4148ecc510a1d320000000000000000173e00800400460000801642bc51871800000000000064020000003c120900330000000000000040173f00900400470000c01643c061c71800000000000068020000004022892c;
    }
    ∷ record {
      aliases = "iso88595" ∷ [];
      type = 32;
      table =
          bytes 120
            0x000c445041061d8450420a2dc450430e01f01044114934114515597411461969b411471d79f411482189341249259974124a29a9b4124b2db9f4124c31c934134d35d974134e39e9b4134f3df9f41350410935145145197514524929b514534d39f51454574625d554545565d5555865a5d5565c0dd09557;
    }
    ∷ record {
      aliases = "iso88596" ∷ [];
      type = 32;
      table =
          bytes 120
            0x00041040000004104000010410400094011040000104104000010410400001041040650104108065015c8659669a6dc659679e7d065a68a28d465a69a69d865a6aaaadc65a6baebd065b000104104000b1c9361b6db5d9761b6eb9e9b61b6fbdf9f61b70c109375c00010410400001041040000104104000;
    }
    ∷ record {
      aliases = "iso88597" ∷ [];
      type = 32;
      table =
          bytes 120
            0x001469240054560900000000b00b00000010c0900000000000bcf4e20b00bf00130c00c200300c31c518730c32c928b30c33cd38f30c34d148330d35d55813c035d864a3cd36dc74e3cd37e08423ce38e49463ce39e8a4a3ce3aecb4e3ce3bf0c423cf3cf4d463cf3df8e4a3cf3efcf4e3cf3f0005245000;
    }
    ∷ record {
      aliases = "iso88598" ∷ [];
      type = 32;
      table =
          bytes 120
            0x000400000000000000000000c000000000000000000000000000000000000000f0000000000040000104104000010410400001041040000104104000010410400001041040000104104000010410009174d565d75d78e5a5d75e7cf5e5d75f800526d860841566d8618825a6d8628c35e6580001fc086400;
    }
    ∷ record {
      aliases = "iso88599" ∷ [];
      type = 80;
      table =
          bytes 60
            0x4e0000000000000000000000000000007851080000000000000000000000000000000000000000004f0000000000000000000000000000007c610800;
    }
    ∷ record {
      aliases = "iso885910" ∷ [];
      type = 32;
      table =
          bytes 120
            0x00d84084145a602106006708714823a40010c91c00dc50c4145b64310600680c818823a50c29091d320000000000000000173e00800400460000000000bc510700000000c02300640200000000000000330000000000000040173f00900400470000000000c0610700000000002400680200000000000019;
    }
    ∷ record {
      aliases = "iso885911" ∷ "tis620" ∷ [];
      type = 32;
      table =
          bytes 120
            0x0040179d74d351579d75d761979d76db71d79d77df81179e78e391579e79e7a1979e7aebb1d79e7befc1179f7cf3d1579f7df7e1979f7efbf1d79f7fff0118a080031258a081072298600001041080820b32d8a0830f4218a184135258a185176298a1861b72d8a1871f8218a288239258a2890104104000;
    }
    ∷ record {
      aliases = "iso885913" ∷ [];
      type = 32;
      table =
          bytes 120
            0x002409000000280900000d00d00700000000c002000000000048020000001000e007000000008003367021030e00008004113e00008a115288a1c51987b4f10600750000000099ac1148240088420a00377431430e00009044113f0010ca11538cb1051a88b801070076000000009ab0218824008c528a91;
    }
    ∷ record {
      aliases = "iso885914" ∷ [];
      type = 32;
      table =
          bytes 120
            0x009c8822003cf4902200350270a38a3b0200c0272bb20845142dba08c08b36c288638c3ce6a8a38c00000000000000000000000000000000000000009b00000000000000c08c00000000000000d0090000000000000000000000000000000000000000009c00000000000000008d00000000000000e00900;
    }
    ∷ record {
      aliases = "iso885915" ∷ "latin9" ∷ [];
      type = 36;
      table =
          bytes 115
            0x5402700800880000000000000000000000000000a400000000a50000000079e8f109000000000000000000000000000000000000000000000000000000000000000000000000000000000000000000000000000000000000000000000000000000000000000000000000000000000000000000;
    }
    ∷ record {
      aliases = "iso885916" ∷ [];
      type = 32;
      table =
          bytes 120
            0x00d870c31a542a7908008800b00a00a000108a280000e0031ba424090000a5fcc00a0079e8f1c928000000000d00e00000000000000000000000000042b401000000dc01402097000000000020d10a00000000400d00e40000000000000000000000000043b801000000e001802098000000000024e10a00;
    }
    ∷ record {
      aliases = "cp1250" ∷ "windows1250" ∷ [];
      type = 0;
      table =
          bytes 160
            0x54067064004a3ab92493013c790894812c420a280114692492493619a49001608948948230524a2800c012cb1a00d8000000000050080000000080280000300b1b000000000000dc60080069d4a2c6287b0000000d00948103003e008004004a0000001042b411070000dc0100007f5402c02500009008007c0000400d00989103003f009004004b0000401043b821070000e001000080580200260000a0882c;
    }
    ∷ record {
      aliases = "cp1251" ∷ "windows1251" ∷ [];
      type = 0;
      table =
          bytes 160
            0x041574e4544a3ab92493543eb910940c39d410445215692492493619a49001609955945a71b59557003cd49542007c0500000301601000000000404200008090556001000000515d491500581d54d555114934114515597411461969b411471d79f411482189341249259974124a29a9b4124b2db9f4124c31c934134d35d974134e39e9b4134f3df9f41350410935145145197514524929b514534d39f51454;
    }
    ∷ record {
      aliases = "cp1252" ∷ "windows1252" ∷ [];
      type = 0;
      table =
          bytes 160
            0x540670a4294a3ab92493af3c7908947904404a000114692492493619a490b4608948947a0450ca27000000000000000000000000000000000000000000000000000000000000000000000000000000000000000000000000000000000000000000000000000000000000000000000000000000000000000000000000000000000000000000000000000000000000000000000000000000000000000000000000;
    }
    ∷ record {
      aliases = "cp1253" ∷ "windows1253" ∷ [];
      type = 0;
      table =
          bytes 160
            0x540670a4294a3ab92493013c19009401041040000114692492493619a4900160194094010410400000f4e20b0000000000000000100000000000c0900000000000bc00000000bf00130c00c200300c31c518730c32c928b30c33cd38f30c34d148330d35d55813c035d864a3cd36dc74e3cd37e08423ce38e49463ce39e8a4a3ce3aecb4e3ce3bf0c423cf3cf4d463cf3df8e4a3cf3efcf4e3cf3f0005245000;
    }
    ∷ record {
      aliases = "cp1254" ∷ "windows1254" ∷ [];
      type = 0;
      table =
          bytes 160
            0x540670a4294a3ab92493af3c79089479041040000114692492493619a490b4608948947a0410c0270000000000000000000000000000000000000000000000000000000000000000000000000000000000000000000000000000000000000000000000004e0000000000000000000000000000007851080000000000000000000000000000000000000000004f0000000000000000000000000000007c610800;
    }
    ∷ record {
      aliases = "cp1255" ∷ "windows1255" ∷ [];
      type = 0;
      table =
          bytes 160
            0x540670a4294a3ab92493af3c19009401041040000114692492493619a490b4601940940104104000000000000052020000000000c000000000000000000000000000000000000000f0000000000000006189351659659975165a69a915c05a6cb5e5d65b70c525d75c8f411699649305104000010410400074d565d75d78e5a5d75e7cf5e5d75f800526d860841566d8618825a6d8628c35e6580001fc086400;
    }
    ∷ record {
      aliases = "cp1256" ∷ "windows1256" ∷ [];
      type = 0;
      table =
          bytes 160
            0x541677a4294a3ab92493af3c491c94791897dc71cb15692492493619a490ca61895c947af4e82373005006000000000000000000d01c0000000000000000000000000000000000005019000000008065ce5d8659669a6dc659679e7d065a68a28d465a69a69d865a6aaaadc61a00adb9f61a6cb1c9361b6d00d406806db7e1961b000000000000baed060000bcf5e6db6f0000171c00c201301c0000fc08e473;
    }
    ∷ record {
      aliases = "cp1257" ∷ "windows1257" ∷ [];
      type = 0;
      table =
          bytes 160
            0x54067064004a3ab92493013c1900940110008b020114692492493619a49001601940940118304b00000400000000040000000d00d00700000000c002000000000000000000001000e007000000008003367021030e00008004113e00008a115288a1c51987b4f10600750000000099ac1148240088420a00377431430e00009044113f0010ca11538cb1051a88b801070076000000009ab0218824008c528a2c;
    }
    ∷ record {
      aliases = "cp1258" ∷ "windows1258" ∷ [];
      type = 0;
      table =
          bytes 160
            0x540670a4294a3ab92493af3c19009479041040000114692492493619a490b4601940947a0410c02700000000000000000000000000000000000000000000000000000000000000000000000000000000000000000d00000000000000000000b6000000004200900b00009c020000000000000000a4820b00000000400d00000000000000000000b7000000004300a00b0000a0020000000000000000a8322500;
    }
    ∷ record {
      aliases = "koi8r" ∷ [];
      type = 0;
      table =
          bytes 160
            0x608629e698649669e69968a6a926a2892aba28a38d3afaa8979066a9e5965c7629c097072090c0036bb2d966546ebe09679c72ce49679d76de89679e7aeec9e7407dfaf927a0810a3a28a1851a7a68014fc524d35135d954144d46e5a4d34e3cf5e4d34f4041159450431175d34c4d318553524e2985d4522f4524d14915595412452665a4d1461c75e4d14720c1149248239174d1442db184514a2ea984d24a;
    }
    ∷ record {
      aliases = "koi8u" ∷ [];
      type = 0;
      table =
          bytes 160
            0x608629e698649669e69968a6a926a2892aba28a38d3afaa8979066a9e5965c7629c097072090c0036bb2d9665454bd69d55572ce49679d768285679e7aeec9e74006f9895042810a3a28a1857e7568014fc524d35135d954144d46e5a4d34e3cf5e4d34f4041159450431175d34c4d318553524e2985d4522f4524d14915595412452665a4d1461c75e4d14720c1149248239174d1442db184514a2ea984d24a;
    }
    ∷ record {
      aliases = "cp437" ∷ [];
      type = 0;
      table =
          bytes 160
            0x17c04082071f74008208259830420a289c4041051838b0c00a2ca8f0820b3164c04104124c60a52991461a69a491461a69a491461a69a491461a69a48d3afa689867f2d9679c70fac9a69c78de69e79864a689a69960aa99a79e75be4968a07bae79a8a083fe09289d73b6e9a6a1859629a6a2892eca28a2e5448a0c3dd7dc13293eda34d30d3a91ea934ea49146da25975e7ef9c0960764998096912200a900;
    }
    ∷ record {
      aliases = "cp850" ∷ [];
      type = 0;
      table =
          bytes 160
            0x17c04082071f74008208259830420a289c4041051838b0c00a2ca8f0820b3164c001041234c0802991461a69a491461a69a491461a69a491461a69a48d3afa689867461a69a405f8c9a69c784630c19864a689a69960aa1969a475be4968a07bae7968a491461a69a4917e1169a4919629a6a289461a29a291461a69a491461a69a491461a69a491466a40a491464a64a4910ef0800207109040a4912200a900;
    }
    ∷ []
