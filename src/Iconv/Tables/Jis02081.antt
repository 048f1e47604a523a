-- ===== src/Iconv/Tables/Jis02081.antt =====
-- The rows 0 to 27 of musl-locale/jis0208.h: each is one number, with four hexadecimal digits for
-- an entry of the source.
use android_vshell.Base.{ℕ, List, [], ◌∷◌}

unfoldable pub jis0208_1 : List ℕ
jis0208_1 =
    0x300030013002ff0cff0e30fbff1aff1bff1fff01309b309c00b4ff4000a8ff3effe3ff3f30fd30fe309d309e30034edd30053006300730fc20152010ff0f005c301c2016ff5c2026202520182019201c201dff08ff0930143015ff3bff3dff5bff5d30083009300a300b300c300d300e300f30103011ff0b221200b100d700f7ff1d2260ff1cff1e22662267221e22342642264000b0203220332103ffe5ff0400a200a3ff05ff03ff06ff0aff2000a72606260525cb25cf25ce25c7
    ∷ 0x25c625a125a025b325b225bd25bc203b301221922190219121933013000000000000000000000000000000000000000000002208220b2286228722822283222a2229000000000000000000000000000000002227222800ac21d221d42200220300000000000000000000000000000000000000000000222022a523122202220722612252226a226b221a223d221d2235222b222c0000000000000000000000000000212b2030266f266d266a2020202100b6000000000000000025ef
    ∷ 0xff10ff11ff12ff13ff14ff15ff16ff17ff18ff190000000000000000000000000000ff21ff22ff23ff24ff25ff26ff27ff28ff29ff2aff2bff2cff2dff2eff2fff30ff31ff32ff33ff34ff35ff36ff37ff38ff39ff3a000000000000000000000000ff41ff42ff43ff44ff45ff46ff47ff48ff49ff4aff4bff4cff4dff4eff4fff50ff51ff52ff53ff54ff55ff56ff57ff58ff59ff5a0000000000000000
    ∷ 0x304130423043304430453046304730483049304a304b304c304d304e304f3050305130523053305430553056305730583059305a305b305c305d305e305f3060306130623063306430653066306730683069306a306b306c306d306e306f3070307130723073307430753076307730783079307a307b307c307d307e307f3080308130823083308430853086308730883089308a308b308c308d308e308f309030913092309300000000000000000000000000000000000000000000
    ∷ 0x30a130a230a330a430a530a630a730a830a930aa30ab30ac30ad30ae30af30b030b130b230b330b430b530b630b730b830b930ba30bb30bc30bd30be30bf30c030c130c230c330c430c530c630c730c830c930ca30cb30cc30cd30ce30cf30d030d130d230d330d430d530d630d730d830d930da30db30dc30dd30de30df30e030e130e230e330e430e530e630e730e830e930ea30eb30ec30ed30ee30ef30f030f130f230f330f430f530f600000000000000000000000000000000
    ∷ 0x39103920393039403950396039703980399039a039b039c039d039e039f03a003a103a303a403a503a603a703a803a90000000000000000000000000000000003b103b203b303b403b503b603b703b803b903ba03bb03bc03bd03be03bf03c003c103c303c403c503c603c703c803c900000000000000000000000000000000000000000000000000000000000000000000000000000000000000000000000000000000000000000000000000000000000000000000000000000000
    ∷ 0x4100411041204130414041504010416041704180419041a041b041c041d041e041f0420042104220423042404250426042704280429042a042b042c042d042e042f00000000000000000000000000000000000000000000000000000000000004300431043204330434043504510436043704380439043a043b043c043d043e043f0440044104420443044404450446044704480449044a044b044c044d044e044f0000000000000000000000000000000000000000000000000000
    ∷ 0x25002502250c251025182514251c252c25242534253c25012503250f2513251b251725232533252b253b254b2520252f25282537253f251d253025252538254200000000000000000000000000000000000000000000000000000000000000000000000000000000000000000000000000000000000000000000000000000000000000000000000000000000000000000000000000000000000000000000000000000000000000000000000000000000000000000000000000000000
    ∷ 0x0 ∷ 0x0 ∷ 0x0 ∷ 0x0 ∷ 0x0 ∷ 0x0 ∷ 0x0
    ∷ 0x4e9c55165a03963f54c0611b632859f690228475831c7a5060aa63e16e2565ed846682a69bf56893572765a162715b9b59d0867b98f47d627dbe9b8e62167c9f88b75b895eb563096697684895c7978d674f4ee54f0a4f4d4f9d504956f2593759d45a015c0960df610f61706613690570ba754f757079fb7dad7def80c3840e88638b029055907a533b4e954ea557df80b290c178ef4e0058f16ea290387a328328828b9c2f5141537054bd54e156e059fb5f1598f26deb80e4852d
    ∷ 0x9662967096a097fb540b53f35b8770cf7fbd8fc296e8536f9d5c7aba4e11789381fc6e26561855046b1d851a9c3b59e553a96d6674dc958f56424e91904b96f2834f990c53e155b65b305f71662066f368046c386cf36d29745b76c87a4e983482f1885b8a6092ed6db275ab76ca99c560a68b018d8a95b2698e53ad51865712583059445bb45ef6602863a963f46cbf6f14708e7114715971d5733f7e01827682d185979060925b9d1b586965bc6c5a752551f9592e59655f805fdc
    ∷ 0x62bc65fa6a2a6b276bb4738b7fc189569d2c9d0e9ec45ca16c96837b51045c4b61b681c6687672614e594ffa537860696e297a4f97f34e0b53164eee4f554f3d4fa14f7352a053ef5609590f5ac15bb65be179d16687679c67b66b4c6cb3706b73c2798d79be7a3c7b8782b182db8304837783ef83d387668ab256298ca88fe6904e971e868a4fc45ce862117259753b81e582bd86fe8cc096c5991399d54ecb4f1a89e356de584a58ca5efb5feb602a6094606261d0621262d06539
    ∷ 0x9b41666668b06d777070754c76867d7582a587f9958b968e8c9d51f152be591654b35bb35d16616869826daf788d84cb88578a7293a79ab86d6c99a886d957a367ff86ce920e5283568754045ed362e164b9683c68386bbb737278ba7a6b899a89d28d6b8f0390ed95a3969497695b665cb3697d984d984e639b7b206a2b6a7f68b69c0d6f5f5272559d607062ec6d3b6e076ed1845b89108f444e149c3953f6691b6a3a9784682a515c7ac384b291dc938c565b9d28682283058431
    ∷ 0x7ca5520882c574e64e7e4f8351a05bd2520a52d852e75dfb559a582a59e65b8c5b985bdb5e725e7960a3611f616361be63db656267d1685368fa6b3e6b536c576f226f976f4574b0751876e3770b7aff7ba17c217de97f367ff0809d8266839e89b38acc8cab908494519593959195a2966597d3992882184e38542b5cb85dcc73a9764c773c5ca97feb8d0b96c19811985498584f014f0e5371559c566857fa59475b095bc45c905e0c5e7e5fcc63ee673a65d765e2671f68cb68c4
    ∷ 0x6a5f5e306bc56c176c7d757f79485b637a007d005fbd898f8a188cb48d778ecc8f1d98e29a0e9b3c4e80507d510059935b9c622f628064ec6b3a72a0759179477fa987fb8abc8b7063ac83ca97a05409540355ab68546a588a70782767759ecd53745ba2811a865090064e184e454ec74f1153ca54385bae5f1360256551673d6c426c726ce3707874037a767aae7b087d1a7cfe7d6665e7725b53bb5c455de862d262e063196e20865a8a318ddd92f86f0179a69b5a4ea84eab4eac
    ∷ 0x4f9b4fa050d151477af6517151f653545321537f53eb55ac58835ce15f375f4a602f6050606d631f65596a4b6cc172c272ed77ef80f881058208854e90f793e197ff99579a5a4ef051dd5c2d6681696d5c4066f26975738968507c8150c552e457475dfe932665a46b236b3d7434798179bd7b4b7dca82b983cc887f895f8b398fd191d1541f92804e5d503653e5533a72d7739677e982e68eaf99c699c899d25177611a865e55b07a7a50765bd3904796854e326adb91e75c515c48
    ∷ 0x63987a9f6c9397748f617aaa718a96887c8268177e706851936c52f2541b85ab8a137fa48ecd90e15366888879414fc250be521151445553572d73ea578b59515f625f8460756176616761a963b2643a656c666f68426e1375667a3d7cfb7d4c7d997e4b7f6b830e834a86cd8a088a638b668efd981a9d8f82b88fce9be85287621f64836fc09699684150916b206c7a6f547a747d5088408a2367084ef6503950265065517c5238526355a7570f58055acc5efa61b261f862f36372
    ∷ 0x691c6a29727d72ac732e7814786f7d79770c80a9898b8b198ce28ed290639375967a98559a139e785143539f53b35e7b5f266e1b6e90738473fe7d4382378a008afa96504e4e500b53e4547c56fa59d15b645df15eab5f276238654567af6e5672d07cca88b480a180e183f0864e8a878de8923796c798679f134e944e924f0d53485449543e5a2f5f8c5fa1609f68a76a8e745a78818a9e8aa48b7791904e5e9bc94ea44f7c4faf501950165149516c529f52b952fe539a53e35411
    ∷ 0x540e5589575157a2597d5b545b5d5b8f5de55de75df75e785e835e9a5eb75f186052614c629762d863a7653b6602664366f4676d6821689769cb6c5f6d2a6d696e2f6e9d75327687786c7a3f7ce07d057d187d5e7db18015800380af80b18154818f822a8352884c88618b1b8ca28cfc90ca91759271783f92fc95a4964d980599999ad89d3b525b52ab53f7540858d562f76fe08c6a8f5f9eb9514b523b544a56fd7a4091779d609ed273446f09817075115ffd60da9aa872db8fbc
    ∷ 0x6b6498034eca56f0576458be5a5a606861c7660f6606683968b16df775d57d3a826e9b424e9b4f5053c955065d6f5de65dee67fb6c99747378028a50939688df57505ea7632b50b550ac518d670054c9585e59bb5bb05f69624d63a1683d6b736e08707d91c7728078157826796d658e7d3083dc88c18f09969b5264572867507f6a8ca151b45742962a583a698a80b454b25d0e57fc78959dfa4f5c524a548b643e6628671467f57a847b567d22932f685c9bad7b395319518a5237
    ∷ 0x5bdf62f664ae64e6672d6bba85a996d176909bd6634c93069bab76bf66524e09509853c25c7160e864926563685f71e673ca75237b977e8286958b838cdb9178991065ac66ab6b8b4ed54ed44f3a4f7f523a53f853f255e356db58eb59cb59c959ff5b505c4d5e025e2b5fd7601d6307652f5b5c65af65bd65e8679d6b626b7b6c0f7345794979c17cf87d197d2b80a2810281f389968a5e8a698a668a8c8aee8cc78cdc96cc98fc6b6f4e8b4f3c4f8d51505b575bfa614863016642
    ∷ 0x6b216ecb6cbb723e74bd75d478c1793a800c803381ea84948f9e6c509e7f5f0f8b589d2b7afa8ef85b8d96eb4e0353f157f759315ac95ba460896e7f6f0675be8cea5b9f85007be0507267f4829d5c61854a7e1e820e51995c0463688d66659c716e793e7d1780058b1d8eca906e86c790aa501f52fa5c3a6753707c7235914c91c8932b82e55bc25f3160f94e3b53d65b88624b67316b8a72e973e07a2e816b8da391529996511253d7546a5bff63886a397dac970056da53ce5468
    ∷ []
