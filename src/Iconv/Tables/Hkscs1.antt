-- ===== src/Iconv/Tables/Hkscs1.antt =====
-- The rows 0 to 15 of musl-locale/hkscs.h: each is one number, with four hexadecimal digits for
-- an entry of the source.
use android_vshell.Base.{ℕ, List, [], ◌∷◌}

unfoldable pub hkscs_1 : List ℕ
hkscs_1 =
    0x43f04c32460345a6457872674d7745b37cb14ce27cc53b95473647444c474c4042bf361773526e8b70d24c57a351474f45da4c857c6c4d074aa446a16b2372255a541a633e063f61664d56fb00007d95591d8bb93df497347bef5bdb1d5e5aa436259eb05ad15bb75cfc676e859399457461749d38751d53369e60213eec58de3af57afc9f974161890d31ea0a8a325e430a84849f96942f493086135896974a921879d07a3266606a29889d744c7bc567827a2c524f904634e673c45db974c69fc757b3492f544c4131368e58187a727b658b8f46ae6e8841815d997bae24bc9fc824c124c924cc9fc9850435bb40b49fca44e1adff62c1706e9fcb0000000000000000000000000000000000000000000000000000000000000000000000000000000000000000000000000000000000000000000000000000
    ∷ 0x31c031c131c231c331c4010c31c500d100cd31c631c700cb1fe831c800ca31c931ca31cb31cc010e31cd31ce010000c101cd00c0011200c9011a00c8014c00d301d100d2dc001ebedc041ec000ca010100e101ce00e00251011300e9011b00e8012b00ed01d000ec014d00f301d200f2016b00fa01d400f901d601d801da01dc00fcdc081ebfdc0c1ec100ea026123da23db000000000000000000000000000000000000000000000000000000000000000000000000000000000000000000000000000000000000000000000000000000000000000000000000000000000000000000000000000000000000000000000000000000000000000000000000000000000000000000000000000000000000000000000000000000000000000000000000000000000000000000000000000000000000000000000000
    ∷ 0xa3a911450000650a000000004e3d6edd9d4e91df00000000773564914f1a4f284fa851565174519c51e452a152a8533b534e53d153d856e258f059045907593259345b665b9e5b9f5c9a5e86603b658967fe680468656d4e70bc75357ea47eac7eba7ec77ecf7edf7f067f37827a82cf836f89c68bbe8be28f668f678f6e74117cfc7dcd69467ac952270000000000000000918c78b8915e80bc00008d0b80f609e700000000809f9ec74ccd9dc99e0c4c3e9df6700e9e0aa13335c100006e9a823e7519000049119a6c9a8f9f997987846c1dca05d02ae64e244e814e804e874ebf4eeb4f37344c4fbd3e4850035088347d349334a55186590551db51fc52054e8952795290532735c753a9355153b0355353c25423356d35723681549354a354b454b954d054ef5518552355283598553f35a535bf55d735c5
    ∷ 0x7d84552500000c420d15512b55902cc639ec03418e464db894e5405380be777a2c383a3447d5815d69f24dea64dd0d7c0fb40cd510f4648d8e7e0e960c0b0f642ca9825644d300000d469a4d80e947f44ea72cc29ab23a6795f43fed350652c797d478c82d449d6e9815000043d960a564b454e32d4c2bca107739fb106f66da671679a064ea50520c438e6821a18b4c07310000480b01a93ffa58732d8d000045c804fc60970f4c0d96557940bb43ba00004ab42a66109d81aa98f50d9c637939fe27758dc056a1647c3e430000a6010e092acf2cc9000010c839c239923a06829b35785e4920c756520f312cb2972034bc6c3d4e3b0000000075742e8b2208a65b8ccd0e7a0c34681c7f9310cf2803293935fb51e30e8c0f8d0eaa3f930f300d47114f0e4c00000eab0ba90d4810c0113d3ff9269664320fad
    ∷ 0x33f476392bce0d7e0d7f2c512c553a180e9810c70f2ea6326b508cd28d998cca95aa54cc82c455b900009ec39c269ab6775e2dee7140816d80ec5c1c657281343797535f80bd91b60efa0e0f0e770efb35dd4deb36090cd656af27b510c90e100e7810781148820714550e794e502da45a54101d101e10f510f6579c0e11769482cd0fb50e7b517e37030fb6118052d8a2bd49da183a4177827c58995268361a573d7bb25b6848004b2c9f2749e79c1f9b8d5b74313d55fb35f256894e2859021bc1f878975100864e5b4ebb353e5c235f515fc438fa624c65356b7a6c356c3a706c722b4e2c72ad48e97f52793b7cf97f53626a34c10000634b8002808066126951535d886489c178b28ba08d1d94859578957f95e88e0f97e6987598ce98de996398109c7c9e1f9ec46b6ff9074e370087961d623794a20000
    ∷ 0x503b6dfe9c739fa63dc9888f414e70775cf54b2051cd35595d3061228a328fa791f67191671973ba3281a1073c8b19804b1078e4740251ae870f40096a63a2ba4223860f0a6f7a2a99478aea9755704d5324207e93f476d989e39fa777dd4ea34ff050bc4e2f4f179fa854347d8b589258d01db65e925e995fc22712658b33f969196a433c636cff000072004505738c3edb4a135b1574b98b835ca456957a937bec7cc37e6c82f885979fa988909faa8eb99fab8fcf855f99e092219fac8db9143f407142a25a1a0000000000009868676b4276573d000085d6497b82bf710d4c816d745d7b6b156fbe9fad9fae5b969faf66e77e5b6e5779ca3d8844c332562796439a453600005cd53b1a8af95c783d1235515d789fb27157455840ec1e234c773978344a01a46c418acc4fb4023959bf816c985698fa5f3b
    ∷ 0xb9f000021c1896d410246bb90793f079fb3a1b540f837d646f76c46417c86b273ff456d38d4549a4561451b4d894c7b4d7645ea3fc84b0f366144de44bd41ed5d3e5d485d563dfc380f5da45db9382038385e425ebd5f255f8339083914393f394d60d7613d5ce5398961b761b961cf39b8622c629062e5631839f856b13a0363e263fb6407645a3a4b64c05d1556219f9f3a9765863abd65ff66533af266923b2267163b4267a468003b58684a68843b723b713b7b69096943725c6964699f69853bbc69d63bdd6a656a746a716a823bec6a993bf26aab6ab56ad46af66b816bc16bea6c756caa3ccb6d026d066d266d813cef6da46db16e156e186e296e8689c06ebb6ee26eda9f7f6ee86ee96f246f343d463f416f816fbe3d6a3d7571b75c993d8a702c3d9170507054706f707f7089032543c135f10ed8
    ∷ 0x3ed757be6ed3713e57e0364e69a28be95b747a4958e194d97a657a7d59ac7abb7ab07ac27ac371d1648d41ca7ada7add7aea41ef54b25c017b0b7b557b29530e5cfe7ba27b6f839c5bb46c7f7bd084217b9200005d203dad5c6584927bfa00007c355cc17c447c8348827ca6667d45787cc97cc77ce67c747cf37cf500007e67451d6e447d5d6ed6748d7d897dab71357db30000405760297de43d137df517f97de5836d00006121615a7e6e7e92432b946c7e277f407f417f47793662d099e17f9763517fa316610068455c37664503833a7ffa648900008008801d0000802fa0876cc3803b803c80612714498966263de366e8672580a78a488107811a58b026f66c7f64984fb864e7148a8218185e6a534a654a95447a82290b0d6a523d7e4ff914fd84e283626b0a49a7353017733df882aa691bf99441db
    ∷ 0x854b82d0831a0e1617b436c1317d355a827b82e283183e8b6da36b056b9735ce3dbf831d55ec8385450b6da583ac000083d3347e6ed46a57855a34966e422eef84585be484713dd344e46aa7844a3cb5795800006b966e776e4384de0000839144a0849384e45c9142405cc0454385345af26e9945278573451667bf86168625863b85c170888602158270cdf9b2456a8628364818a253f7739a867e8771a0f887ee2c2787b187da880f5661866c6856460f8845884675e03db975e4885e889c465b88b488b563c188c57777770f8987898a0000000089a789bc8a2589e779247abd8a9c779391fe8a907a597ae97b3a3f8f47137b38717c8b0c8b1f543055658b3f8b4c8b4d8aa94a7a8b908b9b8aaf16df4615884f8c9b7d547d8ff9d437257d538cd67d987dbd8d128d0319108cdb705c8d114cc93ed00000
    ∷ 0x8da980021014498a3b7c81bc710c7ae78ead8eb68ec392d48f198f2d836584128fa59303a29f0a508fb3492a89de853d3dbb5ef832628ff9a01486bc8501232539806ed79037853c7abe9061856c860b90a8871390c486e690ae000091673af091a991c47cac89331e89920e6c9f9241926255b900008ac63c9b8b0c55db0d31932c936b8ae18beb708f5ac38ae28ae5496592448bec8c398bff9373945b8ebc958595a6942695a06ff642b9267a86d8127c3e2e49df6c1c967b9696416c96a36ed561da96b678f58ae096bd53cc49a16cb80274641090af90e54ad11915330a9731864297364a0f453d45854ae970755b41971b000091d597575b4a91eb975f942550d030b730bc9789979f97b197be97c097d297e0546c97ee741c9433000097f5941d797a4ad198349833984b98663b0e71753d510630415c
    ∷ 0x570698ca98b798c898c74aff6d2716d355b098e198e698ec937899394a294b729857990599f59a0c9a3b9a109a58572536c490b19bd59ae09ae29b059af44c0e9b149b2d860050349b3469a838c3307d9b509b409d3e5a4518639b8e424b9c029bff9c0c9e689dd49fb7a192a1aba0e1a123a1df9d7e9d83a1349e0e68889dc4215ba193a220193ba2339d39a0b9a2b49e909e959e9e9ea24d349eaa9eaf43649ec13b6039e53d1d4f3237be8c2b9f029f084b9694246da29f1700009f39569f568a9f4599b8908b97f2847f9f629f697adc9f8e72164bbe497549bb717749f843484a51739e8bda18fa799f897e8e36936993f38a4492ec938193cb896c44b972173eeb77727a4370d0447343f8717e17ef70a318be35993ec71885542f17f8372216fb183936e1177418d15f4b372316c0575b4a2513fe12a8
    ∷ 0x13c614b6850336a600008455499471653e31555c3efb705244f436ee999d6f2667f937333c153de7586c192268104057373f40e1408b410f6c2154cb569e66b156920fdf0ba80e0d93c68b13939c4ef8512b381944364ebc0465037f4f4b4f8a56515a6801ab03cb3999030a041434354f2902c08eb302758ada020c4e9850cd510d4fa24f034a0e3e8a4f42502e506c50814fcc4fe5505850fc00000000000000006e7635953e393ebf6d7218843e8951a851c305e044dd04a3049204918d7a8a9c070e525952a4087352e10000467a718c438c0c2049ac10e469d10e1d00003ede74997414745673984b8e4abc408d53d03584720f40c955b4034554cd0bc6571d925d96f4936657dd578d577f363e58cb5a998a4616fa176f17105a2c59b8928f5a7e5acf5a12594619f31861429536f56d0574435a215e83
    ∷ 0x5a818bd7041393e0748c130371054972940889fb93bd37a05c1e5c9e5e5e5e481996197c3aee5ecd5b4f19031904370118a036dd16fe36d3812a8a471dba347289a85f0c5f0e192717ab5a6b173b5b44861475fd8860607e2860262b5fdb3eb825af25be90886f7361c0003e0046261b6199619860752c9b2d0746d4914d647146652b6a3a292b22345098ea2e786337a45b64b6633163d149e32d6762a42ca1643b656b69723bf4308e32ad498932ab550d32e018d9943f66ce328931b33ae0419055848b22558f16fc555b542578ee3103182a32343464320f318242c9668e6d24666b4b93663078701deb666332d232e1661e587238d1383a37bc3b9937a233fe74d03b96678f462a68b6681e3bc46abe386337d544876a336a526ac96b051912651168986a4c3bd76a7a6b573fc03c9a93a092f28bea8acb
    ∷ 0x9289801e89dc94676da56f0b49ec00003f7f3d8f6e04403c5a3d6e0a58476d247842713b431a427670f1725072877294478f472551794aa405eb747a3ef8365f4a4a49175fe13f063eb14adf8c233f3560a73ef374cc743c93877437449f6dea455175833f634cd94d063f5875557673a5c63b1974688acc49ab498e3afb3dcd4a4e3eff49c548f391fa573293428ae3186450df522151e777783232770e770f777b469737813a5e48f07438749b3ebf4aba4ac740c84a9661ae93075581781e788d788878d273d07959774156e3410e0000849679a56a2d3efa7a3a79f4416e16e64132923579f10d4c498c02993dba176e3597556b357036aa01d40c0d7ae25a5926f55aaf5a9c5a0d025b78f05a2a5bc67afe41f97c5d7c6d42115bb35ebc5ea67ccd49f917b07c8e7c7c7cae6ab27ddc7e077dd37f4e6261
    ∷ 0x615c7b487d975e82426a6b75091667d6004e35cf57c4641263f849627fdd7b27082c5ae95d437b0c5e0e99e686459a636a1c343f39e249f765ad9a1f65a0848071276cd144ea8137440280c68109814267b498c36a42826282656a5184536da78610721b5a86417f18405b2b18a15ae418d886a0f9bc3d8f882d74225a02886e4f45888788bf88e68965894d56838954778577848bf58bd98b9c89f93ead84a346f546cf37f28a3d8a1c94485f4d922b428465d4712970c418459d6d8c9f8ce97ddc599a77c359f0436e36d48e2a8ea74c098f308f4a42f46c586fbb2321489b6f796e8b17da9be936b5492f90bb00005571490691bb94048a4b40628afc94278c1d8c3b84e58a2b959995a7959795968d3474453ec248ff4a4243ea3ee73225968f8ee78e668e653ecc49ed4a783fee7412746b3efc974190b0
    ∷ 0x68474a1d909357df0000936889898c268b2f63be92ba5b118b69493c73f9421b979b977199380f265dc18bc54ab2981f94da92f695d791e544c08b504a678b6498dc8a453f00922a49258414993b994d7b063dfd999b4b6f99aa9a5c8b6558c86a8f9a215afe9a2f98f14b90994899bc4bbd4b97937d58721302582249b814e87844271f3db868c53d7d9458392761502781296b61079c4f9c539c7b9c359c109b7f9bcf9e2d9b9fa1f5a0fe9d214cae41049e184cb09d0ca1b4a0eda0f3992f9da584bd6e126fdf6b8285fc45336da46e846df0842085ee6e0037d7606479e2359c3640492d49de3d6293db92be934802bf78b99277944d4fe434409064555d783d785478b6784b175731c94941369a4f726fda6fd90000701e541441b557bb58f3578a9d1657d7713434af41ac71eb6c404f97000017b58a49
    ∷ []
