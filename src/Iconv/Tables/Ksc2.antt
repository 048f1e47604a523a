-- ===== src/Iconv/Tables/Ksc2.antt =====
-- The rows 31 to 61 of musl-locale/ksc.h: each is one number, with four hexadecimal digits for
-- an entry of the source.
use android_vshell.Base.{ℕ, List, [], ◌∷◌}

unfoldable pub ksc_2 : List ℕ
ksc_2 =
    0xc6e9c6ecc6f0c6f8c6f9c6fdc704c705c708c70cc714c715c717c719c720c721c724c728c730c731c733c735c737c73cc73dc740c744c74ac74cc74dc74fc751c752c753c754c755c756c757c758c75cc760c768c76bc774c775c778c77cc77dc77ec783c784c785c787c788c789c78ac78ec790c791c794c796c797c798c79ac7a0c7a1c7a3c7a4c7a5c7a6c7acc7adc7b0c7b4c7bcc7bdc7bfc7c0c7c1c7c8c7c9c7ccc7cec7d0c7d8c7ddc7e4c7e8c7ecc800c801c804c808c80a
    ∷ 0xc810c811c813c815c816c81cc81dc820c824c82cc82dc82fc831c838c83cc840c848c849c84cc84dc854c870c871c874c878c87ac880c881c883c885c886c887c88bc88cc88dc894c89dc89fc8a1c8a8c8bcc8bdc8c4c8c8c8ccc8d4c8d5c8d7c8d9c8e0c8e1c8e4c8f5c8fcc8fdc900c904c905c906c90cc90dc90fc911c918c92cc934c950c951c954c958c960c961c963c96cc970c974c97cc988c989c98cc990c998c999c99bc99dc9c0c9c1c9c4c9c7c9c8c9cac9d0c9d1c9d3
    ∷ 0xc9d5c9d6c9d9c9dac9dcc9ddc9e0c9e2c9e4c9e7c9ecc9edc9efc9f0c9f1c9f8c9f9c9fcca00ca08ca09ca0bca0cca0dca14ca18ca29ca4cca4dca50ca54ca5cca5dca5fca60ca61ca68ca7dca84ca98cabccabdcac0cac4cacccacdcacfcad1cad3cad8cad9cae0caeccaf4cb08cb10cb14cb18cb20cb21cb41cb48cb49cb4ccb50cb58cb59cb5dcb64cb78cb79cb9ccbb8cbd4cbe4cbe7cbe9cc0ccc0dcc10cc14cc1ccc1dcc21cc22cc27cc28cc29cc2ccc2ecc30cc38cc39cc3b
    ∷ 0xcc3ccc3dcc3ecc44cc45cc48cc4ccc54cc55cc57cc58cc59cc60cc64cc66cc68cc70cc75cc98cc99cc9ccca0cca8cca9ccabccacccadccb4ccb5ccb8ccbcccc4ccc5ccc7ccc9ccd0ccd4cce4ccecccf0cd01cd08cd09cd0ccd10cd18cd19cd1bcd1dcd24cd28cd2ccd39cd5ccd60cd64cd6ccd6dcd6fcd71cd78cd88cd94cd95cd98cd9ccda4cda5cda7cda9cdb0cdc4cdcccdd0cde8cdeccdf0cdf8cdf9cdfbcdfdce04ce08ce0cce14ce19ce20ce21ce24ce28ce30ce31ce33ce35
    ∷ 0xce58ce59ce5cce5fce60ce61ce68ce69ce6bce6dce74ce75ce78ce7cce84ce85ce87ce89ce90ce91ce94ce98cea0cea1cea3cea4cea5ceacceadcec1cee4cee5cee8ceebceeccef4cef5cef7cef8cef9cf00cf01cf04cf08cf10cf11cf13cf15cf1ccf20cf24cf2ccf2dcf2fcf30cf31cf38cf54cf55cf58cf5ccf64cf65cf67cf69cf70cf71cf74cf78cf80cf85cf8ccfa1cfa8cfb0cfc4cfe0cfe1cfe4cfe8cff0cff1cff3cff5cffcd000d004d011d018d02dd034d035d038d03c
    ∷ 0xd044d045d047d049d050d054d058d060d06cd06dd070d074d07cd07dd081d0a4d0a5d0a8d0acd0b4d0b5d0b7d0b9d0c0d0c1d0c4d0c8d0c9d0d0d0d1d0d3d0d4d0d5d0dcd0ddd0e0d0e4d0ecd0edd0efd0f0d0f1d0f8d10dd130d131d134d138d13ad140d141d143d144d145d14cd14dd150d154d15cd15dd15fd161d168d16cd17cd184d188d1a0d1a1d1a4d1a8d1b0d1b1d1b3d1b5d1bad1bcd1c0d1d8d1f4d1f8d207d209d210d22cd22dd230d234d23cd23dd23fd241d248d25c
    ∷ 0xd264d280d281d284d288d290d291d295d29cd2a0d2a4d2acd2b1d2b8d2b9d2bcd2bfd2c0d2c2d2c8d2c9d2cbd2d4d2d8d2dcd2e4d2e5d2f0d2f1d2f4d2f8d300d301d303d305d30cd30dd30ed310d314d316d31cd31dd31fd320d321d325d328d329d32cd330d338d339d33bd33cd33dd344d345d37cd37dd380d384d38cd38dd38fd390d391d398d399d39cd3a0d3a8d3a9d3abd3add3b4d3b8d3bcd3c4d3c5d3c8d3c9d3d0d3d8d3e1d3e3d3ecd3edd3f0d3f4d3fcd3fdd3ffd401
    ∷ 0xd408d41dd440d444d45cd460d464d46dd46fd478d479d47cd47fd480d482d488d489d48bd48dd494d4a9d4ccd4d0d4d4d4dcd4dfd4e8d4ecd4f0d4f8d4fbd4fdd504d508d50cd514d515d517d53cd53dd540d544d54cd54dd54fd551d558d559d55cd560d565d568d569d56bd56dd574d575d578d57cd584d585d587d588d589d590d5a5d5c8d5c9d5ccd5d0d5d2d5d8d5d9d5dbd5ddd5e4d5e5d5e8d5ecd5f4d5f5d5f7d5f9d600d601d604d608d610d611d613d614d615d61cd620
    ∷ 0xd624d62dd638d639d63cd640d645d648d649d64bd64dd651d654d655d658d65cd667d669d670d671d674d683d685d68cd68dd690d694d69dd69fd6a1d6a8d6acd6b0d6b9d6bbd6c4d6c5d6c8d6ccd6d1d6d4d6d7d6d9d6e0d6e4d6e8d6f0d6f5d6fcd6fdd700d704d711d718d719d71cd720d728d729d72bd72dd734d735d738d73cd744d747d749d750d751d754d756d757d758d759d760d761d763d765d769d76cd770d774d77cd77dd781d788d789d78cd790d798d799d79bd79d
    ∷ 0x0
    ∷ 0x4f3d4f73504750f952a053ef547554e556095ac15bb6668767b667b767ef6b4c73c275c27a3c82db8304885788888a368cc88dcf8efb8fe699d5523b53745404606a61646bbc73cf811a89ba89d295a34f83520a58be597859e65e725e7961c763c0674667ec687f6f97764e770b78f57a087aff7c21809d826e82718aeb95934e6b559d66f76e3478a37aed845b8910874e97a852d8574e582a5d4c611f61be6221656267d16a446e1b751875b376e377b07d3a90af945194529f95
    ∷ 0x53235cac753280db92409598525b580859dc5ca15d175eb75f3a5f4a61776c5f757a75867ce07d737db17f8c81548221859189418b1b92fc964d9c474ecb4ef7500b51f1584f6137613e6168653969ea6f1175a5768676d67b8782a584cbf90093a7958b55805ba25751f9017cb37fb991b5502853bb5c455de862d2636e64da64e76e2070ac795b8ddd8e1ef902907d924592f84e7e4ef650655dfe5efa61066957817186548e4793759a2b4e5e5091677068405109528d52926aa2
    ∷ 0x77bc92109ed452ab602f8ff2504861a963ed64ca683c6a846fc0818889a196945805727d72ac75047d797e6d80a9898b8b7490639d5162896c7a6f547d507f3a8a23517c614a7b9d8b199257938c4eac4fd3501e50be510652c152cd537f577058835e9a5f91617661ac64ce656c666f66bb66f468976d87708570f1749f74a574ca75d9786c78ec7adf7af67d457d938015803f811b83968b668f15901593e1980398389a5a9be84fc25553583a59515b635c4660b86212684268b0
    ∷ 0x68e86eaa754c767878ce7a3d7cfb7e6b7e7c8a088aa18c3f968e9dc453e453e9544a547156fa59d15b645c3b5eab62f765376545657266a067af69c16cbd75fc7690777e7a3f7f94800380a1818f82e682fd83f085c1883188b48aa5f9038f9c932e96c798679ad89f1354ed659b66f2688f7a408c379d6056f057645d11660668b168cd6efe7428889e9be46c68f9049aa84f9b516c5171529f5b545de56050606d62f163a7653b73d97a7a86a38ca2978f4e325be16208679c74dc
    ∷ 0x79d183d38a878ab28de8904e934b98465ed369e885ff90edf90551a05b985bec616368fa6b3e704c742f74d87ba17f5083c589c08cab95dc9928522e605d62ec90024f8a5149532158d95ee366e06d38709a72c273d67b5080f1945b5366639b7f6b4e565080584a58de602a612762d069d09b415b8f7d1880b18f5f4ea450d154ac55ac5b0c5da05de7652a654e68216a4b72e1768e77ef7d5e7ff981a0854e86df8f038f4e90ca99039a559bab4e184e454e5d4ec74ff1517752fe
    ∷ 0x534053e353e5548e5614577557a25bc75d875ed061fc62d8655167b867e969cb6b506bc66bec6c426e9d707872d77396740377bf77e97a767d7f800981fc8205820a82df88628b338cfc8ec0901190b1926492b699d29a459ce99dd79f9c570b5c4083ca97a097ab9eb4541b7a987fa488d98ecd90e158005c4863987a9f5bae5f137a797aae828e8eac5026523852f85377570862f363726b0a6dc3773753a5735785688e7695d5673a6ac36f708a6d8ecc994bf90666776b788cb4
    ∷ 0x9b3cf90753eb572d594e63c669fb73ea78457aba7ac57cfe8475898f8d73903595a852fb574775477b6083cc921ef9086a58514b524b5287621f68d86975969950c552a452e461c365a4683969ff747e7b4b82b983eb89b28b398fd19949f9094eca599764d266116a8e7434798179bd82a9887e887f895ff90a93264f0b53ca602562716c727d1a7d664e98516277dc80af4f014f0e5176518055dc5668573b57fa57fc5914594759935bc45c905d0e5df15e7e5fcc628065d765e3
    ∷ 0x671e671f675e68cb68c46a5f6b3a6c236c7d6c826dc773987426742a748274a37578757f788178ef794179477948797a7b957d007dba7f888006802d808c8a188b4f8c488d779321932498e299519a0e9a0f9a659e927dca4f76540962ee685491d155ab513af90bf90c5a1c61e6f90d62cf62fff90ef90ff910f911f912f91390a3f914f915f916f917f9188afef919f91af91bf91c6696f91d7156f91ef91f96e3f920634f637a5357f921678f69606e73f9227537f923f924f925
    ∷ 0x7d0df926f927887256ca5a18f928f929f92af92bf92c4e43f92d5167594867f08010f92e59735e74649a79ca5ff5606c62c8637b5be75bd752aaf92f59745f296012f930f931f9327459f933f934f935f936f937f93899d1f939f93af93bf93cf93df93ef93ff940f941f942f9436fc3f944f94581bf8fb260f1f946f9478166f948f9495c3ff94af94bf94cf94df94ef94ff950f9515ae98a25677b7d10f952f953f954f955f956f95780fdf958f9595c3c6ce5533f6eba591a8336
    ∷ 0x4e394eb64f4655ae571858c75f5665b765e66a806bb56e4d77ed7aef7c1e7dde86cb88929132935b64bb6fbe737a75b890545556574d61ba64d466c76de16e5b6f6d6fb975f0804381bd854189838ac78b5a931f6c9375537b548e0f905d5510580258585e626207649e68e075767cd687b39ee84ee35788576e59275c0d5cb15e365f85623464e173b381fa888b8cb8968a9edb5b855fb760b35012520052305716583558575c0e5c605cf65d8b5ea65f9260bc6311638964176843
    ∷ 0x68f96ac26dd86e216ed46fe471fe76dc777979b17a3b840489a98ced8df38e4890039014905390fd934d967697dc6bd27006725872a27368776379bf7be47e9b8b8058a960c7656665fd66be6c8c711e71c98c5a98134e6d7a814edd51ac51cd52d5540c61a76771685068df6d1e6f7c75bc77b37ae580f484639285515c6597675c679375d87ac78373f95a8c469017982d5c6f81c0829a9041906f920d5f975d9d6a5971c8767b7b4985e48b0491279a30558761f6f95b76697f85
    ∷ 0x863f87ba88f8908ff95c6d1b70d973de7d61843df95d916a99f1f95e4e8253756b046b12703e721b862d9e1e524c8fa35d5064e5652c6b166feb7c437e9c85cd896489bd62c981d8881f5eca67176d6a72fc7405746f878290de4f865d0d5fa0840a51b763a075654eae5006516951c968816a117cae7cb17ce7826f8ad28f1b91cf4fb6513752f554425eec616e623e65c56ada6ffe792a85dc882395ad9a629a6a9e979ece529b66c66b77701d792b8f6297426190620065236f23
    ∷ 0x714974897df4806f84ee8f269023934a51bd521752a36d0c70c888c25ec965826bae6fc27c3e73754ee44f3656f9f95f5cba5dba601c73b27b2d7f9a7fce8046901e923496f6974898189f614f8b6fa779ae91b496b752def960648864c46ad36f5e7018721076e780018606865c8def8f0597329b6f9dfa9e75788c797f7da083c993049e7f9e938ad658df5f046727702774cf7c60807e51217028726278ca8cc28cda8cf496f74e8650da5bee5ed6659971ce764277ad804a84fc
    ∷ 0x907c9b279f8d58d85a415c626a136dda6f0f763b7d2f7e37851e893893e4964b528965d267f369b46d416e9c700f7409746075597624786b8b2c985e516d622e96784f96502b5d196dea7db88f2a5f8b61446817f961968652d2808b51dc51cc695e7a1c7dbe83f196754fda52295398540f550e5c6560a7674e68a86d6c728172f874067483f96275e27c6c7f797fb8838988cf88e191cc91d096e29bc9541d6f7e71d0749885fa8eaa96a39c579e9f67976dcb743381e89716782c
    ∷ 0x7acb7b207c926469746a75f278bc78e899ac9b549ebb5bde5e556f20819c83ab90884e07534d5a295dd25f4e6162633d666966fc6eff6f2b7063779e842c8513883b8f1399459c3b551c62b9672b6cab8309896a977a4ea159845fd85fd9671b7db27f548292832b83bd8f1e909957cb59b95a925bd06627679a68856bcf71647f758cb78ce390819b4581088c8a964c9a409ea55b5f6c13731b76f276df840c51aa8993514d519552c968c96c94770477207dbf7dec97629eb56ec5
    ∷ 0x851151a5540d547d660e669d69276e9f76bf7791831784c2879f916992989cf488824fae519252df59c65e3d61556478647966ae67d06a216bcd6bdb725f72617441773877db801782bc83058b008b288c8c67286c90726776ee77667a469da96b7f6c92592267268499536f589359995edf63cf663467736e3a732b7ad782d7932852d95deb61ae61cb620a62c764ab65e069596b666bcb712173f7755d7e46821e8302856a8aa38cbf97279d6158a89ed85011520e543b554f6587
    ∷ 0x6c767d0a7d0b805e868a958096ef52ff6c95726954735a9a5c3e5d4b5f4c5fae672a68b669636e3c6e4477097c737f8e85878b0e8ff797619ef45cb760b6610d61ab654f65fb65fc6c116cef739f73c97de195945bc6871c8b10525d535a62cd640f64b267346a386cca73c0749e7b947c957e1b818a823685848feb96f999c14f34534a53cd53db62cc642c6500659169c36cee6f5873ed7554762276e476fc78d078fb792c7d46822c87e08fd4981298ef52c362d464a56e246f51
    ∷ 0x767c8dcb91b192629aee9b435023508d574a59a85c285e475f77623f653e65b965c16609678b699c6ec278c57d2180aa8180822b82b384a1868c8a2a8b1790a696329f90500d4ff3f96357f95f9862dc6392676f6e43711976c380cc80da88f488f589198ce08f29914d966a4f2f4f705e1b67cf6822767d767e9b445e616a0a716971d4756af9647e41854385e998dc4f107b4f7f7095a551e15e0668b56c3e6c4e6cdb72af7bc483036cd5743a50fb528858c164d86a9774a77656
    ∷ 0x78a7861795e29739f965535e5f018b8a8fa88faf908a522577a59c499f084e19500251755c5b5e77661e663a67c468c570b3750175c579c97add8f2799209a084fdd582158315bf6666e6b656d116e7a6f7d73e4752b83e988dc89138b5c8f144f0f50d55310535c5b935fa9670d798f8179832f8514890789868f398f3b99a59c12672c4e764ff859495c015cef5cf0636768d270fd71a2742b7e2b84ec8702902292d29cf34e0d4ed84fef50855256526f5426549057e0592b5a66
    ∷ 0x5b5a5b755bcc5e9cf9666276657765a76d6e6ea572367b267c3f7f3681508151819a8240829983a98a038ca08ce68cfb8d748dba90e891dc961c964499d99ce7531752065429567458b35954596e5fff61a4626e66106c7e711a76c67c897cde7d1b82ac8cc196f0f9674f5b5f175f7f62c25d29670b68da787c7e439d6c4e1550995315532a535159835a625e8760b2618a624962796590678769a76bd46bd66bd76bd86cb8f968743575fa7812789179d579d87c837dcb7fe180a5
    ∷ 0x813e81c283f2871a88e88ab98b6c8cbb9119975e98db9f3b56ac5b2a5f6c658c6ab36baf6d5c6ff17015725d73ad8ca78cd3983b61916c3780589a014e4d4e8b4e9b4ed54f3a4f3c4f7f4fdf50ff53f253f8550655e356db58eb59625a115beb5bfa5c045df35e2b5f99601d6368659c65af67f667fb68ad6b7b6c996cd76e23700973457802793e7940796079c17be97d177d728086820d838e84d186c788df8a508a5e8b1d8cdc8d668fad90aa98fc99df9e9d524af9696714f96a
    ∷ []
