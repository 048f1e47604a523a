-- ===== src/Iconv/Tables/Hkscs2.antt =====
-- The rows 16 to 30 of musl-locale/hkscs.h: each is one number, with four hexadecimal digits for
-- an entry of the source.
use android_vshell.Base.{ℕ, List, [], ◌∷◌}

unfoldable pub hkscs_2 : List ℕ
hkscs_2 =
    0x610c5ace5a0b42bc4488372c4b7b89fc93bb93b818d60f1d84726cc0141342fa2c2643c159943db767417da8615b60a449b9498b89fa92e573e23ee974b48b63189f3ee14ab36ad873f373fb3ed64a3e4a9417d94a6603a7142449e57448491670a54976928473e6935f04fe93318ace8a1693868be755d549358a82716b49430cff56a4061a0beb0cb8550279c417fa7dfe16c24a501852452e9401370a8ac049ad59b018bf188374845aa136e23d5b36b0925f5a798a81186293743ccd0ab44a96398a50f43d693d4c139c717542fb82186e0f90e444eb6d577e4f70676caf3cd63fed3e2d6e026f0c3d6f03f5755136bc34c846803eda487159c4926e493e8f418c1c6bc0581257c836d6145270fe43624a712fe312b023bd68b96967139834e57bf436df8a8337d633fa4c9f6a1a36ad6cb7843e44df44ce
    ∷ 0x6d266d516c826fde6f177109833d173a83ed6c80705317db59895a8217b35a615a71190541fc372d59ef173c36c7718e9390669a42a55a6e5a2b42936a2b3ef97736445b42ca711d425989e14fb06d285cc244ce7e4d43bd6a0c4256130470a6713343e93da56cdff8254a4f7e6559eb5d2f3df35f5c4a5d17df7da4842654853afa33000214577e08d506193fe51f9ea2b67003915b5d70738f7cd38a5994204fc87fe772cd73107af47338733956f6734173483ea97b18906c71f548f273e181f63eca770c3ed16ca256fd7419741e741f3ee23ef03ef43efa74d33f0e3f537542756d7572758d3f7c75c875dc3fc0764d3fd776743fdc767a4f5c7188562389805869401d774340396761404535db7798406a406f5c5e77be77cb58f2781870b9781c40a87839784778517866844855357933680379324103
    ∷ 0x4109799179998fbb7a068fbc41677a9141b27abc827941c47acf7adb41cf4e217b627b6c7b7b7c127c1b4260427a7c7b7c9c428c7cb842947ced8f9370c00ccf7dcf7dd47dd07dfd7fae7fb4729f4397802080257b39802e803180543dcc57b470a080b780e943ed810c732a810e81127560811444013b3981568159815a4413583a817c818444258193442d81a557ef81c181e48254448f82a6827682ca82d882ff44b083579669698a840570f5846460e38488450484be84e184f8851085388552453b856f857085e045778672869286b286ef9645878b4606461788ae88ff89248947899179678a298a388a948ab48c518cd48cf28d1c4798585f8dc347ed4eee8e3a55d857548e7155f58eb048378ece8ee28ee48eed8ef28fb78fc18fca8fcc903399c448ad98e09213491e92289258926b92b192ae92bf
    ∷ 0x92e392eb92f392f492fd9343938493ad494549519ebf94175301941d942d943e496a94549479952d95a249a795f4963349e567a04a2497404a3597b297c256544ae460e898b94b1998f15844990e991951b4991c99379942995d99624b7099c54b9d9a3c9b0f7a839b699b819bdd9bf19bf44c6d9c20376f1bc29d499c3a9efe56509d939dbd9dc09dfc94f68fb69e7b9eac9eb19ebd9ec694dc9ee29ef19ef87ac89f44009402b703a0691a94c359ac04d7584094c137b905d50615067616ba575771730ac20acd0bbf546af83b0bcb549e0bfb0c3b0c530c650c7c60e70c8d567a0cb50cdd0ced0d6f0db20dc869559c2f87a50e040e0e0ed70f900f2d0e735c200fbc5e0b105c104f1076671e107b10881096364710bf10d3112f113b536484ad12e3137513368b811577161917c317c74e7870bb182d196a
    ∷ 0x1a2d1a451c2a1c701cac1ec862c31ed51f1571986855204569e936c8227c23d723fa272a2871294f82fd296729932ad589a52ae88fa02b0e97b82b3f98479abd2c4c00002c882cb75be82d082d122db72d952e422f742fcc30333066331f33de5fb1664866bf7a79356735f3000049ba0000361a37160000034658b5670e69183aa776575fe23e113eb975fe209a48d04ab841198a9a42ee430d403b433443964a4505ca51d20611599f1ea83bbe3cff440444d657884674399b472f85e899c9376221c38b5e8b4e0000481248fb4a1572094ac00c7859654ea54f8607798eda502c528f573f7171529954193f4a4aa755bc5446546e6b5200003473553f7632555e47185562556657c7493f585d506634fb33cc00005903477c89485aae5b895c061d9057a17151000061027c12905661b24f9a8b626402644a
    ∷ 0x5d5b6bf700006484191c8aea49f664883fef65124bc065bf66b5271b946557e161955a27f8cd000056b9452166fc4e6a493496566d8f6cbd361889776799686e6411685e000068c77b4290c00a116926000069397a45000069fa9a266a2d365f6469002179836a346b5b5d2c351900006b9d46d06ca4753b88656dae58b6371c258d704b71cd3c54728072859281217a728b933072e649d06c39949f74500ef8882788f52926847317b16eb84a2a182039a436b900000000453f66b69cad98a4894377cc785856d640df160a39a1372f80e813c571ad836679dd91a800004cb770af89ab79fd7a0a7b0b7d66417a7b43797e80096fb5a2df6a03831853a26e0793bf6836975d816f802369b513ed322f80485d858c3080835715982389495dab498865be69d553d24aa53f813c116736809080f4812e1fa1814f
    ∷ 0x818981af821a8306832f838a35ca846886aa48fa63e689567808925589b843f289e743df89e88b468bd459f88c0900008fc590ec00009110913c3df7915e4aca8fd0728f568b94e795e995b095b8973298d19949996a99c39a289b0e9d5a9d9b7e9f9ef89f234ca49547a29371a2a2ff4d919012a5cb4d9c0c9c8fbe55c18fba24b08fb94a9345097e7f6f566ab14eea34e48b2c789d373a8e8017f580248b6c8b997a3e66af3deb76553cb7563559564e9a5e81625856bf0e6d8e0e5b6d3e884c9e63de000017f6187b6530562d5c4a541a53113dc69d984c7d5622561e7f495ed859753d4087704e1c0fea0d4936ba81179d5e8d18763b9c45764e77b993455432814882f756258132841880bd55ea7962564354160e9d35ce560555f166f182e2362d753455f055ba549755720c410c965ed051480e762c62
    ∷ 0xea29eab7d5a55de1075629d976d54948ccd71f6917663fc63b963fe55692b439c722eb3519a34df0da751a7544d551e551376668e2d688a75b180b68804878688c781b6841c10c144ec730447065b90830b6893567b26f47d2f41a37d736ed072b6917011d992083cfca6a90eac0ef972661ca2474e4fc27ff90feb40fa9c5d651f2da048f347e09d7c0fec0e0a000075a30fed00006048118771a37e8e9d504e1a4e0435775b0d6cb2536736ac39dc537d36a54618589a4b6e822d544b57aa5a95097900003a52246573749eac4d099bed3cfe9f304c5b4fa9959e9fde845c3db672b267b33720632e7d253ef73e2c3a2a900852cc3e74367a45e9048e76405af00eb6787a7f2e58a740bf567c9b8b5d747654a4349e854ce1000037fb611930da43f20000565d12a957a749639e06523470ae35ad00009d7c
    ∷ 0x7c569b3957de176c5c5364d394d06335716486ad0d286d224ae20d71000051fe1f0f5d8e97031dd19e81904c7b1f9b025cd17ba3626863359aff7bcf9b2a7c7e00007c427c869c157bfc9b0900009c1b493e9f5a55735bc34ffd9e984ff252603e0652d15767505659b75e1297c89dab8f5c546997b4994097ba532c6130692c53da9c0a9d024c3b9641698050a67546176d99da5273000091599681915c000091518e97637f6d236aca5611918e757a628503fc734f7c705c213cfd0000491976d69b9d4e2a0cd483be884200005c4a69c00000577a521f5df54ece6c3101f24f39549c54da529a8d8235fe000035f300006b52917c9fa59b97982e98b49aba9ea89e84717a7b1400006bfa88187f7800005620a64a8e779f5300008dd48e4f9e1c8e016282837d8e288e757ad34a777a3e78d86cea8a677607
    ∷ 0x8a5a9f266cce87d675c3a2b27853f8408d0c72e273718b2d730274f18ceb4abb862f5fba88a044b70000183b6e0500008a7e251b000060fd76679ad79d44936e9b8f87f5000000008cf7732c97219bb035d672b24c077c51994a615961594c049e96617d0000575f616f62a6623900003a5c61e253aa33f56364680235d25d578bc28fda8e39000050d91d467906533296380f3b4065000077fe00007cc25f1a7cda7a2d806680637d4d750574f28994821a670c80627486805b74f081037724898967cc75536ed187a987ce81c8878c8a498cad8b43772b74f884da363569b28da6000089a900006db987c1401174e73ddb717660a4619c3cd10000607700007f718b2d000060e94b7e52203c183cc75ed776565531194412fe99036ddc70ad5cc161ad8a0f367700ee68464f0e45625b1f634c9f509ea6626b
    ∷ 0x54792db05df3fc5854c42b573ef51b53649494289e4934419db82ee3cc8783c674462df493389aa02a06bb313054fab24ed50086d297a8436004ab125130000037e5fa4038003476edb041f00005101347a510e986c3743841649a40487516033b4516a0bff20fc02e52530058e323319835b82877d05b33c9951b251b89d3451c951cf51d13cdc51d34aa651b351e2534251ed83cd693e372d5f7b520b5226523c52b55257529452b952c57c15854252e0860d6b1300008ade55496ed93f8009543fec533300000be26ccb1726681b73d5604a3eaa38cc16e871dd44a2536d537486ab537e00001596161377e653938a9b53a053ab53ae73a757723f59739c53c153c56c494e4957fe53d93aab0b8f53e03feb2da353f60c7754137079552b66576d5b546d6b530d74555d548f54a447a6170d0edd3db40d4d
    ∷ 0x89bc269855474ced542f7417558655a9000018d7403a4552443566b310b4563766cd328a66a466ad564d564f78f156f1978753fe570056ef56ed8b663623124f574641a56c6e708b574236b16c7e57e6141658031454436358264bf5585c58aa356158e058dc123c58fb5bff5743a150427893d335a1591f68a636c36e59163e5a2455531692850559c90d4e6c816d2a17dc59d917fb17b26da66d71182816d559f96e455aab5a6336e649a9000037085a9674655ad36fa125543d851911373216b85e8352d05b7665885b7c7a0e4004485d02045bd561601a3459cc05a55bf35b9d4d105c051b445c1373ce5c141ca56b285c4948dd5c855ce95cef5d8b1df91e375d105d185d461ea45cba5dd782fc382d490120492173828738363bc25e2e6a8a00005e7a44bc0cd353a64eb7000053a817715e095ef48482
    ∷ 0x5ef95efb38a05efc683e941b5f0d01c1f8943ade48ae133a5f3a688823d0000024715f6397bd6e6e5f7293408a365fa75db63d5f52501f6a70f8266891d6029e8a2960316685187739633dc73639579027b479713e40609e000060b34982498f7a5374a450e15aa0616484246142f8a66ed2618151f4065661875baa3fb7285f61d38b9d995d61d03932298028c16023615c651e638b011862c5177062d52e0d636c49df3a17643863f8138e17fc00006f8a2e369814408c571d64e164e5947b3a66643a3a57654d6f164a284a236585656d655f307e65b549404b3765d140d8182965e065e35fdf3400661831f731f8664431a431a5664b0e75666751e6667300001e3d323185f431c8531377c528f799a46702439c4a213b2b69fa37c200006767676241cd90ed67d744e968226e50923c680133e66da0685d
    ∷ 0x346f69e16a0b8adf697368c335cd690169003d323a01363c3b8067ac69618a4a42fc693669983ba103c98363509069f93659212a6a4537036a9d3bf367b16ac8919c3c0d6b1d092360de6b356b7427cd6eb53adb03b51958374054213b5a6be13efc6bdc6c37248b48f16b516c5a82266c793dbc44c53dbd41a4490c49003cc936e53ceb0d329b8331f924917f8f68376d256da16deb6d966d5c6e7c6f04497f40856e7285336f7451c700000000842e8b2100003e2f74533f8279cc6e4f5a91304b6ff8370d6f9d3e306efa1497403d455593f06f446f5c3d4e6f7491703d3b6f9f41446fd34091415540393ff03fb4413f51df41564157414061dd704b707e70a7708170cc70d570d670df41043de871b471964277712b71455a88714a00005c9c4365714f936242c1712c445a4a274a2271ba8be870bd720e
    ∷ 0x9442721559119443722493415605722e7240497468bd725572573e553044680d6f3d72820000732b4823882b48ed88047328732e73cf73aa0c3a6a2e73c9744941e216e74a24662336c549b7498d49fb73f7741569034a26743905c33ed7000028ad74608eb2744773e4747683b9746c3730747493f16a2c748249534a8c415f4a798b8f5b468c03189e74c81988750e0000751e8ed91a4b5bd78eac9385754d754a7567756e4f823f044d13758e745d759e75b47602762c7651764f766f767663f5769081ef37f86911690e76a176a576b776cc6f9f8462509d517d1e1c771e7726774064af5220775832ac77af8964896816c177f4000013764a1268ca78af78c778d396a5792e55e078d7793478b1760c8fb888848b2b6083261c79868900690279805857799d7b39793c79a96e2a71263ea879c6910d79d4
    ∷ []
