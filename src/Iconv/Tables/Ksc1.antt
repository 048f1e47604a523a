-- ===== src/Iconv/Tables/Ksc1.antt =====
-- The rows 0 to 30 of musl-locale/ksc.h: each is one number, with four hexadecimal digits for
-- an entry of the source.
use android_vshell.Base.{ℕ, List, [], ◌∷◌}

unfoldable pub ksc_1 : List ℕ
ksc_1 =
    0x30003001300200b72025202600a8300300ad20152225ff3c223c20182019201c201d3014301530083009300a300b300c300d300e300f3010301100b100d700f7226022642265221e223400b0203220332103212bffe0ffe1ffe526422640222022a52312220222072261225200a7203b2606260525cb25cf25ce25c725c625a125a025b325b225bd25bc219221902191219321943013226a226b221a223d221d2235222b222c2208220b2286228722822283222a222922272228ffe2
    ∷ 0x21d221d42200220300b4ff5e02c702d802dd02da02d900b802db00a100bf02d0222e2211220f00a42109203025c125c025b725b6266426602661266526672663229925c825a325d025d1259225a425a525a825a725a625a92668260f260e261c261e00b62020202121952197219921962198266d2669266a266c327f321c211633c7212233c233d8212120ac00ae00000000000000000000000000000000000000000000000000000000000000000000000000000000000000000000
    ∷ 0xff01ff02ff03ff04ff05ff06ff07ff08ff09ff0aff0bff0cff0dff0eff0fff10ff11ff12ff13ff14ff15ff16ff17ff18ff19ff1aff1bff1cff1dff1eff1fff20ff21ff22ff23ff24ff25ff26ff27ff28ff29ff2aff2bff2cff2dff2eff2fff30ff31ff32ff33ff34ff35ff36ff37ff38ff39ff3aff3bffe6ff3dff3eff3fff40ff41ff42ff43ff44ff45ff46ff47ff48ff49ff4aff4bff4cff4dff4eff4fff50ff51ff52ff53ff54ff55ff56ff57ff58ff59ff5aff5bff5cff5dffe3
    ∷ 0x313131323133313431353136313731383139313a313b313c313d313e313f3140314131423143314431453146314731483149314a314b314c314d314e314f3150315131523153315431553156315731583159315a315b315c315d315e315f3160316131623163316431653166316731683169316a316b316c316d316e316f3170317131723173317431753176317731783179317a317b317c317d317e317f3180318131823183318431853186318731883189318a318b318c318d318e
    ∷ 0x21702171217221732174217521762177217821790000000000000000000021602161216221632164216521662167216821690000000000000000000000000000039103920393039403950396039703980399039a039b039c039d039e039f03a003a103a303a403a503a603a703a803a90000000000000000000000000000000003b103b203b303b403b503b603b703b803b903ba03bb03bc03bd03be03bf03c003c103c303c403c503c603c703c803c9000000000000000000000000
    ∷ 0x25002502250c251025182514251c252c25242534253c25012503250f2513251b251725232533252b253b254b2520252f25282537253f251d253025252538254225122511251a251925162515250e250d251e251f25212522252625272529252a252d252e25312532253525362539253a253d253e254025412543254425452546254725482549254a00000000000000000000000000000000000000000000000000000000000000000000000000000000000000000000000000000000
    ∷ 0x3395339633972113339833c433a333a433a533a63399339a339b339c339d339e339f33a033a133a233ca338d338e338f33cf3388338933c833a733a833b033b133b233b333b433b533b633b733b833b93380338133823383338433ba33bb33bc33bd33be33bf33903391339233933394212633c033c1338a338b338c33d633c533ad33ae33af33db33a933aa33ab33ac33dd33d033d333c333c933dc33c6000000000000000000000000000000000000000000000000000000000000
    ∷ 0xc600d000aa0126000001320000013f014100d8015200ba00de0166014a00003260326132623263326432653266326732683269326a326b326c326d326e326f3270327132723273327432753276327732783279327a327b24d024d124d224d324d424d524d624d724d824d924da24db24dc24dd24de24df24e024e124e224e324e424e524e624e724e824e92460246124622463246424652466246724682469246a246b246c246d246e00bd2153215400bc00be215b215c215d215e
    ∷ 0xe6011100f001270131013301380140014200f8015300df00fe0167014b01493200320132023203320432053206320732083209320a320b320c320d320e320f3210321132123213321432153216321732183219321a321b249c249d249e249f24a024a124a224a324a424a524a624a724a824a924aa24ab24ac24ad24ae24af24b024b124b224b324b424b5247424752476247724782479247a247b247c247d247e247f24802481248200b900b200b32074207f2081208220832084
    ∷ 0x304130423043304430453046304730483049304a304b304c304d304e304f3050305130523053305430553056305730583059305a305b305c305d305e305f3060306130623063306430653066306730683069306a306b306c306d306e306f3070307130723073307430753076307730783079307a307b307c307d307e307f3080308130823083308430853086308730883089308a308b308c308d308e308f309030913092309300000000000000000000000000000000000000000000
    ∷ 0x30a130a230a330a430a530a630a730a830a930aa30ab30ac30ad30ae30af30b030b130b230b330b430b530b630b730b830b930ba30bb30bc30bd30be30bf30c030c130c230c330c430c530c630c730c830c930ca30cb30cc30cd30ce30cf30d030d130d230d330d430d530d630d730d830d930da30db30dc30dd30de30df30e030e130e230e330e430e530e630e730e830e930ea30eb30ec30ed30ee30ef30f030f130f230f330f430f530f600000000000000000000000000000000
    ∷ 0x4100411041204130414041504010416041704180419041a041b041c041d041e041f0420042104220423042404250426042704280429042a042b042c042d042e042f00000000000000000000000000000000000000000000000000000000000004300431043204330434043504510436043704380439043a043b043c043d043e043f0440044104420443044404450446044704480449044a044b044c044d044e044f0000000000000000000000000000000000000000000000000000
    ∷ 0x0 ∷ 0x0 ∷ 0x0
    ∷ 0xac00ac01ac04ac07ac08ac09ac0aac10ac11ac12ac13ac14ac15ac16ac17ac19ac1aac1bac1cac1dac20ac24ac2cac2dac2fac30ac31ac38ac39ac3cac40ac4bac4dac54ac58ac5cac70ac71ac74ac77ac78ac7aac80ac81ac83ac84ac85ac86ac89ac8aac8bac8cac90ac94ac9cac9dac9faca0aca1aca8aca9acaaacacacafacb0acb8acb9acbbacbcacbdacc1acc4acc8acccacd5acd7ace0ace1ace4ace7ace8aceaacecacefacf0acf1acf3acf5acf6acfcacfdad00ad04ad06
    ∷ 0xad0cad0dad0fad11ad18ad1cad20ad29ad2cad2dad34ad35ad38ad3cad44ad45ad47ad49ad50ad54ad58ad61ad63ad6cad6dad70ad73ad74ad75ad76ad7bad7cad7dad7fad81ad82ad88ad89ad8cad90ad9cad9dada4adb7adc0adc1adc4adc8add0add1add3addcade0ade4adf8adf9adfcadffae00ae01ae08ae09ae0bae0dae14ae30ae31ae34ae37ae38ae3aae40ae41ae43ae45ae46ae4aae4cae4dae4eae50ae54ae56ae5cae5dae5fae60ae61ae65ae68ae69ae6cae70ae78
    ∷ 0xae79ae7bae7cae7dae84ae85ae8caebcaebdaebeaec0aec4aeccaecdaecfaed0aed1aed8aed9aedcaee8aeebaeedaef4aef8aefcaf07af08af0daf10af2caf2daf30af32af34af3caf3daf3faf41af42af43af48af49af50af5caf5daf64af65af79af80af84af88af90af91af95af9cafb8afb9afbcafc0afc7afc8afc9afcbafcdafceafd4afdcafe8afe9aff0aff1aff4aff8b000b001b004b00cb010b014b01cb01db028b044b045b048b04ab04cb04eb053b054b055b057b059
    ∷ 0xb05db07cb07db080b084b08cb08db08fb091b098b099b09ab09cb09fb0a0b0a1b0a2b0a8b0a9b0abb0acb0adb0aeb0afb0b1b0b3b0b4b0b5b0b8b0bcb0c4b0c5b0c7b0c8b0c9b0d0b0d1b0d4b0d8b0e0b0e5b108b109b10bb10cb110b112b113b118b119b11bb11cb11db123b124b125b128b12cb134b135b137b138b139b140b141b144b148b150b151b154b155b158b15cb160b178b179b17cb180b182b188b189b18bb18db192b193b194b198b19cb1a8b1ccb1d0b1d4b1dcb1dd
    ∷ 0xb1dfb1e8b1e9b1ecb1f0b1f9b1fbb1fdb204b205b208b20bb20cb214b215b217b219b220b234b23cb258b25cb260b268b269b274b275b27cb284b285b289b290b291b294b298b299b29ab2a0b2a1b2a3b2a5b2a6b2aab2acb2b0b2b4b2c8b2c9b2ccb2d0b2d2b2d8b2d9b2dbb2ddb2e2b2e4b2e5b2e6b2e8b2ebb2ecb2edb2eeb2efb2f3b2f4b2f5b2f7b2f8b2f9b2fab2fbb2ffb300b301b304b308b310b311b313b314b315b31cb354b355b356b358b35bb35cb35eb35fb364b365
    ∷ 0xb367b369b36bb36eb370b371b374b378b380b381b383b384b385b38cb390b394b3a0b3a1b3a8b3acb3c4b3c5b3c8b3cbb3ccb3ceb3d0b3d4b3d5b3d7b3d9b3dbb3ddb3e0b3e4b3e8b3fcb410b418b41cb420b428b429b42bb434b450b451b454b458b460b461b463b465b46cb480b488b49db4a4b4a8b4acb4b5b4b7b4b9b4c0b4c4b4c8b4d0b4d5b4dcb4ddb4e0b4e3b4e4b4e6b4ecb4edb4efb4f1b4f8b514b515b518b51bb51cb524b525b527b528b529b52ab530b531b534b538
    ∷ 0xb540b541b543b544b545b54bb54cb54db550b554b55cb55db55fb560b561b5a0b5a1b5a4b5a8b5aab5abb5b0b5b1b5b3b5b4b5b5b5bbb5bcb5bdb5c0b5c4b5ccb5cdb5cfb5d0b5d1b5d8b5ecb610b611b614b618b625b62cb634b648b664b668b69cb69db6a0b6a4b6abb6acb6b1b6d4b6f0b6f4b6f8b700b701b705b728b729b72cb72fb730b738b739b73bb744b748b74cb754b755b760b764b768b770b771b773b775b77cb77db780b784b78cb78db78fb790b791b792b796b797
    ∷ 0xb798b799b79cb7a0b7a8b7a9b7abb7acb7adb7b4b7b5b7b8b7c7b7c9b7ecb7edb7f0b7f4b7fcb7fdb7ffb800b801b807b808b809b80cb810b818b819b81bb81db824b825b828b82cb834b835b837b838b839b840b844b851b853b85cb85db860b864b86cb86db86fb871b878b87cb88db8a8b8b0b8b4b8b8b8c0b8c1b8c3b8c5b8ccb8d0b8d4b8ddb8dfb8e1b8e8b8e9b8ecb8f0b8f8b8f9b8fbb8fdb904b918b920b93cb93db940b944b94cb94fb951b958b959b95cb960b968b969
    ∷ 0xb96bb96db974b975b978b97cb984b985b987b989b98ab98db98eb9acb9adb9b0b9b4b9bcb9bdb9bfb9c1b9c8b9c9b9ccb9ceb9cfb9d0b9d1b9d2b9d8b9d9b9dbb9ddb9deb9e1b9e3b9e4b9e5b9e8b9ecb9f4b9f5b9f7b9f8b9f9b9faba00ba01ba08ba15ba38ba39ba3cba40ba42ba48ba49ba4bba4dba4eba53ba54ba55ba58ba5cba64ba65ba67ba68ba69ba70ba71ba74ba78ba83ba84ba85ba87ba8cbaa8baa9baabbaacbab0bab2bab8bab9babbbabdbac4bac8bad8bad9bafc
    ∷ 0xbb00bb04bb0dbb0fbb11bb18bb1cbb20bb29bb2bbb34bb35bb36bb38bb3bbb3cbb3dbb3ebb44bb45bb47bb49bb4dbb4fbb50bb54bb58bb61bb63bb6cbb88bb8cbb90bba4bba8bbacbbb4bbb7bbc0bbc4bbc8bbd0bbd3bbf8bbf9bbfcbbffbc00bc02bc08bc09bc0bbc0cbc0dbc0fbc11bc14bc15bc16bc17bc18bc1bbc1cbc1dbc1ebc1fbc24bc25bc27bc29bc2dbc30bc31bc34bc38bc40bc41bc43bc44bc45bc49bc4cbc4dbc50bc5dbc84bc85bc88bc8bbc8cbc8ebc94bc95bc97
    ∷ 0xbc99bc9abca0bca1bca4bca7bca8bcb0bcb1bcb3bcb4bcb5bcbcbcbdbcc0bcc4bccdbccfbcd0bcd1bcd5bcd8bcdcbcf4bcf5bcf6bcf8bcfcbd04bd05bd07bd09bd10bd14bd24bd2cbd40bd48bd49bd4cbd50bd58bd59bd64bd68bd80bd81bd84bd87bd88bd89bd8abd90bd91bd93bd95bd99bd9abd9cbda4bdb0bdb8bdd4bdd5bdd8bddcbde9bdf0bdf4bdf8be00be03be05be0cbe0dbe10be14be1cbe1dbe1fbe44be45be48be4cbe4ebe54be55be57be59be5abe5bbe60be61be64
    ∷ 0xbe68be6abe70be71be73be74be75be7bbe7cbe7dbe80be84be8cbe8dbe8fbe90be91be98be99bea8bed0bed1bed4bed7bed8bee0bee3bee4bee5beecbf01bf08bf09bf18bf19bf1bbf1cbf1dbf40bf41bf44bf48bf50bf51bf55bf94bfb0bfc5bfccbfcdbfd0bfd4bfdcbfdfbfe1c03cc051c058c05cc060c068c069c090c091c094c098c0a0c0a1c0a3c0a5c0acc0adc0afc0b0c0b3c0b4c0b5c0b6c0bcc0bdc0bfc0c0c0c1c0c5c0c8c0c9c0ccc0d0c0d8c0d9c0dbc0dcc0ddc0e4
    ∷ 0xc0e5c0e8c0ecc0f4c0f5c0f7c0f9c100c104c108c110c115c11cc11dc11ec11fc120c123c124c126c127c12cc12dc12fc130c131c136c138c139c13cc140c148c149c14bc14cc14dc154c155c158c15cc164c165c167c168c169c170c174c178c185c18cc18dc18ec190c194c196c19cc19dc19fc1a1c1a5c1a8c1a9c1acc1b0c1bdc1c4c1c8c1ccc1d4c1d7c1d8c1e0c1e4c1e8c1f0c1f1c1f3c1fcc1fdc200c204c20cc20dc20fc211c218c219c21cc21fc220c228c229c22bc22d
    ∷ 0xc22fc231c232c234c248c250c251c254c258c260c265c26cc26dc270c274c27cc27dc27fc281c288c289c290c298c29bc29dc2a4c2a5c2a8c2acc2adc2b4c2b5c2b7c2b9c2dcc2ddc2e0c2e3c2e4c2ebc2ecc2edc2efc2f1c2f6c2f8c2f9c2fbc2fcc300c308c309c30cc30dc313c314c315c318c31cc324c325c328c329c345c368c369c36cc370c372c378c379c37cc37dc384c388c38cc3c0c3d8c3d9c3dcc3dfc3e0c3e2c3e8c3e9c3edc3f4c3f5c3f8c408c410c424c42cc430
    ∷ 0xc434c43cc43dc448c464c465c468c46cc474c475c479c480c494c49cc4b8c4bcc4e9c4f0c4f1c4f4c4f8c4fac4ffc500c501c50cc510c514c51cc528c529c52cc530c538c539c53bc53dc544c545c548c549c54ac54cc54dc54ec553c554c555c557c558c559c55dc55ec560c561c564c568c570c571c573c574c575c57cc57dc580c584c587c58cc58dc58fc591c595c597c598c59cc5a0c5a9c5b4c5b5c5b8c5b9c5bbc5bcc5bdc5bec5c4c5c5c5c6c5c7c5c8c5c9c5cac5ccc5ce
    ∷ 0xc5d0c5d1c5d4c5d8c5e0c5e1c5e3c5e5c5ecc5edc5eec5f0c5f4c5f6c5f7c5fcc5fdc5fec5ffc600c601c605c606c607c608c60cc610c618c619c61bc61cc624c625c628c62cc62dc62ec630c633c634c635c637c639c63bc640c641c644c648c650c651c653c654c655c65cc65dc660c66cc66fc671c678c679c67cc680c688c689c68bc68dc694c695c698c69cc6a4c6a5c6a7c6a9c6b0c6b1c6b4c6b8c6b9c6bac6c0c6c1c6c3c6c5c6ccc6cdc6d0c6d4c6dcc6ddc6e0c6e1c6e8
    ∷ []
