-- ===== src/Iconv/Tables/Gb180305.antt =====
-- The rows 56 to 69 of musl-locale/gb18030.h: each is one number, with four hexadecimal digits for
-- an entry of the source.
use android_vshell.Base.{ℕ, List, [], ◌∷◌}

unfoldable pub gb18030_5 : List ℕ
gb18030_5 =
    0x7b2f7b307b327b347b357b367b377b397b3b7b3d7b3f7b407b417b427b437b447b467b487b4a7b4d7b4e7b537b557b577b597b5c7b5e7b5f7b617b637b647b657b667b677b687b697b6a7b6b7b6c7b6d7b6f7b707b737b747b767b787b7a7b7c7b7d7b7f7b817b827b837b847b867b877b887b897b8a7b8b7b8c7b8e7b8f7b917b927b937b967b987b997b9a7b9b7b9e7b9f7ba07ba37ba47ba57bae7baf7bb07bb27bb37bb57bb67bb77bb97bba7bbb7bbc7bbd7bbe7bbf7bc07bc27bc37bc457c2803f68975de5653b529f606d9f9a4f9b8eac516c5bab5f135de96c5e62f18d21517194a952fe6c9f82df72d757a267848d2d591f8f9c83c754957b8d4f306cbd5b6459d19f1353e486ca9aa88c3780a16545987e56fa96c7522e74dc52505be1630289024e5662d0602a68fa51735b9851a089c27ba199867f5060ef704c8d2f51495e7f901b747089c4572d78455f529f9f95fa8f689b3c8be17678684267dc8dea8d35523d8f8a6eda68cd950590ed56fd679c88f98fc754c8
    ∷ 0x7bc57bc87bc97bca7bcb7bcd7bce7bcf7bd07bd27bd47bd57bd67bd77bd87bdb7bdc7bde7bdf7be07be27be37be47be77be87be97beb7bec7bed7bef7bf07bf27bf37bf47bf57bf67bf87bf97bfa7bfb7bfd7bff7c007c017c027c037c047c057c067c087c097c0a7c0d7c0e7c107c117c127c137c147c157c177c187c197c1a7c1b7c1c7c1d7c1e7c207c217c227c237c247c257c287c297c2b7c2c7c2d7c2e7c2f7c307c317c327c337c347c357c367c377c397c3a7c3b7c3c7c3d7c3e7c429ab85b696d776c264ea55bb39a87916361a890af97e9542b6db55bd251fd558a7f557ff064bc634d65f161be608d710a6c576c49592f676d822a58d5568e8c6a6beb90dd597d801753f76d695475559d837783cf683879be548c4f55540876d28c8996026cb36db88d6b89109e648d3a563f9ed175d55f8872e0606854fc4ea86a2a886160528f7054c470d886799e3f6d2a5b8f5f187ea255894faf7334543c539a5019540e547c4e4e5ffd745a58f6846b80e1877472d07cca6e56
    ∷ 0x7c437c447c457c467c477c487c497c4a7c4b7c4c7c4e7c4f7c507c517c527c537c547c557c567c577c587c597c5a7c5b7c5c7c5d7c5e7c5f7c607c617c627c637c647c657c667c677c687c697c6a7c6b7c6c7c6d7c6e7c6f7c707c717c727c757c767c777c787c797c7a7c7e7c7f7c807c817c827c837c847c857c867c877c887c8a7c8b7c8c7c8d7c8e7c8f7c907c937c947c967c997c9a7c9b7ca07ca17ca37ca67ca77ca87ca97cab7cac7cad7caf7cb07cb47cb57cb67cb77cb87cba7cbb5f27864e552c62a44e926caa623782b154d7534e733e6ed1753b521253168bdd69d05f8a60006dee574f6b2273af68538fd87f13636260a3552475ea8c6271156da35ba65e7b8352614c9ec478fa87577c27768751f060f6714c66435e4c604d8c0e707063258f895fbd606286d456de6bc160946167534960e066668d3f79fd4f1a70e96c478bb38bf27ed88364660f5a5a9b426d516df78c416d3b4f19706b83b7621660d1970d8d27797851fb573e57fa673a75787a3d79ef7b95
    ∷ 0x7cbf7cc07cc27cc37cc47cc67cc97ccb7cce7ccf7cd07cd17cd27cd37cd47cd87cda7cdb7cdd7cde7ce17ce27ce37ce47ce57ce67ce77ce97cea7ceb7cec7ced7cee7cf07cf17cf27cf37cf47cf57cf67cf77cf97cfa7cfc7cfd7cfe7cff7d007d017d027d037d047d057d067d077d087d097d0b7d0c7d0d7d0e7d0f7d107d117d127d137d147d157d167d177d187d197d1a7d1b7d1c7d1d7d1e7d1f7d217d237d247d257d267d287d297d2a7d2c7d2d7d2e7d307d317d327d337d347d357d36808c99658ff96fc08ba59e2159ec7ee97f095409678168d88f917c4d96c653ca602575be6c7253735ac97ea7632451e0810a5df184df628051805b634f0e796d524260b86d4e5bc45bc28ba18bb065e25fcc964559937ee77eaa560967b759394f735bb652a0835a988a8d3e753294be50477a3c4ef767b69a7e5ac16b7c76d1575a5c167b3a95f4714e517c80a9827059787f04832768c067ec78b1787762e363617b804fed526a51cf835069db92748df58d3189c1952e7bad4ef6
    ∷ 0x7d377d387d397d3a7d3b7d3c7d3d7d3e7d3f7d407d417d427d437d447d457d467d477d487d497d4a7d4b7d4c7d4d7d4e7d4f7d507d517d527d537d547d557d567d577d587d597d5a7d5b7d5c7d5d7d5e7d5f7d607d617d627d637d647d657d667d677d687d697d6a7d6b7d6c7d6d7d6f7d707d717d727d737d747d757d767d787d797d7a7d7b7d7c7d7d7d7e7d7f7d807d817d827d837d847d857d867d877d887d897d8a7d8b7d8c7d8d7d8e7d8f7d907d917d927d937d947d957d967d977d98506582305251996f6e106e856da75efa50f559dc5c066d466c5f7586848b686859568bb253209171964d854969127901712680f64ea490ca6d479a845a0756bc640594f077eb4fa5811a72e189d2997a7f347ede527f655991758f7f8f8353eb7a9663ed63a5768679f888579636622a52ab8282685467706377776b7aed6d017ed389e359d0621285c982a5754c501f4ecb75a58beb5c4a5dfe7b4b65a491d14eca6d25895f7d2795264ec58c288fdb9773664b79818fd170ec6d78
    ∷ 0x7d997d9a7d9b7d9c7d9d7d9e7d9f7da07da17da27da37da47da57da77da87da97daa7dab7dac7dad7daf7db07db17db27db37db47db57db67db77db87db97dba7dbb7dbc7dbd7dbe7dbf7dc07dc17dc27dc37dc47dc57dc67dc77dc87dc97dca7dcb7dcc7dcd7dce7dcf7dd07dd17dd27dd37dd47dd57dd67dd77dd87dd97dda7ddb7ddc7ddd7dde7ddf7de07de17de27de37de47de57de67de77de87de97dea7deb7dec7ded7dee7def7df07df17df27df37df47df57df67df77df87df97dfa5c3d52b283465162830e775b66769cb84eac60ca7cbe7cb37ecf4e958b66666f988897595883656c955c5f8475c997567adf7ade51c070af7a9863ea7a767ea0739697ed4e4570784e5d915253a9655165e781fc8205548e5c31759a97a062d872d975bd5c459a7983ca5c40548077e94e3e6cae805a62d2636e5de851778ddd8e1e952f4ff153e560e770ac526763509e435a1f5026773753777ee26485652b628963985014723589c951b38bc07edd574783cc94a7519b541b5cfb
    ∷ 0x7dfb7dfc7dfd7dfe7dff7e007e017e027e037e047e057e067e077e087e097e0a7e0b7e0c7e0d7e0e7e0f7e107e117e127e137e147e157e167e177e187e197e1a7e1b7e1c7e1d7e1e7e1f7e207e217e227e237e247e257e267e277e287e297e2a7e2b7e2c7e2d7e2e7e2f7e307e317e327e337e347e357e367e377e387e397e3a7e3c7e3d7e3e7e3f7e407e427e437e447e457e467e487e497e4a7e4b7e4c7e4d7e4e7e4f7e507e517e527e537e547e557e567e577e587e597e5a7e5b7e5c7e5d4fca7ae36d5a90e19a8f55805496536154af5f0063e9697751ef6168520a582a52d8574e780d770b5eb761777ce0625b62974ea27095800362f770e49760577782db67ef68f578d5989779d158f354b353ef6e34514b523b5ba28bfe80af554357a660735751542d7a7a60505b5463a762a053e362635bc767af54ed7a9f82e691775e9388e4593857ae630e8de880ef57577b774fa95feb5bbd6b3e53217b5072c2684677ff773665f751b54e8f76d45cbf7aa58475594e9b415080
    ∷ 0x7e5e7e5f7e607e617e627e637e647e657e667e677e687e697e6a7e6b7e6c7e6d7e6e7e6f7e707e717e727e737e747e757e767e777e787e797e7a7e7b7e7c7e7d7e7e7e7f7e807e817e837e847e857e867e877e887e897e8a7e8b7e8c7e8d7e8e7e8f7e907e917e927e937e947e957e967e977e987e997e9a7e9c7e9d7e9e7eae7eb47ebb7ebc7ed67ee47eec7ef97f0a7f107f1e7f377f397f3b7f3c7f3d7f3e7f3f7f407f417f437f467f477f487f497f4a7f4b7f4c7f4d7f4e7f4f7f527f53998861276e8357646606634656f062ec62695ed39614578362c955878721814a8fa3556683b167658d5684dd5a6a680f62e67bee961151706f9c8c3063fd89c861d27f0670c26ee57405699472fc5eca90ce67176d6a635e52b3726280014f6c59e5916a70d96d9d52d24e5096f7956d857e78ca7d2f5121579264c2808b7c7b6cea68f1695e51b7539868a872819ece7bf172f879bb6f137406674e91cc9ca4793c83898354540f68174e3d538952b1783e5386522950884f8b4fd0
    ∷ 0x7f567f597f5b7f5c7f5d7f5e7f607f637f647f657f667f677f6b7f6c7f6d7f6f7f707f737f757f767f777f787f7a7f7b7f7c7f7d7f7f7f807f827f837f847f857f867f877f887f897f8b7f8d7f8f7f907f917f927f937f957f967f977f987f997f9b7f9c7fa07fa27fa37fa57fa67fa87fa97faa7fab7fac7fad7fae7fb17fb37fb47fb57fb67fb77fba7fbb7fbe7fc07fc27fc37fc47fc67fc77fc87fc97fcb7fcd7fcf7fd07fd17fd27fd37fd67fd77fd97fda7fdb7fdc7fdd7fde7fe27fe375e27acb7c926ca596b6529b748354e94fe9805483b28fde95705ec9601c6d9f5e18655b813894fe604b70bc7ec37cae51c968817cb1826f4e248f8691cf667e4eae8c0564a9804a50da759771ce5be58fbd6f664e86648295635ed66599521788c270c852a3730e7433679778f797164e3490bb9cde6dcb51db8d41541d62ce73b283f196f69f8494c34f367f9a51cc707596755cad988653e64ee46e9c740969b4786b998f7559521876246d4167f3516d9f99804b54997b3c7abf
    ∷ 0x7fe47fe77fe87fea7feb7fec7fed7fef7ff27ff47ff57ff67ff77ff87ff97ffa7ffd7ffe7fff8002800780088009800a800e800f80118013801a801b801d801e801f802180238024802b802c802d802e802f8030803280348039803a803c803e8040804180448045804780488049804e804f8050805180538055805680578059805b805c805d805e805f806080618062806380648065806680678068806b806c806d806e806f807080728073807480758076807780788079807a807b807c807d9686578462e29647697c5a0464027bd36f0f964b82a6536298855e90708963b35364864f9c819e93788c97328def8d429e7f6f5e79845f559646622e9a74541594dd4fa365c55c655c617f1586516c2f5f8b73876ee47eff5ce6631b5b6a6ee653754e7163a0756562a18f6e4f264ed16ca67eb68bba841d87ba7f57903b95237ba99aa188f8843d6d1b9a867edc59889ebb739b780186829a6c9a82561b541757cb4e709ea653568fc881097792999286ee6ee1851366fc61626f2b
    ∷ 0x807e8081808280858088808a808d808e808f8090809180928094809580978099809e80a380a680a780a880ac80b080b380b580b680b880b980bb80c580c780c880c980ca80cb80cf80d080d180d280d380d480d580d880df80e080e280e380e680ee80f580f780f980fb80fe80ff8100810181038104810581078108810b810c811581178119811b811c811d811f8120812181228123812481258126812781288129812a812b812d812e813081338134813581378139813a813b813c813d813f8c298292832b76f26c135fd983bd732b8305951a6bdb77db94c6536f830251925e3d8c8c8d384e4873ab679a68859176970971646ca177095a9295416bcf7f8e66275bd059b95a9a95e895f74eec840c84996aac76df9530731b68a65b5f772f919a97617cdc8ff78c1c5f257c7379d889c56ccc871c5bc65e4268c977207ef55195514d52c95a297f05976282d763cf778485d079d26e3a5e9959998511706d6c1162bf76bf654f60af95fd660e879f9e2394ed540d547d8c2c6478
    ∷ 0x81408141814281438144814581478149814d814e814f8152815681578158815b815c815d815e815f816181628163816481668168816a816b816c816f8172817381758176817781788181818381848185818681878189818b818c818d818e81908192819381948195819681978199819a819e819f81a081a181a281a481a581a781a981ab81ac81ad81ae81af81b081b181b281b481b581b681b781b881b981bc81bd81be81bf81c481c581c781c881c981cb81cd81ce81cf81d081d181d281d3647986116a21819c78e864699b5462b9672b83ab58a89ed86cab6f205bde964c8c0b725f67d062c772614ea959c66bcd589366ae5e5552df6155672876ee776672677a4662ff54ea545094a090a35a1c7eb36c164e435976801059485357753796be56ca63208111607c95f96dd65462998151855ae980fd59ae9713502a6ce55c3c62df4f60533f817b90066eba852b62c85e7478be64b5637b5ff55a18917f9e1f5c3f634f80425b7d556e954a954d6d8560a867e072de51dd5b81
    ∷ 0x81d481d581d681d781d881d981da81db81dc81dd81de81df81e081e181e281e481e581e681e881e981eb81ee81ef81f081f181f281f581f681f781f881f981fa81fd81ff8203820782088209820a820b820e820f8211821382158216821782188219821a821d822082248225822682278229822e8232823a823c823d823f8240824182428243824582468248824a824c824d824e825082518252825382548255825682578259825b825c825d825e82608261826282638264826582668267826962e76cde725b626d94ae7ebd81136d53519c5f04597452aa6012597366968650759f632a61e67cef8bfa54e66b279e256bb485d5545550766ca4556a8db4722c5e156015743662cd6392724c5f986e436d3e65006f5876d878d076fc7554522453db4e535e9e65c1802a80d6629b5486522870ae888d8dd16ce1547880da57f988f48d54966a914d4f696c9b55b776c6783062a870f96f8e5f6d84ec68da787c7bf781a8670b9e4f636778b0576f78129739627962ab528874356bd7
    ∷ 0x826a826b826c826d82718275827682778278827b827c8280828182838285828682878289828c82908293829482958296829a829b829e82a082a282a382a782b282b582b682ba82bb82bc82bf82c082c282c382c582c682c982d082d682d982da82dd82e282e782e882e982ea82ec82ed82ee82f082f282f382f582f682f882fa82fc82fd82fe82ff8300830a830b830d831083128313831683188319831d831e831f83208321832283238324832583268329832a832e833083328337833b833d5564813e75b276ae533975de50fb5c418b6c7bc7504f72479a9798d86f0274e27968648777a562fc98918d2b54c180584e52576a82f9840d5e7351ed74f68bc45c4f57616cfc98875a4678349b448feb7c955256625194fa4ec68386846183e984b257d467345703666e6d668c3166dd7011671f6b3a6816621a59bb4e0351c46f0667d26c8f517668cb59476b6775665d0e81109f5065d7794879419a918d775c824e5e4f01542f5951780c56686c148fc45f036c7d6ce38bab6390
    ∷ []
