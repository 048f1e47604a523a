-- ===== src/Iconv/Tables/Jis02083.antt =====
-- The rows 56 to 83 of musl-locale/jis0208.h: each is one number, with four hexadecimal digits for
-- an entry of the source.
use android_vshell.Base.{ℕ, List, [], ◌∷◌}

unfoldable pub jis0208_3 : List ℕ
jis0208_3 =
    0x621e6221622a622e6230623262336241624e625e6263625b62606268627c62826289627e62926293629662d46283629462d762d162bb62cf62ff62c664d462c862dc62cc62ca62c262c7629b62c9630c62ee62f163276302630862ef62f56350633e634d641c634f6396638e638063ab637663a3638f6389639f63b5636b636963be63e963c063c663e363c963d263f663c4641664346406641364266436651d64176428640f6467646f6476644e652a6495649364a564a9648864bc
    ∷ 0x64da64d264c564c764bb64d864c264f164e7820964e064e162ac64e364ef652c64f664f464f264fa650064fd6518651c650565246523652b65346535653765366538754b654865566555654d6558655e655d65726578658265838b8a659b659f65ab65b765c365c665c165c465cc65d265db65d965e065e165f16772660a660365fb6773663566366634661c664f664466496641665e665d666466676668665f6662667066836688668e668966846698669d66c166b966c966be66bc
    ∷ 0x66c466b866d666da66e0663f66e666e966f066f566f7670f6716671e672667279738672e673f67366741673867376746675e67606759676367646789677067a9677c676a678c678b67a667a1678567b767ef67b467ec67b367e967b867e467de67dd67e267ee67b967ce67c667e76a9c681e684668296840684d6832684e68b3682b685968636877687f689f688f68ad6894689d689b68836aae68b9687468b568a068ba690f688d687e690168ca690868d86922692668e1690c68cd
    ∷ 0x68d468e768d569366912690468d768e3692568f968e068ef6928692a691a6923692168c669796977695c6978696b6954697e696e69396974693d695969306961695e695d6981696a69b269ae69d069bf69c169d369be69ce5be869ca69dd69bb69c369a76a2e699169a0699c699569b469de69e86a026a1b69ff6b0a69f969f269e76a0569b16a1e69ed6a1469eb6a0a6a126ac16a236a136a446a0c6a726a366a786a476a626a596a666a486a386a226a906a8d6aa06a846aa26aa3
    ∷ 0x6a9786176abb6ac36ac26ab86ab36aac6ade6ad16adf6aaa6ada6aea6afb6b0586166afa6b126b169b316b1f6b386b3776dc6b3998ee6b476b436b496b506b596b546b5b6b5f6b616b786b796b7f6b806b846b836b8d6b986b956b9e6ba46baa6bab6baf6bb26bb16bb36bb76bbc6bc66bcb6bd36bdf6bec6beb6bf36bef9ebe6c086c136c146c1b6c246c236c5e6c556c626c6a6c826c8d6c9a6c816c9b6c7e6c686c736c926c906cc46cf16cd36cbd6cd76cc56cdd6cae6cb16cbe
    ∷ 0x6cba6cdb6cef6cd96cea6d1f884d6d366d2b6d3d6d386d196d356d336d126d0c6d636d936d646d5a6d796d596d8e6d956fe46d856df96e156e0a6db56dc76de66db86dc66dec6dde6dcc6de86dd26dc56dfa6dd96de46dd56dea6dee6e2d6e6e6e2e6e196e726e5f6e3e6e236e6b6e2b6e766e4d6e1f6e436e3a6e4e6e246eff6e1d6e386e826eaa6e986ec96eb76ed36ebd6eaf6ec46eb26ed46ed56e8f6ea56ec26e9f6f416f11704c6eec6ef86efe6f3f6ef26f316eef6f326ecc
    ∷ 0x6f3e6f136ef76f866f7a6f786f816f806f6f6f5b6ff36f6d6f826f7c6f586f8e6f916fc26f666fb36fa36fa16fa46fb96fc66faa6fdf6fd56fec6fd46fd86ff16fee6fdb7009700b6ffa70117001700f6ffe701b701a6f74701d7018701f7030703e7032705170637099709270af70f170ac70b870b370ae70df70cb70dd70d9710970fd711c711971657155718871667162714c7156716c718f71fb7184719571a871ac71d771b971be71d271c971d471ce71e071ec71e771f571fc
    ∷ 0x71f971ff720d7210721b7228722d722c72307232723b723c723f72407246724b72587274727e7282728172877292729672a272a772b972b272c372c672c472ce72d272e272e072e172f972f7500f7317730a731c7316731d7334732f73297325733e734e734f9ed87357736a7368737073787375737b737a73c873b373ce73bb73c073e573ee73de74a27405746f742573f87432743a7455743f745f74597441745c746974707463746a7476747e748b749e74a774ca74cf74d473f1
    ∷ 0x74e074e374e774e974ee74f274f074f174f874f7750475037505750c750e750d75157513751e7526752c753c7544754d754a7549755b7546755a756975647567756b756d75787576758675877574758a758975827594759a759d75a575a375c275b375c375b575bd75b875bc75b175cd75ca75d275d975e375de75fe75ff75fc760175f075fa75f275f3760b760d7609761f7627762076217622762476347630763b764776487646765c76587661766276687669766a7667766c7670
    ∷ 0x767276767678767c768076837688768b768e769676937699769a76b076b476b876b976ba76c276cd76d676d276de76e176e576e776ea862f76fb77087707770477297724771e77257726771b773777387747775a7768776b775b7765777f777e7779778e778b779177a0779e77b077b677b977bf77bc77bd77bb77c777cd77d777da77dc77e377ee77fc780c781279267820792a7845788e78747886787c789a788c78a378b578aa78af78d178c678cb78d478be78bc78c578ca78ec
    ∷ 0x78e778da78fd78f47907791279117919792c792b794079607957795f795a79557953797a797f798a799d79a79f4b79aa79ae79b379b979ba79c979d579e779ec79e179e37a087a0d7a187a197a207a1f79807a317a3b7a3e7a377a437a577a497a617a627a699f9d7a707a797a7d7a887a977a957a987a967aa97ac87ab07ab67ac57ac47abf90837ac77aca7acd7acf7ad57ad37ad97ada7add7ae17ae27ae67aed7af07b027b0f7b0a7b067b337b187b197b1e7b357b287b367b50
    ∷ 0x7b7a7b047b4d7b0b7b4c7b457b757b657b747b677b707b717b6c7b6e7b9d7b987b9f7b8d7b9c7b9a7b8b7b927b8f7b5d7b997bcb7bc17bcc7bcf7bb47bc67bdd7be97c117c147be67be57c607c007c077c137bf37bf77c177c0d7bf67c237c277c2a7c1f7c377c2b7c3d7c4c7c437c547c4f7c407c507c587c5f7c647c567c657c6c7c757c837c907ca47cad7ca27cab7ca17ca87cb37cb27cb17cae7cb97cbd7cc07cc57cc27cd87cd27cdc7ce29b3b7cef7cf27cf47cf67cfa7d06
    ∷ 0x7d027d1c7d157d0a7d457d4b7d2e7d327d3f7d357d467d737d567d4e7d727d687d6e7d4f7d637d937d897d5b7d8f7d7d7d9b7dba7dae7da37db57dc77dbd7dab7e3d7da27daf7ddc7db87d9f7db07dd87ddd7de47dde7dfb7df27de17e057e0a7e237e217e127e317e1f7e097e0b7e227e467e667e3b7e357e397e437e377e327e3a7e677e5d7e567e5e7e597e5a7e797e6a7e697e7c7e7b7e837dd57e7d8fae7e7f7e887e897e8c7e927e907e937e947e967e8e7e9b7e9c7f387f3a
    ∷ 0x7f457f4c7f4d7f4e7f507f517f557f547f587f5f7f607f687f697f677f787f827f867f837f887f877f8c7f947f9e7f9d7f9a7fa37faf7fb27fb97fae7fb67fb88b717fc57fc67fca7fd57fd47fe17fe67fe97ff37ff998dc80068004800b801280188019801c80218028803f803b804a804680528058805a805f8062806880738072807080768079807d807f808480868085809b8093809a80ad519080ac80db80e580d980dd80c480da80d6810980ef80f1811b81298123812f814b
    ∷ 0x968b8146813e8153815180fc8171816e81658166817481838188818a8180818281a0819581a481a3815f819381a981b081b581be81b881bd81c081c281ba81c981cd81d181d981d881c881da81df81e081e781fa81fb81fe8201820282058207820a820d821082168229822b82388233824082598258825d825a825f826482628268826a826b822e827182778278827e828d829282ab829f82bb82ac82e182e382df82d282f482f382fa8393830382fb82f982de830682dc830982d9
    ∷ 0x833583348316833283318340833983508345832f832b831783188385839a83aa839f83a283968323838e8387838a837c83b58373837583a0838983a883f4841383eb83ce83fd840383d8840b83c183f7840783e083f2840d8422842083bd8438850683fb846d842a843c855a84848477846b84ad846e848284698446842c846f8479843584ca846284b984bf849f84d984cd84bb84da84d084c184c684d684a1852184ff84f485178518852c851f8515851484fc8540856385588548
    ∷ 0x85418602854b8555858085a485888591858a85a8856d8594859b85ea8587859c8577857e859085c985ba85cf85b985d085d585dd85e585dc85f9860a8613860b85fe85fa86068622861a8630863f864d4e558654865f86678671869386a386a986aa868b868c86b686af86c486c686b086c9882386ab86d486de86e986ec86df86db86ef8712870687088700870386fb87118709870d86f9870a8734873f8737873b87258729871a8760875f8778874c874e877487578768876e8759
    ∷ 0x87538763876a880587a2879f878287af87cb87bd87c087d096d687ab87c487b387c787c687bb87ef87f287e0880f880d87fe87f687f7880e87d2881188168815882288218831883688398827883b8844884288528859885e8862886b8881887e889e8875887d88b5887288828897889288ae889988a2888d88a488b088bf88b188c388c488d488d888d988dd88f9890288fc88f488e888f28904890c890a89138943891e8925892a892b89418944893b89368938894c891d8960895e
    ∷ 0x89668964896d896a896f89748977897e89838988898a8993899889a189a989a689ac89af89b289ba89bd89bf89c089da89dc89dd89e789f489f88a038a168a108a0c8a1b8a1d8a258a368a418a5b8a528a468a488a7c8a6d8a6c8a628a858a828a848aa88aa18a918aa58aa68a9a8aa38ac48acd8ac28ada8aeb8af38ae78ae48af18b148ae08ae28af78ade8adb8b0c8b078b1a8ae18b168b108b178b208b3397ab8b268b2b8b3e8b288b418b4c8b4f8b4e8b498b568b5b8b5a8b6b
    ∷ 0x8b5f8b6c8b6f8b748b7d8b808b8c8b8e8b928b938b968b998b9a8c3a8c418c3f8c488c4c8c4e8c508c558c628c6c8c788c7a8c828c898c858c8a8c8d8c8e8c948c7c8c98621d8cad8caa8cbd8cb28cb38cae8cb68cc88cc18ce48ce38cda8cfd8cfa8cfb8d048d058d0a8d078d0f8d0d8d109f4e8d138ccd8d148d168d678d6d8d718d738d818d998dc28dbe8dba8dcf8dda8dd68dcc8ddb8dcb8dea8deb8ddf8de38dfc8e088e098dff8e1d8e1e8e108e1f8e428e358e308e348e4a
    ∷ 0x8e478e498e4c8e508e488e598e648e608e2a8e638e558e768e728e7c8e818e878e858e848e8b8e8a8e938e918e948e998eaa8ea18eac8eb08ec68eb18ebe8ec58ec88ecb8edb8ee38efc8efb8eeb8efe8f0a8f058f158f128f198f138f1c8f1f8f1b8f0c8f268f338f3b8f398f458f428f3e8f4c8f498f468f4e8f578f5c8f628f638f648f9c8f9f8fa38fad8faf8fb78fda8fe58fe28fea8fef90878ff490058ff98ffa901190159021900d901e9016900b90279036903590398ff8
    ∷ 0x904f905090519052900e9049903e90569058905e9068906f907696a890729082907d90819080908a9089908f90a890af90b190b590e290e4624890db91029112911991329130914a9156915891639165916991739172918b9189918291a291ab91af91aa91b591b491ba91c091c191c991cb91d091d691df91e191db91fc91f591f6921e91ff9214922c92159211925e925792459249926492489295923f924b9250929c92969293929b925a92cf92b992b792e9930f92fa9344932e
    ∷ 0x93199322931a9323933a9335933b935c9360937c936e935693b093ac93ad939493b993d693d793e893e593d893c393dd93d093c893e4941a941494139403940794109436942b94359421943a944194529444945b94609462945e946a9229947094759477947d945a947c947e9481947f95829587958a959495969598959995a095a895a795ad95bc95bb95b995be95ca6ff695c395cd95cc95d595d495d695dc95e195e595e296219628962e962f9642964c964f964b9677965c965e
    ∷ 0x965d965f96669672966c968d96989695969796aa96a796b196b296b096b496b696b896b996ce96cb96c996cd894d96dc970d96d596f99704970697089713970e9711970f971697199724972a97309739973d973e97449746974897429749975c976097649766976852d2976b977197799785977c9781977a9786978b978f9790979c97a897a697a397b397b497c397c697c897cb97dc97ed9f4f97f27adf97f697f5980f980c9838982498219837983d9846984f984b986b986f9870
    ∷ 0x98719874987398aa98af98b198b698c498c398c698e998eb990399099912991499189921991d991e99249920992c992e993d993e9942994999459950994b99519952994c99559997999899a599ad99ae99bc99df99db99dd99d899d199ed99ee99f199f299fb99f89a019a0f9a0599e29a199a2b9a379a459a429a409a439a3e9a559a4d9a5b9a579a5f9a629a659a649a699a6b9a6a9aad9ab09abc9ac09acf9ad19ad39ad49ade9adf9ae29ae39ae69aef9aeb9aee9af49af19af7
    ∷ 0x9afb9b069b189b1a9b1f9b229b239b259b279b289b299b2a9b2e9b2f9b329b449b439b4f9b4d9b4e9b519b589b749b939b839b919b969b979b9f9ba09ba89bb49bc09bca9bb99bc69bcf9bd19bd29be39be29be49bd49be19c3a9bf29bf19bf09c159c149c099c139c0c9c069c089c129c0a9c049c2e9c1b9c259c249c219c309c479c329c469c3e9c5a9c609c679c769c789ce79cec9cf09d099d089ceb9d039d069d2a9d269daf9d239d1f9d449d159d129d419d3f9d3e9d469d48
    ∷ 0x9d5d9d5e9d649d519d509d599d729d899d879dab9d6f9d7a9d9a9da49da99db29dc49dc19dbb9db89dba9dc69dcf9dc29dd99dd39df89de69ded9def9dfd9e1a9e1b9e1e9e759e799e7d9e819e889e8b9e8c9e929e959e919e9d9ea59ea99eb89eaa9ead97619ecc9ece9ecf9ed09ed49edc9ede9edd9ee09ee59ee89eef9ef49ef69ef79ef99efb9efc9efd9f079f0876b79f159f219f2c9f3e9f4a9f529f549f639f5f9f609f619f669f679f6c9f6a9f779f729f769f959f9c9fa0
    ∷ 0x582f69c79059746451dc71990000000000000000000000000000000000000000000000000000000000000000000000000000000000000000000000000000000000000000000000000000000000000000000000000000000000000000000000000000000000000000000000000000000000000000000000000000000000000000000000000000000000000000000000000000000000000000000000000000000000000000000000000000000000000000000000000000000000000000
    ∷ []
