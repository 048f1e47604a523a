-- ===== src/Iconv/Tables/Big54.antt =====
-- The rows 54 to 71 of musl-locale/big5.h: each is one number, with four hexadecimal digits for
-- an entry of the source.
use android_vshell.Base.{ℕ, List, [], ◌∷◌}

unfoldable pub big5_4 : List ℕ
big5_4 =
    0x801e801b804780438048811881258119811b812d811f812c811e812181158127811d8122821182388233823a823482328274839083a383a8838d837a837383a48374838f8381839583998375839483a9837d8383838c839d839b83aa838b837e83a583af8388839783b0837f83a6838783ae8376839a8659865686bf86b786c286c186c586ba86b086c886b986b386b886cc86b486bb86bc86c386bd86be88528889889588a888a288aa889a889188a1889f889888a78899889b889788a488ac888c8893888e898289d689d989d58a308a278a2c8a1e8c398c3b8c5c8c5d8c7d8ca58d7d8d7b8d798dbc8dc28db98dbf8dc18ed88ede8edd8edc8ed78ee08ee19024900b9011901c900c902190ef90ea90f090f490f290f390d490eb90ec90e991569158915a9153915591ec91f491f191f391f891e491f991ea
    ∷ 0x91eb91f791e891ee957a95869588967c966d966b9671966f96bf976a980498e59997509b50955094509e508b50a35083508c508e509d5068509c509250825087515f51d45312531153a453a7559155a855a555ad5577564555a255935588558f55b5558155a3559255a4557d558c55a6557f559555a1558e570c582958375819581e58275823582857f558485825581c581b5833583f5836582e58395838582d582c583b59615aaf5a945a9f5a7a5aa25a9e5a785aa65a7c5aa55aac5a955aae5a375a845a8a5a975a835a8b5aa95a7b5a7d5a8c5a9c5a8f5a935a9d5bea5bcd5bcb5bd45bd15bca5bce5c0c5c305d375d435d6b5d415d4b5d3f5d355d515d4e5d555d335d3a5d525d3d5d315d595d425d395d495d385d3c5d325d365d405d455e445e415f585fa65fa55fab60c960b960cc60e260ce60c46114
    ∷ 0x60f2610a6116610560f5611360f860fc60fe60c161036118611d611060ff6104610b624a639463b163b063ce63e563e863ef63c3649d63f363ca63e063f663d563f263f5646163df63be63dd63dc63c463d863d363c263c763cc63cb63c863f063d763d965326567656a6564655c65686565658c659d659e65ae65d065d2667c666c667b668066716679666a66726701690c68d3690468dc692a68ec68ea68f1690f68d668f768eb68e468f66913691068f368e1690768cc6908697068b4691168ef68c6691468f868d068fd68fc68e8690b690a691768ce68c868dd68de68e668f468d1690668d468e96915692568c76b396b3b6b3f6b3c6b946b976b996b956bbd6bf06bf26bf36c306dfc6e466e476e1f6e496e886e3c6e3d6e456e626e2b6e3f6e416e5d6e736e1c6e336e4b6e406e516e3b6e036e2e6e5e
    ∷ 0x6e686e5c6e616e316e286e606e716e6b6e396e226e306e536e656e276e786e646e776e556e796e526e666e356e366e5a7120711e712f70fb712e71317123712571227132711f7128713a711b724b725a7288728972867285728b7312730b733073227331733373277332732d732673237335730c742e742c7430742b7416741a7421742d743174247423741d74297420743274fb752f756f756c75e775da75e175e675dd75df75e475d77695769276da774677477744774d7745774a774e774b774c77de77ec786078647865785c786d7871786a786e787078697868785e786279747973797279707a027a0a7a037a0c7a047a997ae67ae47b4a7b3b7b447b487b4c7b4e7b407b587b457ca27c9e7ca87ca17d587d6f7d637d537d567d677d6a7d4f7d6d7d5c7d6b7d527d547d697d517d5f7d4e7f3e7f3f7f65
    ∷ 0x7f667fa27fa07fa17fd78051804f805080fe80d48143814a8152814f8147813d814d813a81e681ee81f781f881f98204823c823d823f8275833b83cf83f9842383c083e8841283e783e483fc83f6841083c683c883eb83e383bf840183dd83e583d883ff83e183cb83ce83d683f583c98409840f83de8411840683c283f383d583fa83c783d183ea841383c383ec83ee83c483fb83d783e2841b83db83fe86d886e286e686d386e386da86ea86dd86eb86dc86ec86e986d786e886d188488856885588ba88d788b988b888c088be88b688bc88b788bd88b2890188c989958998899789dd89da89db8a4e8a4d8a398a598a408a578a588a448a458a528a488a518a4a8a4c8a4f8c5f8c818c808cba8cbe8cb08cb98cb58d848d808d898dd88dd38dcd8dc78dd68ddc8dcf8dd58dd98dc88dd78dc58eef8ef78efa
    ∷ 0x8ef98ee68eee8ee58ef58ee78ee88ef68eeb8ef18eec8ef48ee9902d9034902f9106912c910490ff90fc910890f990fb9101910091079105910391619164915f916291609201920a92259203921a9226920f920c9200921291ff91fd9206920492279202921c92249219921792059216957b958d958c95909687967e968896899683968096c296c896c396f196f0976c9770976e980798a998eb9ce69ef94e834e844eb650bd50bf50c650ae50c450ca50b450c850c250b050c150ba50b150cb50c950b650b851d7527a5278527b527c55c355db55cc55d055cb55ca55dd55c055d455c455e955bf55d2558d55cf55d555e255d655c855f255cd55d955c25714585358685864584f584d5849586f5855584e585d58595865585b583d5863587158fc5ac75ac45acb5aba5ab85ab15ab55ab05abf5ac85abb5ac6
    ∷ 0x5ab75ac05aca5ab45ab65acd5ab95a905bd65bd85bd95c1f5c335d715d635d4a5d655d725d6c5d5e5d685d675d625df05e4f5e4e5e4a5e4d5e4b5ec55ecc5ec65ecb5ec75f405faf5fad60f76149614a612b614561366132612e6146612f614f612961406220916862236225622463c563f163eb6410641264096420642464336443641f641564186439643764226423640c64266430642864416435642f640a641a644064256427640b63e7641b642e6421640e656f659265d36686668c66956690668b668a66996694667867206966695f6938694e69626971693f6945696a6939694269576959697a694869496935696c6933693d696568f06978693469696940696f69446976695869416974694c693b694b6937695c694f695169326952692f697b693c6b466b456b436b426b486b416b9bfa0d6bfb6bfc
    ∷ 0x6bf96bf76bf86e9b6ed66ec86e8f6ec06e9f6e936e946ea06eb16eb96ec66ed26ebd6ec16e9e6ec96eb76eb06ecd6ea66ecf6eb26ebe6ec36edc6ed86e996e926e8e6e8d6ea46ea16ebf6eb36ed06eca6e976eae6ea3714771547152716371607141715d716271727178716a7161714271587143714b7170715f715071537144714d715a724f728d728c72917290728e733c7342733b733a7340734a73497444744a744b7452745174577440744f7450744e74427446744d745474e174ff74fe74fd751d75797577698375ef760f760375f775fe75fc75f975f8761075fb75f675ed75f575fd769976b576dd7755775f776077527756775a7769776777547759776d77e07887789a7894788f788478957885788678a178837879789978807896787b797c7982797d79797a117a187a197a127a177a157a227a13
    ∷ 0x7a1b7a107aa37aa27a9e7aeb7b667b647b6d7b747b697b727b657b737b717b707b617b787b767b637cb27cb47caf7d887d867d807d8d7d7f7d857d7a7d8e7d7b7d837d7c7d8c7d947d847d7d7d927f6d7f6b7f677f687f6c7fa67fa57fa77fdb7fdc8021816481608177815c8169815b816281726721815e81768167816f81448161821d8249824482408242824584f1843f845684768479848f848d846584518440848684678430844d847d845a845984748473845d8507845e8437843a8434847a8443847884328445842983d9844b842f8442842d845f84708439844e844c8452846f84c5848e843b8447843684338468847e8444842b84608454846e8450870b870486f7870c86fa86d686f5874d86f8870e8709870186f6870d870588d688cb88cd88ce88de88db88da88cc88d08985899b89df89e589e4
    ∷ 0x89e189e089e289dc89e68a768a868a7f8a618a3f8a778a828a848a758a838a818a748a7a8c3c8c4b8c4a8c658c648c668c868c848c858ccc8d688d698d918d8c8d8e8d8f8d8d8d938d948d908d928df08de08dec8df18dee8dd08de98de38de28de78df28deb8df48f068eff8f018f008f058f078f088f028f0b9052903f90449049903d9110910d910f911191169114910b910e916e916f924892529230923a926692339265925e9283922e924a9246926d926c924f92609267926f92369261927092319254926392509272924e9253924c92569232959f959c959e959b969296939691969796ce96fa96fd96f896f59773977797789772980f980d980e98ac98f698f999af99b299b099b59aad9aab9b5b9cea9ced9ce79e809efd50e650d450d750e850f350db50ea50dd50e450d350ec50f050ef50e350e0
    ∷ 0x51d85280528152e952eb533053ac56275615560c561255fc560f561c56015613560255fa561d560455ff55f95889587c5890589858865881587f5874588b587a58875891588e587658825888587b5894588f58fe596b5adc5aee5ae55ad55aea5ada5aed5aeb5af35ae25ae05adb5aec5ade5add5ad95ae85adf5b775be05be35c635d825d805d7d5d865d7a5d815d775d8a5d895d885d7e5d7c5d8d5d795d7f5e585e595e535ed85ed15ed75ece5edc5ed55ed95ed25ed45f445f435f6f5fb6612c61286141615e61716173615261536172616c618061746154617a615b6165613b616a6161615662296227622b642b644d645b645d6474647664726473647d6475646664a6644e6482645e645c644b645364606450647f643f646c646b645964656477657365a066a166a0669f67056704672269b169b669c9
    ∷ 0x69a069ce699669b069ac69bc69916999698e69a7698d69a969be69af69bf69c469bd69a469d469b969ca699a69cf69b3699369aa69a1699e69d96997699069c269b569a569c66b4a6b4d6b4b6b9e6b9f6ba06bc36bc46bfe6ece6ef56ef16f036f256ef86f376efb6f2e6f096f4e6f196f1a6f276f186f3b6f126eed6f0a6f366f736ef96eee6f2d6f406f306f3c6f356eeb6f076f0e6f436f056efd6ef66f396f1c6efc6f3a6f1f6f0d6f1e6f086f21718771907189718071857182718f717b718671817197724472537297729572937343734d7351734c746274737471747574727467746e750075027503757d759076167608760c76157611760a761476b87781777c77857782776e7780776f777e778378b278aa78b478ad78a8787e78ab789e78a578a078ac78a278a47998798a798b7996799579947993
    ∷ 0x79977988799279907a2b7a4a7a307a2f7a287a267aa87aab7aac7aee7b887b9c7b8a7b917b907b967b8d7b8c7b9b7b8e7b857b9852847b997ba47b827cbb7cbf7cbc7cba7da77db77dc27da37daa7dc17dc07dc57d9d7dce7dc47dc67dcb7dcc7daf7db97d967dbc7d9f7da67dae7da97da17dc97f737fe27fe37fe57fde8024805d805c8189818681838187818d818c818b8215849784a484a1849f84ba84ce84c284ac84ae84ab84b984b484c184cd84aa849a84b184d0849d84a784bb84a2849484c784cc849b84a984af84a884d6849884b684cf84a084d784d484d284db84b084918661873387238728876b8740872e871e87218719871b8743872c8741873e874687208732872a872d873c8712873a8731873587428726872787388724871a8730871188f788e788f188f288fa88fe88ee88fc88f688fb
    ∷ 0x88f088ec88eb899d89a1899f899e89e989eb89e88aab8a998a8b8a928a8f8a968c3d8c688c698cd58ccf8cd78d968e098e028dff8e0d8dfd8e0a8e038e078e068e058dfe8e008e048f108f118f0e8f0d9123911c91209122911f911d911a91249121911b917a91729179917392a592a49276929b927a92a0929492aa928d92a6929a92ab92799297927f92a392ee928e9282929592a2927d928892a1928a9286928c929992a7927e928792a9929d928b922d969e96a196ff9758977d977a977e978397809782977b97849781977f97ce97cd981698ad98ae990299009907999d999c99c399b999bb99ba99c299bd99c79ab19ae39ae79b3e9b3f9b609b619b5f9cf19cf29cf59ea750ff5103513050f85106510750f650fe510b510c50fd510a528b528c52f152ef56485642564c56355641564a564956465658
    ∷ 0x565a56405633563d562c563e5638562a563a571a58ab589d58b158a058a358af58ac58a558a158ff5aff5af45afd5af75af65b035af85b025af95b015b075b055b0f5c675d995d975d9f5d925da25d935d955da05d9c5da15d9a5d9e5e695e5d5e605e5c7df35edb5ede5ee15f495fb2618b6183617961b161b061a26189619b619361af61ad619f619261aa61a1618d616661b3622d646e6470649664a064856497649c648f648b648a648c64a3649f646864b164986576657a6579657b65b265b366b566b066a966b266b766aa66af6a006a066a1769e569f86a1569f169e46a2069ff69ec69e26a1b6a1d69fe6a2769f269ee6a1469f769e76a406a0869e669fb6a0d69fc69eb6a096a046a186a256a0f69f66a266a0769f46a166b516ba56ba36ba26ba66c016c006bff6c026f416f266f7e6f876fc66f92
    ∷ 0x6f8d6f896f8c6f626f4f6f856f5a6f966f766f6c6f826f556f726f526f506f576f946f936f5d6f006f616f6b6f7d6f676f906f536f8b6f696f7f6f956f636f776f6a6f7b71b271af719b71b071a0719a71a971b5719d71a5719e71a471a171aa719c71a771b37298729a73587352735e735f7360735d735b7361735a7359736274877489748a74867481747d74857488747c747975087507757e7625761e7619761d761c7623761a7628761b769c769d769e769b778d778f7789778878cd78bb78cf78cc78d178ce78d478c878c378c478c9799a79a179a0799c79a2799b6b767a397ab27ab47ab37bb77bcb7bbe7bac7bce7baf7bb97bca7bb57cc57cc87ccc7ccb7df77ddb7dea7de77dd77de17e037dfa7de67df67df17df07dee7ddf7f767fac7fb07fad7fed7feb7fea7fec7fe67fe88064806781a3819f
    ∷ 0x819e819581a2819981978216824f825382528250824e82518524853b850f85008529850e8509850d851f850a8527851c84fb852b84fa8508850c84f4852a84f2851584f784eb84f384fc851284ea84e9851684fe8528851d852e850284fd851e84f68531852684e784e884f084ef84f9851885208530850b8519852f8662875687638764877787e1877387588754875b87528761875a8751875e876d876a8750874e875f875d876f876c877a876e875c8765874f877b8775876287678769885a8905890c8914890b891789188919890689168911890e890989a289a489a389ed89f089ec8acf8ac68ab88ad38ad18ad48ad58abb8ad78abe8ac08ac58ad88ac38aba8abd8ad98c3e8c4d8c8f8ce58cdf8cd98ce88cda8cdd8ce78da08d9c8da18d9b8e208e238e258e248e2e8e158e1b8e168e118e198e268e27
    ∷ 0x8e148e128e188e138e1c8e178e1a8f2c8f248f188f1a8f208f238f168f1790739070906f9067906b912f912b9129912a91329126912e91859186918a918191829184918092d092c392c492c092d992b692cf92f192df92d892e992d792dd92cc92ef92c292e892ca92c892ce92e692cd92d592c992e092de92e792d192d392b592e192c692b4957c95ac95ab95ae95b096a496a296d3970597089702975a978a978e978897d097cf981e981d9826982998289820981b982798b2990898fa9911991499169917991599dc99cd99cf99d399d499ce99c999d699d899cb99d799cc9ab39aec9aeb9af39af29af19b469b439b679b749b719b669b769b759b709b689b649b6c9cfc9cfa9cfd9cff9cf79d079d009cf99cfb9d089d059d049e839ed39f0f9f10511c51135117511a511151de533453e156705660566e
    ∷ []
