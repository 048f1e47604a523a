-- ===== src/Iconv/Tables/Gb180304.antt =====
-- The rows 42 to 55 of musl-locale/gb18030.h: each is one number, with four hexadecimal digits for
-- an entry of the source.
use android_vshell.Base.{ℕ, List, [], ◌∷◌}

unfoldable pub gb18030_4 : List ℕ
gb18030_4 =
    0x73727373737473757376737773787379737a737b737c737d737f7380738173827383738573867388738a738c738d738f73907392739373947395739773987399739a739c739d739e73a073a173a373a473a573a673a773a873aa73ac73ad73b173b473b573b673b873b973bc73bd73be73bf73c173c373c473c573c673c773cb73cc73ce73d273d373d473d573d673d773d873da73db73dc73dd73df73e173e273e373e473e673e873ea73eb73ec73ee73ef73f073f173f373f473f573f673f7e05ee05fe060e061e062e063e064e065e066e067e068e069e06ae06be06ce06de06ee06fe070e071e072e073e074e075e076e077e078e079e07ae07be07ce07de07ee07fe080e081e082e083e084e085e086e087e088e089e08ae08be08ce08de08ee08fe090e091e092e093e094e095e096e097e098e099e09ae09be09ce09de09ee09fe0a0e0a1e0a2e0a3e0a4e0a5e0a6e0a7e0a8e0a9e0aae0abe0ace0ade0aee0afe0b0e0b1e0b2e0b3e0b4e0b5e0b6e0b7e0b8e0b9e0bae0bb
    ∷ 0x73f873f973fa73fb73fc73fd73fe73ff740074017402740474077408740b740c740d740e741174127413741474157416741774187419741c741d741e741f742074217423742474277429742b742d742f74317432743774387439743a743b743d743e743f744074427443744474457446744774487449744a744b744c744d744e744f7450745174527453745474567458745d7460746174627463746474657466746774687469746a746b746c746e746f7471747274737474747574787479747ae0bce0bde0bee0bfe0c0e0c1e0c2e0c3e0c4e0c5e0c6e0c7e0c8e0c9e0cae0cbe0cce0cde0cee0cfe0d0e0d1e0d2e0d3e0d4e0d5e0d6e0d7e0d8e0d9e0dae0dbe0dce0dde0dee0dfe0e0e0e1e0e2e0e3e0e4e0e5e0e6e0e7e0e8e0e9e0eae0ebe0ece0ede0eee0efe0f0e0f1e0f2e0f3e0f4e0f5e0f6e0f7e0f8e0f9e0fae0fbe0fce0fde0fee0ffe100e101e102e103e104e105e106e107e108e109e10ae10be10ce10de10ee10fe110e111e112e113e114e115e116e117e118e119
    ∷ 0x747b747c747d747f748274847485748674887489748a748c748d748f749174927493749474957496749774987499749a749b749d749f74a074a174a274a374a474a574a674aa74ab74ac74ad74ae74af74b074b174b274b374b474b574b674b774b874b974bb74bc74bd74be74bf74c074c174c274c374c474c574c674c774c874c974ca74cb74cc74cd74ce74cf74d074d174d374d474d574d674d774d874d974da74db74dd74df74e174e574e774e874e974ea74eb74ec74ed74f074f174f2e11ae11be11ce11de11ee11fe120e121e122e123e124e125e126e127e128e129e12ae12be12ce12de12ee12fe130e131e132e133e134e135e136e137e138e139e13ae13be13ce13de13ee13fe140e141e142e143e144e145e146e147e148e149e14ae14be14ce14de14ee14fe150e151e152e153e154e155e156e157e158e159e15ae15be15ce15de15ee15fe160e161e162e163e164e165e166e167e168e169e16ae16be16ce16de16ee16fe170e171e172e173e174e175e176e177
    ∷ 0x74f374f574f874f974fa74fb74fc74fd74fe750075017502750375057506750775087509750a750b750c750e751075127514751575167517751b751d751e7520752175227523752475267527752a752e753475367539753c753d753f7541754275437544754675477549754a754d75507551755275537555755675577558755d755e755f75607561756275637564756775687569756b756c756d756e756f757075717573757575767577757a757b757c757d757e758075817582758475857587e178e179e17ae17be17ce17de17ee17fe180e181e182e183e184e185e186e187e188e189e18ae18be18ce18de18ee18fe190e191e192e193e194e195e196e197e198e199e19ae19be19ce19de19ee19fe1a0e1a1e1a2e1a3e1a4e1a5e1a6e1a7e1a8e1a9e1aae1abe1ace1ade1aee1afe1b0e1b1e1b2e1b3e1b4e1b5e1b6e1b7e1b8e1b9e1bae1bbe1bce1bde1bee1bfe1c0e1c1e1c2e1c3e1c4e1c5e1c6e1c7e1c8e1c9e1cae1cbe1cce1cde1cee1cfe1d0e1d1e1d2e1d3e1d4e1d5
    ∷ 0x75887589758a758c758d758e7590759375957598759b759c759e75a275a675a775a875a975aa75ad75b675b775ba75bb75bf75c075c175c675cb75cc75ce75cf75d075d175d375d775d975da75dc75dd75df75e075e175e575e975ec75ed75ee75ef75f275f375f575f675f775f875fa75fb75fd75fe760276047606760776087609760b760d760e760f76117612761376147616761a761c761d761e7621762376277628762c762e762f76317632763676377639763a763b763d764176427644e1d6e1d7e1d8e1d9e1dae1dbe1dce1dde1dee1dfe1e0e1e1e1e2e1e3e1e4e1e5e1e6e1e7e1e8e1e9e1eae1ebe1ece1ede1eee1efe1f0e1f1e1f2e1f3e1f4e1f5e1f6e1f7e1f8e1f9e1fae1fbe1fce1fde1fee1ffe200e201e202e203e204e205e206e207e208e209e20ae20be20ce20de20ee20fe210e211e212e213e214e215e216e217e218e219e21ae21be21ce21de21ee21fe220e221e222e223e224e225e226e227e228e229e22ae22be22ce22de22ee22fe230e231e232e233
    ∷ 0x76457646764776487649764a764b764e764f76507651765276537655765776587659765a765b765d765f766076617662766476657666766776687669766a766c766d766e767076717672767376747675767676777679767a767c767f76807681768376857689768a768c768d768f769076927694769576977698769a769b769c769d769e769f76a076a176a276a376a576a676a776a876a976aa76ab76ac76ad76af76b076b376b576b676b776b876b976ba76bb76bc76bd76be76c076c176c3554a963f57c3632854ce550954c07691764c853c77ee827e788d72319698978d6c285b894ffa630966975cb880fa684880ae660276ce51f9655671ac7ff1888450b2596561ca6fb382ad634c625253ed54277b06516b75a45df462d48dcb9776628a8019575d97387f627238767d67cf767e64464f708d2562dc7a17659173ed642c6273822c9881677f7248626e62cc4f3474e3534a529e7eca90a65e2e6886699c81807ed168d278c5868c9551508d8c2482de80de530589125265
    ∷ 0x76c476c776c976cb76cc76d376d576d976da76dc76dd76de76e076e176e276e376e476e676e776e876e976ea76eb76ec76ed76f076f376f576f676f776fa76fb76fd76ff77007702770377057706770a770c770e770f771077117712771377147715771677177718771b771c771d771e77217723772477257727772a772b772c772e773077317732773377347739773b773d773e773f774277447745774677487749774a774b774c774d774e774f77527753775477557756775777587759775c858496f94fdd582199715b9d62b162a566b48c799c8d7206676f789160b2535153178f8880cc8d1d94a1500d72c8590760eb711988ab595482ef672c7b285d297ef7752d6cf58e668ff8903c9f3b6bd491197b145f7c78a784d6853d6bd56bd96bd65e015e8775f995ed655d5f0a5fc58f9f58c181c2907f965b97ad8fb97f168d2c62414fbf53d8535e8fa88fa98fab904d68075f6a819888689cd6618b522b762a5f6c658c6fd26ee85bbe6448517551b067c44e1979c9997c70b3
    ∷ 0x775d775e775f7760776477677769776a776d776e776f777077717772777377747775777677777778777a777b777c7781778277837786778777887789778a778b778f77907793779477957796779777987799779a779b779c779d779e77a177a377a477a677a877ab77ad77ae77af77b177b277b477b677b777b877b977ba77bc77be77c077c177c277c377c477c577c677c777c877c977ca77cb77cc77ce77cf77d077d177d277d377d477d577d677d877d977da77dd77de77df77e077e177e475c55e7673bb83e064ad62e894b56ce2535a52c3640f94c27b944f2f5e1b82368116818a6e246cca9a736355535c54fa886557e04e0d5e036b657c3f90e8601664e6731c88c16750624d8d22776c8e2991c75f6983dc8521991053c286956b8b60ed60e8707f82cd82314ed36ca785cf64cd7cd969fd66f9834953957b564fa7518c6d4b5c428e6d63d253c9832c833667e578b4643d5bdf5c945dee8be762c667f48c7a640063ba8749998b8c177f2094f24ea7961098a4660c7316
    ∷ 0x77e677e877ea77ef77f077f177f277f477f577f777f977fa77fb77fc780378047805780678077808780a780b780e780f7810781378157819781b781e78207821782278247828782a782b782e782f78317832783378357836783d783f7841784278437844784678487849784a784b784d784f78517853785478587859785a785b785c785e785f7860786178627863786478657866786778687869786f787078717872787378747875787678787879787a787b787d787e787f7880788178827883573a5c1d5e38957f507f80a05382655e7545553150218d856284949e671d56326f6e5de2543570928f66626f64a463a35f7b6f8890f481e38fb05c1866685ff16c8996488d81886c649179f057ce6a59621054484e587a0b60e96f848bda627f901e9a8b79e4540375f4630153196c608fdf5f1b9a70803b9f7f4f885c3a8d647fc565a570bd514551b2866b5d075ba062bd916c75748e0c7a2061017b794ec77ef877854e1181ed521d51fa6a7153a88e87950496cf6ec19664695a
    ∷ 0x7884788578867888788a788b788f789078927894789578967899789d789e78a078a278a478a678a878a978aa78ab78ac78ad78ae78af78b578b678b778b878ba78bb78bc78bd78bf78c078c278c378c478c678c778c878cc78cd78ce78cf78d178d278d378d678d778d878da78db78dc78dd78de78df78e078e178e278e378e478e578e678e778e978ea78eb78ed78ee78ef78f078f178f378f578f678f878f978fb78fc78fd78fe78ff79007902790379047906790779087909790a790b790c784050a877d7641089e6590463e35ddd7a7f693d4f20823955984e3275ae7a975e625e8a95ef521b5439708a6376952457826625693f918755076df37eaf882262337ef075b5832878c196cc8f9e614874f78bcd6b64523a8d506b21806a847156f153064ece4e1b51d17c97918b7c074fc38e7f7be17a9c64675d1450ac810676017cb96dec7fe067515b585bf878cb64ae641363aa632b9519642d8fbe7b5476296253592754466b7950a362345e266b864ee38d37888b5f85902e
    ∷ 0x790d790e790f791079117912791479157916791779187919791a791b791c791d791f792079217922792379257926792779287929792a792b792c792d792e792f793079317932793379357936793779387939793d793f79427943794479457947794a794b794c794d794e794f795079517952795479557958795979617963796479667969796a796b796c796e79707971797279737974797579767979797b797c797d797e797f798279837986798779887989798b798c798d798e7990799179926020803d62c54e39535590f863b880c665e66c2e4f4660ee6de18bde5f3986cb5f536321515a83616863520063638e4850125c9b79775bfc52307a3b60bc905376d75fb75f9776848e6c706f767b7b4977aa51f3909358244f4e6ef48fea654c7b1b72c46da47fdf5ae162b55e95573084827b2c5e1d5f1f90127f1498a063826ec7789870b95178975b57ab75354f4375385e9760e659606dc06bbf788953fc96d551cb52016389540a94938c038dcc7239789f87768fed8c0d53e0
    ∷ 0x7993799479957996799779987999799b799c799d799e799f79a079a179a279a379a479a579a679a879a979aa79ab79ac79ad79ae79af79b079b179b279b479b579b679b779b879bc79bf79c279c479c579c779c879ca79cc79ce79cf79d079d379d479d679d779d979da79db79dc79dd79de79e079e179e279e579e879ea79ec79ee79f179f279f379f479f579f679f779f979fa79fc79fe79ff7a017a047a057a077a087a097a0a7a0c7a0f7a107a117a127a137a157a167a187a197a1b7a1c4e0176ef53ee948998769f0e952d5b9a8ba24e224e1c51ac846361c252a8680b4f97606b51bb6d1e515c6296659796618c46901775d890fd77636bd2728a72ec8bfb583577798d4c675c9540809a5ea66e2159927aef77ed953b6bb565ad7f0e58065151961f5bf958a954288e726566987f56e4949d76fe9041638754c6591a593a579b8eb267358dfa8235524160f0581586fe5ce89e454fc4989d8bb95a2560765384627c904f9102997f6069800c513f80335c1499756d314e8c
    ∷ 0x7a1d7a1f7a217a227a247a257a267a277a287a297a2a7a2b7a2c7a2d7a2e7a2f7a307a317a327a347a357a367a387a3a7a3e7a407a417a427a437a447a457a477a487a497a4a7a4b7a4c7a4d7a4e7a4f7a507a527a537a547a557a567a587a597a5a7a5b7a5c7a5d7a5e7a5f7a607a617a627a637a647a657a667a677a687a697a6a7a6b7a6c7a6d7a6e7a6f7a717a727a737a757a7b7a7c7a7d7a7e7a827a857a877a897a8a7a8b7a8c7a8e7a8f7a907a937a947a997a9a7a9b7a9e7aa17aa28d3053d17f5a7b4f4f104e4f96006cd573d085e95e06756a7ffb6a0a77fe94927e4151e170e653cd8fd483038d2972af996d6cdb574a82b365b980aa623f963259a84eff8bbf7eba653e83f2975e556198de80a5532a8bfd542080ba5e9f6cb88d3982ac915a54296c1b52067eb7575f711a6c7e7c89594b4efd5fff61247caa4e305c0167ab87025cf0950b98ce75af70fd902251af7f1d8bbd594951e44f5b5426592b657780a45b75627662c28f905e456c1f7b264f0f4fd8670d
    ∷ 0x7aa37aa47aa77aa97aaa7aab7aae7aaf7ab07ab17ab27ab47ab57ab67ab77ab87ab97aba7abb7abc7abd7abe7ac07ac17ac27ac37ac47ac57ac67ac77ac87ac97aca7acc7acd7ace7acf7ad07ad17ad27ad37ad47ad57ad77ad87ada7adb7adc7add7ae17ae27ae47ae77ae87ae97aea7aeb7aec7aee7af07af17af27af37af47af57af67af77af87afb7afc7afe7b007b017b027b057b077b097b0c7b0d7b0e7b107b127b137b167b177b187b1a7b1c7b1d7b1f7b217b227b237b277b297b2d6d6e6daa798f88b15f17752b629a8f854fef91dc65a7812f81515e9c81508d74526f89868d4b590d50854ed8961c723681798d1f5bcc8ba3964459877f1a54905676560e8be565396982949976d66e895e727518674667d17aff809d8d76611f79c665628d635188521a94a27f38809b7eb25c976e2f67607bd9768b9ad8818f7f947cd5641e95507a3f544a54e56b4c640162089e3d80f3759952729769845b683c86e49601969494ec4e2a54047ed968398ddf801566f45e9a7fb9
    ∷ []
