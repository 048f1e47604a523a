-- ===== src/Iconv/Tables/Gb180308.antt =====
-- The rows 98 to 111 of musl-locale/gb18030.h: each is one number, with four hexadecimal digits for
-- an entry of the source.
use android_vshell.Base.{ℕ, List, [], ◌∷◌}

unfoldable pub gb18030_8 : List ℕ
gb18030_8 =
    0x9246924792489249924a924b924c924d924e924f9250925192529253925492559256925792589259925a925b925c925d925e925f9260926192629263926492659266926792689269926a926b926c926d926e926f927092719272927392759276927792789279927a927b927c927d927e927f9280928192829283928492859286928792889289928a928b928c928d928f9290929192929293929492959296929792989299929a929b929c929d929e929f92a092a192a292a392a492a592a692a7606a607d6096609a60ad609d60836092608c609b60ec60bb60b160dd60d860c660da60b4612061266115612360f46100610e612b614a617561ac619461a761b761d461f55fdd96b395e995eb95f195f395f595f695fc95fe9603960496069608960a960b960c960d960f96129615961696179619961a4e2c723f62156c356c546c5c6c4a6ca36c856c906c946c8c6c686c696c746c766c866ca96cd06cd46cad6cf76cf86cf16cd76cb26ce06cd66cfa6ceb6cee6cb16cd36cef6cfe
    ∷ 0x92a892a992aa92ab92ac92ad92af92b092b192b292b392b492b592b692b792b892b992ba92bb92bc92bd92be92bf92c092c192c292c392c492c592c692c792c992ca92cb92cc92cd92ce92cf92d092d192d292d392d492d592d692d792d892d992da92db92dc92dd92de92df92e092e192e292e392e492e592e692e792e892e992ea92eb92ec92ed92ee92ef92f092f192f292f392f492f592f692f792f892f992fa92fb92fc92fd92fe92ff93009301930293039304930593069307930893096d396d276d0c6d436d486d076d046d196d0e6d2b6d4d6d2e6d356d1a6d4f6d526d546d336d916d6f6d9e6da06d5e6d936d946d5c6d606d7c6d636e1a6dc76dc56dde6e0e6dbf6de06e116de66ddd6dd96e166dab6e0c6dae6e2b6e6e6e4e6e6b6eb26e5f6e866e536e546e326e256e446edf6eb16e986ee06f2d6ee26ea56ea76ebd6ebb6eb76ed76eb46ecf6e8f6ec26e9f6f626f466f476f246f156ef96f2f6f366f4b6f746f2a6f096f296f896f8d6f8c6f786f726f7c6f7a6fd1
    ∷ 0x930a930b930c930d930e930f9310931193129313931493159316931793189319931a931b931c931d931e931f9320932193229323932493259326932793289329932a932b932c932d932e932f9330933193329333933493359336933793389339933a933b933c933d933f9340934193429343934493459346934793489349934a934b934c934d934e934f9350935193529353935493559356935793589359935a935b935c935d935e935f9360936193629363936493659366936793689369936b6fc96fa76fb96fb66fc26fe16fee6fde6fe06fef701a7023701b70397035704f705e5b805b845b955b935ba55bb8752f9a9e64345be45bee89305bf08e478b078fb68fd38fd58fe58fee8fe48fe98fe68ff38fe890059004900b90269011900d9016902190359036902d902f9044905190529050906890589062905b66b99074907d908290889083908b5f505f575f565f585c3b54ab5c505c595b715c635c667fbc5f2a5f295f2d82745f3c9b3b5c6e59815983598d59a959aa59a3
    ∷ 0x936c936d936e936f9370937193729373937493759376937793789379937a937b937c937d937e937f9380938193829383938493859386938793889389938a938b938c938d938e9390939193929393939493959396939793989399939a939b939c939d939e939f93a093a193a293a393a493a593a693a793a893a993aa93ab93ac93ad93ae93af93b093b193b293b393b493b593b693b793b893b993ba93bb93bc93bd93be93bf93c093c193c293c393c493c593c693c793c893c993cb93cc93cd599759ca59ab599e59a459d259b259af59d759be5a055a0659dd5a0859e359d859f95a0c5a095a325a345a115a235a135a405a675a4a5a555a3c5a625a7580ec5aaa5a9b5a775a7a5abe5aeb5ab25ad25ad45ab85ae05ae35af15ad65ae65ad85adc5b095b175b165b325b375b405c155c1c5b5a5b655b735b515b535b629a759a779a789a7a9a7f9a7d9a809a819a859a889a8a9a909a929a939a969a989a9b9a9c9a9d9a9f9aa09aa29aa39aa59aa77e9f7ea17ea37ea57ea87ea9
    ∷ 0x93ce93cf93d093d193d293d393d493d593d793d893d993da93db93dc93dd93de93df93e093e193e293e393e493e593e693e793e893e993ea93eb93ec93ed93ee93ef93f093f193f293f393f493f593f693f793f893f993fa93fb93fc93fd93fe93ff9400940194029403940494059406940794089409940a940b940c940d940e940f9410941194129413941494159416941794189419941a941b941c941d941e941f9420942194229423942494259426942794289429942a942b942c942d942e7ead7eb07ebe7ec07ec17ec27ec97ecb7ecc7ed07ed47ed77edb7ee07ee17ee87eeb7eee7eef7ef17ef27f0d7ef67efa7efb7efe7f017f027f037f077f087f0b7f0c7f0f7f117f127f177f197f1c7f1b7f1f7f217f227f237f247f257f267f277f2a7f2b7f2c7f2d7f2f7f307f317f327f337f355e7a757f5ddb753e9095738e739173ae73a2739f73cf73c273d173b773b373c073c973c873e573d9987c740a73e973e773de73ba73f2740f742a745b7426742574287430742e742c
    ∷ 0x942f9430943194329433943494359436943794389439943a943b943c943d943f9440944194429443944494459446944794489449944a944b944c944d944e944f9450945194529453945494559456945794589459945a945b945c945d945e945f9460946194629463946494659466946794689469946a946c946d946e946f9470947194729473947494759476947794789479947a947b947c947d947e947f9480948194829483948494919496949894c794cf94d394d494da94e694fb951c9520741b741a7441745c7457745574597477746d747e749c748e748074817487748b749e74a874a9749074a774d274ba97ea97eb97ec674c6753675e6748676967a56787676a6773679867a7677567a8679e67ad678b6777677c67f0680967d8680a67e967b0680c67d967b567da67b367dd680067c367b867e2680e67c167fd6832683368606861684e6862684468646883681d68556866684168676840683e684a6849682968b5688f687468776893686b68c2696e68fc691f692068f9
    ∷ 0x95279533953d95439548954b9555955a9560956e95749575957795789579957a957b957c957d957e9580958195829583958495859586958795889589958a958b958c958d958e958f9590959195929593959495959596959795989599959a959b959c959d959e959f95a095a195a295a395a495a595a695a795a895a995aa95ab95ac95ad95ae95af95b095b195b295b395b495b595b695b795b895b995ba95bb95bc95bd95be95bf95c095c195c295c395c495c595c695c795c895c995ca95cb692468f0690b6901695768e369106971693969606942695d6984696b698069986978693469cc6987698869ce6989696669636979699b69a769bb69ab69ad69d469b169c169ca69df699569e0698d69ff6a2f69ed6a176a186a6569f26a446a3e6aa06a506a5b6a356a8e6a796a3d6a286a586a7c6a916a906aa96a976aab733773526b816b826b876b846b926b936b8d6b9a6b9b6ba16baa8f6b8f6d8f718f728f738f758f768f788f778f798f7a8f7c8f7e8f818f828f848f878f8b
    ∷ 0x95cc95cd95ce95cf95d095d195d295d395d495d595d695d795d895d995da95db95dc95dd95de95df95e095e195e295e395e495e595e695e795ec95ff960796139618961b961e96209623962496259626962796289629962b962c962d962f9630963796389639963a963e96419643964a964e964f9651965296539656965796589659965a965c965d965e9660966396659666966b966d966e966f96709671967396789679967a967b967c967d967e967f9680968196829683968496879689968a8f8d8f8e8f8f8f988f9a8ece620b6217621b621f6222622162256224622c81e774ef74f474ff750f75117513653465ee65ef65f0660a66196772660366156600708566f7661d66346631663666358006665f66546641664f66566661665766776684668c66a7669d66be66db66dc66e666e98d328d338d368d3b8d3d8d408d458d468d488d498d478d4d8d558d5989c789ca89cb89cc89ce89cf89d089d1726e729f725d7266726f727e727f7284728b728d728f72926308633263b0
    ∷ 0x968c968e96919692969396959696969a969b969d969e969f96a096a196a296a396a496a596a696a896a996aa96ab96ac96ad96ae96af96b196b296b496b596b796b896ba96bb96bf96c296c396c896ca96cb96d096d196d396d496d696d796d896d996da96db96dc96dd96de96df96e196e296e396e496e596e696e796eb96ec96ed96ee96f096f196f296f496f596f896fa96fb96fc96fd96ff970297039705970a970b970c97109711971297149715971797189719971a971b971d971f9720643f64d880046bea6bf36bfd6bf56bf96c056c076c066c0d6c156c186c196c1a6c216c296c246c2a6c3265356555656b724d72527256723086625216809f809c809380bc670a80bd80b180ab80ad80b480b780e780e880e980ea80db80c280c480d980cd80d7671080dd80eb80f180f480ed810d810e80f280fc671581128c5a8136811e812c811881328148814c815381748159815a817181608169817c817d816d8167584d5ab58188818281916ed581a381aa81cc672681ca81bb
    ∷ 0x972197229723972497259726972797289729972b972c972e972f973197339734973597369737973a973b973c973d973f9740974197429743974497459746974797489749974a974b974c974d974e974f975097519754975597579758975a975c975d975f97639764976697679768976a976b976c976d976e976f9770977197729775977797789779977a977b977d977e977f978097819782978397849786978797889789978a978c978e978f979097939795979697979799979a979b979c979d81c181a66b246b376b396b436b466b5998d198d298d398d598d998da6bb35f406bc289f365909f51659365bc65c665c465c365cc65ce65d265d67080709c7096709d70bb70c070b770ab70b170e870ca711071137116712f71317173715c716871457172714a7178717a719871b371b571a871a071e071d471e771f9721d7228706c7118716671b9623e623d624362486249793b794079467949795b795c7953795a796279577960796f7967797a7985798a799a79a779b35fd15fd0
    ∷ 0x979e979f97a197a297a497a597a697a797a897a997aa97ac97ae97b097b197b397b597b697b797b897b997ba97bb97bc97bd97be97bf97c097c197c297c397c497c597c697c797c897c997ca97cb97cc97cd97ce97cf97d097d197d297d397d497d597d697d797d897d997da97db97dc97dd97de97df97e097e197e297e397e497e597e897ee97ef97f097f197f297f497f797f897f997fa97fb97fc97fd97fe97ff9800980198029803980498059806980798089809980a980b980c980d980e603c605d605a606760416059606360ab6106610d615d61a9619d61cb61d162068080807f6c936cf66dfc77f677f87800780978177818781165ab782d781c781d7839783a783b781f783c7825782c78237829784e786d78567857782678507847784c786a789b7893789a7887789c78a178a378b278b978a578d478d978c978ec78f2790578f479137924791e79349f9b9ef99efb9efc76f17704770d76f977077708771a77227719772d7726773577387750775177477743775a7768
    ∷ 0x980f9810981198129813981498159816981798189819981a981b981c981d981e981f9820982198229823982498259826982798289829982a982b982c982d982e982f9830983198329833983498359836983798389839983a983b983c983d983e983f9840984198429843984498459846984798489849984a984b984c984d984e984f9850985198529853985498559856985798589859985a985b985c985d985e985f9860986198629863986498659866986798689869986a986b986c986d986e77627765777f778d777d7780778c7791779f77a077b077b577bd753a7540754e754b7548755b7572757975837f587f617f5f8a487f687f747f717f797f817f7e76cd76e58832948594869487948b948a948c948d948f9490949494979495949a949b949c94a394a494ab94aa94ad94ac94af94b094b294b494b694b794b894b994ba94bc94bd94bf94c494c894c994ca94cb94cc94cd94ce94d094d194d294d594d694d794d994d894db94de94df94e094e294e494e594e794e894ea
    ∷ 0x986f98709871987298739874988b988e98929895989998a398a898a998aa98ab98ac98ad98ae98af98b098b198b298b398b498b598b698b798b898b998ba98bb98bc98bd98be98bf98c098c198c298c398c498c598c698c798c898c998ca98cb98cc98cd98cf98d098d498d698d798db98dc98dd98e098e198e298e398e498e598e698e998ea98eb98ec98ed98ee98ef98f098f198f298f398f498f598f698f798f898f998fa98fb98fc98fd98fe98ff9900990199029903990499059906990794e994eb94ee94ef94f394f494f594f794f994fc94fd94ff95039502950695079509950a950d950e950f951295139514951595169518951b951d951e951f9522952a952b9529952c953195329534953695379538953c953e953f954295359544954595469549954c954e954f9552955395549556955795589559955b955e955f955d95619562956495659566956795689569956a956b956c956f957195729573953a77e777ec96c979d579ed79e379eb7a065d477a037a027a1e7a14
    ∷ 0x99089909990a990b990c990e990f991199129913991499159916991799189919991a991b991c991d991e991f9920992199229923992499259926992799289929992a992b992c992d992f9930993199329933993499359936993799389939993a993b993c993d993e993f9940994199429943994499459946994799489949994a994b994c994d994e994f99509951995299539956995799589959995a995b995c995d995e995f99609961996299649966997399789979997b997e9982998399897a397a377a519ecf99a57a707688768e7693769976a474de74e0752c9e209e229e289e299e2a9e2b9e2c9e329e319e369e389e379e399e3a9e3e9e419e429e449e469e479e489e499e4b9e4c9e4e9e519e559e579e5a9e5b9e5c9e5e9e639e669e679e689e699e6a9e6b9e6c9e719e6d9e7375927594759675a0759d75ac75a375b375b475b875c475b175b075c375c275d675cd75e375e875e675e475eb75e7760375f175fc75ff761076007605760c7617760a7625761876157619
    ∷ []
