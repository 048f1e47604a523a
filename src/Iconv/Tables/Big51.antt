-- ===== src/Iconv/Tables/Big51.antt =====
-- The rows 0 to 17 of musl-locale/big5.h: each is one number, with four hexadecimal digits for
-- an entry of the source.
use android_vshell.Base.{ℕ, List, [], ◌∷◌}

unfoldable pub big5_1 : List ℕ
big5_1 =
    0x3000ff0c30013002ff0e2027ff1bff1aff1fff01fe3020262025fe50fe51fe5200b7fe54fe55fe56fe57ff5c2013fe312014fe332574fe34fe4fff08ff09fe35fe36ff5bff5dfe37fe3830143015fe39fe3a30103011fe3bfe3c300a300bfe3dfe3e30083009fe3ffe40300c300dfe41fe42300e300ffe43fe44fe59fe5afe5bfe5cfe5dfe5e20182019201c201d301d301e20352032ff03ff06ff0a203b00a7300325cb25cf25b325b225ce2606260525c725c625a125a025bd25bc32a3210500afffe3ff3f02cdfe49fe4afe4dfe4efe4bfe4cfe5ffe60fe61ff0bff0d00d700f700b1221aff1cff1eff1d226622672260221e22522261fe62fe63fe64fe65fe66ff5e2229222a22a52220221f22bf33d233d1222b222e2235223426402642229522992191219321902192219621972199219822252223ff0f
    ∷ 0xff3c2215fe68ff04ffe53012ffe0ffe1ff05ff2021032109fe69fe6afe6b33d5339c339d339e33ce33a1338e338f33c400b05159515b515e515d5161516355e774e97cce25812582258325842585258625872588258f258e258d258c258b258a2589253c2534252c2524251c2594250025022595250c251025142518256d256e2570256f2550255e256a256125e225e325e525e4257125722573ff10ff11ff12ff13ff14ff15ff16ff17ff18ff192160216121622163216421652166216721682169302130223023302430253026302730283029534153445345ff21ff22ff23ff24ff25ff26ff27ff28ff29ff2aff2bff2cff2dff2eff2fff30ff31ff32ff33ff34ff35ff36ff37ff38ff39ff3aff41ff42ff43ff44ff45ff46ff47ff48ff49ff4aff4bff4cff4dff4eff4fff50ff51ff52ff53ff54ff55ff56
    ∷ 0xff57ff58ff59ff5a039103920393039403950396039703980399039a039b039c039d039e039f03a003a103a303a403a503a603a703a803a903b103b203b303b403b503b603b703b803b903ba03bb03bc03bd03be03bf03c003c103c303c403c503c603c703c803c931053106310731083109310a310b310c310d310e310f3110311131123113311431153116311731183119311a311b311c311d311e311f312031213122312331243125312631273128312902d902c902ca02c702cb2400240124022403240424052406240724082409240a240b240c240d240e240f2410241124122413241424152416241724182419241a241b241c241d241e241f242120ac00000000000000000000000000000000000000000000000000000000000000000000000000000000000000000000000000000000000000000000
    ∷ 0x4e004e594e014e034e434e5d4e864e8c4eba513f5165516b51e052005201529b53155341535c53c84e094e0b4e084e0a4e2b4e3851e14e454e484e5f4e5e4e8e4ea15140520352fa534353c953e3571f58eb5915592759735b505b515b535bf85c0f5c225c385c715ddd5de55df15df25df35dfe5e725efe5f0b5f13624d4e114e104e0d4e2d4e304e394e4b5c394e884e914e954e924e944ea24ec14ec04ec34ec64ec74ecd4eca4ecb4ec4514351415167516d516e516c519751f652065207520852fb52fe52ff53165339534853475345535e538453cb53ca53cd58ec5929592b592a592d5b545c115c245c3a5c6f5df45e7b5eff5f145f155fc362086236624b624e652f6587659765a465b965e566f0670867286b206b626b796bcb6bd46bdb6c0f6c34706b722a7236723b72477259725b72ac738b4e19
    ∷ 0x4e164e154e144e184e3b4e4d4e4f4e4e4ee54ed84ed44ed54ed64ed74ee34ee44ed94ede514551445189518a51ac51f951fa51f8520a52a0529f530553065317531d4edf534a534953615360536f536e53bb53ef53e453f353ec53ee53e953e853fc53f853f553eb53e653ea53f253f153f053e553ed53fb56db56da5916592e5931597459765b555b835c3c5de85de75de65e025e035e735e7c5f015f185f175fc5620a625362546252625165a565e6672e672c672a672b672d6b636bcd6c116c106c386c416c406c3e72af7384738974dc74e67518751f752875297530753175327533758b767d76ae76bf76ee77db77e277f3793a79be7a747acb4e1e4e1f4e524e534e694e994ea44ea64ea54eff4f094f194f0a4f154f0d4f104f114f0f4ef24ef64efb4ef04ef34efd4f014f0b51495147514651485168
    ∷ 0x5171518d51b0521752115212520e521652a3530853215320537053715409540f540c540a54105401540b54045411540d54085403540e5406541256e056de56dd573357305728572d572c572f57295919591a59375938598459785983597d5979598259815b575b585b875b885b855b895bfa5c165c795dde5e065e765e745f0f5f1b5fd95fd6620e620c620d62106263625b6258653665e965e865ec65ed66f266f36709673d6734673167356b216b646b7b6c166c5d6c576c596c5f6c606c506c556c616c5b6c4d6c4e7070725f725d767e7af97c737cf87f367f8a7fbd80018003800c80128033807f8089808b808c81e381ea81f381fc820c821b821f826e8272827e866b8840884c8863897f96214e324ea84f4d4f4f4f474f574f5e4f344f5b4f554f304f504f514f3d4f3a4f384f434f544f3c4f464f63
    ∷ 0x4f5c4f604f2f4f4e4f364f594f5d4f484f5a514c514b514d517551b651b7522552245229522a522852ab52a952aa52ac532353735375541d542d541e543e5426544e542754465443543354485442541b5429544a5439543b5438542e543554365420543c54405431542b541f542c56ea56f056e456eb574a57515740574d5747574e573e5750574f573b58ef593e599d599259a8599e59a359995996598d59a45993598a59a55b5d5b5c5b5a5b5b5b8c5b8b5b8f5c2c5c405c415c3f5c3e5c905c915c945c8c5deb5e0c5e8f5e875e8a5ef75f045f1f5f645f625f775f795fd85fcc5fd75fcd5ff15feb5ff85fea62126211628462976296628062766289626d628a627c627e627962736292626f6298626e62956293629162866539653b653865f166f4675f674e674f67506751675c6756675e674967466760
    ∷ 0x675367576b656bcf6c426c5e6c996c816c886c896c856c9b6c6a6c7a6c906c706c8c6c686c966c926c7d6c836c726c7e6c746c866c766c8d6c946c986c827076707c707d707872627261726072c472c27396752c752b75377538768276ef77e379c179c079bf7a767cfb7f5580968093809d8098809b809a80b2826f8292828b828d898b89d28a008c378c468c558c9d8d648d708db38eab8eca8f9b8fb08fc28fc68fc58fc45de1909190a290aa90a690a3914991c691cc9632962e9631962a962c4e264e564e734e8b4e9b4e9e4eab4eac4f6f4f9d4f8d4f734f7f4f6c4f9b4f8b4f864f834f704f754f884f694f7b4f964f7e4f8f4f914f7a515451525155516951775176517851bd51fd523b52385237523a5230522e5236524152be52bb5352535453535351536653775378537953d653d453d754735475
    ∷ 0x5496547854955480547b5477548454925486547c549054715476548c549a54625468548b547d548e56fa57835777576a5769576157665764577c591c5949594759485944595459be59bb59d459b959ae59d159c659d059cd59cb59d359ca59af59b359d259c55b5f5b645b635b975b9a5b985b9c5b995b9b5c1a5c485c455c465cb75ca15cb85ca95cab5cb15cb35e185e1a5e165e155e1b5e115e785e9a5e975e9c5e955e965ef65f265f275f295f805f815f7f5f7c5fdd5fe05ffd5ff55fff600f6014602f60356016602a6015602160276029602b601b62166215623f623e6240627f62c962cc62c462bf62c262b962d262db62ab62d362d462cb62c862a862bd62bc62d062d962c762cd62b562da62b162d862d662d762c662ac62ce653e65a765bc65fa66146613660c66066602660e6600660f6615660a
    ∷ 0x6607670d670b676d678b67956771679c677367776787679d6797676f6770677f6789677e67906775679a6793677c676a67726b236b666b676b7f6c136c1b6ce36ce86cf36cb16ccc6ce56cb36cbd6cbe6cbc6ce26cab6cd56cd36cb86cc46cb96cc16cae6cd76cc56cf16cbf6cbb6ce16cdb6cca6cac6cef6cdc6cd66ce07095708e7092708a7099722c722d723872487267726972c072ce72d972d772d073a973a8739f73ab73a5753d759d7599759a768476c276f276f477e577fd793e7940794179c979c87a7a7a797afa7cfe7f547f8c7f8b800580ba80a580a280b180a180ab80a980b480aa80af81e581fe820d82b3829d829982ad82bd829f82b982b182ac82a582af82b882a382b082be82b7864e8671521d88688ecb8fce8fd48fd190b590b890b190b691c791d195779580961c9640963f963b9644
    ∷ 0x964296b996e89752975e4e9f4ead4eae4fe14fb54faf4fbf4fe04fd14fcf4fdd4fc34fb64fd84fdf4fca4fd74fae4fd04fc44fc24fda4fce4fde4fb751575192519151a0524e5243524a524d524c524b524752c752c952c352c1530d5357537b539a53db54ac54c054a854ce54c954b854a654b354c754c254bd54aa54c154c454c854af54ab54b154bb54a954a754bf56ff5782578b57a057a357a257ce57ae579359555951594f594e595059dc59d859ff59e359e85a0359e559ea59da59e65a0159fb5b695ba35ba65ba45ba25ba55c015c4e5c4f5c4d5c4b5cd95cd25df75e1d5e255e1f5e7d5ea05ea65efa5f085f2d5f655f885f855f8a5f8b5f875f8c5f896012601d60206025600e6028604d60706068606260466043606c606b606a6064624162dc6316630962fc62ed630162ee62fd630762f162f7
    ∷ 0x62ef62ec62fe62f463116302653f654565ab65bd65e26625662d66206627662f661f66286631662466f767ff67d367f167d467d067ec67b667af67f567e967ef67c467d167b467da67e567b867cf67de67f367b067d967e267dd67d26b6a6b836b866bb56bd26bd76c1f6cc96d0b6d326d2a6d416d256d0c6d316d1e6d176d3b6d3d6d3e6d366d1b6cf56d396d276d386d296d2e6d356d0e6d2b70ab70ba70b370ac70af70ad70b870ae70a472307272726f727472e972e072e173b773ca73bb73b273cd73c073b3751a752d754f754c754e754b75ab75a475a575a275a3767876867687768876c876c676c376c5770176f976f87709770b76fe76fc770777dc78027814780c780d794679497948794779b979ba79d179d279cb7a7f7a817aff7afd7c7d7d027d057d007d097d077d047d067f387f8e7fbf8004
    ∷ 0x8010800d8011803680d680e580da80c380c480cc80e180db80ce80de80e480dd81f4822282e78303830582e382db82e6830482e58302830982d282d782f1830182dc82d482d182de82d382df82ef830686508679867b867a884d886b898189d48a088a028a038c9e8ca08d748d738db48ecd8ecc8ff08fe68fe28fea8fe58fed8feb8fe48fe890ca90ce90c190c3914b914a91cd95829650964b964c964d9762976997cb97ed97f3980198a898db98df999699994e584eb3500c500d50234fef502650254ff8502950165006503c501f501a501250114ffa5000501450284ff15021500b501950184ff34fee502d502a4ffe502b5009517c51a451a551a251cd51cc51c651cb5256525c5254525b525d532a537f539f539d53df54e855105501553754fc54e554f2550654fa551454e954ed54e1550954ee54ea
    ∷ 0x54e65527550754fd550f5703570457c257d457cb57c35809590f59575958595a5a115a185a1c5a1f5a1b5a1359ec5a205a235a295a255a0c5a095b6b5c585bb05bb35bb65bb45bae5bb55bb95bb85c045c515c555c505ced5cfd5cfb5cea5ce85cf05cf65d015cf45dee5e2d5e2b5eab5ead5ea75f315f925f915f9060596063606560506055606d6069606f6084609f609a608d6094608c60856096624762f3630862ff634e633e632f635563426346634f6349633a6350633d632a632b6328634d634c65486549659965c165c566426649664f66436652664c6645664166f867146715671768216838684868466853683968426854682968b36817684c6851683d67f468506840683c6843682a68456813681868416b8a6b896bb76c236c276c286c266c246cf06d6a6d956d886d876d666d786d776d596d93
    ∷ 0x6d6c6d896d6e6d5a6d746d696d8c6d8a6d796d856d656d9470ca70d870e470d970c870cf7239727972fc72f972fd72f872f7738673ed740973ee73e073ea73de7554755d755c755a755975be75c575c775b275b375bd75bc75b975c275b8768b76b076ca76cd76ce7729771f7720772877e9783078277838781d783478377825782d7820781f7832795579507960795f7956795e795d7957795a79e479e379e779df79e679e979d87a847a887ad97b067b117c897d217d177d0b7d0a7d207d227d147d107d157d1a7d1c7d0d7d197d1b7f3a7f5f7f947fc57fc180068018801580198017803d803f80f1810280f0810580ed80f4810680f880f3810880fd810a80fc80ef81ed81ec82008210822a822b8228822c82bb832b83528354834a83388350834983358334834f83328339833683178340833183288343
    ∷ 0x8654868a86aa869386a486a9868c86a3869c8870887788818882887d88798a188a108a0e8a0c8a158a0a8a178a138a168a0f8a118c488c7a8c798ca18ca28d778eac8ed28ed48ecf8fb1900190068ff790008ffa8ff490038ffd90058ff8909590e190dd90e29152914d914c91d891dd91d791dc91d99583966296639661965b965d96649658965e96bb98e299ac9aa89ad89b259b329b3c4e7e507a507d505c50475043504c505a504950655076504e5055507550745077504f500f506f506d515c519551f0526a526f52d252d952d852d55310530f5319533f5340533e53c366fc5546556a55665544555e55615543554a55315556554f5555552f55645538552e555c552c55635533554155575708570b570957df5805580a580657e057e457fa5802583557f757f9592059625a365a415a495a665a6a5a40
    ∷ 0x5a3c5a625a5a5a465a4a5b705bc75bc55bc45bc25bbf5bc65c095c085c075c605c5c5c5d5d075d065d0e5d1b5d165d225d115d295d145d195d245d275d175de25e385e365e335e375eb75eb85eb65eb55ebe5f355f375f575f6c5f695f6b5f975f995f9e5f985fa15fa05f9c607f60a3608960a060a860cb60b460e660bd60c560bb60b560dc60bc60d860d560c660df60b860da60c7621a621b624863a063a76372639663a263a563776367639863aa637163a963896383639b636b63a863846388639963a163ac6392638f6380637b63696368637a655d6556655165596557555f654f655865556554659c659b65ac65cf65cb65cc65ce665d665a666466686666665e66f952d7671b688168af68a2689368b5687f687668b168a7689768b0688368c468ad688668856894689d68a8689f68a168826b326bba
    ∷ 0x6beb6bec6c2b6d8e6dbc6df36dd96db26de16dcc6de46dfb6dfa6e056dc76dcb6daf6dd16dae6dde6df96db86df76df56dc56dd26e1a6db56dda6deb6dd86dea6df16dee6de86dc66dc46daa6dec6dbf6de670f97109710a70fd70ef723d727d7281731c731b73167313731973877405740a7403740673fe740d74e074f674f7751c75227565756675627570758f75d475d575b575ca75cd768e76d476d276db7737773e773c77367738773a786b7843784e79657968796d79fb7a927a957b207b287b1b7b2c7b267b197b1e7b2e7c927c977c957d467d437d717d2e7d397d3c7d407d307d337d447d2f7d427d327d317f3d7f9e7f9a7fcc7fce7fd2801c804a8046812f81168123812b81298130812482028235823782368239838e839e8398837883a2839683bd83ab8392838a8393838983a08377837b837c
    ∷ []
