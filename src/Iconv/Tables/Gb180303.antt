-- ===== src/Iconv/Tables/Gb180303.antt =====
-- The rows 28 to 41 of musl-locale/gb18030.h: each is one number, with four hexadecimal digits for
-- an entry of the source.
use android_vshell.Base.{ℕ, List, [], ◌∷◌}

unfoldable pub gb18030_3 : List ℕ
gb18030_3 =
    0x6ef06ef16ef26ef36ef56ef66ef76ef86efa6efb6efc6efd6efe6eff6f006f016f036f046f056f076f086f0a6f0b6f0c6f0d6f0e6f106f116f126f166f176f186f196f1a6f1b6f1c6f1d6f1e6f1f6f216f226f236f256f266f276f286f2c6f2e6f306f326f346f356f376f386f396f3a6f3b6f3c6f3d6f3f6f406f416f426f436f446f456f486f496f4a6f4c6f4e6f4f6f506f516f526f536f546f556f566f576f596f5a6f5b6f5d6f5f6f606f616f636f646f656f676f686f696f6a6f6b6f6c6f6f6f706f716f736f756f766f776f796f7b6f7d6f7e6f7f6f806f816f826f836f856f866f876f8a6f8b6f8f6f906f916f926f936f946f956f966f976f986f996f9a6f9b6f9d6f9e6f9f6fa06fa26fa36fa46fa56fa66fa86fa96faa6fab6fac6fad6fae6faf6fb06fb16fb26fb46fb56fb76fb86fba6fbb6fbc6fbd6fbe6fbf6fc16fc36fc46fc56fc66fc76fc86fca6fcb6fcc6fcd6fce6fcf6fd06fd36fd46fd56fd66fd76fd86fd96fda6fdb6fdc6fdd6fdf6fe26fe36fe46fe5
    ∷ 0x6fe66fe76fe86fe96fea6feb6fec6fed6ff06ff16ff26ff36ff46ff56ff66ff76ff86ff96ffa6ffb6ffc6ffd6ffe6fff7000700170027003700470057006700770087009700a700b700c700d700e700f701070127013701470157016701770187019701c701d701e701f702070217022702470257026702770287029702a702b702c702d702e702f70307031703270337034703670377038703a703b703c703d703e703f7040704170427043704470457046704770487049704a704b704d704e7050705170527053705470557056705770587059705a705b705c705d705f7060706170627063706470657066706770687069706a706e707170727073707470777079707a707b707d7081708270837084708670877088708b708c708d708f70907091709370977098709a709b709e709f70a070a170a270a370a470a570a670a770a870a970aa70b070b270b470b570b670ba70be70bf70c470c570c670c770c970cb70cc70cd70ce70cf70d070d170d270d370d470d570d670d770da
    ∷ 0x70dc70dd70de70e070e170e270e370e570ea70ee70f070f170f270f370f470f570f670f870fa70fb70fc70fe70ff710071017102710371047105710671077108710b710c710d710e710f7111711271147117711b711c711d711e711f712071217122712371247125712771287129712a712b712c712d712e7132713371347135713771387139713a713b713c713d713e713f714071417142714371447146714771487149714b714d714f7150715171527153715471557156715771587159715a715b715d715f716071617162716371657169716a716b716c716d716f7170717171747175717671777179717b717c717e717f718071817182718371857186718771887189718b718c718d718e7190719171927193719571967197719a719b719c719d719e71a171a271a371a471a571a671a771a971aa71ab71ad71ae71af71b071b171b271b471b671b771b871ba71bb71bc71bd71be71bf71c071c171c271c471c571c671c771c871c971ca71cb71cc71cd71cf71d071d171d271d3
    ∷ 0x71d671d771d871d971da71db71dc71dd71de71df71e171e271e371e471e671e871e971ea71eb71ec71ed71ef71f071f171f271f371f471f571f671f771f871fa71fb71fc71fd71fe71ff720072017202720372047205720772087209720a720b720c720d720e720f7210721172127213721472157216721772187219721a721b721c721e721f722072217222722372247225722672277229722b722d722e722f723272337234723a723c723e72407241724272437244724572467249724a724b724e724f7250725172537254725572577258725a725c725e72607263726472657268726a726b726c726d7270727172737274727672777278727b727c727d7282728372857286728772887289728c728e729072917293729472957296729772987299729a729b729c729d729e72a072a172a272a372a472a572a672a772a872a972aa72ab72ae72b172b272b372b572ba72bb72bc72bd72be72bf72c072c572c672c772c972ca72cb72cc72cf72d172d372d472d572d672d872da72db
    ∷ 0xe4c6e4c7e4c8e4c9e4cae4cbe4cce4cde4cee4cfe4d0e4d1e4d2e4d3e4d4e4d5e4d6e4d7e4d8e4d9e4dae4dbe4dce4dde4dee4dfe4e0e4e1e4e2e4e3e4e4e4e5e4e6e4e7e4e8e4e9e4eae4ebe4ece4ede4eee4efe4f0e4f1e4f2e4f3e4f4e4f5e4f6e4f7e4f8e4f9e4fae4fbe4fce4fde4fee4ffe500e501e502e503e504e505e506e507e508e509e50ae50be50ce50de50ee50fe510e511e512e513e514e515e516e517e518e519e51ae51be51ce51de51ee51fe520e521e522e523e524e52530003001300200b702c902c700a8300330052014ff5e2016202620182019201c201d3014301530083009300a300b300c300d300e300f301630173010301100b100d700f72236222722282211220f222a222922082237221a22a52225222023122299222b222e2261224c2248223d221d2260226e226f22642265221e223522342642264000b0203220332103ff0400a4ffe0ffe1203000a721162606260525cb25cf25ce25c725c625a125a025b325b2203b21922190219121933013
    ∷ 0xe526e527e528e529e52ae52be52ce52de52ee52fe530e531e532e533e534e535e536e537e538e539e53ae53be53ce53de53ee53fe540e541e542e543e544e545e546e547e548e549e54ae54be54ce54de54ee54fe550e551e552e553e554e555e556e557e558e559e55ae55be55ce55de55ee55fe560e561e562e563e564e565e566e567e568e569e56ae56be56ce56de56ee56fe570e571e572e573e574e575e576e577e578e579e57ae57be57ce57de57ee57fe580e581e582e583e584e5852170217121722173217421752176217721782179e766e767e768e769e76ae76b24882489248a248b248c248d248e248f2490249124922493249424952496249724982499249a249b247424752476247724782479247a247b247c247d247e247f24802481248224832484248524862487246024612462246324642465246624672468246920ace76d3220322132223223322432253226322732283229e76ee76f2160216121622163216421652166216721682169216a216be770e771
    ∷ 0xe586e587e588e589e58ae58be58ce58de58ee58fe590e591e592e593e594e595e596e597e598e599e59ae59be59ce59de59ee59fe5a0e5a1e5a2e5a3e5a4e5a5e5a6e5a7e5a8e5a9e5aae5abe5ace5ade5aee5afe5b0e5b1e5b2e5b3e5b4e5b5e5b6e5b7e5b8e5b9e5bae5bbe5bce5bde5bee5bfe5c0e5c1e5c2e5c3e5c4e5c5e5c6e5c7e5c8e5c9e5cae5cbe5cce5cde5cee5cfe5d0e5d1e5d2e5d3e5d4e5d5e5d6e5d7e5d8e5d9e5dae5dbe5dce5dde5dee5dfe5e0e5e1e5e2e5e3e5e4e5e5ff01ff02ff03ffe5ff05ff06ff07ff08ff09ff0aff0bff0cff0dff0eff0fff10ff11ff12ff13ff14ff15ff16ff17ff18ff19ff1aff1bff1cff1dff1eff1fff20ff21ff22ff23ff24ff25ff26ff27ff28ff29ff2aff2bff2cff2dff2eff2fff30ff31ff32ff33ff34ff35ff36ff37ff38ff39ff3aff3bff3cff3dff3eff3fff40ff41ff42ff43ff44ff45ff46ff47ff48ff49ff4aff4bff4cff4dff4eff4fff50ff51ff52ff53ff54ff55ff56ff57ff58ff59ff5aff5bff5cff5dffe3
    ∷ 0xe5e6e5e7e5e8e5e9e5eae5ebe5ece5ede5eee5efe5f0e5f1e5f2e5f3e5f4e5f5e5f6e5f7e5f8e5f9e5fae5fbe5fce5fde5fee5ffe600e601e602e603e604e605e606e607e608e609e60ae60be60ce60de60ee60fe610e611e612e613e614e615e616e617e618e619e61ae61be61ce61de61ee61fe620e621e622e623e624e625e626e627e628e629e62ae62be62ce62de62ee62fe630e631e632e633e634e635e636e637e638e639e63ae63be63ce63de63ee63fe640e641e642e643e644e645304130423043304430453046304730483049304a304b304c304d304e304f3050305130523053305430553056305730583059305a305b305c305d305e305f3060306130623063306430653066306730683069306a306b306c306d306e306f3070307130723073307430753076307730783079307a307b307c307d307e307f3080308130823083308430853086308730883089308a308b308c308d308e308f3090309130923093e772e773e774e775e776e777e778e779e77ae77be77c
    ∷ 0xe646e647e648e649e64ae64be64ce64de64ee64fe650e651e652e653e654e655e656e657e658e659e65ae65be65ce65de65ee65fe660e661e662e663e664e665e666e667e668e669e66ae66be66ce66de66ee66fe670e671e672e673e674e675e676e677e678e679e67ae67be67ce67de67ee67fe680e681e682e683e684e685e686e687e688e689e68ae68be68ce68de68ee68fe690e691e692e693e694e695e696e697e698e699e69ae69be69ce69de69ee69fe6a0e6a1e6a2e6a3e6a4e6a530a130a230a330a430a530a630a730a830a930aa30ab30ac30ad30ae30af30b030b130b230b330b430b530b630b730b830b930ba30bb30bc30bd30be30bf30c030c130c230c330c430c530c630c730c830c930ca30cb30cc30cd30ce30cf30d030d130d230d330d430d530d630d730d830d930da30db30dc30dd30de30df30e030e130e230e330e430e530e630e730e830e930ea30eb30ec30ed30ee30ef30f030f130f230f330f430f530f6e77de77ee77fe780e781e782e783e784
    ∷ 0xe6a6e6a7e6a8e6a9e6aae6abe6ace6ade6aee6afe6b0e6b1e6b2e6b3e6b4e6b5e6b6e6b7e6b8e6b9e6bae6bbe6bce6bde6bee6bfe6c0e6c1e6c2e6c3e6c4e6c5e6c6e6c7e6c8e6c9e6cae6cbe6cce6cde6cee6cfe6d0e6d1e6d2e6d3e6d4e6d5e6d6e6d7e6d8e6d9e6dae6dbe6dce6dde6dee6dfe6e0e6e1e6e2e6e3e6e4e6e5e6e6e6e7e6e8e6e9e6eae6ebe6ece6ede6eee6efe6f0e6f1e6f2e6f3e6f4e6f5e6f6e6f7e6f8e6f9e6fae6fbe6fce6fde6fee6ffe700e701e702e703e704e705039103920393039403950396039703980399039a039b039c039d039e039f03a003a103a303a403a503a603a703a803a9e785e786e787e788e789e78ae78be78c03b103b203b303b403b503b603b703b803b903ba03bb03bc03bd03be03bf03c003c103c303c403c503c603c703c803c9e78de78ee78fe790e791e792e793fe35fe36fe39fe3afe3ffe40fe3dfe3efe41fe42fe43fe44e794e795fe3bfe3cfe37fe38fe31e796fe33fe34e797e798e799e79ae79be79ce79de79ee79f
    ∷ 0xe706e707e708e709e70ae70be70ce70de70ee70fe710e711e712e713e714e715e716e717e718e719e71ae71be71ce71de71ee71fe720e721e722e723e724e725e726e727e728e729e72ae72be72ce72de72ee72fe730e731e732e733e734e735e736e737e738e739e73ae73be73ce73de73ee73fe740e741e742e743e744e745e746e747e748e749e74ae74be74ce74de74ee74fe750e751e752e753e754e755e756e757e758e759e75ae75be75ce75de75ee75fe760e761e762e763e764e76504100411041204130414041504010416041704180419041a041b041c041d041e041f0420042104220423042404250426042704280429042a042b042c042d042e042fe7a0e7a1e7a2e7a3e7a4e7a5e7a6e7a7e7a8e7a9e7aae7abe7ace7ade7ae04300431043204330434043504510436043704380439043a043b043c043d043e043f0440044104420443044404450446044704480449044a044b044c044d044e044fe7afe7b0e7b1e7b2e7b3e7b4e7b5e7b6e7b7e7b8e7b9e7bae7bb
    ∷ 0x2ca02cb02d920132015202520352105210921962197219821992215221f222322522266226722bf2550255125522553255425552556255725582559255a255b255c255d255e255f2560256125622563256425652566256725682569256a256b256c256d256e256f2570257125722573258125822583258425852586258725882589258a258b258c258d258e258f25932594259525bc25bd25e225e325e425e5260922953012301d301ee7bce7bde7bee7bfe7c0e7c1e7c2e7c3e7c4e7c5e7c6010100e101ce00e0011300e9011b00e8012b00ed01d000ec014d00f301d200f2016b00fa01d400f901d601d801da01dc00fc00ea0251e7c70144014801f90261e7c9e7cae7cbe7cc31053106310731083109310a310b310c310d310e310f3110311131123113311431153116311731183119311a311b311c311d311e311f3120312131223123312431253126312731283129e7cde7cee7cfe7d0e7d1e7d2e7d3e7d4e7d5e7d6e7d7e7d8e7d9e7dae7dbe7dce7dde7dee7dfe7e0e7e1
    ∷ 0x30213022302330243025302630273028302932a3338e338f339c339d339e33a133c433ce33d133d233d5fe30ffe2ffe4e7e221213231e7e32010e7e4e7e5e7e630fc309b309c30fd30fe3006309d309efe49fe4afe4bfe4cfe4dfe4efe4ffe50fe51fe52fe54fe55fe56fe57fe59fe5afe5bfe5cfe5dfe5efe5ffe60fe61fe62fe63fe64fe65fe66fe68fe69fe6afe6b303e2ff02ff12ff22ff32ff42ff52ff62ff72ff82ff92ffa2ffb3007e7f4e7f5e7f6e7f7e7f8e7f9e7fae7fbe7fce7fde7fee7ffe8002500250125022503250425052506250725082509250a250b250c250d250e250f2510251125122513251425152516251725182519251a251b251c251d251e251f2520252125222523252425252526252725282529252a252b252c252d252e252f2530253125322533253425352536253725382539253a253b253c253d253e253f2540254125422543254425452546254725482549254a254be801e802e803e804e805e806e807e808e809e80ae80be80ce80de80ee80f
    ∷ 0x72dc72dd72df72e272e372e472e572e672e772ea72eb72f572f672f972fd72fe72ff73007302730473057306730773087309730b730c730d730f731073117312731473187319731a731f732073237324732673277328732d732f73307332733373357336733a733b733c733d7340734173427343734473457346734773487349734a734b734c734e734f7351735373547355735673587359735a735b735c735d735e735f736173627363736473657366736773687369736a736b736e73707371e000e001e002e003e004e005e006e007e008e009e00ae00be00ce00de00ee00fe010e011e012e013e014e015e016e017e018e019e01ae01be01ce01de01ee01fe020e021e022e023e024e025e026e027e028e029e02ae02be02ce02de02ee02fe030e031e032e033e034e035e036e037e038e039e03ae03be03ce03de03ee03fe040e041e042e043e044e045e046e047e048e049e04ae04be04ce04de04ee04fe050e051e052e053e054e055e056e057e058e059e05ae05be05ce05d
    ∷ []
