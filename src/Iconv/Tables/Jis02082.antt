-- ===== src/Iconv/Tables/Jis02082.antt =====
-- The rows 28 to 55 of musl-locale/jis0208.h: each is one number, with four hexadecimal digits for
-- an entry of the source.
use android_vshell.Base.{ℕ, List, [], ◌∷◌}

unfoldable pub jis0208_2 : List ℕ
jis0208_2 =
    0x5b975c315dde4fee610162fe6d3279c079cb7d427e4d7fd281ed821f8490884689728b908e748f2f9031914b916c96c6919c4ec04f4f514553415f93620e67d46c416e0b73637e2691cd928353d459195bbf6dd1795d7e2e7c9b587e719f51fa88538ff04fca5cfb662577ac7ae3821c99ff51c65faa65ec696f6b896df36e966f6476fe7d145de190759187980651e6521d6240669166d96e1a5eb67dd27f7266f885af85f78af852a953d959735e8f5f90605592e4966450b7511f
    ∷ 0x52dd5320534753ec54e8554655315617596859be5a3c5bb55c065c0f5c115c1a5e845e8a5ee05f70627f628462db638c63776607660c662d6676677e68a26a1f6a356cbc6d886e096e58713c7126716775c77701785d7901796579f07ae07b117ca77d39809683d6848b8549885d88f38a1f8a3c8a548a738c618cde91a49266937e9418969c97984e0a4e084e1e4e575197527057ce583458cc5b225e3860c564fe676167566d4472b675737a6384b88b7291b89320563157f498fe
    ∷ 0x62ed690d6b9671ed7e548077827289e698df87558fb15c3b4f384fe14fb555075a205bdd5be95fc3614e632f65b0664b68ee699b6d786df1753375b9771f795e79e67d3381e382af85aa89aa8a3a8eab8f9b903291dd97074eba4ec15203587558ec5c0b751a5c3d814e8a0a8fc59663976d7b258acf9808916256f353a89017543957825e2563a86c34708a77617c8b7fe088709042915493109318968f745e9ac45d075d69657067a28da896db636e6749691983c5981796c088fe
    ∷ 0x6f84647a5bf84e16702c755d662f51c4523652e259d35f8160276210653f6574661f667468f268166b636e057272751f76db7cbe805658f088fd897f8aa08a938acb901d91929752975965897a0e810696bb5e2d60dc621a65a56614679077f37a4d7c4d7e3e810a8cac8d648de18e5f78a9520762d963a5644262988a2d7a837bc08aac96ea7d76820c87494ed95148534353605ba35c025c165ddd6226624764b0681368346cc96d456d1767d36f5c714e717d65cb7a7f7bad7dda
    ∷ 0x7e4a7fa8817a821b823985a68a6e8cce8df59078907792ad929195839bae524d55846f387136516879857e5581b37cce564c58515ca863aa66fe66fd695a72d9758f758e790e795679df7c977d207d4486078a34963b90619f2050e7527553cc53e2500955aa58ee594f723d5b8b5c64531d60e360f3635c6383633f63bb64cd65e966f95de369cd69fd6f1571e54e8975e976f87a937cdf7dcf7d9c806183498358846c84bc85fb88c58d709001906d9397971c9a1250cf5897618e
    ∷ 0x81d385358d0890204fc3507452475373606f6349675f6e2c8db3901f4fd75c5e8cca65cf7d9a53528896517663c35b585b6b5c0a640d6751905c4ed6591a592a6c708a51553e581559a560f0625367c182356955964099c49a284f5358065bfe80105cb15e2f5f856020614b623466ff6cf06ede80ce817f82d4888b8cb89000902e968a9edb9bdb4ee353f059277b2c918d984c9df96edd7027535355445b856258629e62d36ca26fef74228a1794386fc18afe833851e786f853ea
    ∷ 0x53e94f4690548fb0596a81315dfd7aea8fbf68da8c3772f89c486a3d8ab04e3953585606576662c563a265e66b4e6de16e5b70ad77ed7aef7baa7dbb803d80c686cb8a95935b56e358c75f3e65ad66966a806bb575378ac7502477e557305f1b6065667a6c6075f47a1a7f6e81f48718904599b37bc9755c7af97b5184c4901079e97a9283365ae177404e2d4ef25b995fe062bd663c67f16ce8866b88778a3b914e92f399d06a177026732a82e784578caf4e01514651cb558b5bf5
    ∷ 0x5e165e335e815f145f355f6b5fb461f2631166a2671d6f6e7252753a773a80748139817887768abf8adc8d858df3929a957798029ce552c5635776f467156c8873cd8cc393ae96736d25589c690e69cc8ffd939a75db901a585a680263b469fb4f436f2c67d88fbb85267db49354693f6f70576a58f75b2c7d2c722a540a91e39db44ead4f4e505c507552438c9e544858245b9a5e1d5e955ead5ef75f1f608c62b5633a63d068af6c407887798e7a0b7de082478a028ae68e449013
    ∷ 0x90b8912d91d89f0e6ce5645864e265756ef476847b1b906993d16eba54f25fb964a48f4d8fed92445178586b59295c555e976dfb7e8f751c8cbc8ee2985b70b94f1d6bbf6fb1753096fb514e54105835585759ac5c605f926597675c6e21767b83df8ced901490fd934d7825783a52aa5ea6571f597460125012515a51ac51cd520055105854585859575b955cf65d8b60bc6295642d6771684368bc68df76d76dd86e6f6d9b706f71c85f5375d879777b497b547b527cd67d715230
    ∷ 0x8463856985e48a0e8b048c468e0f9003900f94199676982d9a3095d850cd52d5540c58025c0e61a7649e6d1e77b37ae580f48404905392855ce09d07533f5f975fb36d9c7279776379bf7be46bd272ec8aad68036a6151f87a8169345c4a9cf682eb5bc59149701e56785c6f60c765666c8c8c5a90419813545166c7920d594890a351854e4d51ea85998b0e7058637a934b696299b47e047577535769608edf96e36c5d4e8c5c3c5f108fe953028cd1808986795eff65e54e735165
    ∷ 0x59825c3f97ee4efb598a5fcd8a8d6fe179b079625be78471732b71b15e745ff5637b649a71c37c984e435efc4e4b57dc56a260a96fc37d0d80fd813381bf8fb2899786a45df4628a64ad898767776ce26d3e743678345a467f7582ad99ac4ff35ec362dd63926557676f76c3724c80cc80ba8f29914d500d57f95a9268856973716472fd8cb758f28ce0966a9019877f79e477e784294f2f5265535a62cd67cf6cca767d7b947c95823685848feb66dd6f2072067e1b83ab99c19ea6
    ∷ 0x51fd7bb178727bb880877b486ae85e61808c75517560516b92626e8c767a91979aea4f107f70629c7b4f95a59ce9567a585986e496bc4f345224534a53cd53db5e06642c6591677f6c3e6c4e724872af73ed75547e41822c85e98ca97bc491c67169981298ef633d6669756a76e478d0854386ee532a5351542659835e875f7c60b26249627962ab65906bd46ccc75b276ae789179d87dcb7f7780a588ab8ab98cbb907f975e98db6a0b7c3850995c3e5fae67876bd8743577097f8e
    ∷ 0x9f3b67ca7a175339758b9aed5f66819d83f180985f3c5fc575627b46903c686759eb5a9b7d10767e8b2c4ff55f6a6a196c376f0274e2796888688a558c795edf63cf75c579d282d7932892f2849c86ed9c2d54c15f6c658c6d5c70158ca78cd3983b654f74f64e0d4ed857e0592b5a665bcc51a85e035e9c60166276657765a7666e6d6e72367b268150819a82998b5c8ca08ce68d74961c96444fae64ab6b66821e8461856a90e85c01695398a8847a85574f0f526f5fa95e45670d
    ∷ 0x798f8179890789866df55f1762556cb84ecf72699b925206543b567458b361a4626e711a596e7c897cde7d1b96f06587805e4e194f75517558405e635e735f0a67c44e26853d9589965b7c73980150fb58c1765678a7522577a585117b86504f590972477bc77de88fba8fd4904d4fbf52c95a295f0197ad4fdd821792ea570363556b69752b88dc8f147a4252df58936155620a66ae6bcd7c3f83e950234ff853055446583159495b9d5cf05cef5d295e9662b16367653e65b9670b
    ∷ 0x6cd56ce170f978327e2b80de82b3840c84ec870289128a2a8c4a90a692d298fd9cf39d6c4e4f4ea1508d5256574a59a85e3d5fd85fd9623f66b4671b67d068d251927d2180aa81a88b008c8c8cbf927e96325420982c531750d5535c58a864b26734726777667a4691e652c36ca16b8658005e4c5954672c7ffb51e176c6646978e89b549ebb57cb59b96627679a6bce54e969d95e55819c67959baa67fe9c52685d4ea64fe353c862b9672b6cab8fc44fad7e6d9ebf4e0761626e80
    ∷ 0x6f2b85135473672a9b455df37b955cac5bc6871c6e4a84d17a14810859997c8d6c11772052d959227121725f77db97279d61690b5a7f5a1851a5540d547d660e76df8ff792989cf459ea725d6ec5514d68c97dbf7dec97629eba64786a21830259845b5f6bdb731b76f27db280178499513267289ed976ee676252ff99055c24623b7c7e8cb0554f60b67d0b958053014e5f51b6591c723a803691ce5f2577e253845f797d0485ac8a338e8d975667f385ae9453610961086cb97652
    ∷ 0x8aed8f38552f4f51512a52c753cb5ba55e7d60a0618263d6670967da6e676d8c733673377531795088d58a98904a909190f596c4878d59154e884f594e0e8a898f3f981050ad5e7c59965bb95eb863da63fa64c166dc694a69d86d0b6eb6719475287aaf7f8a8000844984c989818b218e0a9065967d990a617e62916b326c836d747fcc7ffc6dc07f8587ba88f8676583b1983c96f76d1b7d61843d916a4e7153755d506b046feb85cd862d89a75229540f5c65674e68a874067483
    ∷ 0x75e288cf88e191cc96e296785f8b73877acb844e63a0756552896d416e9c74097559786b7c9296867adc9f8d4fb6616e65c5865c4e864eae50da4e2151cc5bee659968816dbc731f764277ad7a1c7ce7826f8ad2907c91cf96759818529b7dd1502b539867976dcb71d0743381e88f2a96a39c579e9f746058416d997d2f985e4ee44f364f8b51b752b15dba601c73b2793c82d3923496b796f6970a9e979f6266a66b74521752a370c888c25ec9604b61906f2371497c3e7df4806f
    ∷ 0x84ee9023932c54429b6f6ad370898cc28def973252b45a415eca5f046717697c69946d6a6f0f726272fc7bed8001807e874b90ce516d9e937984808b93328ad6502d548c8a716b6a8cc4810760d167a09df24e994e989c108a6b85c1856869006e7e789781550000000000000000000000000000000000000000000000000000000000000000000000000000000000000000000000000000000000000000000000000000000000000000000000000000000000000000000000000000
    ∷ 0x5f0c4e104e154e2a4e314e364e3c4e3f4e424e564e584e824e858c6b4e8a82125f0d4e8e4e9e4e9f4ea04ea24eb04eb34eb64ece4ecd4ec44ec64ec24ed74ede4eed4edf4ef74f094f5a4f304f5b4f5d4f574f474f764f884f8f4f984f7b4f694f704f914f6f4f864f9651184fd44fdf4fce4fd84fdb4fd14fda4fd04fe44fe5501a50285014502a502550054f1c4ff650215029502c4ffe4fef50115006504350476703505550505048505a5056506c50785080509a508550b450b2
    ∷ 0x50c950ca50b350c250d650de50e550ed50e350ee50f950f5510951015102511651155114511a5121513a5137513c513b513f51405152514c515451627af85169516a516e5180518256d8518c5189518f519151935195519651a451a651a251a951aa51ab51b351b151b251b051b551bd51c551c951db51e0865551e951ed51f051f551fe5204520b5214520e5227522a522e52335239524f5244524b524c525e5254526a527452695273527f527d528d529452925271528852918fa8
    ∷ 0x8fa752ac52ad52bc52b552c152cd52d752de52e352e698ed52e052f352f552f852f9530653087538530d5310530f5315531a5323532f5331533353385340534653454e175349534d51d6535e5369536e5918537b53775382539653a053a653a553ae53b053b653c37c1296d953df66fc71ee53ee53e853ed53fa5401543d5440542c542d543c542e54365429541d544e548f5475548e545f5471547754705492547b5480547654845490548654c754a254b854a554ac54c454c854a8
    ∷ 0x54ab54c254a454be54bc54d854e554e6550f551454fd54ee54ed54fa54e2553955405563554c552e555c55455556555755385533555d5599558054af558a559f557b557e5598559e55ae557c558355a9558755a855da55c555df55c455dc55e455d4561455f7561655fe55fd561b55f9564e565071df5634563656325638566b5664562f566c566a56865680568a56a05694568f56a556ae56b656b456c256bc56c156c356c056c856ce56d156d356d756ee56f9570056ff57045709
    ∷ 0x5708570b570d57135718571655c7571c572657375738574e573b5740574f576957c057885761577f5789579357a057b357a457aa57b057c357c657d457d257d3580a57d657e3580b5819581d587258215862584b58706bc05852583d5879588558b9589f58ab58ba58de58bb58b858ae58c558d358d158d758d958d858e558dc58e458df58ef58fa58f958fb58fc58fd5902590a5910591b68a65925592c592d59325938593e7ad259555950594e595a5958596259605967596c5969
    ∷ 0x59785981599d4f5e4fab59a359b259c659e859dc598d59d959da5a255a1f5a115a1c5a095a1a5a405a6c5a495a355a365a625a6a5a9a5abc5abe5acb5ac25abd5ae35ad75ae65ae95ad65afa5afb5b0c5b0b5b165b325ad05b2a5b365b3e5b435b455b405b515b555b5a5b5b5b655b695b705b735b755b7865885b7a5b805b835ba65bb85bc35bc75bc95bd45bd05be45be65be25bde5be55beb5bf05bf65bf35c055c075c085c0d5c135c205c225c285c385c395c415c465c4e5c53
    ∷ 0x5c505c4f5b715c6c5c6e4e625c765c795c8c5c915c94599b5cab5cbb5cb65cbc5cb75cc55cbe5cc75cd95ce95cfd5cfa5ced5d8c5cea5d0b5d155d175d5c5d1f5d1b5d115d145d225d1a5d195d185d4c5d525d4e5d4b5d6c5d735d765d875d845d825da25d9d5dac5dae5dbd5d905db75dbc5dc95dcd5dd35dd25dd65ddb5deb5df25df55e0b5e1a5e195e115e1b5e365e375e445e435e405e4e5e575e545e5f5e625e645e475e755e765e7a9ebc5e7f5ea05ec15ec25ec85ed05ecf
    ∷ 0x5ed65ee35edd5eda5edb5ee25ee15ee85ee95eec5ef15ef35ef05ef45ef85efe5f035f095f5d5f5c5f0b5f115f165f295f2d5f385f415f485f4c5f4e5f2f5f515f565f575f595f615f6d5f735f775f835f825f7f5f8a5f885f915f875f9e5f995f985fa05fa85fad5fbc5fd65ffb5fe45ff85ff15fdd60b35fff60216060601960106029600e6031601b6015602b6026600f603a605a6041606a6077605f604a6046604d6063604360646042606c606b60596081608d60e76083609a
    ∷ 0x6084609b60966097609260a7608b60e160b860e060d360b45ff060bd60c660b560d8614d6115610660f660f7610060f460fa6103612160fb60f1610d610e6147613e61286127614a613f613c612c6134613d614261446173617761586159615a616b6174616f61656171615f615d6153617561996196618761ac6194619a618a619161ab61ae61cc61ca61c961f761c861c361c661ba61cb7f7961cd61e661e361f661fa61f461ff61fd61fc61fe620062086209620d620c6214621b
    ∷ []
