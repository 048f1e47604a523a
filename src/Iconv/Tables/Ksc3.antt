-- ===== src/Iconv/Tables/Ksc3.antt =====
-- The rows 62 to 92 of musl-locale/ksc.h: each is one number, with four hexadecimal digits for
-- an entry of the source.
use android_vshell.Base.{ℕ, List, [], ◌∷◌}

unfoldable pub ksc_3 : List ℕ
ksc_3 =
    0x5098522a5c7165636c5573ca7523759d7b97849c917897304e7764926bba715e85a94e09f96b674968ee6e17829f8518886b63f76f81921298af4e0a50b750cf511f554655aa56175b405c195ce05e385e8a5ea05ec260f368516a616e58723d724072c076f879657bb17fd488f389f48a738c618cde971c585e74bd8cfd55c7f96c7a617d2282727272751f7525f96d7b19588558fb5dbc5e8f5eb65f9060556292637f654d669166d966f8681668f27280745e7b6e7d6e7dd67f72
    ∷ 0x80e5821285af897f8a93901d92e49ecd9f205915596d5e2d60dc6614667367906c506dc56f5f77f378a984c691cb932b4ed950ca514855845b0b5ba36247657e65cb6e32717d74017444748774bf766c79aa7dda7e557fa8817a81b38239861a87ec8a758de3907892919425994d9bae53685c5169546cc46d296e2b820c859b893b8a2d8aaa96ea9f67526166b96bb27e9687fe8d0d9583965d651d6d8971eef96e57ce59d35bac602760fa6210661f665f732973f976db77017b6c
    ∷ 0x8056807281658aa091924e1652e26b726d177a057b397d30f96f8cb053ec562f58515bb55c0f5c115de2624063836414662d68b36cbc6d886eaf701f70a471d27526758f758e76197b117be07c2b7d207d39852c856d86078a34900d906190b592b797f69a374fd75c6c675f6d917c9f7e8c8b168d16901f5b6b5dfd640d84c0905c98e173875b8b609a677e6dde8a1f8aa69001980c5237f9707051788e9396887091d74fee53d755fd56da578258fd5ac25b885cab5cc05e256101
    ∷ 0x620d624b6388641c653665786a396b8a6c346d196f3171e772e97378740774b27626776179c07a577aea7cb97d8f7dac7e617f9e81298331849084da85ea88968ab08b908f3890429083916c929692b9968b96a796a896d69700980899969ad39b1a53d4587e59195b705bbf6dd16f5a719f742174b9808583fd5de15f875faa604265ec6812696f6a536b896d356df373e376fe77ac7b4d7d148123821c834084f485638a628ac49187931e980699b4620c88538ff092655d075d27
    ∷ 0x5d69745f819d87686fd562fe7fd2893689724e1e4e5850e752dd5347627f66077e698805965e4f8d5319563659cb5aa45c385c4e5c4d5e025f11604365bd662f664267be67f4731c77e2793a7fc5849484cd89968a668a698ae18c558c7a57f45bd45f0f606f62ed690d6b966e5c71847bd287558b588efe98df98fe4f384f814fe1547b5a205bb8613c65b0666871fc7533795e7d33814e81e3839885aa85ce87038a0a8eab8f9bf9718fc559315ba45be660895be95c0b5fc36c81
    ∷ 0xf9726df1700b751a82af8af64ec05341f97396d96c0f4e9e4fc45152555e5a255ce86211725982bd83aa86fe88598a1d963f96c599139d099d5d580a5cb35dbd5e4460e1611563e16a026e2591029354984e9c109f775b895cb86309664f6848773c96c1978d98549b9f65a18b018ecb95bc55355ca95dd65eb56697764c83f495c758d362bc72ce9d284ef0592e600f663b6b8379e79d26539354c057c35d16611b66d66daf788d827e969897445384627c63966db27e0a814b984d
    ∷ 0x6afb7f4c9daf9e1a4e5f503b51b6591c60f963f66930723a8036f97491ce5f31f975f9767d0482e5846f84bb85e58e8df9774f6ff978f97958e45b43605963da6518656d6698f97a694a6a236d0b7001716c75d2760d79b37a70f97b7f8af97c8944f97d8b9391c0967df97e990a57045fa165bc6f01760079a68a9e99ad9b5a9f6c510461b662916a8d81c6504358305f6671098a008afa5b7c86164ffa513c56b4594463a96df95daa696d51864e884f59f97ff980f9815982f982
    ∷ 0xf9836b5f6c5df98474b57916f9858207824583398f3f8f5df9869918f987f988f9894ea6f98a57df5f796613f98bf98c75ab7e798b6ff98d90069a5b56a5582759f85a1f5bb4f98e5ef6f98ff9906350633bf991693d6c876cbf6d8e6d936df56f14f99270df71367159f99371c371d5f994784f786ff9957b757de3f9967e2ff997884d8edff998f999f99a925bf99b9cf6f99cf99df99e60856d85f99f71b1f9a0f9a195b153adf9a2f9a3f9a467d3f9a5708e71307430827682d2
    ∷ 0xf9a695bb9ae59e7d66c4f9a771c18449f9a8f9a9584bf9aaf9ab5db85f71f9ac6620668e697969ae6c386cf36e366f416fda701b702f715071df7370f9ad745bf9ae74d476c87a4e7e93f9aff9b082f18a608fcef9b19348f9b29719f9b3f9b44e42502af9b5520853e166f36c6d6fca730a777f7a6282ae85dd8602f9b688d48a638b7d8c6bf9b792b3f9b8971398104e944f0d4fc950b25348543e543355da586258ba59675a1b5be4609ff9b961ca655665ff666468a76c5a6fb3
    ∷ 0x70cf71ac73527b7d87088aa49c329f075c4b6c8373447389923a6eab7465761f7a697e15860a514058c564c174ee751576707fc1909596cd99546e2674e67aa97aaa81e586d987788a1b5a495b8c5b9b68a169006d6373a97413742c78977de97feb81188155839e8c4c962e981166f05f8065fa67896c6a738b502d5a036b6a77ee59165d6c5dcd7325754ff9baf9bb50e551f9582f592d599659da5be5f9bcf9bd5da262d76416649364fef9be66dcf9bf6a48f9c071ff7464f9c1
    ∷ 0x7a887aaf7e477e5e80008170f9c287ef89818b209059f9c390809952617e6b326d747e1f89258fb14fd150ad519752c757c758895bb95eb8614269956d8c6e676eb6719474627528752c8073833884c98e0a939493def9c44e8e4f515076512a53c853cb53f35b875bd35c24611a618265f4725b7397744076c27950799179b97d067fbd828b85d5865e8fc2904790f591ea968596e896e952d65f6765ed6631682f715c7a3690c1980a4e91f9c56a526b9e6f907189801882b88553
    ∷ 0x904b969596f297fb851a9b314e90718a96c45143539f54e15713571257a35a9b5ac45bc36028613f63f46c856d396e726e907230733f745782d188818f459060f9c6966298589d1b67088d8a925e4f4d504950de5371570d59d45a015c09617066906e2d7232744b7def80c3840e8466853f875f885b89188b02905597cb9b4f4e734f915112516af9c7552f55a95b7a5ba55e7c5e7d5ebe60a060df6108610963c465386709f9c867d467daf9c9696169626cb96d27f9ca6e38f9cb
    ∷ 0x6fe173367337f9cc745c7531f9cd7652f9cef9cf7dad81fe843888d58a988adb8aed8e308e42904a903e907a914991c9936ef9d0f9d15809f9d26bd3808980b2f9d3f9d45141596b5c39f9d5f9d66f6473a780e48d07f9d79217958ff9d8f9d9f9daf9db807f620e701c7d68878df9dc57a0606961476bb78abe928096b14e59541f6deb852d967097f398ee63d66ce3909151dd61c981ba9df94f9d501a51005b9c610f61ff64ec69056bc5759177e37fa98264858f87fb88638abc
    ∷ 0x8b7091ab4e8c4ee54f0af9ddf9de593759e8f9df5df25f1b5f5b6021f9e0f9e1f9e2f9e3723e73e5f9e4757075cdf9e579fbf9e6800c8033808482e18351f9e7f9e88cbd8cb39087f9e9f9ea98f4990cf9ebf9ec703776ca7fca7fcc7ffc8b1a4eba4ec152035370f9ed54bd56e059fb5bc55f155fcd6e6ef9eef9ef7d6a8335f9f086938a8df9f1976d9777f9f2f9f34e004f5a4f7e58f965e56ea2903893b099b94efb58ec598a59d96041f9f4f9f57a14f9f6834f8cc351655344
    ∷ 0xf9f7f9f8f9f94ecd52695b5582bf4ed4523a54a859c959ff5b505b575b5c606361486ecb7099716e738674f775b578c17d2b800581ea8328851785c98aee8cc796cc4f5c52fa56bc65ab6628707c70b872357dbd828d914c96c09d725b7168e76b986f7a76de5c9166ab6f5b7bb47c2a883696dc4e084ed75320583458bb58ef596c5c075e335e845f35638c66b267566a1f6aa36b0c6f3f7246f9fa7350748b7ae07ca7817881df81e7838a846c8523859485cf88dd8d1391ac9577
    ∷ 0x969c518d54c957285bb0624d6750683d68936e3d6ed3707d7e2188c18ca18f099f4b9f4e722d7b8f8acd931a4f474f4e5132548059d05e9562b56775696e6a176cae6e1a72d9732a75bd7bb87d3582e783f9845785f78a5b8caf8e87901990b896ce9f5f52e3540a5ae15bc2645865756ef472c4f9fb76847a4d7b1b7c4d7e3e7fdf837b8b2b8cca8d648de18e5f8fea8ff9906993d14f434f7a50b351685178524d526a5861587c59605c085c555edb609b623068136bbf6c086fb1
    ∷ 0x714e742075307538755176727b4c7b8b7bad7bc67e8f8a6e8f3e8f49923f92939322942b96fb985a986b991e5207622a62986d5976647aca7bc07d7653605cbe5e976f3870b97c9897119b8e9ede63a5647a87764e014e954ead505c5075544859c35b9a5e405ead5ef75f8160c5633a653f657465cc6676667867fe69686a896b636c406dc06de86e1f6e5e701e70a1738e73fd753a775b7887798e7a0b7a7d7cbe7d8e82478a028aea8c9e912d914a91d8926692cc932097069756
    ∷ 0x975c98029f0e52365291557c58245e1d5f1f608c63d068af6fdf796d7b2c81cd85ba88fd8af88e44918d9664969b973d984c9f4a4fce514651cb52a956325f145f6b63aa64cd65e9664166fa66f9671d689d68d769fd6f156f6e716771e5722a74aa773a7956795a79df7a207a957c977cdf7d447e70808785fb86a48a548abf8d998e819020906d91e3963b96d59ce565cf7c078db393c35b585c0a535262d9731d50275b975f9e60b0616b68d56dd9742e7a2e7d427d9c7e31816b
    ∷ 0x8e2a8e35937e94184f5057505de65ea7632b7f6a4e3b4f4f4f8f505a59dd80c4546a546855fe594f5b995dde5eda665d673167f1682a6ce86d326e4a6f8d70b773e075877c4c7d027d2c7da2821f86db8a3b8a858d708e8a8f339031914e9152944499d07af97ca54fca510151c657c85bef5cfb66596a3d6d5a6e966fec710c756f7ae388229021907596cb99ff83014e2d4ef2884691cd537d6adb696b6c41847a589e618e66fe62ef70dd751175c77e5284b88b498d084e4b53ea
    ∷ 0x54ab573057405fd763016307646f652f65e8667a679d67b36b626c606c9a6f2c77e57825794979577d1980a2810281f3829d82b787188a8cf9fc8d048dbe907276f47a197a377e548077550755d45875632f64226649664b686d699b6b846d256eb173cd746874a1755b75b976e1771e778b79e67e097e1d81fb852f88978a3a8cd18eeb8fb0903293ad9663967397074f8453f159ea5ac95e19684e74c675be79e97a9281a386ed8cea8dcc8fed659f6715f9fd57f76f577ddd8f2f
    ∷ 0x93f696c65fb561f26f844e144f98501f53c955df5d6f5dee6b216b6478cb7b9af9fe8e498eca906e6349643e77407a84932f947f9f6a64b06faf71e674a874da7ac47c127e827cb27e988b9a8d0a947d9910994c52395bdf64e6672d7d2e50ed53c358796158615961fa65ac7ad98b928b9650095021527555315a3c5ee05f706134655e660c663666a269cd6ec46f32731676217a938139825983d684bc50b557f05bc05be85f6963a178267db583dc852191c791f5518a67f57b56
    ∷ 0x8cac51c459bb60bd8655501cf9ff52545c3a617d621a62d364f265a56ecc7620810a8e60965f96bb4edf5343559859295ddd64c56cc96dfa73947a7f821b85a68ce48e10907791e795e1962197c651f854f255865fb964a46f887db48f1f8f4d943550c95c166cbe6dfb751b77bb7c3d7c648a798ac2581e59be5e1663777252758a776b8adc8cbc8f125ef366746df8807d83c18acb97519bd6fa00524366ff6d956eef7de08ae6902e905e9ad4521d527f54e86194628462db68a2
    ∷ 0x6912695a6a3570927126785d7901790e79d27a0d8096827882d5834985498c828d859162918b91ae4fc356d171ed77d7870089f85bf85fd6675190a853e2585a5bf560a4618164607e3d80708525928364ae50ac5d146700589c62bd63a8690e69786a1e6e6b76ba79cb82bb84298acf8da88ffd9112914b919c93109318939a96db9a369c0d4e11755c795d7afa7b517bc97e2e84c48e598e748ef890106625693f744351fa672e9edc51455fe06c9687f2885d887760b481b58403
    ∷ 0x8d0553d6543956345a365c31708a7fe0805a810681ed8da391899a5f9df250744ec453a060fb6e2c5c644f88502455e45cd95e5f606568946cbb6dc471be75d475f476617a1a7a497dc77dfb7f6e81f486a98f1c96c999b39f52524752c598ed89aa4e0367d26f064fb55be267956c886d78741b782791dd937c87c479e47a315feb4ed654a4553e58ae59a560f0625362d6673669558235964099b199dd502c53535544577cfa016258fa0264e2666b67dd6fc16fef742274388a17
    ∷ 0x94385451560657665f48619a6b4e705870ad7dbb8a95596a812b63a27708803d8caa5854642d69bb5b955e116e6ffa038569514c53f0592a6020614b6b866c706cf07b1e80ce82d48dc690b098b1fa0464c76fa464916504514e5410571f8a0e615f6876fa0575db7b527d71901a580669cc817f892a900098395078595759ac6295900f9b2a615d727995d657615a465df4628a64ad64fa67776ce26d3e722c743678347f7782ad8ddb981752245742677f724874e38ca98fa69211
    ∷ 0x962a516b53ed634c4f695504609665576c9b6d7f724c72fd7a1789878c9d5f6d6f8e70f981a8610e4fbf504f624172477bc77de87fe9904d97ad9a198cb6576a5e7367b0840d8a5554205b165e635ee25f0a658380ba853d9589965b4f485305530d530f548654fa57035e036016629b62b16355fa066ce16d6675b1783280de812f82de846184b2888d8912900b92ea98fd9b915e4566b466dd70117206fa074ff5527d5f6a615367536a196f0274e2796888688c7998c798c49a43
    ∷ 0x54c17a1f69538af78c4a98a899ae5f7c62ab75b276ae88ab907f964253395f3c5fc56ccc73cc7562758b7b4682fe999d4e4f903c4e0b4f5553a6590f5ec866306cb37455837787668cc09050971e9c1558d15b7886508b149db45bd26068608d65f16c576f226fa3701a7f557ff095919592965097d352728f4451fd542b54b85563558a6abb6db57dd88266929c96779e79540854c876d286e495a495d4965c4ea24f0959ee5ae65df760526297676d68416c866e2f7f38809b822a
    ∷ 0xfa08fa0998054ea5505554b35793595a5b695bb361c869776d77702387f989e38a728ae7908299ed9ab852be683850165e78674f8347884c4eab541156ae73e6911597ff9909995799995653589f865b8a3161b26af6737b8ed26b4796aa9a57595572008d6b97694fd45cf45f2661f8665b6ceb70ab738473b973fe7729774d7d437d627e2382378852fa0a8ce29249986f5b517a74884098015acc4fe05354593e5cfd633e6d7972f98105810783a292cf98304ea851445211578b
    ∷ 0x5f626cc26ece7005705070af719273e97469834a87a28861900890a293a399a8516e5f5760e0616766b385598e4a91af978b4e4e4e92547c58d558fa597d5cb55f2762366248660a66676beb6d696dcf6e566ef86f946fe06fe9705d72d07425745a74e07693795c7cca7e1e80e182a6846b84bf864e865f87748b778c6a93ac9800986560d1621691775a5a660f6df76e3e743f9b425ffd60da7b0f54c45f186c5e6cd36d2a70d87d0586798a0c9d3b5316548c5b056a3a706b7575
    ∷ 0x798d79be82b183ef8a718b418ca89774fa0b64f4652b78ba78bb7a6b4e38559a59505ba65e7b60a363db6b61666568536e19716574b07d0890849a699c256d3b6ed1733e8c4195ca51f05e4c5fa8604d60f66130614c6643664469a56cc16e5f6ec96f62714c749c76877bc17c27835287579051968d9ec3532f56de5efb5f8a6062609461f7666667036a9c6dee6fae7070736a7e6a81be833486d48aa88cc4528373725b966a6b940454ee56865b5d6548658566c9689f6d8d6dc6
    ∷ 0x723b80b491759a4d4faf5019539a540e543c558955c55e3f5f8c673d716673dd900552db52f3586458ce7104718f71fb85b08a13668885a855a76684714a8431534955996bc15f595fbd63ee668971478af18f1d9ebe4f11643a70cb7566866760648b4e9df8514751f653086d3680f89ed166156b23709875d554035c797d078a166b206b3d6b46543860706d3d7fd5820850d651de559c566b56cd59ec5b095e0c619961986231665e66e6719971b971ba72a779a77a007fb28a70
    ∷ []
