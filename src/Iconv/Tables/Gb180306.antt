-- ===== src/Iconv/Tables/Gb180306.antt =====
-- The rows 70 to 83 of musl-locale/gb18030.h: each is one number, with four hexadecimal digits for
-- an entry of the source.
use android_vshell.Base.{ℕ, List, [], ◌∷◌}

unfoldable pub gb18030_6 : List ℕ
gb18030_6 =
    0x833e833f83418342834483458348834a834b834c834d834e835383558356835783588359835d836283708371837283738374837583768379837a837e837f8380838183828383838483878388838a838b838c838d838f8390839183948395839683978399839a839d839f83a183a283a383a483a583a683a783ac83ad83ae83af83b583bb83be83bf83c283c383c483c683c883c983cb83cd83ce83d083d183d283d383d583d783d983da83db83de83e283e383e483e683e783e883eb83ec83ed60706d3d72756266948e94c553438fc17b7e4edf8c264e7e9ed494b194b3524d6f5c90636d458c3458115d4c6b206b4967aa545b81547f8c589985375f3a62a26a47953965726084686577a74e544fa85de7979864ac7fd85ced4fcf7a8d520783044e14602f7a8394a64fb54eb279e6743452e482b964d279bd5bdd6c8197528f7b6c22503e537f6e0564ce66746c3060c598778bf75e86743c7a7779cb4e1890b174036c4256da914b6cc58d8b533a86c666f28eaf5c489a716e20
    ∷ 0x83ee83ef83f383f483f583f683f783fa83fb83fc83fe83ff840084028405840784088409840a84108412841384148415841684178419841a841b841e841f84208421842284238429842a842b842c842d842e842f84308432843384348435843684378439843a843b843e843f844084418442844384448445844784488449844a844b844c844d844e844f8450845284538454845584568458845d845e845f8460846284648465846684678468846a846e846f84708472847484778479847b847c53d65a369f8b8da353bb570898a76743919b6cc9516875ca62f372ac5238529d7f3a7094763853749e4a69b7786e96c088d97fa4713671c3518967d374e458e4651856b78ba9997662707ed560f970ed58ec4ec14eba5fcd97e74efb8ba45203598a7eab62544ecd65e5620e833884c98363878d71946eb65bb97ed2519763c967d480898339881551125b7a59828fb14e736c5d516589258f6f962e854a745e951095f06da682e55f3164926d128428816e9cc3585e8d5b4e0953c1
    ∷ 0x847d847e847f848084818483848484858486848a848d848f84908491849284938494849584968498849a849b849d849e849f84a084a284a384a484a584a684a784a884a984aa84ab84ac84ad84ae84b084b184b384b584b684b784bb84bc84be84c084c284c384c584c684c784c884cb84cc84ce84cf84d284d484d584d784d884d984da84db84dc84de84e184e284e484e784e884e984ea84eb84ed84ee84ef84f184f284f384f484f584f684f784f884f984fa84fb84fd84fe8500850185024f1e6563685155d34e2764149a9a626b5ac2745f82726da968ee50e7838e7802674052396c997eb150bb5565715e7b5b665273ca82eb67495c715220717d886b95ea965564c58d6181b355846c5562477f2e58924f2455468d4f664c4e0a5c1a88f368a2634e7a0d70e7828d52fa97f65c1154e890b57ecd59628d4a86c7820c820d8d6664445c0461516d89793e8bbe78377533547b4f388eab6df15a207ec5795e6c885ba15a76751a80be614e6e1758f0751f7525727253477ef3
    ∷ 0x8503850485058506850785088509850a850b850d850e850f8510851285148515851685188519851b851c851d851e852085228523852485258526852785288529852a852d852e852f8530853185328533853485358536853e853f8540854185428544854585468547854b854c854d854e854f85508551855285538554855585578558855a855b855c855d855f85608561856285638565856685678569856a856b856c856d856e856f8570857185738575857685778578857c857d857f85808581770176db526980dc57235e08593172ee65bd6e7f8bd75c388671534177f362fe65f64ec098df86805b9e8bc653f277e24f7f5c4e9a7659cb5f0f793a58eb4e1667ff4e8b62ed8a93901d52bf662f55dc566c90024ed54f8d91ca99706c0f5e0260435ba489c68bd56536624b99965b885bff6388552e53d77626517d852c67a268b36b8a62928f9353d482126dd1758f4e668d4e5b70719f85af669166d97f7287009ecd9f205c5e672f8ff06811675f620d7ad658855eb665706f31
    ∷ 0x85828583858685888589858a858b858c858d858e8590859185928593859485958596859785988599859a859d859e859f85a085a185a285a385a585a685a785a985ab85ac85ad85b185b285b385b485b585b685b885ba85bb85bc85bd85be85bf85c085c285c385c485c585c685c785c885ca85cb85cc85cd85ce85d185d285d485d685d785d885d985da85db85dd85de85df85e085e185e285e385e585e685e785e885ea85eb85ec85ed85ee85ef85f085f185f285f385f485f585f685f785f860555237800d6454887075295e05681362f4971c53cc723d8c016c3477617a0e542e77ac987a821c8bf47855671470c165af64955636601d79c153f84e1d6b7b80865bfa55e356db4f3a4f3c99725df3677e80386002988290015b8b8bbc8bf5641c825864de55fd82cf91654fd77d20901f7c9f50f358516eaf5bbf8bc980839178849c7b97867d968b968f7ee59ad3788e5c817a57904296a7795f5b59635f7b0b84d168ad55067f2974107d2295016240584c4ed65b8359795854
    ∷ 0x85f985fa85fc85fd85fe860086018602860386048606860786088609860a860b860c860d860e860f86108612861386148615861786188619861a861b861c861d861e861f86208621862286238624862586268628862a862b862c862d862e862f863086318632863386348635863686378639863a863b863d863e863f8640864186428643864486458646864786488649864a864b864c8652865386558656865786588659865b865c865d865f866086618663866486658666866786688669866a736d631e8e4b8e0f80ce82d462ac53f06cf0915e592a60016c70574d644a8d2a762b6ee9575b6a8075f06f6d8c2d8c0857666bef889278b363a253f970ad6c645858642a580268e0819b55107cd650188eba6dcc8d9f70eb638f6d9b6ed47ee68404684390036dd896768ba85957727985e4817e75bc8a8a68af52548e22951163d098988e44557c4f5366ff568f60d56d9552435c4959296dfb586b7530751c606c82148146631167618fe2773a8df38d3494c15e165385542c70c3
    ∷ 0x866d866f867086728673867486758676867786788683868486858686868786888689868e868f86908691869286948696869786988699869a869b869e869f86a086a186a286a586a686ab86ad86ae86b286b386b786b886b986bb86bc86bd86be86bf86c186c286c386c586c886cc86cd86d286d386d586d686d786da86dc86dd86e086e186e286e386e586e686e786e886ea86eb86ec86ef86f586f686f786fa86fb86fc86fd86ff8701870487058706870b870c870e870f87108711871487166c405ef7505c4ead5ead633a8247901a6850916e77b3540c94dc5f647ae5687663457b527edf75db507762955934900f51f879c37a8156fe5f9290146d825c60571f541051546e4d56e263a89893817f8715892a9000541e5c6f81c062d6625881319e3596409a6e9a7c692d59a562d3553e631654c786d96d3c5a0374e6889c6b6a59168c4c5f2f6e7e73a9987d4e3870f75b8c7897633d665a769660cb5b9b5a494e0781556c6a738b4ea167897f515f8065fa671b5fd859845a01
    ∷ 0x8719871b871d871f87208724872687278728872a872b872c872d872f8730873287338735873687388739873a873c873d8740874187428743874487458746874a874b874d874f8750875187528754875587568758875a875b875c875d875e875f876187628766876787688769876a876b876c876d876f8771877287738775877787788779877a877f878087818784878687878789878a878c878e878f87908791879287948795879687988799879a879b879c879d879e87a087a187a287a387a45dcd5fae537197e68fdd684556f4552f60df4e3a6f4d7ef482c7840e59d44f1f4f2a5c3e7eac672a851a5473754f80c355829b4f4f4d6e2d8c135c096170536b761f6e29868a658795fb7eb9543b7a337d0a95ee55e17fc174ee631d87176da17a9d621165a1536763e16c835deb545c94a84e4c6c618bec5c4b65e0829c68a7543e54346bcb6b664e9463425348821e4f0d4fae575e620a96fe6664726952ff52a1609f8bef661471996790897f785277fd6670563b54389521727a
    ∷ 0x87a587a687a787a987aa87ae87b087b187b287b487b687b787b887b987bb87bc87be87bf87c187c287c387c487c587c787c887c987cc87cd87ce87cf87d087d487d587d687d787d887d987da87dc87dd87de87df87e187e287e387e487e687e787e887e987eb87ec87ed87ef87f087f187f287f387f487f587f687f787f887fa87fb87fc87fd87ff880088018802880488058806880788088809880b880c880d880e880f8810881188128814881788188819881a881c881d881e881f882088237a00606f5e0c6089819d591560dc718470ef6eaa6c5072806a8488ad5e2d4e605ab3559c94e36d177cfb9699620f7ec6778e867e5323971e8f9666875ce14fa072ed4e0b53a6590f54136380952851484ed99c9c7ea454b88d248854823795f26d8e5f265acc663e966973b0732e53bf817a99857fa15baa967796507ebf76f853a2957699997bb189446e584e617fd479658be660f354cd4eab98795df76a6150cf54118c618427785d9704524a54ee56a395006d885bb56dc66653
    ∷ 0x882488258826882788288829882a882b882c882d882e882f88308831883388348835883688378838883a883b883d883e883f8841884288438846884788488849884a884b884e884f8850885188528853885588568858885a885b885c885d885e885f886088668867886a886d886f8871887388748875887688788879887a887b887c88808883888688878889888a888c888e888f88908891889388948895889788988899889a889b889d889e889f88a088a188a388a588a688a788a888a988aa5c0f5b5d6821809655787b11654869544e9b6b47874e978b534f631f643a90aa659c80c18c10519968b0537887f961c86cc46cfb8c225c5185aa82af950c6b238f9b65b05ffb5fc34fe18845661f8165732960fa51745211578b5f6290a2884c91925e78674f602759d3514451f680f853086c7996c4718a4f114fee7f9e673d55c5950879c088967ee3589f620c9700865a5618987b5f908bb884c4915753d965ed5e8f755c60647d6e5a7f7eea7eed8f6955a75ba360ac65cb7384
    ∷ 0x88ac88ae88af88b088b288b388b488b588b688b888b988ba88bb88bd88be88bf88c088c388c488c788c888ca88cb88cc88cd88cf88d088d188d388d688d788da88db88dc88dd88de88e088e188e688e788e988ea88eb88ec88ed88ee88ef88f288f588f688f788fa88fb88fd88ff890089018903890489058906890789088909890b890c890d890e890f891189148915891689178918891c891d891e891f89208922892389248926892789288929892c892d892e892f893189328933893589379009766377297eda9774859b5b667a7496ea884052cb718f5faa65ec8be25bfb9a6f5de16b896c5b8bad8baf900a8fc5538b62bc9e269e2d54404e2b82bd7259869c5d1688596daf96c554d14e9a8bb6710954bd960970df6df976d04e25781487125ca95ef68a00989c960e708e6cbf594463a9773c884d6f148273583071d5538c781a96c155015f6671305bb48c1a9a8c6b83592e9e2f79e76768626c4f6f75a17f8a6d0b96336c274ef075d2517b68376f3e9080817059967476
    ∷ 0x89388939893a893b893c893d893e893f89408942894389458946894789488949894a894b894c894d894e894f8950895189528953895489558956895789588959895a895b895c895d896089618962896389648965896789688969896a896b896c896d896e896f8970897189728973897489758976897789788979897a897c897d897e8980898289848985898789888989898a898b898c898d898e898f8990899189928993899489958996899789988999899a899b899c899d899e899f89a089a164475c2790657a918c2359da54ac8200836f898180006930564e8036723791ce51b64e5f987563964e1a53f666f3814b591c6db24e0058f9533b63d694f14f9d4f0a886398905937905779fb4eea80f075916c825b9c59e85f5d69058681501a5df24e5977e34ee5827a6291661390915c794ebf5f7981c69038808475ab4ea688d4610f6bc55fc64e4976ca6ea28be38bae8c0a8bd15f027ffc7fcc7ece8335836b56e06bb797f3963459fb541f94f66deb5bc5996e5c395f159690
    ∷ 0x89a289a389a489a589a689a789a889a989aa89ab89ac89ad89ae89af89b089b189b289b389b489b589b689b789b889b989ba89bb89bc89bd89be89bf89c089c389cd89d389d489d589d789d889d989db89dd89df89e089e189e289e489e789e889e989ea89ec89ed89ee89f089f189f289f489f589f689f789f889f989fa89fb89fc89fd89fe89ff8a018a028a038a048a058a068a088a098a0a8a0b8a0c8a0d8a0e8a0f8a108a118a128a138a148a158a168a178a188a198a1a8a1b8a1c8a1d537082f16a315a749e705e947f2883b984248425836787478fce8d6276c85f719896786c662054df62e54f6381c375c85eb896cd8e0a86f9548f6cf36d8c6c38607f52c775285e7d4f1860a05fe75c24753190ae94c072b96cb96e389149670953cb53f34f5191c98bf153c85e7c8fc26de44e8e76c26986865e611a82064f594fde903e9c7c61096e1d6e1496854e885a3196e84e0e5c7f79b95b878bed7fbd738957df828b90c15401904755bb5cea5fa161086b3272f180b28a89
    ∷ 0x8a1e8a1f8a208a218a228a238a248a258a268a278a288a298a2a8a2b8a2c8a2d8a2e8a2f8a308a318a328a338a348a358a368a378a388a398a3a8a3b8a3c8a3d8a3f8a408a418a428a438a448a458a468a478a498a4a8a4b8a4c8a4d8a4e8a4f8a508a518a528a538a548a558a568a578a588a598a5a8a5b8a5c8a5d8a5e8a5f8a608a618a628a638a648a658a668a678a688a698a6a8a6b8a6c8a6d8a6e8a6f8a708a718a728a738a748a758a768a778a788a7a8a7b8a7c8a7d8a7e8a7f8a806d745bd388d598848c6b9a6d9e336e0a51a4514357a38881539f63f48f9556ed54585706733f6e907f188fdc82d1613f6028966266f07ea68d8a8dc394a55cb37ca4670860a6960580184e9190e75300966851418fd08574915d665597f55b55531d78386742683d54c9707e5bb08f7d518d572854b1651266828d5e8d43810f846c906d7cdf51ff85fb67a365e96fa186a48e81566a90207682707671e58d2362e952196cfd8d3c600e589e618e66fe8d60624e55b36e23672d8f67
    ∷ []
