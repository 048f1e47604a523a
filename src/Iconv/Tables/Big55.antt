-- ===== src/Iconv/Tables/Big55.antt =====
-- The rows 72 to 88 of musl-locale/big5.h: each is one number, with four hexadecimal digits for
-- an entry of the source.
use android_vshell.Base.{ℕ, List, [], ◌∷◌}

unfoldable pub big5_5 : List ℕ
big5_5 =
    0x567356665663566d5672565e5677571c571b58c858bd58c958bf58ba58c258bc58c65b175b195b1b5b215b145b135b105b165b285b1a5b205b1e5bef5dac5db15da95da75db55db05dae5daa5da85db25dad5daf5db45e675e685e665e6f5ee95ee75ee65ee85ee55f4b5fbc619d61a8619661c561b461c661c161cc61ba61bf61b8618c64d764d664d064cf64c964bd648964c364db64f364d96533657f657c65a266c866be66c066ca66cb66cf66bd66bb66ba66cc67236a346a666a496a676a326a686a3e6a5d6a6d6a766a5b6a516a286a5a6a3b6a3f6a416a6a6a646a506a4f6a546a6f6a696a606a3c6a5e6a566a556a4d6a4e6a466b556b546b566ba76baa6bab6bc86bc76c046c036c066fad6fcb6fa36fc76fbc6fce6fc86f5e6fc46fbd6f9e6fca6fa870046fa56fae6fba6fac6faa6fcf6fbf6fb8
    ∷ 0x6fa26fc96fab6fcd6faf6fb26fb071c571c271bf71b871d671c071c171cb71d471ca71c771cf71bd71d871bc71c671da71db729d729e736973667367736c7365736b736a747f749a74a074947492749574a1750b7580762f762d7631763d7633763c76357632763076bb76e6779a779d77a1779c779b77a277a377957799779778dd78e978e578ea78de78e378db78e178e278ed78df78e079a47a447a487a477ab67ab87ab57ab17ab77bde7be37be77bdd7bd57be57bda7be87bf97bd47bea7be27bdc7beb7bd87bdf7cd27cd47cd77cd07cd17e127e217e177e0c7e1f7e207e137e0e7e1c7e157e1a7e227e0b7e0f7e167e0d7e147e257e247f437f7b7f7c7f7a7fb17fef802a8029806c81b181a681ae81b981b581ab81b081ac81b481b281b781a781f282558256825785568545856b854d855385618558
    ∷ 0x854085468564854185628544855185478563853e855b8571854e856e8575855585678560858c8566855d85548565856c866386658664879b878f87978793879287888781879687988779878787a3878587908791879d87848794879c879a8789891e89268930892d892e89278931892289298923892f892c891f89f18ae08ae28af28af48af58add8b148ae48adf8af08ac88ade8ae18ae88aff8aef8afb8c918c928c908cf58cee8cf18cf08cf38d6c8d6e8da58da78e338e3e8e388e408e458e368e3c8e3d8e418e308e3f8ebd8f368f2e8f358f328f398f378f3490769079907b908690fa913391359136919391909191918d918f9327931e9308931f9306930f937a9338933c931b9323931293019346932d930e930d92cb931d92fa9325931392f992f793349302932492ff932993399335932a9314930c
    ∷ 0x930b92fe9309930092fb931695bc95cd95be95b995ba95b695bf95b595bd96a996d4970b9712971097999797979497f097f89835982f98329924991f99279929999e99ee99ec99e599e499f099e399ea99e999e79ab99abf9ab49abb9af69afa9af99af79b339b809b859b879b7c9b7e9b7b9b829b939b929b909b7a9b959b7d9b889d259d179d209d1e9d149d299d1d9d189d229d109d199d1f9e889e869e879eae9ead9ed59ed69efa9f129f3d51265125512251245120512952f45693568c568d568656845683567e5682567f568158d658d458cf58d25b2d5b255b325b235b2c5b275b265b2f5b2e5b7b5bf15bf25db75e6c5e6a5fbe5fbb61c361b561bc61e761e061e561e461e861de64ef64e964e364eb64e464e86581658065b665da66d26a8d6a966a816aa56a896a9f6a9b6aa16a9e6a876a936a8e
    ∷ 0x6a956a836aa86aa46a916a7f6aa66a9a6a856a8c6a926b5b6bad6c096fcc6fa96ff46fd46fe36fdc6fed6fe76fe66fde6ff26fdd6fe26fe871e171f171e871f271e471f071e27373736e736f749774b274ab749074aa74ad74b174a574af751075117512750f7584764376487649764776a476e977b577ab77b277b777b677b477b177a877f078f378fd790278fb78fc78f2790578f978fe790479ab79a87a5c7a5b7a567a587a547a5a7abe7ac07ac17c057c0f7bf27c007bff7bfb7c0e7bf47c0b7bf37c027c097c037c017bf87bfd7c067bf07bf17c107c0a7ce87e2d7e3c7e427e3398487e387e2a7e497e407e477e297e4c7e307e3b7e367e447e3a7f457f7f7f7e7f7d7ff47ff2802c81bb81c481cc81ca81c581c781bc81e9825b825a825c85838580858f85a7859585a0858b85a3857b85a4859a859e
    ∷ 0x8577857c858985a1857a85788557858e85968586858d8599859d858185a28582858885858579857685988590859f866887be87aa87ad87c587b087ac87b987b587bc87ae87c987c387c287cc87b787af87c487ca87b487b687bf87b887bd87de87b289358933893c893e894189528937894289ad89af89ae89f289f38b1e8b188b168b118b058b0b8b228b0f8b128b158b078b0d8b088b068b1c8b138b1a8c4f8c708c728c718c6f8c958c948cf98d6f8e4e8e4d8e538e508e4c8e478f438f409085907e9138919a91a2919b9199919f91a1919d91a093a1938393af936493569347937c9358935c93769349935093519360936d938f934c936a9379935793559352934f93719377937b9361935e936393679380934e935995c795c095c995c395c595b796ae96b096ac9720971f9718971d9719979a97a1979c
    ∷ 0x979e979d97d597d497f198419844984a9849984598439925992b992c992a99339932992f992d99319930999899a399a19a0299fa99f499f799f999f899f699fb99fd99fe99fc9a039abe9afe9afd9b019afc9b489b9a9ba89b9e9b9b9ba69ba19ba59ba49b869ba29ba09baf9d339d419d679d369d2e9d2f9d319d389d309d459d429d439d3e9d379d409d3d7ff59d2d9e8a9e899e8d9eb09ec89eda9efb9eff9f249f239f229f549fa05131512d512e5698569c5697569a569d569959705b3c5c695c6a5dc05e6d5e6e61d861df61ed61ee61f161ea61f061eb61d661e964ff650464fd64f86501650364fc659465db66da66db66d86ac56ab96abd6ae16ac66aba6ab66ab76ac76ab46aad6b5e6bc96c0b7007700c700d700170057014700e6fff70006ffb70266ffc6ff7700a720171ff71f9720371fd7376
    ∷ 0x74b874c074b574c174be74b674bb74c275147513765c76647659765076537657765a76a676bd76ec77c277ba78ff790c79137914790979107912791179ad79ac7a5f7c1c7c297c197c207c1f7c2d7c1d7c267c287c227c257c307e5c7e507e567e637e587e627e5f7e517e607e577e537fb57fb37ff77ff8807581d181d281d0825f825e85b485c685c085c385c285b385b585bd85c785c485bf85cb85ce85c885c585b185b685d2862485b885b785be866987e787e687e287db87eb87ea87e587df87f387e487d487dc87d387ed87d887e387a487d787d9880187f487e887dd8953894b894f894c89468950895189498b2a8b278b238b338b308b358b478b2f8b3c8b3e8b318b258b378b268b368b2e8b248b3b8b3d8b3a8c428c758c998c988c978cfe8d048d028d008e5c8e628e608e578e568e5e8e658e67
    ∷ 0x8e5b8e5a8e618e5d8e698e548f468f478f488f4b9128913a913b913e91a891a591a791af91aa93b5938c939293b7939b939d938993a7938e93aa939e93a6939593889399939f938d93b1939193b293a493a893b493a393a595d295d395d196b396d796da5dc296df96d896dd97239722972597ac97ae97a897ab97a497aa97a297a597d797d997d697d897fa98509851985298b89941993c993a9a0f9a0b9a099a0d9a049a119a0a9a059a079a069ac09adc9b089b049b059b299b359b4a9b4c9b4b9bc79bc69bc39bbf9bc19bb59bb89bd39bb69bc49bb99bbd9d5c9d539d4f9d4a9d5b9d4b9d599d569d4c9d579d529d549d5f9d589d5a9e8e9e8c9edf9f019f009f169f259f2b9f2a9f299f289f4c9f5551345135529652f753b456ab56ad56a656a756aa56ac58da58dd58db59125b3d5b3e5b3f5dc35e70
    ∷ 0x5fbf61fb65076510650d6509650c650e658465de65dd66de6ae76ae06acc6ad16ad96acb6adf6adc6ad06aeb6acf6acd6ade6b606bb06c0c7019702770207016702b702170227023702970177024701c702a720c720a72077202720572a572a672a472a372a174cb74c574b774c37516766077c977ca77c477f1791d791b7921791c7917791e79b07a677a687c337c3c7c397c2c7c3b7cec7cea7e767e757e787e707e777e6f7e7a7e727e747e687f4b7f4a7f837f867fb77ffd7ffe807881d781d582648261826385eb85f185ed85d985e185e885da85d785ec85f285f885d885df85e385dc85d185f085e685ef85de85e2880087fa880387f687f78809880c880b880687fc880887ff880a88028962895a895b89578961895c8958895d8959898889b789b689f68b508b488b4a8b408b538b568b548b4b8b55
    ∷ 0x8b518b428b528b578c438c778c768c9a8d068d078d098dac8daa8dad8dab8e6d8e788e738e6a8e6f8e7b8ec28f528f518f4f8f508f538fb49140913f91b091ad93de93c793cf93c293da93d093f993ec93cc93d993a993e693ca93d493ee93e393d593c493ce93c093d293e7957d95da95db96e19729972b972c9728972697b397b797b697dd97de97df985c9859985d985798bf98bd98bb98be99489947994399a699a79a1a9a159a259a1d9a249a1b9a229a209a279a239a1e9a1c9a149ac29b0b9b0a9b0e9b0c9b379bea9beb9be09bde9be49be69be29bf09bd49bd79bec9bdc9bd99be59bd59be19bda9d779d819d8a9d849d889d719d809d789d869d8b9d8c9d7d9d6b9d749d759d709d699d859d739d7b9d829d6f9d799d7f9d879d689e949e919ec09efc9f2d9f409f419f4d9f569f579f58533756b2
    ∷ 0x56b556b358e35b455dc65dc75eee5eef5fc05fc161f9651765166515651365df66e866e366e46af36af06aea6ae86af96af16aee6aef703c7035702f70377034703170427038703f703a70397040703b703370417213721472a8737d737c74ba76ab76aa76be76ed77cc77ce77cf77cd77f279257923792779287924792979b27a6e7a6c7a6d7af77c497c487c4a7c477c457cee7e7b7e7e7e817e807fba7fff807981db81d9820b82688269862285ff860185fe861b860085f6860486098605860c85fd8819881088118817881388168963896689b989f78b608b6a8b5d8b688b638b658b678b6d8dae8e868e888e848f598f568f578f558f588f5a908d9143914191b791b591b291b3940b941393fb9420940f941493fe9415941094289419940d93f5940093f79407940e9416941293fa940993f8940a93ff
    ∷ 0x93fc940c93f69411940695de95e095df972e972f97b997bb97fd97fe986098629863985f98c198c29950994e9959994c994b99539a329a349a319a2c9a2a9a369a299a2e9a389a2d9ac79aca9ac69b109b129b119c0b9c089bf79c059c129bf89c409c079c0e9c069c179c149c099d9f9d999da49d9d9d929d989d909d9b9da09d949d9c9daa9d979da19d9a9da29da89d9e9da39dbf9da99d969da69da79e999e9b9e9a9ee59ee49ee79ee69f309f2e9f5b9f609f5e9f5d9f599f91513a51395298529756c356bd56be5b485b475dcb5dcf5ef161fd651b6b026afc6b036af86b0070437044704a7048704970457046721d721a7219737e7517766a77d0792d7931792f7c547c537cf27e8a7e877e887e8b7e867e8d7f4d7fbb803081dd8618862a8626861f8623861c86198627862e862186208629861e8625
    ∷ 0x8829881d881b88208824881c882b884a896d8969896e896b89fa8b798b788b458b7a8b7b8d108d148daf8e8e8e8c8f5e8f5b8f5d91469144914591b9943f943b94369429943d943c94309439942a9437942c9440943195e595e495e39735973a97bf97e1986498c998c698c0995899569a399a3d9a469a449a429a419a3a9a3f9acd9b159b179b189b169b3a9b529c2b9c1d9c1c9c2c9c239c289c299c249c219db79db69dbc9dc19dc79dca9dcf9dbe9dc59dc39dbb9db59dce9db99dba9dac9dc89db19dad9dcc9db39dcd9db29e7a9e9c9eeb9eee9eed9f1b9f189f1a9f319f4e9f659f649f924eb956c656c556cb59715b4b5b4c5dd55dd15ef265216520652665226b0b6b086b096c0d7055705670577052721e721f72a9737f74d874d574d974d7766d76ad793579b47a707a717c577c5c7c597c5b7c5a
    ∷ 0x7cf47cf17e917f4f7f8781de826b863486358633862c86328636882c88288826882a8825897189bf89be89fb8b7e8b848b828b868b858b7f8d158e958e948e9a8e928e908e968e978f608f629147944c9450944a944b944f94479445944894499446973f97e3986a986998cb9954995b9a4e9a539a549a4c9a4f9a489a4a9a499a529a509ad09b199b2b9b3b9b569b559c469c489c3f9c449c399c339c419c3c9c379c349c329c3d9c369ddb9dd29dde9dda9dcb9dd09ddc9dd19ddf9de99dd99dd89dd69df59dd59ddd9eb69ef09f359f339f329f429f6b9f959fa2513d529958e858e759725b4d5dd8882f5f4f62016203620465296525659666eb6b116b126b0f6bca705b705a7222738273817383767077d47c677c667e95826c863a86408639863c8631863b863e88308832882e883389768974897389fe
    ∷ 0x8b8c8b8e8b8b8b888c458d198e988f648f6391bc94629455945d9457945e97c497c598009a569a599b1e9b1f9b209c529c589c509c4a9c4d9c4b9c559c599c4c9c4e9dfb9df79def9de39deb9df89de49df69de19dee9de69df29df09de29dec9df49df39de89ded9ec29ed09ef29ef39f069f1c9f389f379f369f439f4f9f719f709f6e9f6f56d356cd5b4e5c6d652d66ed66ee6b13705f7061705d7060722374db74e577d5793879b779b67c6a7e977f89826d8643883888378835884b8b948b958e9e8e9f8ea08e9d91be91bd91c2946b9468946996e597469743974797c797e59a5e9ad59b599c639c679c669c629c5e9c609e029dfe9e079e039e069e059e009e019e099dff9dfd9e049ea09f1e9f469f749f759f7656d4652e65b86b186b196b176b1a7062722672aa77d877d979397c697c6b7cf67e9a
    ∷ 0x7e987e9b7e9981e081e18646864786488979897a897c897b89ff8b988b998ea58ea48ea3946e946d946f9471947397499872995f9c689c6e9c6d9e0b9e0d9e109e0f9e129e119ea19ef59f099f479f789f7b9f7a9f79571e70667c6f883c8db28ea691c394749478947694759a609c749c739c719c759e149e139ef69f0a9fa4706870657cf7866a883e883d883f8b9e8c9c8ea98ec9974b9873987498cc996199ab9a649a669a679b249e159e179f4862076b1e7227864c8ea89482948094819a699a689b2e9e197229864b8b9f94839c799eb776759a6b9c7a9e1d7069706a9ea49f7e9f499f98788192b988cf58bb60527ca75afa2554256625572560256c2563255a2569255d255225642555255e256a256125582567255b255325652556255f256b256225592568255c25512550256d256e2570256f2593
    ∷ []
