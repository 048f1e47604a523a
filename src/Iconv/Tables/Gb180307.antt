-- ===== src/Iconv/Tables/Gb180307.antt =====
-- The rows 84 to 97 of musl-locale/gb18030.h: each is one number, with four hexadecimal digits for
-- an entry of the source.
use android_vshell.Base.{ℕ, List, [], ◌∷◌}

unfoldable pub gb18030_7 : List ℕ
gb18030_7 =
    0x8a818a828a838a848a858a868a878a888a8b8a8c8a8d8a8e8a8f8a908a918a928a948a958a968a978a988a998a9a8a9b8a9c8a9d8a9e8a9f8aa08aa18aa28aa38aa48aa58aa68aa78aa88aa98aaa8aab8aac8aad8aae8aaf8ab08ab18ab28ab38ab48ab58ab68ab78ab88ab98aba8abb8abc8abd8abe8abf8ac08ac18ac28ac38ac48ac58ac68ac78ac88ac98aca8acb8acc8acd8ace8acf8ad08ad18ad28ad38ad48ad58ad68ad78ad88ad98ada8adb8adc8add8ade8adf8ae08ae18ae28ae394e195f87728680569a8548b4e4d70b88bc86458658b5b857a84503a5be877bb6be18a797c986cbe76cf65a98f975d2d5c5586386808536062187ad96e5b7efd6a1f7ae05f706f335f20638c6da867564e085e108d264ed780c07634969c62db662d627e6cbc8d7571677f695146808753ec906e629854f286f08f998005951785178fd96d5973cd659f771f7504782781fb8d1e94884fa6679575b98bca9707632f9547963584b8632377415f8172f04e896014657462ef6b63653f
    ∷ 0x8ae48ae58ae68ae78ae88ae98aea8aeb8aec8aed8aee8aef8af08af18af28af38af48af58af68af78af88af98afa8afb8afc8afd8afe8aff8b008b018b028b038b048b058b068b088b098b0a8b0b8b0c8b0d8b0e8b0f8b108b118b128b138b148b158b168b178b188b198b1a8b1b8b1c8b1d8b1e8b1f8b208b218b228b238b248b258b278b288b298b2a8b2b8b2c8b2d8b2e8b2f8b308b318b328b338b348b358b368b378b388b398b3a8b3b8b3c8b3d8b3e8b3f8b408b418b428b438b448b455e2775c790d18bc1829d679d652f5431871877e580a281026c414e4b7ec7804c76f4690d6b966267503c4f84574063076b628dbe53ea65e87eb85fd7631a63b781f381f47f6e5e1c5cd95236667a79e97a1a8d28709975d46ede6cbb7a924e2d76c55fe0949f88777ec879cd80bf91cd4ef24f17821f54685dde6d328bcc7ca58f7480985e1a549276b15b99663c9aa473e0682a86db6731732a8bf88bdb90107af970db716e62c477a956314e3b845767f152a986c08d2e94f87b51
    ∷ 0x8b468b478b488b498b4a8b4b8b4c8b4d8b4e8b4f8b508b518b528b538b548b558b568b578b588b598b5a8b5b8b5c8b5d8b5e8b5f8b608b618b628b638b648b658b678b688b698b6a8b6b8b6d8b6e8b6f8b708b718b728b738b748b758b768b778b788b798b7a8b7b8b7c8b7d8b7e8b7f8b808b818b828b838b848b858b868b878b888b898b8a8b8b8b8c8b8d8b8e8b8f8b908b918b928b938b948b958b968b978b988b998b9a8b9b8b9c8b9d8b9e8b9f8bac8bb18bbb8bc78bd08bea8c098c1e4f4f6ce8795d9a7b6293722a62fd4e1378168f6c64b08d5a7bc668695e8488c55986649e58ee72b6690e95258ffd8d5857607f008c0651c6634962d95353684c74228301914c55447740707c6d4a517954a88d4459ff6ecb6dc45b5c7d2b4ed47c7d6ed35b5081ea6e0d5b579b0368d58e2a5b977efc603b7eb590b98d70594f63cd79df8db3535265cf79568bc5963b7ec494bb7e825634918967007f6a5c0a907566285de64f5067de505a4f5c57505ea7e810e811e812e813e814
    ∷ 0x8c388c398c3a8c3b8c3c8c3d8c3e8c3f8c408c428c438c448c458c488c4a8c4b8c4d8c4e8c4f8c508c518c528c538c548c568c578c588c598c5b8c5c8c5d8c5e8c5f8c608c638c648c658c668c678c688c698c6c8c6d8c6e8c6f8c708c718c728c748c758c768c778c7b8c7c8c7d8c7e8c7f8c808c818c838c848c868c878c888c8b8c8d8c8e8c8f8c908c918c928c938c958c968c978c998c9a8c9b8c9c8c9d8c9e8c9f8ca08ca18ca28ca38ca48ca58ca68ca78ca88ca98caa8cab8cac8cad4e8d4e0c51404e105eff53454e154e984e1e9b325b6c56694e2879ba4e3f53154e47592d723b536e6c1056df80e499976bd3777e9f174e364e9f9f104e5c4e694e9382885b5b556c560f4ec4538d539d53a353a553ae97658d5d531a53f55326532e533e8d5c5366536352025208520e522d5233523f5240524c525e5261525c84af527d528252815290529351827f544ebb4ec34ec94ec24ee84ee14eeb4ede4f1b4ef34f224f644ef54f254f274f094f2b4f5e4f6765384f5a4f5d
    ∷ 0x8cae8caf8cb08cb18cb28cb38cb48cb58cb68cb78cb88cb98cba8cbb8cbc8cbd8cbe8cbf8cc08cc18cc28cc38cc48cc58cc68cc78cc88cc98cca8ccb8ccc8ccd8cce8ccf8cd08cd18cd28cd38cd48cd58cd68cd78cd88cd98cda8cdb8cdc8cdd8cde8cdf8ce08ce18ce28ce38ce48ce58ce68ce78ce88ce98cea8ceb8cec8ced8cee8cef8cf08cf18cf28cf38cf48cf58cf68cf78cf88cf98cfa8cfb8cfc8cfd8cfe8cff8d008d018d028d038d048d058d068d078d088d098d0a8d0b8d0c8d0d4f5f4f574f324f3d4f764f744f914f894f834f8f4f7e4f7b4faa4f7c4fac4f944fe64fe84fea4fc54fda4fe34fdc4fd14fdf4ff85029504c4ff3502c500f502e502d4ffe501c500c50255028507e504350555048504e506c507b50a550a750a950ba50d6510650ed50ec50e650ee5107510b4edd6c3d4f584f654fce9fa06c467c74516e5dfd9ec999985181591452f9530d8a07531051eb591951554ea051564eb3886e88a44eb5811488d279805b3488037fb851ab51b151bd51bc
    ∷ 0x8d0e8d0f8d108d118d128d138d148d158d168d178d188d198d1a8d1b8d1c8d208d518d528d578d5f8d658d688d698d6a8d6c8d6e8d6f8d718d728d788d798d7a8d7b8d7c8d7d8d7e8d7f8d808d828d838d868d878d888d898d8c8d8d8d8e8d8f8d908d928d938d958d968d978d988d998d9a8d9b8d9c8d9d8d9e8da08da18da28da48da58da68da78da88da98daa8dab8dac8dad8dae8daf8db08db28db68db78db98dbb8dbd8dc08dc18dc28dc58dc78dc88dc98dca8dcd8dd08dd28dd38dd451c7519651a251a58ba08ba68ba78baa8bb48bb58bb78bc28bc38bcb8bcf8bce8bd28bd38bd48bd68bd88bd98bdc8bdf8be08be48be88be98bee8bf08bf38bf68bf98bfc8bff8c008c028c048c078c0c8c0f8c118c128c148c158c168c198c1b8c188c1d8c1f8c208c218c258c278c2a8c2b8c2e8c2f8c328c338c358c365369537a961d962296219631962a963d963c964296499654965f9667966c967296749688968d969796b09097909b909d909990ac90a190b490b390b690ba
    ∷ 0x8dd58dd88dd98ddc8de08de18de28de58de68de78de98ded8dee8df08df18df28df48df68dfc8dfe8dff8e008e018e028e038e048e068e078e088e0b8e0d8e0e8e108e118e128e138e158e168e178e188e198e1a8e1b8e1c8e208e218e248e258e268e278e288e2b8e2d8e308e328e338e348e368e378e388e3b8e3c8e3e8e3f8e438e458e468e4c8e4d8e4e8e4f8e508e538e548e558e568e578e588e5a8e5b8e5c8e5d8e5e8e5f8e608e618e628e638e648e658e678e688e6a8e6b8e6e8e7190b890b090cf90c590be90d090c490c790d390e690e290dc90d790db90eb90ef90fe91049122911e91239131912f913991439146520d594252a252ac52ad52be54ff52d052d652f053df71ee77cd5ef451f551fc9b2f53b65f01755a5def574c57a957a1587e58bc58c558d15729572c572a57335739572e572f575c573b574257695785576b5786577c577b5768576d5776577357ad57a4578c57b257cf57a757b4579357a057d557d857da57d957d257b857f457ef57f857e457dd
    ∷ 0x8e738e758e778e788e798e7a8e7b8e7d8e7e8e808e828e838e848e868e888e898e8a8e8b8e8c8e8d8e8e8e918e928e938e958e968e978e988e998e9a8e9b8e9d8e9f8ea08ea18ea28ea38ea48ea58ea68ea78ea88ea98eaa8ead8eae8eb08eb18eb38eb48eb58eb68eb78eb88eb98ebb8ebc8ebd8ebe8ebf8ec08ec18ec28ec38ec48ec58ec68ec78ec88ec98eca8ecb8ecc8ecd8ecf8ed08ed18ed28ed38ed48ed58ed68ed78ed88ed98eda8edb8edc8edd8ede8edf8ee08ee18ee28ee38ee4580b580d57fd57ed5800581e5819584458205865586c58815889589a588099a89f1961ff8279827d827f828f828a82a88284828e82918297829982ab82b882be82b082c882ca82e3829882b782ae82cb82cc82c182a982b482a182aa829f82c482ce82a482e1830982f782e4830f830782dc82f482d282d8830c82fb82d38311831a83068314831582e082d5831c8351835b835c83088392833c83348331839b835e832f834f83478343835f834083178360832d833a833383668365
    ∷ 0x8ee58ee68ee78ee88ee98eea8eeb8eec8eed8eee8eef8ef08ef18ef28ef38ef48ef58ef68ef78ef88ef98efa8efb8efc8efd8efe8eff8f008f018f028f038f048f058f068f078f088f098f0a8f0b8f0c8f0d8f0e8f0f8f108f118f128f138f148f158f168f178f188f198f1a8f1b8f1c8f1d8f1e8f1f8f208f218f228f238f248f258f268f278f288f298f2a8f2b8f2c8f2d8f2e8f2f8f308f318f328f338f348f358f368f378f388f398f3a8f3b8f3c8f3d8f3e8f3f8f408f418f428f438f448368831b8369836c836a836d836e83b0837883b383b483a083aa8393839c8385837c83b683a9837d83b8837b8398839e83a883ba83bc83c1840183e583d858078418840b83dd83fd83d6841c84388411840683d483df840f840383f883f983ea83c583c0842683f083e1845c8451845a8459847384878488847a84898478843c844684698476848c848e8431846d84c184cd84d084e684bd84d384ca84bf84ba84e084a184b984b4849784e584e3850c750d853884f08539851f853a
    ∷ 0x8f458f468f478f488f498f4a8f4b8f4c8f4d8f4e8f4f8f508f518f528f538f548f558f568f578f588f598f5a8f5b8f5c8f5d8f5e8f5f8f608f618f628f638f648f658f6a8f808f8c8f928f9d8fa08fa18fa28fa48fa58fa68fa78faa8fac8fad8fae8faf8fb28fb38fb48fb58fb78fb88fba8fbb8fbc8fbf8fc08fc38fc68fc98fca8fcb8fcc8fcd8fcf8fd28fd68fd78fda8fe08fe18fe38fe78fec8fef8ff18ff28ff48ff58ff68ffa8ffb8ffc8ffe8fff90079008900c900e9013901590188556853b84ff84fc8559854885688564855e857a77a285438572857b85a485a88587858f857985ae859c858585b985b785b085d385c185dc85ff8627860586298616863c5efe5f08593c594180375955595a5958530f5c225c255c2c5c34624c626a629f62bb62ca62da62d762ee632262f66339634b634363ad63f66371637a638e63b4636d63ac638a636963ae63bc63f263f863e063ff63c463de63ce645263c663be64456441640b641b6420640c64266421645e6484646d6496
    ∷ 0x9019901c902390249025902790289029902a902b902c9030903190329033903490379039903a903d903f904090439045904690489049904a904b904c904e9054905590569059905a905c905d905e905f906090619064906690679069906a906b906c906f90709071907290739076907790789079907a907b907c907e908190849085908690879089908a908c908d908e908f90909092909490969098909a909c909e909f90a090a490a590a790a890a990ab90ad90b290b790bc90bd90bf90c0647a64b764b8649964ba64c064d064d764e464e265096525652e5f0b5fd275195f11535f53f153fd53e953e853fb541254165406544b545254535454545654435421545754595423543254825494547754715464549a549b548454765466549d54d054ad54c254b454d254a754a654d354d4547254a354d554bb54bf54cc54d954da54dc54a954aa54a454dd54cf54de551b54e7552054fd551454f355225523550f55115527552a5567558f55b55549556d55415555553f5550553c
    ∷ 0x90c290c390c690c890c990cb90cc90cd90d290d490d590d690d890d990da90de90df90e090e390e490e590e990ea90ec90ee90f090f190f290f390f590f690f790f990fa90fb90fc90ff91009101910391059106910791089109910a910b910c910d910e910f911091119112911391149115911691179118911a911b911c911d911f91209121912491259126912791289129912a912b912c912d912e91309132913391349135913691379138913a913b913c913d913e913f91409141914291445537555655755576557755335530555c558b55d2558355b155b955885581559f557e55d65591557b55df55bd55be5594559955ea55f755c9561f55d155eb55ec55d455e655dd55c455ef55e555f255f355cc55cd55e855f555e48f94561e5608560c56015624562355fe56005627562d565856395657562c564d56625659565c564c5654568656645671566b567b567c5685569356af56d456d756dd56e156f556eb56f956ff5704570a5709571c5e0f5e195e145e115e315e3b5e3c
    ∷ 0x9145914791489151915391549155915691589159915b915c915f9160916691679168916b916d9173917a917b917c9180918191829183918491869188918a918e918f9193919491959196919791989199919c919d919e919f91a091a191a491a591a691a791a891a991ab91ac91b091b191b291b391b691b791b891b991bb91bc91bd91be91bf91c091c191c291c391c491c591c691c891cb91d091d291d391d491d591d691d791d891d991da91db91dd91de91df91e091e191e291e391e491e55e375e445e545e5b5e5e5e615c8c5c7a5c8d5c905c965c885c985c995c915c9a5c9c5cb55ca25cbd5cac5cab5cb15ca35cc15cb75cc45cd25ce45ccb5ce55d025d035d275d265d2e5d245d1e5d065d1b5d585d3e5d345d3d5d6c5d5b5d6f5d5d5d6b5d4b5d4a5d695d745d825d995d9d8c735db75dc55f735f775f825f875f895f8c5f955f995f9c5fa85fad5fb55fbc88625f6172ad72b072b472b772b872c372c172ce72cd72d272e872ef72e972f272f472f7730172f3730372fa
    ∷ 0x91e691e791e891e991ea91eb91ec91ed91ee91ef91f091f191f291f391f491f591f691f791f891f991fa91fb91fc91fd91fe91ff9200920192029203920492059206920792089209920a920b920c920d920e920f9210921192129213921492159216921792189219921a921b921c921d921e921f9220922192229223922492259226922792289229922a922b922c922d922e922f9230923192329233923492359236923792389239923a923b923c923d923e923f92409241924292439244924572fb731773137321730a731e731d7315732273397325732c733873317350734d73577360736c736f737e821b592598e7592459029963996799689969996a996b996c99749977997d998099849987998a998d999099919993999499955e805e915e8b5e965ea55ea05eb95eb55ebe5eb38d535ed25ed15edb5ee85eea81ba5fc45fc95fd65fcf60035fee60045fe15fe45ffe600560065fea5fed5ff8601960356026601b600f600d6029602b600a603f602160786079607b607a6042
    ∷ []
