-- ===== src/Iconv/Tables/Gb180309.antt =====
-- The rows 112 to 125 of musl-locale/gb18030.h: each is one number, with four hexadecimal digits for
-- an entry of the source.
use android_vshell.Base.{ℕ, List, [], ◌∷◌}

unfoldable pub gb18030_9 : List ℕ
gb18030_9 =
    0x998c998e999a999b999c999d999e999f99a099a199a299a399a499a699a799a999aa99ab99ac99ad99ae99af99b099b199b299b399b499b599b699b799b899b999ba99bb99bc99bd99be99bf99c099c199c299c399c499c599c699c799c899c999ca99cb99cc99cd99ce99cf99d099d199d299d399d499d599d699d799d899d999da99db99dc99dd99de99df99e099e199e299e399e499e599e699e799e899e999ea99eb99ec99ed99ee99ef99f099f199f299f399f499f599f699f799f899f9761b763c762276207640762d7630763f76357643763e7633764d765e7654765c7656766b766f7fca7ae67a787a797a807a867a887a957aa67aa07aac7aa87aad7ab3886488698872887d887f888288a288c688b788bc88c988e288ce88e388e588f1891a88fc88e888fe88f0892189198913891b890a8934892b893689418966897b758b80e576b276b477dc801280148016801c80208022802580268027802980288031800b803580438046804d8052806980718983987898809883
    ∷ 0x99fa99fb99fc99fd99fe99ff9a009a019a029a039a049a059a069a079a089a099a0a9a0b9a0c9a0d9a0e9a0f9a109a119a129a139a149a159a169a179a189a199a1a9a1b9a1c9a1d9a1e9a1f9a209a219a229a239a249a259a269a279a289a299a2a9a2b9a2c9a2d9a2e9a2f9a309a319a329a339a349a359a369a379a389a399a3a9a3b9a3c9a3d9a3e9a3f9a409a419a429a439a449a459a469a479a489a499a4a9a4b9a4c9a4d9a4e9a4f9a509a519a529a539a549a559a569a579a589a599889988c988d988f9894989a989b989e989f98a198a298a598a6864d8654866c866e867f867a867c867b86a8868d868b86ac869d86a786a386aa869386a986b686c486b586ce86b086ba86b186af86c986cf86b486e986f186f286ed86f386d0871386de86f486df86d886d18703870786f88708870a870d87098723873b871e8725872e871a873e87488734873187298737873f87828722877d877e877b87608770874c876e878b87538763877c876487598765879387af87a887d2
    ∷ 0x9a5a9a5b9a5c9a5d9a5e9a5f9a609a619a629a639a649a659a669a679a689a699a6a9a6b9a729a839a899a8d9a8e9a949a959a999aa69aa99aaa9aab9aac9aad9aae9aaf9ab29ab39ab49ab59ab99abb9abd9abe9abf9ac39ac49ac69ac79ac89ac99aca9acd9ace9acf9ad09ad29ad49ad59ad69ad79ad99ada9adb9adc9add9ade9ae09ae29ae39ae49ae59ae79ae89ae99aea9aec9aee9af09af19af29af39af49af59af69af79af89afa9afc9afd9afe9aff9b009b019b029b049b059b0687c68788878587ad8797878387ab87e587ac87b587b387cb87d387bd87d187c087ca87db87ea87e087ee8816881387fe880a881b88218839883c7f367f427f447f4582107afa7afd7b087b037b047b157b0a7b2b7b0f7b477b387b2a7b197b2e7b317b207b257b247b337b3e7b1e7b587b5a7b457b757b4c7b5d7b607b6e7b7b7b627b727b717b907ba67ba77bb87bac7b9d7ba87b857baa7b9c7ba27bab7bb47bd17bc17bcc7bdd7bda7be57be67bea7c0c7bfe7bfc7c0f7c167c0b
    ∷ 0x9b079b099b0a9b0b9b0c9b0d9b0e9b109b119b129b149b159b169b179b189b199b1a9b1b9b1c9b1d9b1e9b209b219b229b249b259b269b279b289b299b2a9b2b9b2c9b2d9b2e9b309b319b339b349b359b369b379b389b399b3a9b3d9b3e9b3f9b409b469b4a9b4b9b4c9b4e9b509b529b539b559b569b579b589b599b5a9b5b9b5c9b5d9b5e9b5f9b609b619b629b639b649b659b669b679b689b699b6a9b6b9b6c9b6d9b6e9b6f9b709b719b729b739b749b759b769b779b789b799b7a9b7b7c1f7c2a7c267c387c417c4081fe82018202820481ec8844822182228223822d822f8228822b8238823b82338234823e82448249824b824f825a825f8268887e8885888888d888df895e7f9d7f9f7fa77faf7fb07fb27c7c65497c917c9d7c9c7c9e7ca27cb27cbc7cbd7cc17cc77ccc7ccd7cc87cc57cd77ce8826e66a87fbf7fce7fd57fe57fe17fe67fe97fee7ff37cf87d777da67dae7e477e9b9eb89eb48d738d848d948d918db18d678d6d8c478c49914a9150914e914f9164
    ∷ 0x9b7c9b7d9b7e9b7f9b809b819b829b839b849b859b869b879b889b899b8a9b8b9b8c9b8d9b8e9b8f9b909b919b929b939b949b959b969b979b989b999b9a9b9b9b9c9b9d9b9e9b9f9ba09ba19ba29ba39ba49ba59ba69ba79ba89ba99baa9bab9bac9bad9bae9baf9bb09bb19bb29bb39bb49bb59bb69bb79bb89bb99bba9bbb9bbc9bbd9bbe9bbf9bc09bc19bc29bc39bc49bc59bc69bc79bc89bc99bca9bcb9bcc9bcd9bce9bcf9bd09bd19bd29bd39bd49bd59bd69bd79bd89bd99bda9bdb9162916191709169916f917d917e917291749179918c91859190918d919191a291a391aa91ad91ae91af91b591b491ba8c559e7e8db88deb8e058e598e698db58dbf8dbc8dba8dc48dd68dd78dda8dde8dce8dcf8ddb8dc68dec8df78df88de38df98dfb8de48e098dfd8e148e1d8e1f8e2c8e2e8e238e2f8e3a8e408e398e358e3d8e318e498e418e428e518e528e4a8e708e768e7c8e6f8e748e858e8f8e948e908e9c8e9e8c788c828c8a8c858c988c94659b89d689de89da89dc
    ∷ 0x9bdc9bdd9bde9bdf9be09be19be29be39be49be59be69be79be89be99bea9beb9bec9bed9bee9bef9bf09bf19bf29bf39bf49bf59bf69bf79bf89bf99bfa9bfb9bfc9bfd9bfe9bff9c009c019c029c039c049c059c069c079c089c099c0a9c0b9c0c9c0d9c0e9c0f9c109c119c129c139c149c159c169c179c189c199c1a9c1b9c1c9c1d9c1e9c1f9c209c219c229c239c249c259c269c279c289c299c2a9c2b9c2c9c2d9c2e9c2f9c309c319c329c339c349c359c369c379c389c399c3a9c3b89e589eb89ef8a3e8b26975396e996f396ef970697019708970f970e972a972d9730973e9f809f839f859f869f879f889f899f8a9f8c9efe9f0b9f0d96b996bc96bd96ce96d277bf96e0928e92ae92c8933e936a93ca938f943e946b9c7f9c829c859c869c879c887a239c8b9c8e9c909c919c929c949c959c9a9c9b9c9e9c9f9ca09ca19ca29ca39ca59ca69ca79ca89ca99cab9cad9cae9cb09cb19cb29cb39cb49cb59cb69cb79cba9cbb9cbc9cbd9cc49cc59cc69cc79cca9ccb
    ∷ 0x9c3c9c3d9c3e9c3f9c409c419c429c439c449c459c469c479c489c499c4a9c4b9c4c9c4d9c4e9c4f9c509c519c529c539c549c559c569c579c589c599c5a9c5b9c5c9c5d9c5e9c5f9c609c619c629c639c649c659c669c679c689c699c6a9c6b9c6c9c6d9c6e9c6f9c709c719c729c739c749c759c769c779c789c799c7a9c7b9c7d9c7e9c809c839c849c899c8a9c8c9c8f9c939c969c979c989c999c9d9caa9cac9caf9cb99cbe9cbf9cc09cc19cc29cc89cc99cd19cd29cda9cdb9ce09ce19ccc9ccd9cce9ccf9cd09cd39cd49cd59cd79cd89cd99cdc9cdd9cdf9ce2977c978597919792979497af97ab97a397b297b49ab19ab09ab79e589ab69aba9abc9ac19ac09ac59ac29acb9acc9ad19b459b439b479b499b489b4d9b5198e8990d992e995599549adf9ae19ae69aef9aeb9afb9aed9af99b089b0f9b139b1f9b239ebd9ebe7e3b9e829e879e889e8b9e9293d69e9d9e9f9edb9edc9edd9ee09edf9ee29ee99ee79ee59eea9eef9f229f2c9f2f9f399f379f3d9f3e9f44
    ∷ 0x9ce39ce49ce59ce69ce79ce89ce99cea9ceb9cec9ced9cee9cef9cf09cf19cf29cf39cf49cf59cf69cf79cf89cf99cfa9cfb9cfc9cfd9cfe9cff9d009d019d029d039d049d059d069d079d089d099d0a9d0b9d0c9d0d9d0e9d0f9d109d119d129d139d149d159d169d179d189d199d1a9d1b9d1c9d1d9d1e9d1f9d209d219d229d239d249d259d269d279d289d299d2a9d2b9d2c9d2d9d2e9d2f9d309d319d329d339d349d359d369d379d389d399d3a9d3b9d3c9d3d9d3e9d3f9d409d419d42e234e235e236e237e238e239e23ae23be23ce23de23ee23fe240e241e242e243e244e245e246e247e248e249e24ae24be24ce24de24ee24fe250e251e252e253e254e255e256e257e258e259e25ae25be25ce25de25ee25fe260e261e262e263e264e265e266e267e268e269e26ae26be26ce26de26ee26fe270e271e272e273e274e275e276e277e278e279e27ae27be27ce27de27ee27fe280e281e282e283e284e285e286e287e288e289e28ae28be28ce28de28ee28fe290e291
    ∷ 0x9d439d449d459d469d479d489d499d4a9d4b9d4c9d4d9d4e9d4f9d509d519d529d539d549d559d569d579d589d599d5a9d5b9d5c9d5d9d5e9d5f9d609d619d629d639d649d659d669d679d689d699d6a9d6b9d6c9d6d9d6e9d6f9d709d719d729d739d749d759d769d779d789d799d7a9d7b9d7c9d7d9d7e9d7f9d809d819d829d839d849d859d869d879d889d899d8a9d8b9d8c9d8d9d8e9d8f9d909d919d929d939d949d959d969d979d989d999d9a9d9b9d9c9d9d9d9e9d9f9da09da19da2e292e293e294e295e296e297e298e299e29ae29be29ce29de29ee29fe2a0e2a1e2a2e2a3e2a4e2a5e2a6e2a7e2a8e2a9e2aae2abe2ace2ade2aee2afe2b0e2b1e2b2e2b3e2b4e2b5e2b6e2b7e2b8e2b9e2bae2bbe2bce2bde2bee2bfe2c0e2c1e2c2e2c3e2c4e2c5e2c6e2c7e2c8e2c9e2cae2cbe2cce2cde2cee2cfe2d0e2d1e2d2e2d3e2d4e2d5e2d6e2d7e2d8e2d9e2dae2dbe2dce2dde2dee2dfe2e0e2e1e2e2e2e3e2e4e2e5e2e6e2e7e2e8e2e9e2eae2ebe2ece2ede2eee2ef
    ∷ 0x9da39da49da59da69da79da89da99daa9dab9dac9dad9dae9daf9db09db19db29db39db49db59db69db79db89db99dba9dbb9dbc9dbd9dbe9dbf9dc09dc19dc29dc39dc49dc59dc69dc79dc89dc99dca9dcb9dcc9dcd9dce9dcf9dd09dd19dd29dd39dd49dd59dd69dd79dd89dd99dda9ddb9ddc9ddd9dde9ddf9de09de19de29de39de49de59de69de79de89de99dea9deb9dec9ded9dee9def9df09df19df29df39df49df59df69df79df89df99dfa9dfb9dfc9dfd9dfe9dff9e009e019e02e2f0e2f1e2f2e2f3e2f4e2f5e2f6e2f7e2f8e2f9e2fae2fbe2fce2fde2fee2ffe300e301e302e303e304e305e306e307e308e309e30ae30be30ce30de30ee30fe310e311e312e313e314e315e316e317e318e319e31ae31be31ce31de31ee31fe320e321e322e323e324e325e326e327e328e329e32ae32be32ce32de32ee32fe330e331e332e333e334e335e336e337e338e339e33ae33be33ce33de33ee33fe340e341e342e343e344e345e346e347e348e349e34ae34be34ce34d
    ∷ 0x9e039e049e059e069e079e089e099e0a9e0b9e0c9e0d9e0e9e0f9e109e119e129e139e149e159e169e179e189e199e1a9e1b9e1c9e1d9e1e9e249e279e2e9e309e349e3b9e3c9e409e4d9e509e529e539e549e569e599e5d9e5f9e609e619e629e659e6e9e6f9e729e749e759e769e779e789e799e7a9e7b9e7c9e7d9e809e819e839e849e859e869e899e8a9e8c9e8d9e8e9e8f9e909e919e949e959e969e979e989e999e9a9e9b9e9c9e9e9ea09ea19ea29ea39ea49ea59ea79ea89ea99eaae34ee34fe350e351e352e353e354e355e356e357e358e359e35ae35be35ce35de35ee35fe360e361e362e363e364e365e366e367e368e369e36ae36be36ce36de36ee36fe370e371e372e373e374e375e376e377e378e379e37ae37be37ce37de37ee37fe380e381e382e383e384e385e386e387e388e389e38ae38be38ce38de38ee38fe390e391e392e393e394e395e396e397e398e399e39ae39be39ce39de39ee39fe3a0e3a1e3a2e3a3e3a4e3a5e3a6e3a7e3a8e3a9e3aae3ab
    ∷ 0x9eab9eac9ead9eae9eaf9eb09eb19eb29eb39eb59eb69eb79eb99eba9ebc9ebf9ec09ec19ec29ec39ec59ec69ec79ec89eca9ecb9ecc9ed09ed29ed39ed59ed69ed79ed99eda9ede9ee19ee39ee49ee69ee89eeb9eec9eed9eee9ef09ef19ef29ef39ef49ef59ef69ef79ef89efa9efd9eff9f009f019f029f039f049f059f069f079f089f099f0a9f0c9f0f9f119f129f149f159f169f189f1a9f1b9f1c9f1d9f1e9f1f9f219f239f249f259f269f279f289f299f2a9f2b9f2d9f2e9f309f31e3ace3ade3aee3afe3b0e3b1e3b2e3b3e3b4e3b5e3b6e3b7e3b8e3b9e3bae3bbe3bce3bde3bee3bfe3c0e3c1e3c2e3c3e3c4e3c5e3c6e3c7e3c8e3c9e3cae3cbe3cce3cde3cee3cfe3d0e3d1e3d2e3d3e3d4e3d5e3d6e3d7e3d8e3d9e3dae3dbe3dce3dde3dee3dfe3e0e3e1e3e2e3e3e3e4e3e5e3e6e3e7e3e8e3e9e3eae3ebe3ece3ede3eee3efe3f0e3f1e3f2e3f3e3f4e3f5e3f6e3f7e3f8e3f9e3fae3fbe3fce3fde3fee3ffe400e401e402e403e404e405e406e407e408e409
    ∷ 0x9f329f339f349f359f369f389f3a9f3c9f3f9f409f419f429f439f459f469f479f489f499f4a9f4b9f4c9f4d9f4e9f4f9f529f539f549f559f569f579f589f599f5a9f5b9f5c9f5d9f5e9f5f9f609f619f629f639f649f659f669f679f689f699f6a9f6b9f6c9f6d9f6e9f6f9f709f719f729f739f749f759f769f779f789f799f7a9f7b9f7c9f7d9f7e9f819f829f8d9f8e9f8f9f909f919f929f939f949f959f969f979f989f9c9f9d9f9e9fa19fa29fa39fa49fa5f92cf979f995f9e7f9f1e40ae40be40ce40de40ee40fe410e411e412e413e414e415e416e417e418e419e41ae41be41ce41de41ee41fe420e421e422e423e424e425e426e427e428e429e42ae42be42ce42de42ee42fe430e431e432e433e434e435e436e437e438e439e43ae43be43ce43de43ee43fe440e441e442e443e444e445e446e447e448e449e44ae44be44ce44de44ee44fe450e451e452e453e454e455e456e457e458e459e45ae45be45ce45de45ee45fe460e461e462e463e464e465e466e467
    ∷ 0xfa0cfa0dfa0efa0ffa11fa13fa14fa18fa1ffa20fa21fa23fa24fa27fa28fa292e81e816e817e8182e84347334472e882e8be81e359e361a360e2e8c2e97396e3918e82639cf39df3a7339d0e82be82c3b4e3c6e3ce02ea7e831e8322eaa4056415f2eae43372eb32eb62eb7e83b43b143ac2ebb43dd44d64661464ce84347234729477c478d2eca4947497a497d4982498349854986499f499b49b749b6e854e8554ca34c9f4ca04ca14c774ca24d134d144d154d164d174d184d194daee864e468e469e46ae46be46ce46de46ee46fe470e471e472e473e474e475e476e477e478e479e47ae47be47ce47de47ee47fe480e481e482e483e484e485e486e487e488e489e48ae48be48ce48de48ee48fe490e491e492e493e494e495e496e497e498e499e49ae49be49ce49de49ee49fe4a0e4a1e4a2e4a3e4a4e4a5e4a6e4a7e4a8e4a9e4aae4abe4ace4ade4aee4afe4b0e4b1e4b2e4b3e4b4e4b5e4b6e4b7e4b8e4b9e4bae4bbe4bce4bde4bee4bfe4c0e4c1e4c2e4c3e4c4e4c5
    ∷ []
