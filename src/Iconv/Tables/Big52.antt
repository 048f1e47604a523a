-- ===== src/Iconv/Tables/Big52.antt =====
-- The rows 18 to 35 of musl-locale/big5.h: each is one number, with four hexadecimal digits for
-- an entry of the source.
use android_vshell.Base.{ℕ, List, [], ◌∷◌}

unfoldable pub big5_2 : List ℕ
big5_2 =
    0x838683a786555f6a86c786c086b686c486b586c686cb86b186af86c98853889e888888ab88928896888d888b8993898f8a2a8a1d8a238a258a318a2d8a1f8a1b8a228c498c5a8ca98cac8cab8ca88caa8ca78d678d668dbe8dba8edb8edf9019900d901a90179023901f901d90109015901e9020900f90229016901b901490e890ed90fd915791ce91f591e691e391e791ed91e99589966a9675967396789670967496769677966c96c096ea96e97ae07adf980298039b5a9ce59e759e7f9ea59ebb50a2508d508550995091508050965098509a670051f1527252745275526952de52dd52db535a53a5557b558055a7557c558a559d55985582559c55aa55945587558b558355b355ae559f553e55b2559a55bb55ac55b1557e558955ab5599570d582f582a58345824583058315821581d582058f958fa5960
    ∷ 0x5a775a9a5a7f5a925a9b5aa75b735b715bd25bcc5bd35bd05c0a5c0b5c315d4c5d505d345d475dfd5e455e3d5e405e435e7e5eca5ec15ec25ec45f3c5f6d5fa95faa5fa860d160e160b260b660e0611c612360fa611560f060fb60f4616860f1610e60f6610961006112621f624963a3638c63cf63c063e963c963c663cd63d263e363d063e163d663ed63ee637663f463ea63db645263da63f9655e6566656265636591659065af666e667066746676666f6691667a667e667766fe66ff671f671d68fa68d568e068d868d7690568df68f568ee68e768f968d268f268e368cb68cd690d6912690e68c968da696e68fb6b3e6b3a6b3d6b986b966bbc6bef6c2e6c2f6c2c6e2f6e386e546e216e326e676e4a6e206e256e236e1b6e5b6e586e246e566e6e6e2d6e266e6f6e346e4d6e3a6e2c6e436e1d6e3e6ecb
    ∷ 0x6e896e196e4e6e636e446e726e696e5f7119711a7126713071217136716e711c724c728472807336732573347329743a742a743374227425743574367434742f741b7426742875257526756b756a75e275db75e375d975d875de75e0767b767c7696769376b476dc774f77ed785d786c786f7a0d7a087a0b7a057a007a987a977a967ae57ae37b497b567b467b507b527b547b4d7b4b7b4f7b517c9f7ca57d5e7d507d687d557d2b7d6e7d727d617d667d627d707d7355847fd47fd5800b8052808581558154814b8151814e81398146813e814c815381748212821c83e9840383f8840d83e083c5840b83c183ef83f183f48457840a83f0840c83cc83fd83f283ca8438840e840483dc840783d483df865b86df86d986ed86d486db86e486d086de885788c188c288b1898389968a3b8a608a558a5e8a3c8a41
    ∷ 0x8a548a5b8a508a468a348a3a8a368a568c618c828caf8cbc8cb38cbd8cc18cbb8cc08cb48cb78cb68cbf8cb88d8a8d858d818dce8ddd8dcb8dda8dd18dcc8ddb8dc68efb8ef88efc8f9c902e90359031903890329036910290f5910990fe9163916591cf9214921592239209921e920d9210920792119594958f958b959195939592958e968a968e968b967d96859686968d9672968496c196c596c496c696c796ef96f297cc98059806980898e798ea98ef98e998f298ed99ae99ad9ec39ecd9ed14e8250ad50b550b250b350c550be50ac50b750bb50af50c7527f5277527d52df52e652e452e252e3532f55df55e855d355e655ce55dc55c755d155e355e455ef55da55e155c555c655e555c957125713585e585158585857585a5854586b584c586d584a58625852584b59675ac15ac95acc5abe5abd5abc
    ∷ 0x5ab35ac25ab25d695d6f5e4c5e795ec95ec85f125f595fac5fae611a610f6148611f60f3611b60f961016108614e614c6144614d613e61346127610d61066137622162226413643e641e642a642d643d642c640f641c6414640d6436641664176406656c659f65b06697668966876688669666846698668d67036994696d695a697769606954697569306982694a6968696b695e695369796986695d6963695b6b476b726bc06bbf6bd36bfd6ea26eaf6ed36eb66ec26e906e9d6ec76ec56ea56e986ebc6eba6eab6ed16e966e9c6ec46ed46eaa6ea76eb4714e71597169716471497167715c716c7166714c7165715e714671687156723a725273377345733f733e746f745a7455745f745e7441743f7459745b745c75767578760075f0760175f275f175fa75ff75f475f376de76df775b776b7766775e7763
    ∷ 0x7779776a776c775c77657768776277ee788e78b078977898788c7889787c78917893787f797a797f7981842c79bd7a1c7a1a7a207a147a1f7a1e7a9f7aa07b777bc07b607b6e7b677cb17cb37cb57d937d797d917d817d8f7d5b7f6e7f697f6a7f727fa97fa87fa480568058808680848171817081788165816e8173816b8179817a81668205824784828477843d843184758466846b8449846c845b843c8435846184638469846d8446865e865c865f86f9871387088707870086fe86fb870287038706870a885988df88d488d988dc88d888dd88e188ca88d588d2899c89e38a6b8a728a738a668a698a708a878a7c8a638aa08a718a858a6d8a628a6e8a6c8a798a7b8a3e8a688c628c8a8c898cca8cc78cc88cc48cb28cc38cc28cc58de18ddf8de88def8df38dfa8dea8de48de68eb28f038f098efe8f0a
    ∷ 0x8f9f8fb2904b904a905390429054903c905590509047904f904e904d9051903e904191129117916c916a916991c9923792579238923d9240923e925b924b9264925192349249924d92459239923f925a959896989694969596cd96cb96c996ca96f796fb96f996f6975697749776981098119813980a9812980c98fc98f498fd98fe99b399b199b49ae19ce99e829f0e9f139f2050e750ee50e550d650ed50da50d550cf50d150f150ce50e9516251f352835282533153ad55fe5600561b561755fd561456065609560d560e55f75616561f5608561055f6571857165875587e58835893588a58795885587d58fd592559225924596a59695ae15ae65ae95ad75ad65ad85ae35b755bde5be75be15be55be65be85be25be45bdf5c0d5c625d845d875e5b5e635e555e575e545ed35ed65f0a5f465f705fb96147
    ∷ 0x613f614b617761626163615f615a61586175622a64876458645464a46478645f647a645164676434646d647b657265a165d765d666a266a8669d699c69a8699569c169ae69d369cb699b69b769bb69ab69b469d069cd69ad69cc69a669c369a36b496b4c6c336f336f146efe6f136ef46f296f3e6f206f2c6f0f6f026f226eff6eef6f066f316f386f326f236f156f2b6f2f6f886f2a6eec6f016ef26ecc6ef771947199717d718a71847192723e729272967344735074647463746a7470746d750475917627760d760b7609761376e176e37784777d777f776178c1789f78a778b378a978a3798e798f798d7a2e7a317aaa7aa97aed7aef7ba17b957b8b7b757b977b9d7b947b8f7bb87b877b847cb97cbd7cbe7dbb7db07d9c7dbd7dbe7da07dca7db47db27db17dba7da27dbf7db57db87dad7dd27dc77dac
    ∷ 0x7f707fe07fe17fdf805e805a808781508180818f8188818a817f818281e781fa82078214821e824b84c984bf84c684c48499849e84b2849c84cb84b884c084d3849084bc84d184ca873f871c873b872287258734871887558737872988f3890288f488f988f888fd88e8891a88ef8aa68a8c8a9e8aa38a8d8aa18a938aa48aaa8aa58aa88a988a918a9a8aa78c6a8c8d8c8c8cd38cd18cd28d6b8d998d958dfc8f148f128f158f138fa390609058905c90639059905e9062905d905b91199118911e917591789177917492789280928592989296927b9293929c92a8927c929195a195a895a995a395a595a49699969c969b96cc96d29700977c978597f69817981898af98b199039905990c990999c19aaf9ab09ae69b419b429cf49cf69cf39ebc9f3b9f4a5104510050fb50f550f9510251085109510551dc
    ∷ 0x528752885289528d528a52f053b2562e563b56395632563f563456295653564e565756745636562f56305880589f589e58b3589c58ae58a958a6596d5b095afb5b0b5af55b0c5b085bee5bec5be95beb5c645c655d9d5d945e625e5f5e615ee25eda5edf5edd5ee35ee05f485f715fb75fb561766167616e615d61556182617c6170616b617e61a7619061ab618e61ac619a61a4619461ae622e6469646f6479649e64b26488649064b064a56493649564a9649264ae64ad64ab649a64ac649964a264b365756577657866ae66ab66b466b16a236a1f69e86a016a1e6a1969fd6a216a136a0a69f36a026a0569ed6a116b506b4e6ba46bc56bc66f3f6f7c6f846f516f666f546f866f6d6f5b6f786f6e6f8e6f7a6f706f646f976f586ed56f6f6f606f5f719f71ac71b171a87256729b734e73577469748b7483
    ∷ 0x747e7480757f76207629761f7624762676217622769a76ba76e4778e7787778c7791778b78cb78c578ba78ca78be78d578bc78d07a3f7a3c7a407a3d7a377a3b7aaf7aae7bad7bb17bc47bb47bc67bc77bc17ba07bcc7cca7de07df47def7dfb7dd87dec7ddd7de87de37dda7dde7de97d9e7dd97df27df97f757f777faf7fe98026819b819c819d81a0819a81988517853d851a84ee852c852d8513851185238521851484ec852584ff8506878287748776876087668778876887598757874c8753885b885d89108907891289138915890a8abc8ad28ac78ac48a958acb8af88ab28ac98ac28abf8ab08ad68acd8ab68ab98adb8c4c8c4e8c6c8ce08cde8ce68ce48cec8ced8ce28ce38cdc8cea8ce18d6d8d9f8da38e2b8e108e1d8e228e0f8e298e1f8e218e1e8eba8f1d8f1b8f1f8f298f268f2a8f1c8f1e
    ∷ 0x8f259069906e9068906d90779130912d9127913191879189918b918392c592bb92b792ea92ac92e492c192b392bc92d292c792f092b295ad95b197049706970797099760978d978b978f9821982b981c98b3990a99139912991899dd99d099df99db99d199d599d299d99ab79aee9aef9b279b459b449b779b6f9d069d099d039ea99ebe9ece58a89f5251125118511451105115518051aa51dd5291529352f35659566b5679566956645678566a566856655671566f566c5662567658c158be58c758c5596e5b1d5b345b785bf05c0e5f4a61b2619161a9618a61cd61b661be61ca61c8623064c564c164cb64bb64bc64da64c464c764c264cd64bf64d264d464be657466c666c966b966c466c766b86a3d6a386a3a6a596a6b6a586a396a446a626a616a4b6a476a356a5f6a486b596b776c056fc26fb16fa1
    ∷ 0x6fc36fa46fc16fa76fb36fc06fb96fb66fa66fa06fb471be71c971d071d271c871d571b971ce71d971dc71c371c47368749c74a37498749f749e74e2750c750d76347638763a76e776e577a0779e779f77a578e878da78ec78e779a67a4d7a4e7a467a4c7a4b7aba7bd97c117bc97be47bdb7be17be97be67cd57cd67e0a7e117e087e1b7e237e1e7e1d7e097e107f797fb27ff07ff17fee802881b381a981a881fb820882588259854a855985488568856985438549856d856a855e8783879f879e87a2878d8861892a89328925892b892189aa89a68ae68afa8aeb8af18b008adc8ae78aee8afe8b018b028af78aed8af38af68afc8c6b8c6d8c938cf48e448e318e348e428e398e358f3b8f2f8f388f338fa88fa69075907490789072907c907a913491929320933692f89333932f932292fc932b9304931a
    ∷ 0x9310932693219315932e931995bb96a796a896aa96d5970e97119716970d9713970f975b975c9766979898309838983b9837982d9839982499109928991e991b9921991a99ed99e299f19ab89abc9afb9aed9b289b919d159d239d269d289d129d1b9ed89ed49f8d9f9c512a511f5121513252f5568e5680569056855687568f58d558d358d158ce5b305b2a5b245b7a5c375c685dbc5dba5dbd5db85e6b5f4c5fbd61c961c261c761e661cb6232623464ce64ca64d864e064f064e664ec64f164e264ed6582658366d966d66a806a946a846aa26a9c6adb6aa36a7e6a976a906aa06b5c6bae6bda6c086fd86ff16fdf6fe06fdb6fe46feb6fef6f806fec6fe16fe96fd56fee6ff071e771df71ee71e671e571ed71ec71f471e0723572467370737274a974b074a674a876467642764c76ea77b377aa77b077ac
    ∷ 0x77a777ad77ef78f778fa78f478ef790179a779aa7a577abf7c077c0d7bfe7bf77c0c7be07ce07cdc7cde7ce27cdf7cd97cdd7e2e7e3e7e467e377e327e437e2b7e3d7e317e457e417e347e397e487e357e3f7e2f7f447ff37ffc807180728070806f807381c681c381ba81c281c081bf81bd81c981be81e88209827185aa8584857e859c8591859485af859b858785a8858a866787c087d187b387d287c687ab87bb87ba87c887cb893b893689448938893d89ac8b0e8b178b198b1b8b0a8b208b1d8b048b108c418c3f8c738cfa8cfd8cfc8cf88cfb8da88e498e4b8e488e4a8f448f3e8f428f458f3f907f907d9084908190829080913991a3919e919c934d938293289375934a9365934b9318937e936c935b9370935a935495ca95cb95cc95c895c696b196b896d6971c971e97a097d3984698b699359a01
    ∷ 0x99ff9bae9bab9baa9bad9d3b9d3f9e8b9ecf9ede9edc9edd9edb9f3e9f4b53e2569556ae58d958d85b385f5d61e3623364f464f264fe650664fa64fb64f765b766dc67266ab36aac6ac36abb6ab86ac26aae6aaf6b5f6b786baf7009700b6ffe70066ffa7011700f71fb71fc71fe71f87377737574a774bf751576567658765277bd77bf77bb77bc790e79ae7a617a627a607ac47ac57c2b7c277c2a7c1e7c237c217ce77e547e557e5e7e5a7e617e527e597f487ff97ffb8077807681cd81cf820a85cf85a985cd85d085c985b085ba85b985a687ef87ec87f287e0898689b289f48b288b398b2c8b2b8c508d058e598e638e668e648e5f8e558ec08f498f4d90879083908891ab91ac91d09394938a939693a293b393ae93ac93b09398939a939795d495d695d095d596e296dc96d996db96de972497a397a6
    ∷ 0x97ad97f9984d984f984c984e985398ba993e993f993d992e99a59a0e9ac19b039b069b4f9b4e9b4d9bca9bc99bfd9bc89bc09d519d5d9d609ee09f159f2c513356a558de58df58e25bf59f905eec61f261f761f661f56500650f66e066dd6ae56add6ada6ad3701b701f7028701a701d701570187206720d725872a27378737a74bd74ca74e375877586765f766177c7791979b17a6b7a697c3e7c3f7c387c3d7c377c407e6b7e6d7e797e697e6a7f857e737fb67fb97fb881d885e985dd85ea85d585e485e585f787fb8805880d87f987fe8960895f8956895e8b418b5c8b588b498b5a8b4e8b4f8b468b598d088d0a8e7c8e728e878e768e6c8e7a8e748f548f4e8fad908a908b91b191ae93e193d193df93c393c893dc93dd93d693e293cd93d893e493d793e895dc96b496e3972a9727976197dc97fb985e
    ∷ 0x9858985b98bc994599499a169a199b0d9be89be79bd69bdb9d899d619d729d6a9d6c9e929e979e939eb452f856a856b756b656b456bc58e45b405b435b7d5bf65dc961f861fa65186514651966e667276aec703e703070327210737b74cf766276657926792a792c792b7ac77af67c4c7c437c4d7cef7cf08fae7e7d7e7c7e827f4c800081da826685fb85f9861185fa8606860b8607860a88148815896489ba89f88b708b6c8b668b6f8b5f8b6b8d0f8d0d8e898e818e858e8291b491cb9418940393fd95e1973098c49952995199a89a2b9a309a379a359c139c0d9e799eb59ee89f2f9f5f9f639f615137513856c156c056c259145c6c5dcd61fc61fe651d651c659566e96afb6b046afa6bb2704c721b72a774d674d4766977d37c507e8f7e8c7fbc8617862d861a882388228821881f896a896c89bd8b74
    ∷ []
