-- ===== src/Zkp/Constants.antt =====
-- zirgen/compiler/zkp/poseidon2_consts.h: the numbers of rounds and the constants of Poseidon2.
use zirgen.Prelude.{ℕ, List, [], ◌∷◌}

abbrev pub cells : ℕ
cells = 24

abbrev pub rounds_half_full : ℕ
rounds_half_full = 4

abbrev pub rounds_partial : ℕ
rounds_partial = 21

unfoldable pub m_int_diag_hzn : List ℕ
m_int_diag_hzn =
    1083257840 ∷ 375892129 ∷ 111593398 ∷ 1867716110 ∷ 658182609 ∷ 51866717 ∷ 1928969209 ∷ 1942928017
    ∷ 1558116381 ∷ 20525701 ∷ 1188752902 ∷ 106789798 ∷ 1389833583 ∷ 98371040 ∷ 1001081699
    ∷ 1792686146 ∷ 801504236 ∷ 1997365680 ∷ 1461037801 ∷ 65998480 ∷ 1974912880 ∷ 606789471
    ∷ 13683276 ∷ 918610824 ∷ []

unfoldable pub round_constants : List ℕ
round_constants =
    262278199 ∷ 127253399 ∷ 314968988 ∷ 246143118 ∷ 157582794 ∷ 118043943 ∷ 454905424 ∷ 815798990
    ∷ 1004040026 ∷ 1773108264 ∷ 1066694495 ∷ 1930780904 ∷ 1180307149 ∷ 1464793095 ∷ 1660766320
    ∷ 1389166148 ∷ 343354132 ∷ 1307439985 ∷ 638242172 ∷ 525458520 ∷ 1964135730 ∷ 1751797115
    ∷ 1421525369 ∷ 831813382 ∷ 695835963 ∷ 1845603984 ∷ 540703332 ∷ 1333667262 ∷ 1917861751
    ∷ 1170029417 ∷ 1989924532 ∷ 1518763784 ∷ 1339793538 ∷ 622609176 ∷ 686842369 ∷ 1737016378
    ∷ 1282239129 ∷ 897025192 ∷ 716894289 ∷ 1997503974 ∷ 395622276 ∷ 1201063290 ∷ 1917549072
    ∷ 1150912935 ∷ 1687379185 ∷ 1507936940 ∷ 241306552 ∷ 989176635 ∷ 1147522062 ∷ 27129487
    ∷ 1257820264 ∷ 142102402 ∷ 217046702 ∷ 1664590951 ∷ 855276054 ∷ 1215259350 ∷ 946500736
    ∷ 552696906 ∷ 1424297384 ∷ 538103555 ∷ 1608853840 ∷ 162510541 ∷ 623051854 ∷ 1549062383
    ∷ 1908416316 ∷ 1622328571 ∷ 1079030649 ∷ 1584033957 ∷ 1099252725 ∷ 1910423126 ∷ 447555988
    ∷ 862495875 ∷ 128479034 ∷ 1587822577 ∷ 608401422 ∷ 1290028279 ∷ 342857858 ∷ 825405577
    ∷ 427731030 ∷ 1718628547 ∷ 588764636 ∷ 204228775 ∷ 1454563174 ∷ 1740472809 ∷ 1338899225
    ∷ 1269493554 ∷ 53007114 ∷ 1647670797 ∷ 306391314 ∷ 172614232 ∷ 51256176 ∷ 1221257987
    ∷ 1239734761 ∷ 273790406 ∷ 1781980094 ∷ 1291790245 ∷ 497520322 ∷ 0 ∷ 0 ∷ 0 ∷ 0 ∷ 0 ∷ 0 ∷ 0 ∷ 0
    ∷ 0 ∷ 0 ∷ 0 ∷ 0 ∷ 0 ∷ 0 ∷ 0 ∷ 0 ∷ 0 ∷ 0 ∷ 0 ∷ 0 ∷ 0 ∷ 0 ∷ 0 ∷ 1930103076 ∷ 0 ∷ 0 ∷ 0 ∷ 0 ∷ 0 ∷ 0
    ∷ 0 ∷ 0 ∷ 0 ∷ 0 ∷ 0 ∷ 0 ∷ 0 ∷ 0 ∷ 0 ∷ 0 ∷ 0 ∷ 0 ∷ 0 ∷ 0 ∷ 0 ∷ 0 ∷ 0 ∷ 1052077299 ∷ 0 ∷ 0 ∷ 0 ∷ 0
    ∷ 0 ∷ 0 ∷ 0 ∷ 0 ∷ 0 ∷ 0 ∷ 0 ∷ 0 ∷ 0 ∷ 0 ∷ 0 ∷ 0 ∷ 0 ∷ 0 ∷ 0 ∷ 0 ∷ 0 ∷ 0 ∷ 0 ∷ 1540960371 ∷ 0 ∷ 0
    ∷ 0 ∷ 0 ∷ 0 ∷ 0 ∷ 0 ∷ 0 ∷ 0 ∷ 0 ∷ 0 ∷ 0 ∷ 0 ∷ 0 ∷ 0 ∷ 0 ∷ 0 ∷ 0 ∷ 0 ∷ 0 ∷ 0 ∷ 0 ∷ 0 ∷ 924863639
    ∷ 0 ∷ 0 ∷ 0 ∷ 0 ∷ 0 ∷ 0 ∷ 0 ∷ 0 ∷ 0 ∷ 0 ∷ 0 ∷ 0 ∷ 0 ∷ 0 ∷ 0 ∷ 0 ∷ 0 ∷ 0 ∷ 0 ∷ 0 ∷ 0 ∷ 0 ∷ 0
    ∷ 1365519753 ∷ 0 ∷ 0 ∷ 0 ∷ 0 ∷ 0 ∷ 0 ∷ 0 ∷ 0 ∷ 0 ∷ 0 ∷ 0 ∷ 0 ∷ 0 ∷ 0 ∷ 0 ∷ 0 ∷ 0 ∷ 0 ∷ 0 ∷ 0 ∷ 0
    ∷ 0 ∷ 0 ∷ 1726563304 ∷ 0 ∷ 0 ∷ 0 ∷ 0 ∷ 0 ∷ 0 ∷ 0 ∷ 0 ∷ 0 ∷ 0 ∷ 0 ∷ 0 ∷ 0 ∷ 0 ∷ 0 ∷ 0 ∷ 0 ∷ 0 ∷ 0
    ∷ 0 ∷ 0 ∷ 0 ∷ 0 ∷ 440300254 ∷ 0 ∷ 0 ∷ 0 ∷ 0 ∷ 0 ∷ 0 ∷ 0 ∷ 0 ∷ 0 ∷ 0 ∷ 0 ∷ 0 ∷ 0 ∷ 0 ∷ 0 ∷ 0 ∷ 0
    ∷ 0 ∷ 0 ∷ 0 ∷ 0 ∷ 0 ∷ 0 ∷ 1891545577 ∷ 0 ∷ 0 ∷ 0 ∷ 0 ∷ 0 ∷ 0 ∷ 0 ∷ 0 ∷ 0 ∷ 0 ∷ 0 ∷ 0 ∷ 0 ∷ 0 ∷ 0
    ∷ 0 ∷ 0 ∷ 0 ∷ 0 ∷ 0 ∷ 0 ∷ 0 ∷ 0 ∷ 822033215 ∷ 0 ∷ 0 ∷ 0 ∷ 0 ∷ 0 ∷ 0 ∷ 0 ∷ 0 ∷ 0 ∷ 0 ∷ 0 ∷ 0 ∷ 0
    ∷ 0 ∷ 0 ∷ 0 ∷ 0 ∷ 0 ∷ 0 ∷ 0 ∷ 0 ∷ 0 ∷ 0 ∷ 1111544260 ∷ 0 ∷ 0 ∷ 0 ∷ 0 ∷ 0 ∷ 0 ∷ 0 ∷ 0 ∷ 0 ∷ 0 ∷ 0
    ∷ 0 ∷ 0 ∷ 0 ∷ 0 ∷ 0 ∷ 0 ∷ 0 ∷ 0 ∷ 0 ∷ 0 ∷ 0 ∷ 0 ∷ 308575117 ∷ 0 ∷ 0 ∷ 0 ∷ 0 ∷ 0 ∷ 0 ∷ 0 ∷ 0 ∷ 0
    ∷ 0 ∷ 0 ∷ 0 ∷ 0 ∷ 0 ∷ 0 ∷ 0 ∷ 0 ∷ 0 ∷ 0 ∷ 0 ∷ 0 ∷ 0 ∷ 0 ∷ 1708681573 ∷ 0 ∷ 0 ∷ 0 ∷ 0 ∷ 0 ∷ 0 ∷ 0
    ∷ 0 ∷ 0 ∷ 0 ∷ 0 ∷ 0 ∷ 0 ∷ 0 ∷ 0 ∷ 0 ∷ 0 ∷ 0 ∷ 0 ∷ 0 ∷ 0 ∷ 0 ∷ 0 ∷ 1240419708 ∷ 0 ∷ 0 ∷ 0 ∷ 0 ∷ 0
    ∷ 0 ∷ 0 ∷ 0 ∷ 0 ∷ 0 ∷ 0 ∷ 0 ∷ 0 ∷ 0 ∷ 0 ∷ 0 ∷ 0 ∷ 0 ∷ 0 ∷ 0 ∷ 0 ∷ 0 ∷ 0 ∷ 1199068823 ∷ 0 ∷ 0 ∷ 0
    ∷ 0 ∷ 0 ∷ 0 ∷ 0 ∷ 0 ∷ 0 ∷ 0 ∷ 0 ∷ 0 ∷ 0 ∷ 0 ∷ 0 ∷ 0 ∷ 0 ∷ 0 ∷ 0 ∷ 0 ∷ 0 ∷ 0 ∷ 0 ∷ 1186174623 ∷ 0
    ∷ 0 ∷ 0 ∷ 0 ∷ 0 ∷ 0 ∷ 0 ∷ 0 ∷ 0 ∷ 0 ∷ 0 ∷ 0 ∷ 0 ∷ 0 ∷ 0 ∷ 0 ∷ 0 ∷ 0 ∷ 0 ∷ 0 ∷ 0 ∷ 0 ∷ 0
    ∷ 1551596046 ∷ 0 ∷ 0 ∷ 0 ∷ 0 ∷ 0 ∷ 0 ∷ 0 ∷ 0 ∷ 0 ∷ 0 ∷ 0 ∷ 0 ∷ 0 ∷ 0 ∷ 0 ∷ 0 ∷ 0 ∷ 0 ∷ 0 ∷ 0 ∷ 0
    ∷ 0 ∷ 0 ∷ 1886977120 ∷ 0 ∷ 0 ∷ 0 ∷ 0 ∷ 0 ∷ 0 ∷ 0 ∷ 0 ∷ 0 ∷ 0 ∷ 0 ∷ 0 ∷ 0 ∷ 0 ∷ 0 ∷ 0 ∷ 0 ∷ 0 ∷ 0
    ∷ 0 ∷ 0 ∷ 0 ∷ 0 ∷ 1327682690 ∷ 0 ∷ 0 ∷ 0 ∷ 0 ∷ 0 ∷ 0 ∷ 0 ∷ 0 ∷ 0 ∷ 0 ∷ 0 ∷ 0 ∷ 0 ∷ 0 ∷ 0 ∷ 0 ∷ 0
    ∷ 0 ∷ 0 ∷ 0 ∷ 0 ∷ 0 ∷ 0 ∷ 1210751726 ∷ 0 ∷ 0 ∷ 0 ∷ 0 ∷ 0 ∷ 0 ∷ 0 ∷ 0 ∷ 0 ∷ 0 ∷ 0 ∷ 0 ∷ 0 ∷ 0 ∷ 0
    ∷ 0 ∷ 0 ∷ 0 ∷ 0 ∷ 0 ∷ 0 ∷ 0 ∷ 0 ∷ 1810596765 ∷ 0 ∷ 0 ∷ 0 ∷ 0 ∷ 0 ∷ 0 ∷ 0 ∷ 0 ∷ 0 ∷ 0 ∷ 0 ∷ 0 ∷ 0
    ∷ 0 ∷ 0 ∷ 0 ∷ 0 ∷ 0 ∷ 0 ∷ 0 ∷ 0 ∷ 0 ∷ 0 ∷ 53041581 ∷ 723038058 ∷ 1439947916 ∷ 1136469704
    ∷ 205609311 ∷ 1883820770 ∷ 14387587 ∷ 720724951 ∷ 1854174607 ∷ 1629316321 ∷ 530151394
    ∷ 1679178250 ∷ 1549779579 ∷ 48375137 ∷ 976057819 ∷ 463976218 ∷ 875839332 ∷ 1946596189
    ∷ 434078361 ∷ 1878280202 ∷ 1363837384 ∷ 1470845646 ∷ 1792450386 ∷ 1040977421 ∷ 1209164052
    ∷ 714957516 ∷ 390340387 ∷ 1213686459 ∷ 790726260 ∷ 117294666 ∷ 140621810 ∷ 993455846
    ∷ 1889603648 ∷ 78845751 ∷ 925018226 ∷ 708123747 ∷ 1647665372 ∷ 1649953458 ∷ 942439428
    ∷ 1006235079 ∷ 238616145 ∷ 930036496 ∷ 1401020792 ∷ 989618631 ∷ 1545325389 ∷ 1715719711
    ∷ 755691969 ∷ 150307788 ∷ 1567618575 ∷ 1663353317 ∷ 1950429111 ∷ 1891637550 ∷ 192082241
    ∷ 1080533265 ∷ 1463323727 ∷ 890243564 ∷ 158646617 ∷ 1402624179 ∷ 59510015 ∷ 1198261138
    ∷ 1065075039 ∷ 1150410028 ∷ 1293938517 ∷ 76770019 ∷ 1478577620 ∷ 1748789933 ∷ 457372011
    ∷ 1841795381 ∷ 760115692 ∷ 1042892522 ∷ 1507649755 ∷ 1827572010 ∷ 1206940496 ∷ 1896271507
    ∷ 1003792297 ∷ 738091882 ∷ 1124078057 ∷ 1889898 ∷ 813674331 ∷ 228520958 ∷ 1832911930 ∷ 781141772
    ∷ 459826664 ∷ 202271745 ∷ 1296144415 ∷ 1111203133 ∷ 1090783436 ∷ 641665156 ∷ 1393671120
    ∷ 1303271640 ∷ 809508074 ∷ 162506101 ∷ 1262312258 ∷ 1672219447 ∷ 1608891156 ∷ 1380248020 ∷ []
