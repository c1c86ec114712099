-- ===== src/Hash/TableHigh.antt =====
-- The last 128 entries of `BUZ_HASH_TABLE` in src/utils/hash.rs.
use harmonic.Prelude.{ℕ, List, [], ◌∷◌}

abbrev pub table_high : List ℕ
table_high =
    0x957e67d1407c8a7b ∷ 0x189e91d6321c8dac ∷ 0x5537b2ae8ee1a33b ∷ 0x6567ce896c80845d
    ∷ 0x5b3af89d848a0cd6 ∷ 0xff68ea0db592a24a ∷ 0x59afe8996b2af893 ∷ 0x94b7769df739fdfc
    ∷ 0x28b0736adb8109e1 ∷ 0x14419e50149d9215 ∷ 0x2ba5b25d742ce13a ∷ 0x2fa9a5af2949f00d
    ∷ 0x1a6e4fcf47a432a2 ∷ 0x662e8f25dcc38587 ∷ 0x15f08f7bd3f9b13f ∷ 0x798bea071628771
    ∷ 0x88103a17fa1490ef ∷ 0x34dbcd38e4613593 ∷ 0x9d23b5554cb0078b ∷ 0x30c461e733c0be1e
    ∷ 0x66547db8950ddf0b ∷ 0xa7c8fad4ac0c3225 ∷ 0x4104cf2a76d502e2 ∷ 0x1dc72363486eb8f1
    ∷ 0x4caff10ffc674110 ∷ 0xa83b9d179540798 ∷ 0x159767c53bb75c8f ∷ 0xd0d480bcd70e3d3b
    ∷ 0x39805b1547786266 ∷ 0x1de280c254892e82 ∷ 0x231d1e359fb5a0a4 ∷ 0x599d07435981d3c8
    ∷ 0x55f2ed2100079d49 ∷ 0xcca9e3e63d32b2f6 ∷ 0xeb933c101bf7ff40 ∷ 0xf9a9fa6e14e425aa
    ∷ 0xb67f60286318148f ∷ 0x3c617fc50250ec13 ∷ 0xe112c657728f5ae9 ∷ 0x9b162353ec52d169
    ∷ 0xdc555da692cf0b12 ∷ 0xda2c6c970f13273a ∷ 0xc30fd652a5f695aa ∷ 0x63e6abcb94903378
    ∷ 0xa3b82696445f716 ∷ 0x682a0a62458effe9 ∷ 0xd1a5ebbc33b50a56 ∷ 0x4c7525f4f3ea37b5
    ∷ 0x58918de4bfdd22ed ∷ 0x89a7c02700714f08 ∷ 0xc34721d5371ff3c ∷ 0x9e9856e29d459633
    ∷ 0xa94a9f8d9b967e96 ∷ 0x14185877f57a7fba ∷ 0xa0e8ca8be72a5276 ∷ 0xc6585e35f86a67b0
    ∷ 0xe9c20d7a49a9e3a7 ∷ 0xf19537e6130b5660 ∷ 0x359420717d18b194 ∷ 0xb45a2c7545e605b4
    ∷ 0xbb2f3e16c9e2f4f ∷ 0xd75461fab1d0b5a5 ∷ 0x78c3069bcf792194 ∷ 0xf93c0086193f52b2
    ∷ 0xb579bcb05a092019 ∷ 0xa15c90e1315c3f93 ∷ 0x1c11569ac3f283cc ∷ 0x42f5952e5981ccc3
    ∷ 0x7f206fdb44497a18 ∷ 0x2532535678af58e6 ∷ 0x523f0c2c922ea265 ∷ 0x9e712db14e700724
    ∷ 0xd33b901a5e20da53 ∷ 0x5175e63a7a462bf1 ∷ 0x58afceadca83f784 ∷ 0x4adf14b118ea8b0
    ∷ 0x1a0d02436dae1dcd ∷ 0x64f98a9813bcad43 ∷ 0xb27788fd050abcdc ∷ 0x7be54a6bdef5483b
    ∷ 0x32c4222efbc1fc29 ∷ 0xcc960e079dd7c1cf ∷ 0xefbc3c50acfd11d7 ∷ 0xd474895d06398e5b
    ∷ 0xaa37f6aaedee02fe ∷ 0x7ef80b4f6ac758af ∷ 0xe6adc70fc4ca7d9f ∷ 0xdd309db5f335b2d9
    ∷ 0x1d1092cd2135a03d ∷ 0x617a744310ab08ba ∷ 0xed74fe7a9049165b ∷ 0xb687331140079278
    ∷ 0x102efdd3285a4b12 ∷ 0xbb0ed3f251808f31 ∷ 0x25fe9c32305a43fc ∷ 0xc4803e660dbb0e8d
    ∷ 0x3a515febadae121c ∷ 0x30f4316cc0bfc23c ∷ 0x8df4a56fc9678a6f ∷ 0x5135069c5d6e41f3
    ∷ 0x67127720739c77c5 ∷ 0x3868828e331a4ba9 ∷ 0x16444459398bc3a3 ∷ 0xac097b757be40201
    ∷ 0x85383d2589ea986e ∷ 0x3002d5578c615af7 ∷ 0x7b1ac741632235fe ∷ 0x75a671e340e74dbc
    ∷ 0xac0fe4ead80dd56f ∷ 0x99ac5e59a600908e ∷ 0x21a35451def12efd ∷ 0x88dfb63c4b356ffc
    ∷ 0x7840d962717988b5 ∷ 0x8c37764ca7a66fea ∷ 0xa43775d613365401 ∷ 0xe2772843be6b5da7
    ∷ 0x73b72873552ffa22 ∷ 0xb4238cf0eee216ef ∷ 0xc882b27eb9069e79 ∷ 0x6608a425817d5db3
    ∷ 0x4192a8e6a2d07d7e ∷ 0xd69b9ee192b3ec95 ∷ 0xf9c952111cd7c0fa ∷ 0xaeef6f5f8f76a9fa
    ∷ 0xa29980b6f4cd33cc ∷ 0xfc27281d8ca4ab4d ∷ 0xdf7679400fff8e20 ∷ 0x42b28c6ebb778ddc ∷ []
