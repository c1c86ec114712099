-- ===== src/Hash/TableLow.antt =====
-- The first 128 entries of `BUZ_HASH_TABLE` in src/utils/hash.rs.
use harmonic.Prelude.{ℕ, List, [], ◌∷◌}

abbrev pub table_low : List ℕ
table_low =
    0x5a397884c8e3300d ∷ 0x98b8578de2ebd473 ∷ 0xb79fd97301d8e0d7 ∷ 0xdc1409703c8cf0b3
    ∷ 0xb90008dd3515b2cf ∷ 0x2c322a79d2e35d03 ∷ 0xb1635bb68dda618f ∷ 0xf4c0d55ac434fecc
    ∷ 0xd897fb75949d47fc ∷ 0x7ccf74240bb06796 ∷ 0x3944db4725dceb01 ∷ 0x718b05ac7bbc207b
    ∷ 0xf54c4390e84b38d ∷ 0xd7782b1b9320c2b0 ∷ 0xb61c4eec47554025 ∷ 0x1833ef84895faf03
    ∷ 0x64b5077878d74e52 ∷ 0xa2fcc5fd387e3c9f ∷ 0xdb9b91c274793e35 ∷ 0xbe30573b50abddaf
    ∷ 0x1342b18198b46ade ∷ 0x8ca1a7d05c19e308 ∷ 0x417bf3c91f67bc0c ∷ 0x999d967af2238d8e
    ∷ 0xc7d9c45e17a98efa ∷ 0x1328cd570f5c3478 ∷ 0xc2d0797abb51c1d5 ∷ 0x317177f50c14218c
    ∷ 0x42a69e9454de377e ∷ 0x713e1fff065c0d09 ∷ 0x688d32b1452fcd5a ∷ 0x31e7c9e24d217cf2
    ∷ 0xae8ac0a72328f532 ∷ 0x79cbe5fea04bbacd ∷ 0xc5ae03bc752728b8 ∷ 0xa7a3daa3ef6de4f0
    ∷ 0xb9e20281128d402 ∷ 0x8a3ab49975023241 ∷ 0x9ecea1158e3ddec9 ∷ 0x338b52a8956c531e
    ∷ 0xd46673b6cd823a72 ∷ 0x98ac5cfdd5cace7e ∷ 0x959b04e590c33850 ∷ 0xfec9ab3f442913a7
    ∷ 0x1f4f7f9569229f8e ∷ 0x61236be4aa3b9dbc ∷ 0x77076f2f2a5ed1a1 ∷ 0x2313dd7f8fb11a4a
    ∷ 0x9cee2e0518617b9e ∷ 0x6b6ed12e98f54951 ∷ 0x7542d11bc4b32b56 ∷ 0x26d45586a18add1b
    ∷ 0x1d3b712b370e4f1a ∷ 0x543d4ab2b1f0c820 ∷ 0xdf9e1fb97ad94e53 ∷ 0x5128f99c9ab99bd8
    ∷ 0xb16432663e13f650 ∷ 0xb852e4702bde5545 ∷ 0xdf07740308ba1990 ∷ 0x966b4e2c5afc2d21
    ∷ 0x34b20cfc207751f0 ∷ 0xa002448c4b46a0ec ∷ 0x25c6fe27cb84bf09 ∷ 0xfdab0091646b800e
    ∷ 0xa22286f761f1c8eb ∷ 0x7a87ae5c48e0d0e2 ∷ 0xa3093a9be66351fe ∷ 0x6366d12076d64c1e
    ∷ 0xf74d377c596660bd ∷ 0x8499b2007fe5520 ∷ 0x3f7a7a0abd49997 ∷ 0x1f63a58adb1bbae3
    ∷ 0x2925b5a397c00d68 ∷ 0xd47328e3e665072f ∷ 0x5871e37c26b55dba ∷ 0xb7d4f7680deb440c
    ∷ 0x6b014b66a09359a4 ∷ 0xb2d7356ee95a1dc4 ∷ 0x669051cfbb6e8094 ∷ 0x66881104cae4bee7
    ∷ 0x98e812bdab6978cd ∷ 0x4d7dbfa0e0513ce1 ∷ 0x130ffa995985f5b3 ∷ 0x8f3c73fbf52e81b8
    ∷ 0xe2984f499b56a13a ∷ 0xce8ae69d3216a6de ∷ 0x1ff0c3bfbb50b857 ∷ 0xdd3bba0fa973aab7
    ∷ 0x455bbfd097c7be56 ∷ 0x2cae5dea85190821 ∷ 0xb08d86f3babed56e ∷ 0x59f6bdff0cfb30a1
    ∷ 0x3cf0556a440cf450 ∷ 0x4aa48ac28e7f50b8 ∷ 0x1f239e2bcb04b683 ∷ 0x45be975aae449e99
    ∷ 0xeddea8f0d41f464 ∷ 0x442f79f629db1b39 ∷ 0x7ed45a1671d03055 ∷ 0x7b20524932dbcb51
    ∷ 0x675ca9a2cff5e908 ∷ 0xc00970d44ca3fbc8 ∷ 0x3a4599e26639c64a ∷ 0x70a564e7a92bf63c
    ∷ 0xcc18176d8f4033a3 ∷ 0x7dea59b4dc76738a ∷ 0xfcf2eeea0201ab95 ∷ 0x1cec2b3f862128e4
    ∷ 0x14740781f119ec82 ∷ 0x44c289b8e9c6ba60 ∷ 0xb71b536c058bcc4e ∷ 0x8315659134b04c3a
    ∷ 0x78626f5126da275 ∷ 0x2a79b220963a7796 ∷ 0xd0b9ddc94c9ba7b7 ∷ 0xffe215a1e54d6751
    ∷ 0x58b969e13bf30697 ∷ 0x62e9ddb0cfbbe57a ∷ 0xce2451d71e3b4af0 ∷ 0x837d063a3ca0220f
    ∷ 0x2d4b6007d4aaa5f5 ∷ 0x4e2f1795ba4e17d7 ∷ 0x75722402c7ad3a15 ∷ 0x623cd34609d87fc1
    ∷ 0x70b11ff93d8f9fd0 ∷ 0x77927bfccc63fb9b ∷ 0xc6022e872cfd0dd ∷ 0x358179cfe1f895a9 ∷ []
