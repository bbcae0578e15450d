-- ===== src/Vault/Texts.antt =====
-- The texts that src/nagus/state.py and src/nagus/structs.py name, as lists of code points: avatar
-- shapes, names of ages, and the places to which links lead.
use nagus.Prelude.{ℕ, List, [], ◌∷◌, replicate}

abbrev pub female : List ℕ
female = 102 ∷ 101 ∷ 109 ∷ 97 ∷ 108 ∷ 101 ∷ []

abbrev pub male : List ℕ
male = 109 ∷ 97 ∷ 108 ∷ 101 ∷ []

abbrev pub personal : List ℕ
personal = 80 ∷ 101 ∷ 114 ∷ 115 ∷ 111 ∷ 110 ∷ 97 ∷ 108 ∷ []

abbrev pub relto : List ℕ
relto = 82 ∷ 101 ∷ 108 ∷ 116 ∷ 111 ∷ []

abbrev pub possessive : List ℕ
possessive = 39 ∷ 115 ∷ []

abbrev pub possessive_relto : List ℕ
possessive_relto = 39 ∷ 115 ∷ 32 ∷ 82 ∷ 101 ∷ 108 ∷ 116 ∷ 111 ∷ []

abbrev pub neighborhood_age_name : List ℕ
neighborhood_age_name = 78 ∷ 101 ∷ 105 ∷ 103 ∷ 104 ∷ 98 ∷ 111 ∷ 114 ∷ 104 ∷ 111 ∷ 111 ∷ 100 ∷ []

abbrev pub aegura_age_name : List ℕ
aegura_age_name = 99 ∷ 105 ∷ 116 ∷ 121 ∷ []

abbrev pub default_link : List ℕ
default_link =
    68 ∷ 101 ∷ 102 ∷ 97 ∷ 117 ∷ 108 ∷ 116 ∷ 58 ∷ 76 ∷ 105 ∷ 110 ∷ 107 ∷ 73 ∷ 110 ∷ 80 ∷ 111 ∷ 105
    ∷ 110 ∷ 116 ∷ 68 ∷ 101 ∷ 102 ∷ 97 ∷ 117 ∷ 108 ∷ 116 ∷ 58 ∷ 59 ∷ []

abbrev pub ferry_terminal_link : List ℕ
ferry_terminal_link =
    70 ∷ 101 ∷ 114 ∷ 114 ∷ 121 ∷ 32 ∷ 84 ∷ 101 ∷ 114 ∷ 109 ∷ 105 ∷ 110 ∷ 97 ∷ 108 ∷ 58 ∷ 76 ∷ 105
    ∷ 110 ∷ 107 ∷ 73 ∷ 110 ∷ 80 ∷ 111 ∷ 105 ∷ 110 ∷ 116 ∷ 70 ∷ 101 ∷ 114 ∷ 114 ∷ 121 ∷ 58 ∷ 59 ∷ []

-- `ZERO_UUID`
abbrev pub zero_uuid : List ℕ
zero_uuid = replicate 16 0
