-- ===== src/Bibo/Client/Tests.antt =====
-- Midterm_HW3/biboClient.c at concrete inputs.
use advanced_c_language_proj.Base.{List, [], ◌∷◌, none}
use advanced_c_language_proj.Base.Text.{Text, codes}
use advanced_c_language_proj.Bibo.Requests.{Outside}

-- Nothing opens.
abbrev outside : Outside
outside = record { text = λ c. []; ls = codes "a\n"; open_file = λ name. none }

abbrev conversation : List (Text × Text)
conversation = (codes "list", codes "a\n") ∷ (codes "hello", codes "not-command") ∷ []
