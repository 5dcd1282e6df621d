-- ===== src/Tests/Tokens.antt =====
-- The theorem on strtok_r at a text of two words.
use shadow_os.Base.{[], ◌∷◌}
use shadow_os.Memory.Chars.{Chars}

abbrev blank : Chars
blank = b' ' ∷ 0 ∷ []
