-- ===== src/Base/Text/Affixes.antt =====
-- Methods on `str` that take texts off its ends.
use Prim.Native.Nat.{ℕ, zero, suc}
use Prim.Native.Char.{Char}
use Prim.Native.String.{String, [] as ε, ◌∷◌ as ◌▹◌}
use cachi.Base.Tests.{if◌then◌else◌}
use cachi.Base.Equality.{◌==◌, char_eq, string_eq}
use cachi.Base.Text.{length, startswith, rstrip_char}

unfoldable pub drop : ℕ → String → String
drop zero s = s
drop (suc n) ε = ε
drop (suc n) (c ▹ s) = drop n s

-- `s.removeprefix(t)`
unfoldable pub removeprefix : String → String → String
unfolding startswith drop
removeprefix s t = if startswith s t then drop (length t) s else s

-- `s.removesuffix(t)`
unfoldable pub removesuffix : String → String → String
removesuffix ε t = ε
removesuffix (c ▹ s) t = let rest = removesuffix s t in if (c ▹ s) == t then ε else c ▹ rest

unfoldable pub lstrip_char : Char → String → String
lstrip_char d ε = ε
lstrip_char d (c ▹ s) = let rest = lstrip_char d s in if c == d then rest else c ▹ s

-- `s.strip(d)`, for one character
unfoldable pub strip_char : Char → String → String
unfolding lstrip_char rstrip_char
strip_char d s = rstrip_char d (lstrip_char d s)

-- `s.replace(d, e)`, for characters
unfoldable pub replace_char : Char → Char → String → String
replace_char d e ε = ε
replace_char d e (c ▹ s) = (if c == d then e else c) ▹ replace_char d e s
