-- ===== src/Prelude/Text.antt =====
-- Byte strings: a `std::string` is the list of its bytes, each below 256.
use Prim.Native.Nat.{ℕ}
use Prim.Native.Char.{code}
use Prim.Native.String.{String}
use mathlib.Core.List.{List, [], ◌∷◌}

abbrev pub Bytes : Type 0
Bytes = List ℕ

-- The bytes of an ASCII literal.
abbrev pub codes : String → Bytes
codes String.[] = []
codes (String.◌∷◌ c s) = code c ∷ codes s

abbrev pub insert_word : Bytes
insert_word = codes "INSERT"

abbrev pub get_word : Bytes
get_word = codes "GET"

abbrev pub delete_word : Bytes
delete_word = codes "DELETE"

abbrev pub newline : ℕ
newline = 10

abbrev pub space : ℕ
space = 32
