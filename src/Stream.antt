-- ===== src/Stream.antt =====
-- What the program uses of C++ streams: `std::getline` until the end of a file, and `iss >> word`.
pub mod Words
pub mod Lines
use kv_database.Prelude.{
  ℕ, Bool, ◌&&◌, ◌||◌, List, [], ◌∷◌, Bytes, leb, ◌==◌, if◌then◌else◌, newline, space,
}

-- `std::isspace` in the "C" locale: blank, and tab to carriage return.
unfoldable pub is_space : ℕ → Bool
is_space c = c == space || (leb 9 c && leb c 13)

unfoldable pub skip_spaces : Bytes → Bytes
unfolding is_space
skip_spaces [] = []
skip_spaces (c ∷ s) = if is_space c then skip_spaces s else c ∷ s

-- The characters up to the next space, and what follows them.
unfoldable pub take_word : Bytes → Bytes × Bytes
unfolding is_space
take_word [] = ([], [])
take_word (c ∷ s) =
    let (word, rest) = take_word s in if is_space c then ([], c ∷ s) else (c ∷ word, rest)

-- `iss >> word` into an empty `word`, with what it leaves of the input. At the end of the input the
-- stream fails and `word` stays empty.
unfoldable pub read_word : Bytes → Bytes × Bytes
unfolding skip_spaces take_word
read_word s = take_word (skip_spaces s)

-- The line that `c` begins or goes on.
abbrev pub extend_line : ℕ → List Bytes → List Bytes
extend_line c [] = (c ∷ []) ∷ []
extend_line c (line ∷ lines) = (c ∷ line) ∷ lines

-- The lines that `while (std::getline(stream, line))` sees. A last line without its newline counts if
-- it is not empty.
unfoldable pub lines : Bytes → List Bytes
lines [] = []
lines (c ∷ s) = let rest = lines s in if c == newline then [] ∷ rest else extend_line c rest
