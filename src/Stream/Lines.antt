-- ===== src/Stream/Lines.antt =====
-- Lines of a file, as src/Storage/Persistence.cpp reads them.
use kv_database.Prelude.{◌≡◌, false, [], ◌∷◌, ◌++◌, arith, Bytes, All, newline, ◌==◌}
use kv_database.Stream.{lines}

-- No character ends the line.
abbrev pub IsLine : Bytes → Type 0
IsLine = All (λ c. (c == newline) ≡ false)

pub lines-append :
    (line rest : Bytes) → IsLine line → lines (line ++ newline ∷ rest) ≡ line ∷ lines rest
unfolding lines
lines-append [] rest h = ground arith
lines-append (c ∷ line) rest h = ground (arith, lines-append line rest)
