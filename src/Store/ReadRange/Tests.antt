-- ===== src/Store/ReadRange/Tests.antt =====
-- src/store/ChunkStore.cpp: ranges of an object of four bytes.
use scrollviewer.Base.{ℕ, List, [], ◌∷◌}

abbrev object : List ℕ
object = 1 ∷ 2 ∷ 3 ∷ 4 ∷ []
