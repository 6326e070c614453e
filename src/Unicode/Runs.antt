-- ===== src/Unicode/Runs.antt =====
-- Runs of codes, as the tables give them.
use collegium.Prelude.{ℕ, Bool, false, ◌&&◌, ◌||◌, List, [], ◌∷◌, leb}

-- Whether a code stands in one of these runs, each the first code of it and the last.
abbrev pub in_runs : List ℕ → ℕ → Bool
in_runs [] c = false
in_runs (first ∷ []) c = false
in_runs (first ∷ last ∷ runs) c = (leb first c && leb c last) || in_runs runs c
