-- ===== src/File/Quiet.antt =====
-- A file on which every call works.
use multiplayer.Prelude.{[], refl, false, List, ℕ, ◌≡◌}
use multiplayer.File.{File}

pub record IsQuiet (f : File) : Type 0 where
  pub closed : f.closed ≡ false
  pub outcomes : f.outcomes ≡ []

-- Such a file by its bytes and its position.
abbrev pub quiet : List ℕ → ℕ → File
quiet c p = record { content = c; pos = p; closed = false; outcomes = [] }

pub quiet-IsQuiet : (c : List ℕ) (p : ℕ) → IsQuiet (quiet c p)
quiet-IsQuiet c p = record { closed = refl; outcomes = refl }

pub IsQuiet-quiet : (f : File) → IsQuiet f → f ≡ quiet f.content f.pos
IsQuiet-quiet f q = cc
