-- ===== src/Prelude/Ascii.antt =====
-- A text as the codes of its characters.
use Prim.Native.Nat.{ℕ}
use Prim.Native.Char.{code}
use Prim.Native.String.{String, [] as empty, ◌∷◌ as first}
use mathlib.Core.List.{List, [], ◌∷◌}

abbrev pub ascii : String → List ℕ
ascii empty = []
ascii (first c cs) = code c ∷ ascii cs
