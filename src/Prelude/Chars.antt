-- ===== src/Prelude/Chars.antt =====
-- The characters of a text, and the text of a list of characters, which run at literals.
use Prim.Native.Char.{Char}
use Prim.Native.String.{String}
use Prim.Native.String.String.{[] as empty, ◌∷◌ as cons}
use mathlib.Core.List.{List, [], ◌∷◌}

abbrev pub chars : String → List Char
chars empty = []
chars (cons c s) = c ∷ chars s
