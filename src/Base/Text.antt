-- ===== src/Base/Text.antt =====
-- Texts put together from parts, as an f-string does.
use Prim.Native.String.{String, ◌++◌}
use mathlib.Core.List.{List, [], ◌∷◌}

abbrev pub concat : List String → String
concat [] = ""
concat (part ∷ parts) = part ++ concat parts
