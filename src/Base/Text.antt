-- ===== src/Base/Text.antt =====
-- The bytes of ASCII literals, and a memory that holds one at address 0.
use Prim.Native.Nat.{ℕ}
use Prim.Native.Char.{code}
use Prim.Native.String.{String}
use mathlib.Core.List.{List, [], ◌∷◌}
use wio_lite_ai.Base.Lists.{get_or}
use wio_lite_ai.Base.Memory.{Mem}

abbrev pub codes : String → List ℕ
codes String.[] = []
codes (String.◌∷◌ c s) = code c ∷ codes s

abbrev pub load : String → Mem
load s p = get_or (codes s) p 0
