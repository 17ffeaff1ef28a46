-- ===== src/Prelude/Maps.antt =====
-- Maps by byte strings, as association lists: the newest entry of a key stands first.

use mathlib.Core.Bool.{Bool, true, false}
use mathlib.Core.Option.{Option, none, some}
use mathlib.Core.List.{List, [], ◌∷◌}
use obsign.Prelude.Buffers.{Bytes, bytes_eq}
use obsign.Prelude.Tests.{if◌then◌else◌}

abbrev pub Map {ℓ} : Type ℓ → Type ℓ
Map V = List (Bytes × V)

unfoldable pub lookup {ℓ} : {V : Type ℓ} → Bytes → Map V → Option V
lookup k [] = none
lookup k ((j, v) ∷ m) = if bytes_eq j k then some v else lookup k m

abbrev pub insert {ℓ} : {V : Type ℓ} → Bytes → V → Map V → Map V
insert k v m = (k, v) ∷ m

unfoldable pub remove {ℓ} : {V : Type ℓ} → Bytes → Map V → Map V
remove k [] = []
remove k ((j, v) ∷ m) = let rest = remove k m in if bytes_eq j k then rest else (j, v) ∷ rest

-- Sets of byte strings, without duplicates.
unfoldable pub contains : Bytes → List Bytes → Bool
contains k [] = false
contains k (j ∷ s) = if bytes_eq j k then true else contains k s

unfoldable pub insert_new : Bytes → List Bytes → List Bytes
insert_new k s = if contains k s then s else k ∷ s

unfoldable pub discard : Bytes → List Bytes → List Bytes
discard k [] = []
discard k (j ∷ s) = let rest = discard k s in if bytes_eq j k then rest else j ∷ rest
