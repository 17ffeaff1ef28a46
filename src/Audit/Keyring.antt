-- ===== src/Audit/Keyring.antt =====
-- The maps of verifying keys by id that the log and the verifier look keys up in. A `BTreeMap` is
-- read only by `get` and `contains_key` there, so that the newest entry stands first.
use obsign.Prelude.{
  Bytes, Bool, true, false, Option, none, some, List, [], ◌∷◌, bytes_eq, if◌then◌else◌,
}

abbrev pub KeyMap : Type 0
KeyMap = List (Bytes × Bytes)

unfoldable pub get : Bytes → KeyMap → Option Bytes
get k [] = none
get k ((j, v) ∷ m) = if bytes_eq j k then some v else get k m

unfoldable pub contains_key : Bytes → KeyMap → Bool
contains_key k m = elim (get k m) [ none ↦ false | some v ↦ true ]

abbrev pub insert : Bytes → Bytes → KeyMap → KeyMap
insert k v m = (k, v) ∷ m
