-- ===== src/Wal/Lines.antt =====
-- `BufRead::lines` over the bytes of a file: each line without its "\n" or "\r\n", and whether it is
-- UTF-8, where the iterator gives an error.
use obsign.Prelude.{
  ℕ, ◌≤◌, ◌≡◌, ◌≢◌, refl, ◌∙◌, ap, Bytes, Bool, true, false, ◌&&◌, List, [], ◌∷◌, ◌++◌, append-nil,
  append_assoc, ◌==◌, leb, arith, if◌then◌else◌,
}

-- A "\r" before the "\n" goes too.
unfoldable pub strip_cr : Bytes → Bytes
strip_cr [] = []
strip_cr (b ∷ []) = if b == b'\r' then [] else b ∷ []
strip_cr (b ∷ d ∷ rest) = b ∷ strip_cr (d ∷ rest)

unfoldable pub lines_from : Bytes → Bytes → List Bytes
lines_from [] [] = []
lines_from (b ∷ cur) [] = (b ∷ cur) ∷ []
lines_from cur (b ∷ rest) = elim (b == b'\n') [
  | true ↦ strip_cr cur ∷ lines_from [] rest
  | false ↦ lines_from (cur ++ b ∷ []) rest
]

abbrev pub read_lines : Bytes → List Bytes
read_lines file = lines_from [] file

within : ℕ → ℕ → ℕ → Bool
within lo hi b = leb lo b && leb b hi

-- How many continuation bytes are due, and the range of the next one.
pub data Due : Type 0 where
  start : Due
  more : ℕ → ℕ → ℕ → Due
  bad : Due

lead : ℕ → Due
unfolding within
lead b =
    if leb b 0x7f
    then start
    else if within 0xc2 0xdf b
    then more 0 0x80 0xbf
    else if b == 0xe0
    then more 1 0xa0 0xbf
    else if b == 0xed
    then more 1 0x80 0x9f
    else if within 0xe1 0xef b
    then more 1 0x80 0xbf
    else if b == 0xf0
    then more 2 0x90 0xbf
    else if within 0xf1 0xf3 b
    then more 2 0x80 0xbf
    else if b == 0xf4
    then more 2 0x80 0x8f
    else bad

next_due : Due → ℕ → Due
unfolding lead
next_due start b = lead b
next_due bad b = bad
next_due (more ℕ.zero lo hi) b = if within lo hi b then start else bad
next_due (more (ℕ.suc n) lo hi) b = if within lo hi b then more n 0x80 0xbf else bad

utf8_from : Due → Bytes → Bool
unfolding next_due
utf8_from start [] = true
utf8_from _ [] = false
utf8_from d (b ∷ rest) = utf8_from (next_due d b) rest

-- Whether the bytes are UTF-8, as `String::from_utf8` decides it.
unfoldable pub utf8_valid : Bytes → Bool
unfolding utf8_from
utf8_valid = utf8_from start

-- No control characters: what a JSON printer writes.
abbrev pub NoControl : Bytes → Type 0
NoControl [] = Unit
NoControl (b ∷ rest) = (0x20 ≤ b) × NoControl rest

-- No "\n" and no "\r".
abbrev pub NoNewline : Bytes → Type 0
NoNewline [] = Unit
NoNewline (b ∷ rest) = ((b ≢ b'\n') × (b ≢ b'\r')) × NoNewline rest

pub NoNewline-of_NoControl : (t : Bytes) → NoControl t → NoNewline t
NoNewline-of_NoControl [] h = tt
NoNewline-of_NoControl (b ∷ t) h = (omega arith, NoNewline-of_NoControl t h.1)

pub NoNewline-append : (t u : Bytes) → NoNewline t → NoNewline u → NoNewline (t ++ u)
NoNewline-append [] u h k = k
NoNewline-append (b ∷ t) u h k = (h.0, NoNewline-append t u h.1 k)

strip_cr-NoNewline : (t : Bytes) → NoNewline t → strip_cr t ≡ t
unfolding strip_cr
strip_cr-NoNewline [] h = refl
strip_cr-NoNewline (b ∷ []) h = ground arith
strip_cr-NoNewline (b ∷ d ∷ t) h = ap (◌∷◌ b) (strip_cr-NoNewline (d ∷ t) h.1)

utf8_from-append :
    (t : Bytes) (d : Due) (u : Bytes)
    → utf8_from d t ≡ true
    → utf8_from d (t ++ u) ≡ utf8_from start u
unfolding utf8_from
utf8_from-append [] start u h = refl
utf8_from-append [] (more n lo hi) u h = absurd cc
utf8_from-append [] bad u h = absurd cc
utf8_from-append (b ∷ t) start u h = utf8_from-append t (next_due start b) u h
utf8_from-append (b ∷ t) (more n lo hi) u h = utf8_from-append t (next_due (more n lo hi) b) u h
utf8_from-append (b ∷ t) bad u h = utf8_from-append t bad u h

-- UTF-8 may be cut between characters.
pub utf8_valid-append : (t u : Bytes) → utf8_valid t ≡ true → utf8_valid (t ++ u) ≡ utf8_valid u
unfolding utf8_valid
utf8_valid-append t u h = utf8_from-append t start u h

pub utf8_valid-cons_zero : (u : Bytes) → utf8_valid (0 ∷ u) ≡ utf8_valid u
unfolding utf8_valid
utf8_valid-cons_zero u = refl

not_newline : (b : ℕ) → b ≢ b'\n' → (b == b'\n') ≡ false
not_newline b h = ground arith

lines_from-line :
    (t cur rest : Bytes)
    → NoNewline t
    → lines_from cur (t ++ b'\n' ∷ rest) ≡ strip_cr (cur ++ t) ∷ lines_from [] rest
unfolding lines_from
lines_from-line [] cur rest h = rw append-nil
lines_from-line (b ∷ t) cur rest h =
    rw (not_newline b h.0.0, lines_from)
      (lines_from-line t (cur ++ b ∷ []) rest h.1 ∙ rw append_assoc)

-- The first line of a file that has one.
pub read_lines-line :
    (t rest : Bytes) → NoNewline t → read_lines (t ++ b'\n' ∷ rest) ≡ t ∷ read_lines rest
read_lines-line t rest h = lines_from-line t [] rest h ∙ rw (strip_cr-NoNewline t h)

abbrev whole : Bytes → List Bytes
whole [] = []
whole (b ∷ t) = (b ∷ t) ∷ []

lines_from-end : (t cur : Bytes) → NoNewline t → lines_from cur t ≡ whole (cur ++ t)
unfolding lines_from
lines_from-end [] [] h = refl
lines_from-end [] (b ∷ cur) h = rw append-nil
lines_from-end (b ∷ t) cur h =
    rw (not_newline b h.0.0, lines_from) (lines_from-end t (cur ++ b ∷ []) h.1 ∙ rw append_assoc)

-- What stands behind the last "\n" is a line too, as it is.
pub read_lines-end : (b : ℕ) (t : Bytes) → NoNewline (b ∷ t) → read_lines (b ∷ t) ≡ (b ∷ t) ∷ []
read_lines-end b t h = lines_from-end (b ∷ t) [] h
