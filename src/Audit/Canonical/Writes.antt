-- ===== src/Audit/Canonical/Writes.antt =====
-- Each operation of the encoder appends the bytes of its item.
use obsign.Prelude.{
  ℕ, ◌≡◌, refl, ◌∙◌, ap, sym, Bytes, ℤ, Option, none, some, List, [], ◌∷◌, ◌++◌, append-nil,
  append_assoc, length,
}
use obsign.Audit.Hash.{Hash}
use obsign.Audit.Canonical.{
  Encoder, u8, u64, i64, str, hash, opt_str, opt_u64, opt_hash, strs, str_seq,
}
use obsign.Audit.Canonical.Items.{
  byte, word, signed, text, raw, maybe_text, maybe_word, maybe_raw, texts, flat, flat_texts,
}

pub u8-flat : (v : ℕ) (e : Encoder) → u8 v e ≡ e ++ flat (byte v)
unfolding u8
u8-flat v e = refl

pub u64-flat : (v : ℕ) (e : Encoder) → u64 v e ≡ e ++ flat (word v)
unfolding u64
u64-flat v e = refl

pub i64-flat : (v : ℤ) (e : Encoder) → i64 v e ≡ e ++ flat (signed v)
unfolding i64
i64-flat v e = refl

pub str-flat : (s : Bytes) (e : Encoder) → str s e ≡ e ++ flat (text s)
unfolding str
str-flat s e = append_assoc e _ s

pub hash-flat : (h : Hash) (e : Encoder) → hash h e ≡ e ++ flat (raw h)
unfolding hash
hash-flat h e = refl

pub opt_str-flat : (o : Option Bytes) (e : Encoder) → opt_str o e ≡ e ++ flat (maybe_text o)
unfolding opt_str
opt_str-flat none e = refl
opt_str-flat (some s) e = simp append_assoc

pub opt_u64-flat : (o : Option ℕ) (e : Encoder) → opt_u64 o e ≡ e ++ flat (maybe_word o)
unfolding opt_u64
opt_u64-flat none e = refl
opt_u64-flat (some n) e = simp append_assoc

pub opt_hash-flat : (o : Option Hash) (e : Encoder) → opt_hash o e ≡ e ++ flat (maybe_raw o)
unfolding opt_hash
opt_hash-flat none e = refl
opt_hash-flat (some h) e = simp append_assoc

strs-flat : (ts : List Bytes) (e : Encoder) → strs ts e ≡ e ++ flat_texts ts
unfolding strs
strs-flat [] e = sym (append-nil e)
strs-flat (t ∷ ts) e = strs-flat ts _ ∙ simp append_assoc

pub str_seq-flat : (ts : List Bytes) (e : Encoder) → str_seq ts e ≡ e ++ flat (texts ts)
unfolding str_seq u64
str_seq-flat ts e = strs-flat ts _ ∙ simp append_assoc

pub ruleset flat_laws = (
  u8-flat, u64-flat, i64-flat, str-flat, hash-flat, opt_str-flat, opt_u64-flat, opt_hash-flat,
  str_seq-flat, append_assoc, append-nil,
)
