-- ===== src/Audit/Json.antt =====
-- `serde_json::Value`, and the canonical encoding of one (`encode_json` of
-- crates/obsign-audit-core/src/record.rs). A map keeps its insertion order, as the workspace's
-- `preserve_order` has it, and a number keeps its text.
use obsign.Prelude.{
  ℕ, ◌+◌, Bytes, Bool, true, false, List, [], ◌∷◌, ltb, ◌==◌, length, if◌then◌else◌,
}
use obsign.Audit.Canonical.{Encoder, ◌▸◌, u8, u64, str}

mutual
  pub data Json : Type 0 where
    null : Json
    bool : Bool → Json
    number : Bytes → Json
    string : Bytes → Json
    array : Elements → Json
    object : Fields → Json

  pub data Elements : Type 0 where
    nil : Elements
    cons : Json → Elements → Elements

  pub data Fields : Type 0 where
    end : Fields
    field : Bytes → Json → Fields → Fields

abbrev pub count : Elements → ℕ
count nil = 0
count (cons v vs) = count vs + 1

-- `Ord` of strings: byte by byte, a prefix first.
unfoldable pub bytes_le : Bytes → Bytes → Bool
bytes_le [] b = true
bytes_le (x ∷ a) [] = false
bytes_le (x ∷ a) (y ∷ b) = if ltb x y then true else if x == y then bytes_le a b else false

-- One key of a map, and what the loop writes for it.
abbrev pub Entry : Type 0
Entry = Bytes × (Encoder → Encoder)

pub insert_entry : Entry → List Entry → List Entry
insert_entry e [] = e ∷ []
insert_entry e (f ∷ fs) = if bytes_le e.0 f.0 then e ∷ f ∷ fs else f ∷ insert_entry e fs

-- `keys.sort()`.
pub sort_entries : List Entry → List Entry
sort_entries [] = []
sort_entries (e ∷ es) = insert_entry e (sort_entries es)

pub write_entries : List Entry → Encoder → Encoder
write_entries [] e = e
write_entries ((k, write) ∷ es) e = write_entries es (write (e ▸ str k))

abbrev bit : Bool → ℕ
bit true = 1
bit false = 0

unfoldable mutual
  unfolding u8 u64 str bytes_le insert_entry sort_entries write_entries

  pub encode_json : Json → Encoder → Encoder
  encode_json null e = e ▸ u8 0
  encode_json (bool b) e = e ▸ u8 1 ▸ u8 (bit b)
  encode_json (number n) e = e ▸ u8 2 ▸ str n
  encode_json (string s) e = e ▸ u8 3 ▸ str s
  encode_json (array items) e = encode_elements items (e ▸ u8 4 ▸ u64 (count items))
  encode_json (object map) e =
      write_entries (sort_entries (entries map)) (e ▸ u8 5 ▸ u64 (length (entries map)))

  pub encode_elements : Elements → Encoder → Encoder
  encode_elements nil e = e
  encode_elements (cons v vs) e = encode_elements vs (encode_json v e)

  pub entries : Fields → List Entry
  entries end = []
  entries (field k v fs) = (k, (λ e. encode_json v e)) ∷ entries fs
