-- ===== src/Audit/Rfc3161.antt =====
-- crates/obsign-audit-core/src/rfc3161.rs: the structural reader of timestamp responses. A cursor is
-- the bytes that are left; a function that advances it returns what it read and the rest.
pub mod Structure
pub mod Parts
use obsign.Prelude.{
  ℕ, zero, suc, ◌+◌, ◌-◌, ◌*◌, ◌%◌, ◌/◌, Bytes, codes, Bool, true, false, not, ◌||◌, Option, none,
  some, List, [], ◌∷◌, ◌++◌, ok, err, ◌>>=◌, ◌>>◌, refuse_if, bytes_eq, ltb, leb, ◌==◌, length,
  take, drop, if◌then◌else◌,
}
use obsign.Audit.Hash.{Hash}
use obsign.Audit.Error.{Result, bad_der, timestamp_rejected}

pub record Anchor : Type 0 where
  pub checkpoint_hash : Hash
  pub token_hex : Bytes
  pub tsa : Option Bytes

pub record TimestampInfo : Type 0 where
  pub status : ℕ
  pub hashed_message : Bytes
  pub gen_time : Option Bytes

abbrev pub oid_id_ct_tst_info : Bytes
oid_id_ct_tst_info = 0x2A ∷ 0x86 ∷ 0x48 ∷ 0x86 ∷ 0xF7 ∷ 0x0D ∷ 0x01 ∷ 0x09 ∷ 0x10 ∷ 0x01 ∷ 0x04 ∷ []

abbrev pub oid_signed_data : Bytes
oid_signed_data = 0x2A ∷ 0x86 ∷ 0x48 ∷ 0x86 ∷ 0xF7 ∷ 0x0D ∷ 0x01 ∷ 0x07 ∷ 0x02 ∷ []

abbrev pub tag_integer : ℕ
tag_integer = 0x02

abbrev pub tag_octet_string : ℕ
tag_octet_string = 0x04

abbrev pub tag_oid : ℕ
tag_oid = 0x06

abbrev pub tag_generalized_time : ℕ
tag_generalized_time = 0x18

abbrev pub tag_sequence : ℕ
tag_sequence = 0x30

abbrev pub tag_set : ℕ
tag_set = 0x31

abbrev pub tag_context_0 : ℕ
tag_context_0 = 0xA0

-- `fold(0, |acc, b| (acc << 8) | b)`; at most 8 bytes, so that nothing is shifted out.
unfoldable pub fold_be : ℕ → Bytes → ℕ
fold_be acc [] = acc
fold_be acc (b ∷ bs) = fold_be (acc * 256 + b) bs

-- The length of the content and that of the header, from the second byte `n`.
unfoldable pub long_length : ℕ → Bytes → Result (ℕ × ℕ)
long_length k b = do
  refuse_if (ltb 4 k || ltb (length b) (2 + k)) (bad_der (codes "truncated length"))
  ok (fold_be 0 (take k (drop 2 b)), 2 + k)

unfoldable pub length_of : ℕ → Bytes → Result (ℕ × ℕ)
length_of n b =
    if ltb n 0x80
    then ok (n, 2)
    else if n == 0x80
    then err (bad_der (codes "indefinite length (BER, not DER)"))
    else long_length (n % 0x80) b

-- The tag, the content, and the rest.
unfoldable pub split_at : ℕ → ℕ → ℕ → Bytes → Result ((ℕ × Bytes) × Bytes)
split_at tag len header b = do
  refuse_if (ltb (length b - header) len) (bad_der (codes "value overruns the buffer"))
  ok ((tag, take len (drop header b)), drop len (drop header b))

unfoldable pub tlv : Bytes → Result ((ℕ × Bytes) × Bytes)
tlv [] = err (bad_der (codes "truncated element"))
tlv (tag ∷ []) = err (bad_der (codes "truncated element"))
tlv (tag ∷ n ∷ more) = do
  refuse_if (tag % 32 == 31) (bad_der (codes "multi-byte tag"))
  sizes ← length_of n (tag ∷ n ∷ more)
  split_at tag sizes.0 sizes.1 (tag ∷ n ∷ more)

-- `{:02X}` of a byte.
unfoldable hex_digit : ℕ → ℕ
hex_digit d = if ltb d 10 then 48 + d else 55 + d

unfoldable hex_byte : ℕ → Bytes
unfolding hex_digit
hex_byte b = hex_digit (b / 16) ∷ hex_digit (b % 16) ∷ []

unfoldable unexpected_tag : Bytes → ℕ → ℕ → Bytes
unfolding hex_byte
unexpected_tag what t tag =
    what ++ codes ": tag 0x" ++ hex_byte t ++ codes ", expected 0x" ++ hex_byte tag

unfoldable pub expect : ℕ → Bytes → Bytes → Result (Bytes × Bytes)
unfolding unexpected_tag
expect tag what b = do
  element ← tlv b
  refuse_if (not (element.0.0 == tag)) (bad_der (unexpected_tag what element.0.0 tag))
  ok (element.0.1, element.1)

abbrev pub is_empty_rest : Bytes → Bool
is_empty_rest [] = true
is_empty_rest _ = false

unfoldable pub finish_der : Bytes → Bytes → Result (Unit {0})
finish_der what rest =
    refuse_if (not (is_empty_rest rest)) (bad_der (what ++ codes ": trailing bytes"))

unfoldable pub int_value : Bytes → Result ℕ
int_value bytes = do
  refuse_if (is_empty_rest bytes || ltb 8 (length bytes)) (bad_der (codes "unusable INTEGER"))
  ok (fold_be 0 bytes)

-- A container that holds one element and nothing behind it.
abbrev pub only : ℕ → Bytes → Bytes → Bytes → Result Bytes
only tag what closing b = do (v, rest) ← expect tag what b; finish_der closing rest; ok v

-- The status, and the rest of the response.
unfoldable pub read_status : Bytes → Result (ℕ × Bytes)
read_status resp = do
  (status_info, resp) ← expect tag_sequence (codes "PKIStatusInfo") resp
  (digits, rest) ← expect tag_integer (codes "PKIStatus") status_info
  status ← int_value digits
  refuse_if (ltb 1 status) (timestamp_rejected status)
  ok (status, resp)

-- The content of the SignedData.
unfoldable pub read_signed_data : Bytes → Result Bytes
read_signed_data resp = do
  content_info ← only tag_sequence (codes "ContentInfo") (codes "TimeStampResp body") resp
  (oid, content_info) ← expect tag_oid (codes "contentType") content_info
  refuse_if (not (bytes_eq oid oid_signed_data))
      (bad_der (codes "contentType is not id-signedData"))
  wrapped ← only tag_context_0 (codes "content [0]") (codes "ContentInfo") content_info
  only tag_sequence (codes "SignedData") (codes "content [0]") wrapped

-- The content of the octet string in the encapContentInfo.
unfoldable pub read_econtent : Bytes → Result Bytes
read_econtent sd = do
  (version, sd) ← expect tag_integer (codes "SignedData.version") sd
  (algorithms, sd) ← expect tag_set (codes "digestAlgorithms") sd
  (eci, sd) ← expect tag_sequence (codes "encapContentInfo") sd
  (oid, eci) ← expect tag_oid (codes "eContentType") eci
  refuse_if (not (bytes_eq oid oid_id_ct_tst_info))
      (bad_der (codes "eContentType is not id-ct-TSTInfo"))
  econtent ← only tag_context_0 (codes "eContent [0]") (codes "encapContentInfo") eci
  only tag_octet_string (codes "eContent") (codes "eContent [0]") econtent

-- The hashed message, and what is behind the imprint.
unfoldable pub read_imprint : Bytes → Result (Bytes × Bytes)
read_imprint tst = do
  (imprint, tst) ← expect tag_sequence (codes "MessageImprint") tst
  (algorithm, imprint) ← expect tag_sequence (codes "hashAlgorithm") imprint
  hashed ← only tag_octet_string (codes "hashedMessage") (codes "MessageImprint") imprint
  ok (hashed, tst)

-- `lossy` is `String::from_utf8_lossy`.
unfoldable pub read_tst : (Bytes → Bytes) → ℕ → Bytes → Result TimestampInfo
read_tst lossy status tst_der = do
  tst ← only tag_sequence (codes "TSTInfo") (codes "eContent OCTET STRING") tst_der
  (version, tst) ← expect tag_integer (codes "TSTInfo.version") tst
  (policy, tst) ← expect tag_oid (codes "TSTInfo.policy") tst
  (hashed, tst) ← read_imprint tst
  (serial, tst) ← expect tag_integer (codes "TSTInfo.serialNumber") tst
  (time, rest) ← expect tag_generalized_time (codes "TSTInfo.genTime") tst
  ok (record { status = status; hashed_message = hashed; gen_time = some (lossy time) })

unfoldable pub parse_timestamp_response : (Bytes → Bytes) → Bytes → Result TimestampInfo
parse_timestamp_response lossy der = do
  resp ← only tag_sequence (codes "TimeStampResp") (codes "TimeStampResp") der
  (status, resp) ← read_status resp
  signed_data ← read_signed_data resp
  tst_der ← read_econtent signed_data
  read_tst lossy status tst_der
