-- ===== src/Audit/TokenTests.antt =====
-- A small timestamp response, and what is read of it.
use obsign.Prelude.{◌≡◌, refl, ◌≤◌, Bytes, some, [], ◌∷◌, ◌++◌, ok, length}
use obsign.Audit.Rfc3161.{
  TimestampInfo, tag_sequence, fold_be, length_of, split_at, tlv, expect, finish_der, int_value,
  read_status, read_signed_data, read_econtent, read_imprint, read_tst, parse_timestamp_response,
}
use obsign.Audit.Rfc3161.Structure.{IsHeader, Inside}
use obsign.Audit.Rfc3161.Parts.{parse_timestamp_response_sound}

abbrev token : Bytes
token =
    0x30 ∷ 0x44 ∷ 0x30 ∷ 0x3 ∷ 0x2 ∷ 0x1 ∷ 0x0 ∷ 0x30 ∷ 0x3d ∷ 0x6 ∷ 0x9 ∷ 0x2a ∷ 0x86 ∷ 0x48 ∷ 0x86
    ∷ 0xf7 ∷ 0xd ∷ 0x1 ∷ 0x7 ∷ 0x2 ∷ 0xa0 ∷ 0x30 ∷ 0x30 ∷ 0x2e ∷ 0x2 ∷ 0x1 ∷ 0x3 ∷ 0x31 ∷ 0x0 ∷ 0x30
    ∷ 0x27 ∷ 0x6 ∷ 0xb ∷ 0x2a ∷ 0x86 ∷ 0x48 ∷ 0x86 ∷ 0xf7 ∷ 0xd ∷ 0x1 ∷ 0x9 ∷ 0x10 ∷ 0x1 ∷ 0x4
    ∷ 0xa0 ∷ 0x18 ∷ 0x4 ∷ 0x16 ∷ 0x30 ∷ 0x14 ∷ 0x2 ∷ 0x1 ∷ 0x1 ∷ 0x6 ∷ 0x1 ∷ 0x2a ∷ 0x30 ∷ 0x6
    ∷ 0x30 ∷ 0x0 ∷ 0x4 ∷ 0x2 ∷ 0xab ∷ 0xcd ∷ 0x2 ∷ 0x1 ∷ 0x5 ∷ 0x18 ∷ 0x1 ∷ 0x5a ∷ []

abbrev stamped : TimestampInfo
stamped = record { status = 0; hashed_message = 0xAB ∷ 0xCD ∷ []; gen_time = some (0x5A ∷ []) }

token_parses : parse_timestamp_response (λ t. t) token ≡ ok stamped
unfolding fold_be length_of split_at tlv expect finish_der int_value read_status read_signed_data
    read_econtent read_imprint read_tst parse_timestamp_response
token_parses = refl

parse_timestamp_response_sound_example :
    ((header : Bytes) × (resp : Bytes) × (token ≡ header ++ resp)
      × (length header ≤ 6)
      × IsHeader tag_sequence (length resp) header)
    × (stamped.status ≤ 1)
    × Inside stamped.hashed_message token
parse_timestamp_response_sound_example = parse_timestamp_response_sound (λ t. t) token token_parses
