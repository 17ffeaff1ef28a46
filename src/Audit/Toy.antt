-- ===== src/Audit/Toy.antt =====
-- Concrete functions in the place of the crates, and a few records: the inputs of the tests.
use obsign.Prelude.{
  ℕ, ◌+◌, ◌*◌, ◌%◌, ◌^◌, refl, Bytes, codes, pos, true, none, some, [], ◌∷◌, ◌++◌, bytes_eq,
  bytes_eq_iff, replicate, arith,
}
use obsign.Crypto.{Crypto, CryptoLaws}
use obsign.Audit.Canonical.{to_be_bytes}
use obsign.Audit.Canonical.Words.{length-to_be_bytes}
use obsign.Audit.Payload.{EffectStatus, Payload, effect, tool_call}
use obsign.Audit.Chain.{Draft}
use obsign.Audit.Hash.{genesis}
use obsign.Audit.Record.{Record, record_hash}
use obsign.Audit.Record.Binding.{IsEncodable, record_hash-IsHash}

abbrev checksum : Bytes → ℕ
checksum [] = 7
checksum (b ∷ rest) = (checksum rest * 263 + b) % 2 ^ 61

instance abbrev pub toy : Crypto
toy = record {
  sha256 = λ b. to_be_bytes 32 (checksum b);
  hex_decode = λ b. some b;
  hex_encode = λ b. b;
  is_point = λ b. true;
  ed25519_verify = λ k m s. bytes_eq s (to_be_bytes 64 (checksum (k ++ m)));
  ed25519_sign = λ k m. to_be_bytes 64 (checksum (k ++ m));
  ed25519_public = λ k. k;
}

pub toy_laws : CryptoLaws toy
toy_laws = record {
  length-sha256 = λ b. length-to_be_bytes 32 (checksum b);
  hex_decode-hex_encode = λ b. refl;
  length-ed25519_sign = λ k m. length-to_be_bytes 64 (checksum (k ++ m));
  verify-sign = λ k m. (bytes_eq_iff (toy.ed25519_sign k m) (toy.ed25519_sign k m)).1 refl;
}

abbrev pub call : Payload
call = tool_call (record {
  server = codes "crm";
  tool = codes "lookup";
  args_hash = replicate 32 9;
  args_sealed = none;
})

abbrev pub done : Payload
done =
    effect
      (record { status = EffectStatus.ok; result_hash = some (replicate 32 5); latency_ms = 12 })

abbrev pub draft : Payload → Draft
draft p = record {
  ts_ms = pos 1000;
  id = codes "r";
  parent_id = none;
  session_id = codes "s";
  payload = p;
}

abbrev pub first : Record
first = record {
  seq = 0;
  ts_ms = pos 1000;
  prev_hash = genesis;
  id = codes "r0";
  parent_id = none;
  session_id = codes "s";
  payload = call;
}

abbrev pub second : Record
second = record {
  seq = 1;
  ts_ms = pos 1001;
  prev_hash = record_hash first;
  id = codes "r1";
  parent_id = some (codes "r0");
  session_id = codes "s";
  payload = done;
}

pub first-IsEncodable : IsEncodable first
first-IsEncodable = record {
  fits_envelope = omega arith;
  fits_payload = omega arith;
  understood = refl;
}

pub second-IsEncodable : IsEncodable second
second-IsEncodable = record {
  fits_envelope = omega (arith, record_hash-IsHash toy_laws first);
  fits_payload = omega arith;
  understood = refl;
}
