-- ===== src/Policy.antt =====
-- crates/obsign-policy: signed policy bundles and their evaluation by Cedar. Here, the errors of
-- lib.rs.
pub mod Cedar
pub mod Bundle
pub mod Args
pub mod Question
pub mod Engine
pub mod Load
pub mod Verdicts
pub mod Channels
pub mod Coercion
pub mod Extract
pub mod Seal
pub mod Toy
mod Tests
use obsign.Prelude.{Bytes, codes, ◌++◌, Fallible}

pub data Error : Type 0 where
  bad_signature : Error
  unknown_format : Bytes → Error
  bundle : Bytes → Error
  cedar : Bytes → Error
  json : Bytes → Error

abbrev pub Result {ℓ} : Type ℓ → Type ℓ
Result A = Fallible Error A

-- The `Display` of an error.
unfoldable pub display : Error → Bytes
display bad_signature = codes "invalid bundle signature"
display (unknown_format found) = codes "unknown bundle format: " ++ found
display (bundle why) = codes "bundle: " ++ why
display (cedar why) = codes "cedar: " ++ why
display (json why) = codes "invalid json: " ++ why
