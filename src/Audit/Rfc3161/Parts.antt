-- ===== src/Audit/Rfc3161/Parts.antt =====
-- crates/obsign-audit-core/src/rfc3161.rs: what is read of a timestamp response is a part of it.
use obsign.Prelude.{
  ◌≡◌, refl, sym, some, subst, ℕ, ◌≤◌, Bytes, codes, not, ◌++◌, bytes_eq, arith, ok, >>=-eq-ok,
  refuse_if-eq-ok, ltb, length,
}
use obsign.Audit.Rfc3161.{
  TimestampInfo, expect, only, read_status, read_signed_data, read_econtent, read_imprint, read_tst,
  int_value, tag_integer, tag_octet_string, tag_oid, tag_sequence, tag_set, tag_generalized_time,
  tag_context_0, oid_signed_data, oid_id_ct_tst_info, parse_timestamp_response,
}
use obsign.Audit.Rfc3161.Structure.{
  expect-Element, Inside, Inside-trans, content-Inside, rest-Inside, IsHeader, header_length,
  only-Whole, only-Inside,
}

read_status_sound :
    (resp : Bytes) {status : ℕ} {rest : Bytes}
    → read_status resp ≡ ok (status, rest)
    → (status ≤ 1) × Inside rest resp
unfolding read_status
read_status_sound resp {status} {rest} h =
    let (info, e1, h1) = >>=-eq-ok (expect tag_sequence (codes "PKIStatusInfo") resp) _ h in
    let (digits, e2, h2) = >>=-eq-ok (expect tag_integer (codes "PKIStatus") info.0) _ h1 in
    let (n, e3, h3) = >>=-eq-ok (int_value digits.0) _ h2 in
    let (granted, made) = refuse_if-eq-ok (ltb 1 n) _ _ h3 in
    let same : n ≡ status = cc in
    let behind : info.1 ≡ rest = cc in
    let low : n ≤ 1 = ground (arith, granted) in
    (
      subst (λ (x : ℕ). x ≤ 1) same low,
      subst (λ (x : Bytes). Inside x resp) behind
          (rest-Inside resp info.0 info.1
            (expect-Element tag_sequence (codes "PKIStatusInfo") resp e1)),
    )

read_signed_data-Inside :
    (resp : Bytes) {sd : Bytes} → read_signed_data resp ≡ ok sd → Inside sd resp
unfolding read_signed_data
read_signed_data-Inside resp {sd} h =
    let (info, e1, h1) =
      >>=-eq-ok (only tag_sequence (codes "ContentInfo") (codes "TimeStampResp body") resp) _ h in
    let (oid, e2, h2) = >>=-eq-ok (expect tag_oid (codes "contentType") info) _ h1 in
    let (known, h3) = refuse_if-eq-ok (not (bytes_eq oid.0 oid_signed_data)) _ _ h2 in
    let (wrapped, e4, h4) =
      >>=-eq-ok (only tag_context_0 (codes "content [0]") (codes "ContentInfo") oid.1) _ h3 in
    let step1 =
      only-Inside tag_sequence (codes "ContentInfo") (codes "TimeStampResp body") resp e1 in
    let step2 =
      rest-Inside info oid.0 oid.1 (expect-Element tag_oid (codes "contentType") info e2) in
    let step3 = only-Inside tag_context_0 (codes "content [0]") (codes "ContentInfo") oid.1 e4 in
    let step4 = only-Inside tag_sequence (codes "SignedData") (codes "content [0]") wrapped h4 in
    Inside-trans sd wrapped resp step4
      (Inside-trans wrapped oid.1 resp step3 (Inside-trans oid.1 info resp step2 step1))

read_econtent-Inside : (sd : Bytes) {tst : Bytes} → read_econtent sd ≡ ok tst → Inside tst sd
unfolding read_econtent
read_econtent-Inside sd {tst} h =
    let (version, e1, h1) = >>=-eq-ok (expect tag_integer (codes "SignedData.version") sd) _ h in
    let (algorithms, e2, h2) =
      >>=-eq-ok (expect tag_set (codes "digestAlgorithms") version.1) _ h1 in
    let (eci, e3, h3) =
      >>=-eq-ok (expect tag_sequence (codes "encapContentInfo") algorithms.1) _ h2 in
    let (oid, e4, h4) = >>=-eq-ok (expect tag_oid (codes "eContentType") eci.0) _ h3 in
    let (known, h5) = refuse_if-eq-ok (not (bytes_eq oid.0 oid_id_ct_tst_info)) _ _ h4 in
    let (econtent, e6, h6) =
      >>=-eq-ok (only tag_context_0 (codes "eContent [0]") (codes "encapContentInfo") oid.1) _ h5 in
    let step1 =
      rest-Inside sd version.0 version.1
        (expect-Element tag_integer (codes "SignedData.version") sd e1) in
    let step2 =
      rest-Inside version.1 algorithms.0 algorithms.1
        (expect-Element tag_set (codes "digestAlgorithms") version.1 e2) in
    let step3 =
      content-Inside algorithms.1 eci.0 eci.1
        (expect-Element tag_sequence (codes "encapContentInfo") algorithms.1 e3) in
    let step4 =
      rest-Inside eci.0 oid.0 oid.1 (expect-Element tag_oid (codes "eContentType") eci.0 e4) in
    let step5 =
      only-Inside tag_context_0 (codes "eContent [0]") (codes "encapContentInfo") oid.1 e6 in
    let step6 =
      only-Inside tag_octet_string (codes "eContent") (codes "eContent [0]") econtent h6 in
    Inside-trans tst econtent sd step6 (
      Inside-trans econtent oid.1 sd step5 (
        Inside-trans oid.1 eci.0 sd step4 (
          Inside-trans eci.0 algorithms.1 sd step3
            (Inside-trans algorithms.1 version.1 sd step2 step1))))

read_imprint-Inside :
    (tst : Bytes) {hashed rest : Bytes} → read_imprint tst ≡ ok (hashed, rest) → Inside hashed tst
unfolding read_imprint
read_imprint-Inside tst {hashed} {rest} h =
    let (imprint, e1, h1) = >>=-eq-ok (expect tag_sequence (codes "MessageImprint") tst) _ h in
    let (algorithm, e2, h2) =
      >>=-eq-ok (expect tag_sequence (codes "hashAlgorithm") imprint.0) _ h1 in
    let (found, e3, h3) =
      >>=-eq-ok (only tag_octet_string (codes "hashedMessage") (codes "MessageImprint") algorithm.1)
        _ h2 in
    let same : found ≡ hashed = cc in
    let step1 =
      content-Inside tst imprint.0 imprint.1
        (expect-Element tag_sequence (codes "MessageImprint") tst e1) in
    let step2 =
      rest-Inside imprint.0 algorithm.0 algorithm.1
        (expect-Element tag_sequence (codes "hashAlgorithm") imprint.0 e2) in
    let step3 =
      only-Inside tag_octet_string (codes "hashedMessage") (codes "MessageImprint") algorithm.1
        e3 in
    subst (λ (x : Bytes). Inside x tst) same
      (Inside-trans found algorithm.1 tst step3
        (Inside-trans algorithm.1 imprint.0 tst step2 step1))

read_tst_sound :
    (lossy : Bytes → Bytes) (status : ℕ) (tst_der : Bytes) {info : TimestampInfo}
    → read_tst lossy status tst_der ≡ ok info
    → (info.status ≡ status) × Inside info.hashed_message tst_der
unfolding read_tst
read_tst_sound lossy status tst_der {info} h =
    let (tst, e1, h1) =
      >>=-eq-ok (only tag_sequence (codes "TSTInfo") (codes "eContent OCTET STRING") tst_der) _ h in
    let (version, e2, h2) = >>=-eq-ok (expect tag_integer (codes "TSTInfo.version") tst) _ h1 in
    let (policy, e3, h3) = >>=-eq-ok (expect tag_oid (codes "TSTInfo.policy") version.1) _ h2 in
    let (hashed, e4, h4) = >>=-eq-ok (read_imprint policy.1) _ h3 in
    let (serial, e5, h5) =
      >>=-eq-ok (expect tag_integer (codes "TSTInfo.serialNumber") hashed.1) _ h4 in
    let (time, e6, h6) =
      >>=-eq-ok (expect tag_generalized_time (codes "TSTInfo.genTime") serial.1) _ h5 in
    let made : TimestampInfo = record {
      status = status;
      hashed_message = hashed.0;
      gen_time = some (lossy time.0);
    } in
    let same : made ≡ info = cc in
    let step1 =
      only-Inside tag_sequence (codes "TSTInfo") (codes "eContent OCTET STRING") tst_der e1 in
    let step2 =
      rest-Inside tst version.0 version.1
        (expect-Element tag_integer (codes "TSTInfo.version") tst e2) in
    let step3 =
      rest-Inside version.1 policy.0 policy.1
        (expect-Element tag_oid (codes "TSTInfo.policy") version.1 e3) in
    let step4 = read_imprint-Inside policy.1 e4 in
    subst (λ (x : TimestampInfo). (x.status ≡ status) × Inside x.hashed_message tst_der) same
      (
        refl,
        Inside-trans hashed.0 policy.1 tst_der step4 (
            Inside-trans policy.1 version.1 tst_der step3
              (Inside-trans version.1 tst tst_der step2 step1)),
      )

-- If a timestamp response parses, then it is one DER element, a header of at most six bytes that has
-- the tag of a sequence and says the length of the content, and this content, with nothing behind
-- it; its status is granted (0 or 1); and the hashed message is a part of it, byte for byte.
pub parse_timestamp_response_sound :
    (lossy : Bytes → Bytes) (der : Bytes) {info : TimestampInfo}
    → parse_timestamp_response lossy der ≡ ok info
    → ((header : Bytes) × (resp : Bytes) × (der ≡ header ++ resp)
        × (length header ≤ 6)
        × IsHeader tag_sequence (length resp) header)
      × (info.status ≤ 1)
      × Inside info.hashed_message der
unfolding parse_timestamp_response
parse_timestamp_response_sound lossy der {info} h =
    let (resp, e1, h1) =
      >>=-eq-ok (only tag_sequence (codes "TimeStampResp") (codes "TimeStampResp") der) _ h in
    let (status, e2, h2) = >>=-eq-ok (read_status resp) _ h1 in
    let (sd, e3, h3) = >>=-eq-ok (read_signed_data status.1) _ h2 in
    let (tst, e4, h4) = >>=-eq-ok (read_econtent sd) _ h3 in
    let (header, parts, is) =
      only-Whole tag_sequence (codes "TimeStampResp") (codes "TimeStampResp") der e1 in
    let step1 = only-Inside tag_sequence (codes "TimeStampResp") (codes "TimeStampResp") der e1 in
    let (granted, step2) = read_status_sound resp e2 in
    let step3 = read_signed_data-Inside status.1 e3 in
    let step4 = read_econtent-Inside sd e4 in
    let (same, step5) = read_tst_sound lossy status.0 tst h4 in
    (
      (header, resp, parts, header_length tag_sequence (length resp) header is, is),
      subst (λ (x : ℕ). x ≤ 1) (sym same) granted,
      Inside-trans info.hashed_message tst der step5 (
          Inside-trans tst sd der step4
            (Inside-trans sd status.1 der step3 (Inside-trans status.1 resp der step2 step1))),
    )
