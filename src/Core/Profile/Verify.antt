-- ===== src/Core/Profile/Verify.antt =====
-- crates/fairypam-agent-core/src/profile.rs: the check of a signed profile.
use fairypam_rust_agent.Base.{
  ◌≡◌, ◌↔◌, true, false, not, ◌||◌, some, arith, Bytes, beq, beq_iff, is_empty,
}
use fairypam_rust_agent.Base.Result.{
  Result, ok, ensure, ok_or, passed_on, ok_or-eq-ok, ensure-eq-ok, ◌>>=◌, ◌>>◌,
}
use fairypam_rust_agent.Core.Error.{AgentError}
use fairypam_rust_agent.Core.Profile.{ProfileContent, ProfileEnvelope, VerifiedProfile, External}
use fairypam_rust_agent.Core.Profile.Hex.{hex_digest}
use fairypam_rust_agent.Core.Profile.Validate.{validate_content, invalid}

module _ (x : External) where
  unfoldable pub profile_content_digest : ProfileContent → Result AgentError Bytes
  profile_content_digest content = do
    canonical ← ok_or (x.content_to_json content) (invalid "profile.schema_invalid")
    ok (x.sha256 canonical)

  unfoldable pub profile_content_sha256 : ProfileContent → Result AgentError Bytes
  unfolding profile_content_digest
  profile_content_sha256 content = do
    digest ← profile_content_digest content
    ok (hex_digest digest)

  unfoldable pub verify_profile : Bytes → Result AgentError VerifiedProfile
  unfolding profile_content_digest
  verify_profile bytes = do
    envelope ← ok_or (x.envelope_from_json bytes) (invalid "profile.schema_invalid")
    digest ← profile_content_digest envelope.content
    let actual_hash = hex_digest digest
    ensure (beq envelope.content_sha256 actual_hash) (invalid "profile.hash_mismatch")
    ensure (not (is_empty envelope.signature || not (x.verify digest envelope.signature)))
        (invalid "profile.signature_invalid")
    validate_content x envelope.content
    ok (record { content = envelope.content; content_sha256 = actual_hash })

  -- A profile is verified only when its bytes parse, the digest of its canonical form is the one
  -- named, a signature stands there and fits that digest, and the content passes every check;
  -- the verified profile is that content under that digest.
  pub record IsAccepted (bytes : Bytes) (v : VerifiedProfile) : Type 0 where
    pub envelope : ProfileEnvelope
    pub canonical : Bytes
    pub parsed : x.envelope_from_json bytes ≡ some envelope
    pub same_content : v.content ≡ envelope.content
    pub encoded : x.content_to_json envelope.content ≡ some canonical
    pub hash_named : envelope.content_sha256 ≡ hex_digest (x.sha256 canonical)
    pub same_hash : v.content_sha256 ≡ hex_digest (x.sha256 canonical)
    pub signature_present : is_empty envelope.signature ≡ false
    pub signed : x.verify (x.sha256 canonical) envelope.signature ≡ true
    pub valid : validate_content x v.content ≡ ok tt

  -- `verify_profile` accepts bytes as a verified profile exactly when all of `IsAccepted` holds of
  -- them.
  pub verify_profile_iff :
      (bytes : Bytes) (v : VerifiedProfile) → (verify_profile bytes ≡ ok v) ↔ IsAccepted bytes v
  unfolding verify_profile
  verify_profile_iff bytes v = (forth, back)
    where
      forth : verify_profile bytes ≡ ok v → IsAccepted bytes v
      forth h =
          let (envelope, h1, parse) = passed_on _ (ok_or (x.envelope_from_json bytes) _) h in
          let (digest, h2, hash) = passed_on _ (profile_content_digest envelope.content) h1 in
          let (canonical, h3, encode) =
            passed_on _ (ok_or (x.content_to_json envelope.content) _) hash in
          let (_, h4, named) =
            passed_on _
              (ensure (beq envelope.content_sha256 (hex_digest digest))
                (invalid "profile.hash_mismatch"))
              h2 in
          let (_, h5, signed) =
            passed_on _
              (ensure
                (not (is_empty envelope.signature || not (x.verify digest envelope.signature)))
                (invalid "profile.signature_invalid"))
              h4 in
          let (_, h6, valid) = passed_on _ (validate_content x envelope.content) h5 in
          record {
            envelope = envelope;
            canonical = canonical;
            parsed = ok_or-eq-ok _ _ parse;
            same_content = ground arith;
            encoded = ok_or-eq-ok _ _ encode;
            hash_named = ground (
              arith,
              ensure-eq-ok _ _ named,
              beq_iff envelope.content_sha256 (hex_digest digest),
            );
            same_hash = ground arith;
            signature_present = ground (arith, ensure-eq-ok _ _ signed);
            signed = ground (arith, ensure-eq-ok _ _ signed);
            valid = ground arith;
          }

      back : IsAccepted bytes v → verify_profile bytes ≡ ok v
      back h = ground (arith, beq_iff h.envelope.content_sha256 v.content_sha256)
