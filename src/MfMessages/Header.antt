-- ===== src/MfMessages/Header.antt =====
-- MFMessage_HeaderEncrypt and MFMessage_HeaderDecrypt of mfmessages/mfmessages.c.
use avtalk.Base.{
  ℕ, ◌≡◌, true, false, some, arith, take, drop, length-take, length-drop, take-append-drop,
}
use avtalk.MfCrypto.{Bytes, seal_bytes, Sodium, SodiumLaws, Key, IsKeyPair, encrypt}
use avtalk.MfCrypto.RoundTrips.{decrypt-encrypt, length-encrypt}
use avtalk.MfMessages.{Message, header_encrypt, header_decrypt}
use avtalk.MfMessages.Flags.{
  signed, header_encrypted, has_flag, clear_flag, sealed_flags, opened_flags, flag_facts,
}
use avtalk.MfMessages.Layout.{IsWellFormed}

module _ (s : Sodium) where
  -- The message that MFMessage_HeaderEncrypt leaves.
  abbrev pub header_sealed : Key → Bytes → Message → Message
  header_sealed pk r m = record m {
    header_encryption = take seal_bytes (encrypt s pk r m.inner);
    inner = drop seal_bytes (encrypt s pk r m.inner);
    flags = sealed_flags m.flags header_encrypted;
  }

module _ (s : Sodium) (laws : SodiumLaws s) where
  pub header_encrypt_lem :
      (pk : Key) (r : Bytes) (m : Message)
      → IsWellFormed m
      → has_flag m.flags header_encrypted ≡ false
      → (header_encrypt s pk r m ≡ some (header_sealed s pk r m))
        × IsWellFormed (header_sealed s pk r m)
  unfolding header_encrypt
  header_encrypt_lem pk r m w e =
      let n = length-encrypt s laws pk r m.inner in
      let sealed = encrypt s pk r m.inner in
      (
        rw e,
        record {
          size_eq = w.size_eq;
          size_range = w.size_range;
          version_range = w.version_range;
          flags_range = (flag_facts m.flags w.flags_range).header_range;
          signature_length = w.signature_length;
          encryption_length = omega (arith, length-take seal_bytes sealed);
          inner_length = omega (arith, length-drop seal_bytes sealed);
        },
      )

  -- Decrypting a header whose flags were left as sealed, or signed since.
  pub header_decrypt_lem :
      (pk sk : Key) (r : Bytes) (m : Message) (flags : ℕ) (signature : Bytes)
      → IsKeyPair s pk sk
      → has_flag flags header_encrypted ≡ true
      → header_decrypt s pk sk
          (record (header_sealed s pk r m) { flags = flags; message_signature = signature })
        ≡ some (
          0,
          record m {
            header_encryption = take seal_bytes (encrypt s pk r m.inner);
            flags = opened_flags flags header_encrypted;
            message_signature = signature;
          },
        )
  unfolding header_decrypt
  header_decrypt_lem pk sk r m flags signature k e =
      rw (e, take-append-drop seal_bytes (encrypt s pk r m.inner), header_decrypt)
        (rw (decrypt-encrypt s laws pk sk r m.inner k))

  -- For a well-formed message whose header is not encrypted, MFMessage_HeaderEncrypt succeeds, and
  -- MFMessage_HeaderDecrypt with the matching keys returns 0 and the message as it was, but for the
  -- HeaderEncryption field and the cleared signature bit.
  pub header_decrypt-header_encrypt :
      (pk sk : Key) (r : Bytes) (m : Message)
      → IsKeyPair s pk sk
      → IsWellFormed m
      → has_flag m.flags header_encrypted ≡ false
      → (sealed : Message) × (header_encrypt s pk r m ≡ some sealed)
        × (header_decrypt s pk sk sealed
            ≡ some (
              0,
              record m {
                header_encryption = sealed.header_encryption;
                flags = clear_flag m.flags signed;
              },
            ))
  header_decrypt-header_encrypt pk sk r m k w e =
      let facts = flag_facts m.flags w.flags_range in
      (
        header_sealed s pk r m,
        (header_encrypt_lem pk r m w e).0,
        rw (← facts.header_back e) (
            header_decrypt_lem pk sk r m (sealed_flags m.flags header_encrypted) m.message_signature
              k facts.header_set),
      )
