-- ===== src/MfMessages/Transfer.antt =====
-- A message from the sender's buffer to the receiver's: the functions of mfmessages/mfmessages.c in
-- the order in which mfbroker/mfbroker.c and its callers apply them.
use avtalk.Base.{ℕ, arith, ◌≡◌, refl, some, length, take}
use avtalk.Base.Bytes.{read-splice}
use avtalk.MfCrypto.{Bytes, seal_bytes, Sodium, SodiumLaws, Key, IsKeyPair}
use avtalk.MfMessages.{
  Message, to_bytes, of_bytes, data_size, data_encrypt, data_decrypt, header_encrypt,
  header_decrypt, sign, verify,
}
use avtalk.MfMessages.Flags.{signed, data_encrypted, set_flag, clear_flag, sealed_flags, flag_facts}
use avtalk.MfMessages.Layout.{IsWellFormed, of_bytes-to_bytes}
use avtalk.MfMessages.Header.{header_sealed, header_encrypt_lem, header_decrypt_lem}
use avtalk.MfMessages.Payload.{
  IsPlain, seal_of, sealed_body, sealed_body-IsWellFormed, data_decrypt_lem,
}
use avtalk.MfMessages.Payload.Secrecy.{data_encrypt_full}
use avtalk.MfMessages.Signature.{with_signature, sign_lem, verify-with_signature}

-- What the three steps of the sender leave, one after the other.
pub record Sent (s : Sodium) (data_key link_key signer : Key) (r r' : Bytes) (rng : ℕ → Bytes)
    (m a b c : Message) : Type 0 where
  pub data_sealed : data_encrypt s data_key r rng m ≡ some a
  pub header_sealed : header_encrypt s link_key r' a ≡ some b
  pub signed : sign s signer b ≡ some c

-- What the receiver makes of the bytes: the signature holds, the header opens, the data open.
pub record Received (s : Sodium) (verifier : Key) (link_key link_secret data_key data_secret : Key)
    (bytes : Bytes) (c d e : Message) : Type 0 where
  pub parsed : of_bytes bytes ≡ c
  pub verified : verify s verifier c ≡ some (0, c)
  pub header_opened : header_decrypt s link_key link_secret c ≡ some (0, d)
  pub data_opened : data_decrypt s data_key data_secret d ≡ some (0, e)

module _ (s : Sodium) (laws : SodiumLaws s) where
  -- For a plain, unpadded message and three matching key pairs: the data are encrypted, the header
  -- is encrypted and the whole is signed without a failure; the receiver reads the bytes back as
  -- the same message, its signature verifies, header and data decrypt with code 0; the message is
  -- then the one sent, size, version and data included, but for its flags, where the signature bit
  -- is cleared, the header encryption and the signature, which are those of the sealed and the
  -- signed message, and the encrypted part, whose fields in front of DataEncryption are those sent.
  pub receive-send :
      (signer verifier link_key link_secret data_key data_secret : Key) (r r' : Bytes)
      (rng : ℕ → Bytes) (m : Message)
      → IsKeyPair s verifier signer
      → IsKeyPair s link_key link_secret
      → IsKeyPair s data_key data_secret
      → ((n : ℕ) → length (rng n) ≡ n)
      → IsPlain m
      → length m.body ≡ data_size m
      → (a b c d e : Message) × Sent s data_key link_key signer r r' rng m a b c
        × Received s verifier link_key link_secret data_key data_secret (to_bytes c) c d e
        × (e.body ≡ m.body)
        × (take 56 e.inner ≡ take 56 m.inner)
        × (e.flags ≡ clear_flag m.flags signed)
        × (e ≡ record m {
          inner = e.inner;
          header_encryption = b.header_encryption;
          flags = clear_flag m.flags signed;
          message_signature = c.message_signature;
        })
  receive-send signer verifier link_key link_secret data_key data_secret r r' rng m ks kl kd draws p
        full =
      let facts = flag_facts m.flags p.formed.flags_range in
      let a : Message = record (sealed_body s data_key r m) {
        flags = sealed_flags m.flags data_encrypted;
      } in
      let sw = sealed_body-IsWellFormed s laws data_key r m p in
      let wa : IsWellFormed a = record {
        size_eq = sw.size_eq;
        size_range = sw.size_range;
        version_range = sw.version_range;
        flags_range = facts.data_range;
        signature_length = sw.signature_length;
        encryption_length = sw.encryption_length;
        inner_length = sw.inner_length;
      } in
      let plain = facts.data_keeps p.header_plain in
      let (eb, wb) = header_encrypt_lem s laws link_key r' a wa plain in
      let b : Message = header_sealed s link_key r' a in
      let (ec, wc) = sign_lem s laws signer b wb in
      let c : Message = with_signature s signer b in
      let a_facts = flag_facts a.flags facts.data_range in
      let d : Message = record a {
        header_encryption = b.header_encryption;
        flags = clear_flag a.flags signed;
        message_signature = c.message_signature;
      } in
      let e : Message = record m {
        inner = a.inner;
        header_encryption = b.header_encryption;
        flags = clear_flag m.flags signed;
        message_signature = c.message_signature;
      } in
      (
        a,
        b,
        c,
        d,
        e,
        record {
          data_sealed = data_encrypt_full s laws data_key r rng draws m p full;
          header_sealed = eb;
          signed = ec;
        },
        record {
          parsed = of_bytes-to_bytes c wc;
          verified = verify-with_signature s laws verifier signer b ks wb;
          header_opened = rw (← a_facts.signed_header_back plain) (
              header_decrypt_lem s laws link_key link_secret r' a (set_flag b.flags signed)
                c.message_signature kl a_facts.sent_sealed);
          data_opened = rw (← facts.received_back p.data_plain) (
              data_decrypt_lem s laws data_key r m p data_secret d.flags b.header_encryption
                c.message_signature kd facts.received_data (facts.received_header p.header_plain));
        },
        refl,
        read-splice 56 0 56 (take seal_bytes (seal_of s data_key r m)) m.inner (omega arith)
            (omega (arith, p.formed.inner_length)),
        refl,
        refl,
      )
