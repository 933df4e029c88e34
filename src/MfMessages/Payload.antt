-- ===== src/MfMessages/Payload.antt =====
-- MFMessage_DataEncrypt and MFMessage_DataDecrypt of mfmessages/mfmessages.c.
pub mod Fill
pub mod Secrecy
use avtalk.Base.{
  drop_all, append-nil, ℕ, ◌+◌, ◌-◌, ◌*◌, ◌≤◌, ◌≡◌, refl, true, false, some, List, [], ◌∷◌, ◌++◌,
  arith, length, take, drop, ltb, le→ltb, length-take, length-drop, length-append, take-append-drop,
  take-append, drop-append, ap, append_assoc,
}
use avtalk.Base.Bytes.{from_le, splice, length-splice, read-splice, drop-splice, splice-nil}
use avtalk.MfCrypto.{Bytes, seal_bytes, Sodium, SodiumLaws, Key, IsKeyPair, encrypt}
use avtalk.MfCrypto.RoundTrips.{decrypt-encrypt, length-encrypt}
use avtalk.MfMessages.{Message, data_size, data_encrypt, data_decrypt}
use avtalk.MfMessages.Flags.{
  signed, header_encrypted, data_encrypted, has_flag, clear_flag, sealed_flags, opened_flags,
  flag_facts,
}
use avtalk.MfMessages.Layout.{IsWellFormed}
use Fill.{body-IsWellFormed, fill_lem}

-- A message whose data may be encrypted: its data lie in the buffer, and nothing is encrypted yet.
pub record IsPlain (m : Message) : Type 0 where
  pub formed : IsWellFormed m
  pub data_fits : data_size m ≤ length m.body
  pub data_plain : has_flag m.flags data_encrypted ≡ false
  pub header_plain : has_flag m.flags header_encrypted ≡ false

module _ (s : Sodium) where
  abbrev pub seal_of : Key → Bytes → Message → Bytes
  seal_of pk r m = encrypt s pk r (take (data_size m) m.body)

  -- The buffer between the encryption and the fill.
  abbrev pub sealed_body : Key → Bytes → Message → Message
  sealed_body pk r m = record m {
    inner = splice 56 (take seal_bytes (seal_of pk r m)) m.inner;
    body = drop seal_bytes (seal_of pk r m) ++ drop (data_size m) m.body;
  }

module _ (s : Sodium) (laws : SodiumLaws s) where
  module _ (pk : Key) (r : Bytes) (m : Message) (p : IsPlain m) where
    pub length-seal_of : length (seal_of s pk r m) ≡ seal_bytes + data_size m
    length-seal_of = omega (
      arith,
      length-encrypt s laws pk r (take (data_size m) m.body),
      length-take (data_size m) m.body,
      p.data_fits,
    )

    pub length-sealed_body : length (sealed_body s pk r m).body ≡ length m.body
    length-sealed_body = omega (
      arith,
      length-append (drop seal_bytes (seal_of s pk r m)) (drop (data_size m) m.body),
      length-drop seal_bytes (seal_of s pk r m),
      length-drop (data_size m) m.body,
      length-seal_of,
      p.data_fits,
    )

    pub data_size-sealed_body : data_size (sealed_body s pk r m) ≡ data_size m
    data_size-sealed_body = ap from_le (
        read-splice 4 4 56 (take seal_bytes (seal_of s pk r m)) m.inner (omega arith)
          (omega (arith, p.formed.inner_length)))

    pub sealed_body-IsWellFormed : IsWellFormed (sealed_body s pk r m)
    sealed_body-IsWellFormed = record {
      size_eq = omega (arith, length-sealed_body, p.formed.size_eq);
      size_range = p.formed.size_range;
      version_range = p.formed.version_range;
      flags_range = p.formed.flags_range;
      signature_length = p.formed.signature_length;
      encryption_length = p.formed.encryption_length;
      inner_length = omega (
        arith,
        length-splice 56 (take seal_bytes (seal_of s pk r m)) m.inner (
            omega (
              arith,
              length-take seal_bytes (seal_of s pk r m),
              length-seal_of,
              p.formed.inner_length,
            )),
        p.formed.inner_length,
      );
    }

    -- What MFMessage_DataEncrypt leaves, for a body with at most as much padding as data.
    pub data_encrypt_lem :
        (rng : ℕ → Bytes)
        → ((n : ℕ) → length (rng n) ≡ n)
        → length m.body ≤ 2 * data_size m
        → let padding = length m.body - data_size m in
          data_encrypt s pk r rng m
          ≡ some (record (sealed_body s pk r m) {
            body = splice (data_size m - padding) (rng padding) (sealed_body s pk r m).body;
            flags = sealed_flags m.flags data_encrypted;
          })
    unfolding data_encrypt
    data_encrypt_lem rng draws k =
        let inside = le→ltb (length m.body) (data_size m) p.data_fits in
        let f =
          fill_lem rng draws (sealed_body s pk r m) sealed_body-IsWellFormed
            (omega (arith, length-sealed_body, data_size-sealed_body, p.data_fits))
            (omega (arith, length-sealed_body, data_size-sealed_body)) in
        rw (p.data_plain, p.header_plain, inside)
          (rw f (rw (data_size-sealed_body, length-sealed_body)))

    -- What a later read from `DataEncryption` on finds there.
    pub read_encryption : drop 56 (sealed_body s pk r m).inner ≡ take seal_bytes (seal_of s pk r m)
    read_encryption =
        let head : Bytes = take seal_bytes (seal_of s pk r m) in
        let n : length head ≡ seal_bytes =
          omega (arith, length-take seal_bytes (seal_of s pk r m), length-seal_of) in
        rw (
          drop-splice 56 head m.inner (omega (arith, p.formed.inner_length)),
          drop_all (56 + length head) m.inner (omega (arith, p.formed.inner_length)),
          append-nil,
        )

    -- With no padding, what MFMessage_DataDecrypt reads is the whole seal.
    pub data_decrypt_lem :
        (sk : Key) (flags : ℕ) (encryption : Bytes) (signature : Bytes)
        → IsKeyPair s pk sk
        → has_flag flags data_encrypted ≡ true
        → has_flag flags header_encrypted ≡ false
        → data_decrypt s pk sk (record (sealed_body s pk r m) {
          flags = flags;
          header_encryption = encryption;
          message_signature = signature;
        })
          ≡ some (
            0,
            record m {
              inner = (sealed_body s pk r m).inner;
              flags = opened_flags flags data_encrypted;
              header_encryption = encryption;
              message_signature = signature;
            },
          )
    unfolding data_decrypt
    data_decrypt_lem sk flags encryption signature k d h =
        let sealed = seal_of s pk r m in
        let plain : Bytes = take (data_size m) m.body in
        let inside =
          le→ltb (length (sealed_body s pk r m).body) (data_size m)
            (omega (arith, length-sealed_body, p.data_fits)) in
        let ct : length (drop seal_bytes sealed) ≡ data_size m =
          omega (arith, length-drop seal_bytes sealed, length-seal_of) in
        let n : length plain ≡ data_size m =
          omega (arith, length-take (data_size m) m.body, p.data_fits) in
        rw (h, d, data_size-sealed_body, inside, data_decrypt)
          (rw
            (
              read_encryption,
              take-append (data_size m) (drop seal_bytes sealed) (drop (data_size m) m.body) ct,
              take-append-drop seal_bytes sealed,
              decrypt-encrypt s laws pk sk r plain k,
            )
            (rw (
              n,
              drop-append (data_size m) (drop seal_bytes sealed) (drop (data_size m) m.body) ct,
              take-append-drop (data_size m) m.body,
            )))
