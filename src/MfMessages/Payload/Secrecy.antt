-- ===== src/MfMessages/Payload/Secrecy.antt =====
-- The data of a message sealed by MFMessage_DataEncrypt and opened by MFMessage_DataDecrypt.
use avtalk.Base.{
  take_sum, take-append, drop-append, length-append, ℕ, ◌+◌, ◌-◌, ◌*◌, ◌≤◌, ◌≡◌, some, ◌++◌, [],
  arith, length, take, drop, length-take, length-drop, append_assoc,
}
use avtalk.Base.Bytes.{splice, splice-nil, splice_end, read-splice}
use avtalk.MfCrypto.{Bytes, seal_bytes, Sodium, SodiumLaws, Key, IsKeyPair}
use avtalk.MfMessages.{Message, data_size, data_encrypt, data_decrypt}
use avtalk.MfMessages.Flags.{signed, data_encrypted, clear_flag, sealed_flags, flag_facts}
use avtalk.MfMessages.Payload.{
  IsPlain, length-seal_of, seal_of, sealed_body, data_encrypt_lem, data_decrypt_lem,
  read_encryption,
}

module _ (s : Sodium) (laws : SodiumLaws s) (pk : Key) (r : Bytes) (rng : ℕ → Bytes)
    (draws : (n : ℕ) → length (rng n) ≡ n) (m : Message) (p : IsPlain m) where
  pub data_encrypt_full :
      length m.body ≡ data_size m
      → data_encrypt s pk r rng m
        ≡ some (record (sealed_body s pk r m) { flags = sealed_flags m.flags data_encrypted })
  data_encrypt_full full =
      let e : length m.body - data_size m ≡ 0 = omega (arith, full) in
      let z : rng 0 ≡ [] = ground (arith, draws 0) in
      rw (data_encrypt_lem s laws pk r m p rng draws (omega (arith, full)), e, z, splice-nil)

  -- For a plain message whose data fill its body, MFMessage_DataEncrypt succeeds, and
  -- MFMessage_DataDecrypt with the matching keys returns 0 and the message as it was, but for the
  -- part of the header from DataEncryption on and the signature bit, which both operations clear.
  pub data_decrypt-data_encrypt :
      (sk : Key)
      → IsKeyPair s pk sk
      → length m.body ≡ data_size m
      → (t : Message) × (data_encrypt s pk r rng m ≡ some t)
        × (data_decrypt s pk sk t
            ≡ some (0, record m { inner = t.inner; flags = clear_flag m.flags signed }))
        × (take 56 t.inner ≡ take 56 m.inner)
  data_decrypt-data_encrypt sk k full =
      let facts = flag_facts m.flags p.formed.flags_range in
      (
        record (sealed_body s pk r m) { flags = sealed_flags m.flags data_encrypted },
        data_encrypt_full full,
        rw (← facts.data_back p.data_plain) (
            data_decrypt_lem s laws pk r m p sk (sealed_flags m.flags data_encrypted)
              m.header_encryption m.message_signature k facts.data_set
              (facts.data_keeps p.header_plain)),
        read-splice 56 0 56 (take seal_bytes (seal_of s pk r m)) m.inner (omega arith)
            (omega (arith, p.formed.inner_length)),
      )

  -- For a plain message with at most as many bytes of padding as of data, MFMessage_DataEncrypt
  -- succeeds, and what MFMessage_DataDecrypt will read is the seal with its last bytes, as many as
  -- there are bytes of padding, replaced by random ones, while the padding itself is unchanged.
  pub data_encrypt-padded :
      length m.body ≤ 2 * data_size m
      → let padding = length m.body - data_size m in
        (t : Message) × (data_encrypt s pk r rng m ≡ some t)
        × (drop 56 t.inner ++ take (data_size m) t.body
            ≡ take (seal_bytes + (data_size m - padding)) (seal_of s pk r m) ++ rng padding)
        × (drop (data_size m) t.body ≡ drop (data_size m) m.body)
  data_encrypt-padded k =
      let n : ℕ = data_size m in
      let padding : ℕ = length m.body - n in
      let at : ℕ = n - padding in
      let sealed : Bytes = seal_of s pk r m in
      let ct : Bytes = drop seal_bytes sealed in
      let rest : Bytes = drop n m.body in
      let len = length-seal_of s laws pk r m p in
      let ct_len : length ct ≡ n = omega (arith, length-drop seal_bytes sealed, len) in
      let end : splice at (rng padding) (ct ++ rest) ≡ (take at ct ++ rng padding) ++ rest =
        splice_end at (rng padding) ct rest (omega (arith, draws padding, p.data_fits)) in
      let new_len : length (take at ct ++ rng padding) ≡ n = omega (
        arith,
        length-append (take at ct) (rng padding),
        length-take at ct,
        draws padding,
        p.data_fits,
      ) in
      (
        record (sealed_body s pk r m) {
          body = splice at (rng padding) (sealed_body s pk r m).body;
          flags = sealed_flags m.flags data_encrypted;
        },
        data_encrypt_lem s laws pk r m p rng draws k,
        rw
            (
              end,
              take-append n (take at ct ++ rng padding) rest new_len,
              read_encryption s laws pk r m p,
            )
            (rw (← append_assoc, take_sum seal_bytes at sealed)),
        rw (end, drop-append n (take at ct ++ rng padding) rest new_len),
      )
