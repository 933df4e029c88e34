-- ===== src/MfCrypto/RoundTrips.antt =====
-- What mfcrypto/mfcrypto.c promises of its keys: what one half does, the other half undoes or checks.
use avtalk.Base.{
  ℕ, take_all, ◌-◌, ◌%◌, ◌^◌, ◌<◌, ◌+◌, ◌≡◌, some, arith, length, take-append-drop, ltb, le→ltb,
  true, false, refl, none,
}
use avtalk.MfCrypto.{
  seal_bytes, sign_bytes, Bytes, nonce_bytes, mac_bytes, Sodium, SodiumLaws, Key, IsKeyPair,
  generated, seeded, key_gen, key_gen_seed, encrypt, decrypt, sign, verify, sym_encrypt,
  sym_decrypt,
}

module _ (s : Sodium) (laws : SodiumLaws s) where
  pub decrypt-encrypt :
      (pk sk : Key) (r m : Bytes) → IsKeyPair s pk sk → decrypt s pk sk (encrypt s pk r m) ≡ some m
  unfolding encrypt decrypt key_gen key_gen_seed
  decrypt-encrypt pk sk r m (generated k k' e) = ground (arith, laws.open-seal k r m)
  decrypt-encrypt pk sk r m (seeded k e) = ground (arith, laws.open-seal_seed k r m)

  pub verify-sign : (pk sk : Key) (m : Bytes) → IsKeyPair s pk sk → verify s pk (sign s sk m) m ≡ 0
  unfolding sign verify key_gen key_gen_seed
  verify-sign pk sk m (generated k k' e) = ground (arith, laws.verify-sign k' m)
  verify-sign pk sk m (seeded k e) = ground (arith, laws.verify-sign_seed k m)

  -- What MFCrypto_SymEncrypt wrote is decrypted by MFCrypto_SymDecrypt with the same key if its
  -- length argument counts nonce, MAC and message, below 2 ^ 64; with any larger length below 2 ^
  -- 64 it reads past the end of the ciphertext.
  pub sym_decrypt-sym_encrypt :
      (key r m : Bytes)
      → nonce_bytes + (mac_bytes + length m) < 2 ^ 64
      → let c = sym_encrypt s key r m in
        (sym_decrypt s key c (nonce_bytes + (mac_bytes + length m)) ≡ some (some m))
        × ((len : ℕ)
            → nonce_bytes + (mac_bytes + length m) < len
            → len < 2 ^ 64
            → sym_decrypt s key c len ≡ none)
  unfolding sym_encrypt sym_decrypt
  sym_decrypt-sym_encrypt key r m h =
      let out = s.secretbox_easy m r key in
      let size : length out ≡ mac_bytes + length m = laws.length-secretbox m r key in
      let n : (nonce_bytes + (mac_bytes + length m) + 2 ^ 64 - nonce_bytes) % 2 ^ 64
          ≡ mac_bytes + length m =
        omega arith in
      let inside : ltb (length out) (mac_bytes + length m) ≡ false = le→ltb _ _ (omega arith) in
      (
        rw (sym_decrypt, take-append-drop mac_bytes out, n, inside)
            (rw (take_all (mac_bytes + length m) out (omega arith), laws.open-secretbox m r key)
              refl),
        λ len past top.
            (let more : (len + 2 ^ 64 - nonce_bytes) % 2 ^ 64 ≡ len - nonce_bytes = omega arith in
              let over : ltb (length out) (len - nonce_bytes) ≡ true = ground arith in
              rw (sym_decrypt, take-append-drop mac_bytes out, more, over) refl),
      )

  pub length-encrypt : (pk : Key) (r m : Bytes) → length (encrypt s pk r m) ≡ seal_bytes + length m
  unfolding encrypt
  length-encrypt pk r m = laws.length-box_seal r m pk.enc

  pub length-sign : (sk : Key) (m : Bytes) → length (sign s sk m) ≡ sign_bytes
  unfolding sign
  length-sign sk m = laws.length-sign_detached m sk.sign
