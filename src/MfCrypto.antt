-- ===== src/MfCrypto.antt =====
-- mfcrypto/mfcrypto.c with include/mfcrypto.h: keys, seals, signatures and symmetric encryption.
-- libsodium is a parameter: a record of the functions that the code calls, and its documented laws.
-- A buffer is the list of its bytes. Random bytes that a function draws are an argument `r`.
pub mod RoundTrips
use avtalk.Base.{
  ℕ, ◌+◌, ◌-◌, ◌%◌, ◌^◌, ◌≡◌, Option, none, some, List, [], ◌∷◌, ◌++◌, length, take, drop, ltb,
  if◌then◌else◌,
}

abbrev pub Bytes : Type 0
Bytes = List ℕ

-- crypto_box_SEALBYTES, crypto_sign_BYTES, crypto_secretbox_NONCEBYTES, crypto_secretbox_MACBYTES,
-- crypto_secretbox_KEYBYTES
abbrev pub seal_bytes : ℕ
seal_bytes = 48

abbrev pub sign_bytes : ℕ
sign_bytes = 64

abbrev pub nonce_bytes : ℕ
nonce_bytes = 24

abbrev pub mac_bytes : ℕ
mac_bytes = 16

abbrev pub symkey_bytes : ℕ
symkey_bytes = 32

-- The functions of libsodium that are called. A key pair is (public, secret); `none` and codes other
-- than 0 are failures.
pub record Sodium : Type 0 where
  pub box_keypair : Bytes → Bytes × Bytes
  pub sign_keypair : Bytes → Bytes × Bytes
  pub box_seed_keypair : Bytes → Bytes × Bytes
  pub sign_seed_keypair : Bytes → Bytes × Bytes
  pub box_seal : Bytes → Bytes → Bytes → Bytes  -- random bytes, message, public key
  pub box_seal_open : Bytes → Bytes → Bytes → Option Bytes  -- ciphertext, public key, secret key
  pub sign_detached : Bytes → Bytes → Bytes  -- message, secret key
  pub sign_verify_detached : Bytes → Bytes → Bytes → ℕ  -- signature, message, public key
  pub secretbox_easy : Bytes → Bytes → Bytes → Bytes  -- message, nonce, key
  pub secretbox_open_easy : Bytes → Bytes → Bytes → Option Bytes  -- ciphertext, nonce, key
  pub random_deterministic : ℕ → Bytes → Bytes  -- length, seed
  pub sha256 : Bytes → Bytes

-- `MFCRYPTO_PUBLIC_KEY` and `MFCRYPTO_SECRET_KEY`
pub record Key : Type 0 where
  pub enc : Bytes
  pub sign : Bytes

-- `MFCRYPTO_SYMENC_HEADER`, with the ciphertext that is written behind `mac`.
pub record SymEnc : Type 0 where
  pub nonce : Bytes
  pub mac : Bytes
  pub text : Bytes

module _ (s : Sodium) where
  unfoldable pub key_gen : Bytes → Bytes → Key × Key
  key_gen r r' =
      let (box_pk, box_sk) = s.box_keypair r in
      let (sign_pk, sign_sk) = s.sign_keypair r' in
      (record { enc = box_pk; sign = sign_pk }, record { enc = box_sk; sign = sign_sk })

  unfoldable pub key_gen_seed : Bytes → Key × Key
  key_gen_seed seed =
      let (box_pk, box_sk) = s.box_seed_keypair seed in
      let (sign_pk, sign_sk) = s.sign_seed_keypair seed in
      (record { enc = box_pk; sign = sign_pk }, record { enc = box_sk; sign = sign_sk })

  -- All that is written from `Ct->Data` on: the seal header and the ciphertext.
  unfoldable pub encrypt : Key → Bytes → Bytes → Bytes
  encrypt pk r pt = s.box_seal r pt pk.enc

  -- `ct` is the `Len` bytes from `Ct->Data` on; `none` is a code other than 0.
  unfoldable pub decrypt : Key → Key → Bytes → Option Bytes
  decrypt pk sk ct = s.box_seal_open ct pk.enc sk.enc

  unfoldable pub sign : Key → Bytes → Bytes
  sign sk buffer = s.sign_detached buffer sk.sign

  unfoldable pub verify : Key → Bytes → Bytes → ℕ
  verify pk signature buffer = s.sign_verify_detached signature buffer pk.sign

  unfoldable pub sym_key_gen_seed : Bytes → Bytes
  sym_key_gen_seed seed = s.random_deterministic symkey_bytes seed

  -- `r` is the nonce drawn. crypto_secretbox_easy writes the MAC and the ciphertext behind it.
  unfoldable pub sym_encrypt : Bytes → Bytes → Bytes → SymEnc
  sym_encrypt key r buffer =
      let out = s.secretbox_easy buffer r key in
      record { nonce = r; mac = take mac_bytes out; text = drop mac_bytes out }

  -- `Length` counts from the nonce on, and Length - sizeof(Nonce) bytes are read from `MAC` on.
  -- `none` is a read past the end of the ciphertext, `some none` a code other than 0.
  unfoldable pub sym_decrypt : Bytes → SymEnc → ℕ → Option (Option Bytes)
  sym_decrypt key c len =
      let n = (len + 2 ^ 64 - nonce_bytes) % 2 ^ 64 in
      let sealed = c.mac ++ c.text in
      if ltb (length sealed) n
      then none
      else some (s.secretbox_open_easy (take n sealed) c.nonce key)

  -- The memset of the digest before is overwritten as a whole.
  unfoldable pub hash : Bytes → Bytes
  hash buffer = s.sha256 buffer

-- Two keys that one call generated.
pub data IsKeyPair (s : Sodium) (pk sk : Key) : Type 0 where
  generated : (r r' : Bytes) → key_gen s r r' ≡ (pk, sk) → IsKeyPair s pk sk
  seeded : (seed : Bytes) → key_gen_seed s seed ≡ (pk, sk) → IsKeyPair s pk sk

-- The documented behaviour of libsodium that the theorems rest on.
pub record SodiumLaws (s : Sodium) : Type 0 where
  pub length-box_seal : (r m pk : Bytes) → length (s.box_seal r m pk) ≡ seal_bytes + length m
  pub open-seal :
      (k r m : Bytes)
      → let (pk, sk) = s.box_keypair k in s.box_seal_open (s.box_seal r m pk) pk sk ≡ some m
  pub open-seal_seed :
      (k r m : Bytes)
      → let (pk, sk) = s.box_seed_keypair k in s.box_seal_open (s.box_seal r m pk) pk sk ≡ some m
  pub length-sign_detached : (m sk : Bytes) → length (s.sign_detached m sk) ≡ sign_bytes
  pub verify-sign :
      (k m : Bytes)
      → let (pk, sk) = s.sign_keypair k in s.sign_verify_detached (s.sign_detached m sk) m pk ≡ 0
  pub verify-sign_seed :
      (k m : Bytes)
      → let (pk, sk) = s.sign_seed_keypair k in
        s.sign_verify_detached (s.sign_detached m sk) m pk ≡ 0
  pub length-secretbox : (m n k : Bytes) → length (s.secretbox_easy m n k) ≡ mac_bytes + length m
  pub open-secretbox : (m n k : Bytes) → s.secretbox_open_easy (s.secretbox_easy m n k) n k ≡ some m
