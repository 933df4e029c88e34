-- ===== src/Tests/Samples.antt =====
-- A stand-in for libsodium that meets the documented laws, and a sample message.
-- A seal is 48 zero bytes in front of the message, a signature the sum of the message and 63 zeros.
use avtalk.Base.{
  ℕ, ◌+◌, ◌<◌, ◌≡◌, refl, some, [], ◌∷◌, ◌++◌, arith, if◌then◌else◌, ◌==◌, length, drop, replicate,
  length-append, length-replicate,
}
use avtalk.Base.Bytes.{to_le, from_le}
use avtalk.MfCrypto.{
  Bytes, Sodium, SodiumLaws, Key, IsKeyPair, generated, key_gen, seal_bytes, mac_bytes,
}
use avtalk.MfMessages.{Message, pack, data_size}
use avtalk.MfMessages.Flags.{has_flag}
use avtalk.MfMessages.Payload.{IsPlain}

abbrev total : Bytes → ℕ
total [] = 0
total (b ∷ bs) = b + total bs

abbrev same_total : Bytes → Bytes → ℕ
same_total [] m = 1
same_total (b ∷ _) m = if b == total m then 0 else 1

abbrev pub toy : Sodium
toy = record {
  box_keypair = λ r. (r, r);
  sign_keypair = λ r. (r, r);
  box_seed_keypair = λ r. (r, r);
  sign_seed_keypair = λ r. (r, r);
  box_seal = λ r m pk. replicate seal_bytes 0 ++ m;
  box_seal_open = λ c pk sk. some (drop seal_bytes c);
  sign_detached = λ m sk. total m ∷ replicate 63 0;
  sign_verify_detached = λ sig m pk. same_total sig m;
  secretbox_easy = λ m n k. replicate mac_bytes 0 ++ m;
  secretbox_open_easy = λ c n k. some (drop mac_bytes c);
  random_deterministic = λ n seed. replicate n 0;
  sha256 = λ m. replicate 32 0;
}

pub toy_laws : SodiumLaws toy
toy_laws = record {
  length-box_seal = λ r m pk. omega (arith, length-append (replicate seal_bytes 0) m);
  open-seal = λ k r m. refl;
  open-seal_seed = λ k r m. refl;
  length-sign_detached = λ m sk. refl;
  verify-sign = λ k m. ground arith;
  verify-sign_seed = λ k m. ground arith;
  length-secretbox = λ m n k. omega (arith, length-append (replicate mac_bytes 0) m);
  open-secretbox = λ m n k. refl;
}

abbrev pub key : ℕ → Key
key n = record { enc = n ∷ []; sign = (n + 100) ∷ [] }

pub key-IsKeyPair : (n : ℕ) → IsKeyPair toy (key n) (key n)
key-IsKeyPair n = generated (n ∷ []) ((n + 100) ∷ []) (unfold key_gen in refl)

abbrev pub zeros : ℕ → Bytes
zeros n = replicate n 0

pub length-zeros : (n : ℕ) → length (zeros n) ≡ n
length-zeros n = length-replicate n 0

-- A message with the data 1, 2, 3, `extra` bytes of padding and the counter 7.
abbrev pub sample : ℕ → Message
sample extra = record {
  message_size = 227 + extra;
  version = 1;
  flags = 0;
  message_signature = zeros 64;
  header_encryption = zeros 48;
  inner = pack (record {
    message_type = 9;
    data_size = 3;
    packet_counter = 7;
    context = 0;
    source = zeros 16;
    dest = zeros 16;
    data_encryption = zeros 48;
  });
  body = 1 ∷ 2 ∷ 3 ∷ zeros extra;
}

pub data_size-sample : (extra : ℕ) → data_size (sample extra) ≡ 3
unfolding pack to_le from_le
data_size-sample extra = refl

pub sample-IsPlain : (extra : ℕ) → extra < 100 → IsPlain (sample extra)
unfolding pack to_le has_flag
sample-IsPlain extra h = record {
  formed = record {
    size_eq = omega (arith, length-zeros extra);
    size_range = omega arith;
    version_range = omega arith;
    flags_range = omega arith;
    signature_length = refl;
    encryption_length = refl;
    inner_length = refl;
  };
  data_fits = omega (arith, data_size-sample extra);
  data_plain = refl;
  header_plain = refl;
}
