-- ===== src/Tests/Messages.antt =====
-- mfmessages and mfcrypto at a sample message.
use avtalk.Base.{
  ℕ, ◌+◌, ◌-◌, ◌^◌, ◌<◌, ◌≡◌, refl, arith, none, some, [], ◌∷◌, ◌++◌, length, take, drop, replicate,
  length-replicate,
}
use avtalk.MfMemory.{Memory, write, s_ok}
use avtalk.MfCrypto.{Bytes, seal_bytes, nonce_bytes, mac_bytes, sym_encrypt, sym_decrypt}
use avtalk.MfCrypto.RoundTrips.{sym_decrypt-sym_encrypt}
use avtalk.MfMessages.{
  Message, Fields, unpack, to_bytes, data_size, alloc, data_encrypt, data_decrypt,
}
use avtalk.MfMessages.Flags.{signed, clear_flag}
use avtalk.MfMessages.Payload.{IsPlain, seal_of}
use avtalk.MfMessages.Payload.Secrecy.{data_decrypt-data_encrypt, data_encrypt-padded}
use avtalk.MfMessages.Alloc.{fresh_message, fresh_fields, alloc_fits, alloc_overruns}
use avtalk.MfMessages.Transfer.{Sent, Received, receive-send}
use avtalk.Tests.Samples.{
  toy, toy_laws, key, key-IsKeyPair, zeros, length-zeros, sample, sample-IsPlain, data_size-sample,
}

receive-send_example :
    (a b c d e : Message) × Sent toy (key 3) (key 2) (key 1) [] [] zeros (sample 0) a b c
    × Received toy (key 1) (key 2) (key 2) (key 3) (key 3) (to_bytes c) c d e
    × (e.body ≡ 1 ∷ 2 ∷ 3 ∷ [])
    × (take 56 e.inner ≡ take 56 (sample 0).inner)
    × (e.flags ≡ clear_flag 0 signed)
    × (e ≡ record (sample 0) {
      inner = e.inner;
      header_encryption = b.header_encryption;
      flags = clear_flag 0 signed;
      message_signature = c.message_signature;
    })
receive-send_example =
    receive-send toy toy_laws (key 1) (key 1) (key 2) (key 2) (key 3) (key 3) [] [] zeros (sample 0)
      (key-IsKeyPair 1) (key-IsKeyPair 2) (key-IsKeyPair 3) length-zeros
      (sample-IsPlain 0 (omega arith)) (omega (arith, data_size-sample 0))

data_decrypt-data_encrypt_example :
    (t : Message) × (data_encrypt toy (key 3) [] zeros (sample 0) ≡ some t)
    × (data_decrypt toy (key 3) (key 3) t
        ≡ some (0, record (sample 0) { inner = t.inner; flags = clear_flag 0 signed }))
    × (take 56 t.inner ≡ take 56 (sample 0).inner)
data_decrypt-data_encrypt_example =
    data_decrypt-data_encrypt toy toy_laws (key 3) [] zeros length-zeros (sample 0)
      (sample-IsPlain 0 (omega arith)) (key 3) (key-IsKeyPair 3) (omega (arith, data_size-sample 0))

-- Two bytes of padding: the last two bytes of the seal of 1, 2, 3 are lost.
data_encrypt-padded_example :
    let padding = length (sample 2).body - data_size (sample 2) in
    (t : Message) × (data_encrypt toy (key 3) [] zeros (sample 2) ≡ some t)
    × (drop 56 t.inner ++ take (data_size (sample 2)) t.body
        ≡ take (seal_bytes + (data_size (sample 2) - padding)) (seal_of toy (key 3) [] (sample 2))
          ++ zeros padding)
    × (drop (data_size (sample 2)) t.body ≡ drop (data_size (sample 2)) (sample 2).body)
data_encrypt-padded_example =
    data_encrypt-padded toy toy_laws (key 3) [] zeros length-zeros (sample 2)
      (sample-IsPlain 2 (omega arith)) (omega (arith, data_size-sample 2))

abbrev fields : Fields
fields = record {
  message_type = 3;
  data_size = 70000;
  packet_counter = 2 ^ 40 + 1;
  context = 12;
  source = replicate 16 5;
  dest = replicate 16 6;
  data_encryption = replicate 48 7;
}

sym_decrypt-sym_encrypt_example :
    let c = sym_encrypt toy (zeros 32) (zeros 24) (8 ∷ 9 ∷ []) in
    (sym_decrypt toy (zeros 32) c (nonce_bytes + (mac_bytes + 2)) ≡ some (some (8 ∷ 9 ∷ [])))
    × ((len : ℕ)
        → nonce_bytes + (mac_bytes + 2) < len
        → len < 2 ^ 64
        → sym_decrypt toy (zeros 32) c len ≡ none)
sym_decrypt-sym_encrypt_example =
    sym_decrypt-sym_encrypt toy toy_laws (zeros 32) (zeros 24) (8 ∷ 9 ∷ []) (omega arith)

abbrev empty_memory : Memory
empty_memory = λ _. none

alloc_fits_example :
    let m = fresh_message 1 none (some (replicate 16 4)) (1 ∷ 2 ∷ []) in
    (alloc (some 4096) 1 none (some (replicate 16 4)) (1 ∷ 2 ∷ []) empty_memory
      ≡ some (
        (s_ok, some m),
        write 4096 (some (record { refs = 1; size = m.message_size + 0x10 })) empty_memory,
      ))
    × IsPlain m
    × (unpack m.inner ≡ fresh_fields 1 none (some (replicate 16 4)) (1 ∷ 2 ∷ []))
    × (data_size m ≡ 2)
alloc_fits_example =
    alloc_fits 1 none (some (replicate 16 4)) (1 ∷ 2 ∷ []) empty_memory 4096 (omega arith) tt refl
      (omega arith)

-- A buffer of 2 ^ 32 - 224 bytes makes the 32-bit total wrap to 0. It is kept shut.
zero_bytes : ℕ → Bytes
zero_bytes n = replicate n 0

length-zero_bytes : (n : ℕ) → length (zero_bytes n) ≡ n
unfolding zero_bytes
length-zero_bytes n = length-replicate n 0

alloc_overruns_example :
    alloc (some 4096) 1 none none (zero_bytes (2 ^ 32 - 224)) empty_memory ≡ none
alloc_overruns_example =
    alloc_overruns 1 none none (zero_bytes (2 ^ 32 - 224)) empty_memory 4096
      (omega (arith, length-zero_bytes (2 ^ 32 - 224)))
