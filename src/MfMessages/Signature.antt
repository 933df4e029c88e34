-- ===== src/MfMessages/Signature.antt =====
-- MFMessage_Sign and MFMessage_Verify of mfmessages/mfmessages.c.
use avtalk.Base.{ℕ, ◌≡◌, refl, some, arith, length, replicate, le→ltb, take_all, length-replicate}
use avtalk.MfCrypto.{Bytes, sign_bytes, Sodium, SodiumLaws, Key, IsKeyPair}
use avtalk.MfCrypto
use avtalk.MfCrypto.RoundTrips
use avtalk.MfMessages.{Message, to_bytes, sign, verify}
use avtalk.MfMessages.Flags.{signed, set_flag, flag_facts}
use avtalk.MfMessages.Layout.{IsWellFormed, length-to_bytes}

-- The message over which the signature is made: marked as signed, the signature zero.
abbrev pub unsigned : Message → Message
unsigned m = record m {
  flags = set_flag m.flags signed;
  message_signature = replicate sign_bytes 0;
}

module _ (s : Sodium) where
  abbrev pub with_signature : Key → Message → Message
  with_signature sk m = record (unsigned m) {
    message_signature = MfCrypto.sign s sk (to_bytes (unsigned m));
  }

module _ (s : Sodium) (laws : SodiumLaws s) where
  unsigned-IsWellFormed : (m : Message) → IsWellFormed m → IsWellFormed (unsigned m)
  unsigned-IsWellFormed m w = record {
    size_eq = w.size_eq;
    size_range = w.size_range;
    version_range = w.version_range;
    flags_range = (flag_facts m.flags w.flags_range).signed_range;
    signature_length = length-replicate {A = ℕ} sign_bytes 0;
    encryption_length = w.encryption_length;
    inner_length = w.inner_length;
  }

  pub sign_lem :
      (sk : Key) (m : Message)
      → IsWellFormed m
      → (sign s sk m ≡ some (with_signature s sk m)) × IsWellFormed (with_signature s sk m)
  unfolding sign
  sign_lem sk m w =
      let u = unsigned-IsWellFormed m w in
      let n : length (to_bytes (unsigned m)) ≡ m.message_size = length-to_bytes (unsigned m) u in
      let fits = le→ltb (length (to_bytes (unsigned m))) m.message_size (omega arith) in
      (
        rw (fits, take_all m.message_size (to_bytes (unsigned m)) (omega arith)),
        record {
          size_eq = w.size_eq;
          size_range = w.size_range;
          version_range = w.version_range;
          flags_range = u.flags_range;
          signature_length = RoundTrips.length-sign s laws sk (to_bytes (unsigned m));
          encryption_length = w.encryption_length;
          inner_length = w.inner_length;
        },
      )

  pub verify-with_signature :
      (pk sk : Key) (m : Message)
      → IsKeyPair s pk sk
      → IsWellFormed m
      → verify s pk (with_signature s sk m) ≡ some (0, with_signature s sk m)
  unfolding verify
  verify-with_signature pk sk m k w =
      let u = unsigned-IsWellFormed m w in
      let n : length (to_bytes (unsigned m)) ≡ m.message_size = length-to_bytes (unsigned m) u in
      let fits = le→ltb (length (to_bytes (unsigned m))) m.message_size (omega arith) in
      rw (
        (flag_facts m.flags w.flags_range).signed_set,
        fits,
        take_all m.message_size (to_bytes (unsigned m)) (omega arith),
        RoundTrips.verify-sign s laws pk sk (to_bytes (unsigned m)) k,
      )

  -- A well-formed message signed by MFMessage_Sign verifies with code 0 under the matching key,
  -- verification leaves it unchanged, and signing changed nothing but the signature and the flags.
  pub verify-sign :
      (pk sk : Key) (m : Message)
      → IsKeyPair s pk sk
      → IsWellFormed m
      → (t : Message) × (sign s sk m ≡ some t)
        × (verify s pk t ≡ some (0, t))
        × (record t { message_signature = m.message_signature; flags = m.flags } ≡ m)
  verify-sign pk sk m k w =
      (with_signature s sk m, (sign_lem sk m w).0, verify-with_signature pk sk m k w, refl)
