-- ===== src/MfMessages.antt =====
-- mfmessages/mfmessages.c with include/mfmessages.h: messages, their encryption and signature.
-- A message is its buffer of MessageSize bytes, kept as the fields in front of the part that the
-- header encryption covers, that part (`inner`, 104 bytes) as raw bytes, and the bytes behind the
-- header. `none` is a failed assertion, or an access outside the buffer.
pub mod Flags
pub mod Layout
pub mod Header
pub mod Payload
pub mod Signature
pub mod Alloc
pub mod Transfer
use avtalk.Base.{
  ℕ, ◌+◌, ◌-◌, ◌*◌, ◌%◌, ◌^◌, Bool, true, false, Option, none, some, List, [], ◌∷◌, ◌++◌, ◌==◌, ltb,
  if◌then◌else◌, length, take, drop, replicate,
}
use avtalk.Base.Bytes.{to_le, from_le, cut, splice}
use avtalk.Base.Fault.{Cmd, pure, ◌>>=◌}
use avtalk.MfMemory.{Ptr, Memory, ref_mem_alloc}
use avtalk.MfCrypto.{Bytes, seal_bytes, sign_bytes, Sodium, Key, encrypt, decrypt}
use avtalk.MfCrypto
use Flags.{signed, header_encrypted, data_encrypted, has_flag, set_flag, sealed_flags, opened_flags}

abbrev pub protocol_version : ℕ
protocol_version = 1

abbrev pub sizeof_header : ℕ
sizeof_header = 224

abbrev pub guid_bytes : ℕ
guid_bytes = 16

pub record Message : Type 0 where
  pub message_size : ℕ
  pub version : ℕ
  pub flags : ℕ
  pub message_signature : Bytes
  pub header_encryption : Bytes
  pub inner : Bytes
  pub body : Bytes

-- The header's fields from `MessageType` on.
pub record Fields : Type 0 where
  pub message_type : ℕ
  pub data_size : ℕ
  pub packet_counter : ℕ
  pub context : ℕ
  pub source : Bytes
  pub dest : Bytes
  pub data_encryption : Bytes

unfoldable pub pack : Fields → Bytes
pack f =
    to_le 4 f.message_type
    ++ (to_le 4 f.data_size
        ++ (to_le 8 f.packet_counter
            ++ (to_le 8 f.context ++ (f.source ++ (f.dest ++ f.data_encryption)))))

unfoldable pub unpack : Bytes → Fields
unpack bs =
    let (t, bs) = cut 4 bs in
    let (n, bs) = cut 4 bs in
    let (c, bs) = cut 8 bs in
    let (x, bs) = cut 8 bs in
    let (src, bs) = cut guid_bytes bs in
    let (dst, enc) = cut guid_bytes bs in
    record {
      message_type = from_le t;
      data_size = from_le n;
      packet_counter = from_le c;
      context = from_le x;
      source = src;
      dest = dst;
      data_encryption = enc;
    }

-- The whole buffer, and a buffer read as a message.
unfoldable pub to_bytes : Message → Bytes
to_bytes m =
    to_le 4 m.message_size
    ++ (to_le 2 m.version
        ++ (to_le 2 m.flags
            ++ (m.message_signature ++ (m.header_encryption ++ (m.inner ++ m.body)))))

unfoldable pub of_bytes : Bytes → Message
of_bytes bs =
    let (n, bs) = cut 4 bs in
    let (v, bs) = cut 2 bs in
    let (f, bs) = cut 2 bs in
    let (s, bs) = cut sign_bytes bs in
    let (h, bs) = cut seal_bytes bs in
    let (i, body) = cut 104 bs in
    record {
      message_size = from_le n;
      version = from_le v;
      flags = from_le f;
      message_signature = s;
      header_encryption = h;
      inner = i;
      body = body;
    }

abbrev pub data_size : Message → ℕ
data_size m = from_le (take 4 (drop 4 m.inner))

abbrev pub guid_or_zero : Option Bytes → Bytes
guid_or_zero none = replicate guid_bytes 0
guid_or_zero (some g) = g

-- MFMessage_Alloc; a GUID that is NULL stays zero. `fresh` is the allocator's answer, and the copy
-- of the data stays in the buffer only if the 32-bit sum of the sizes did not wrap.
unfoldable pub alloc :
    Option Ptr → ℕ → Option Bytes → Option Bytes → Bytes → Cmd Memory (ℕ × Option Message)
alloc fresh type source dest contents =
    let total = (sizeof_header + length contents % 2 ^ 32) % 2 ^ 32 in
    do
      (ret, p) ← ref_mem_alloc fresh total
      elim p [
        | none ↦ pure (ret, none)
        | some _ ↦
            if ltb total (sizeof_header + length contents)
            then (λ _. none)
            else pure (
              ret,
              some (record {
                message_size = total;
                version = protocol_version;
                flags = 0;
                message_signature = replicate sign_bytes 0;
                header_encryption = replicate seal_bytes 0;
                inner = pack (record {
                  message_type = type;
                  data_size = length contents % 2 ^ 32;
                  packet_counter = 0;
                  context = 0;
                  source = guid_or_zero source;
                  dest = guid_or_zero dest;
                  data_encryption = replicate seal_bytes 0;
                });
                body = contents;
              }),
            )
      ]

unfoldable pub set_context : ℕ → Message → Message
set_context c m = record m { inner = splice 16 (to_le 8 c) m.inner }

unfoldable pub set_counter : ℕ → Message → Message
set_counter c m = record m { inner = splice 8 (to_le 8 c) m.inner }

unfoldable pub get_context : Message → ℕ
get_context m = from_le (take 8 (drop 16 m.inner))

unfoldable pub get_counter : Message → ℕ
get_counter m = from_le (take 8 (drop 8 m.inner))

-- The call of MFCrypto_RandomBuffer in MFMessage_DataEncrypt: `remaining` bytes that end where the
-- data end. `rng n` is the `n` bytes drawn.
unfoldable pub fill : (ℕ → Bytes) → Message → Option Message
fill rng m =
    let remaining = (m.message_size + 2 * 2 ^ 64 - sizeof_header - data_size m) % 2 ^ 64 in
    if ltb (sizeof_header + data_size m) remaining
    then none
    else some
        (of_bytes (splice (sizeof_header + data_size m - remaining) (rng remaining) (to_bytes m)))

module _ (s : Sodium) where
  -- The seal is written from `DataEncryption` on, and so over the data behind it.
  unfoldable pub data_encrypt : Key → Bytes → (ℕ → Bytes) → Message → Option Message
  data_encrypt pk r rng m =
      if has_flag m.flags data_encrypted
      then none
      else if has_flag m.flags header_encrypted
      then none
      else if ltb (length m.body) (data_size m)
      then none
      else (let sealed = encrypt s pk r (take (data_size m) m.body) in
          elim (fill rng (record m {
            inner = splice 56 (take seal_bytes sealed) m.inner;
            body = drop seal_bytes sealed ++ drop (data_size m) m.body;
          })) [
            | none ↦ none
            | some m' ↦ some (record m' { flags = sealed_flags m'.flags data_encrypted })
          ])

  -- The code (-1 as its bit pattern on failure) and the message.
  unfoldable pub data_decrypt : Key → Key → Message → Option (ℕ × Message)
  data_decrypt pk sk m =
      if has_flag m.flags header_encrypted
      then none
      else if has_flag m.flags data_encrypted
      then (if ltb (length m.body) (data_size m)
          then none
          else elim (decrypt s pk sk (drop 56 m.inner ++ take (data_size m) m.body)) [
            | none ↦ some (0xffff_ffff, m)
            | some pt ↦ some (
              0,
              record m {
                body = pt ++ drop (length pt) m.body;
                flags = opened_flags m.flags data_encrypted;
              },
            )
          ])
      else none

  unfoldable pub sign : Key → Message → Option Message
  sign sk m =
      let m = record m {
        flags = set_flag m.flags signed;
        message_signature = replicate sign_bytes 0;
      } in
      if ltb (length (to_bytes m)) m.message_size
      then none
      else some
          (record m { message_signature = MfCrypto.sign s sk (take m.message_size (to_bytes m)) })

  unfoldable pub verify : Key → Message → Option (ℕ × Message)
  verify pk m =
      if has_flag m.flags signed
      then (let sig = m.message_signature in
          let m = record m { message_signature = replicate sign_bytes 0 } in
          if ltb (length (to_bytes m)) m.message_size
          then none
          else (let ret = MfCrypto.verify s pk sig (take m.message_size (to_bytes m)) in
              some (ret, record m { message_signature = sig })))
      else none

  -- The seal is written from `HeaderEncryption` on, and so over `inner` behind it.
  unfoldable pub header_encrypt : Key → Bytes → Message → Option Message
  header_encrypt pk r m =
      if has_flag m.flags header_encrypted
      then none
      else (let sealed = encrypt s pk r m.inner in
          some (record m {
            header_encryption = take seal_bytes sealed;
            inner = drop seal_bytes sealed;
            flags = sealed_flags m.flags header_encrypted;
          }))

  unfoldable pub header_decrypt : Key → Key → Message → Option (ℕ × Message)
  header_decrypt pk sk m =
      if has_flag m.flags header_encrypted
      then elim (decrypt s pk sk (m.header_encryption ++ m.inner)) [
        | none ↦ some (0xffff_ffff, m)
        | some pt ↦ some (0, record m { inner = pt; flags = opened_flags m.flags header_encrypted })
      ]
      else none
