-- ===== src/MfMessages/Layout.antt =====
-- The layout of include/mfmessages.h: the header is written and read back without loss.
use avtalk.Base.{◌+◌, ◌^◌, ◌<◌, ◌≡◌, arith, length, length-append}
use avtalk.Base.Bytes.{to_le, length-to_le, from_le-to_le, cut-append}
use avtalk.MfCrypto.{seal_bytes, sign_bytes}
use avtalk.MfMessages.{Message, Fields, sizeof_header, guid_bytes, pack, unpack, to_bytes, of_bytes}

pub record FieldsFit (f : Fields) : Type 0 where
  pub type_range : f.message_type < 2 ^ 32
  pub size_range : f.data_size < 2 ^ 32
  pub counter_range : f.packet_counter < 2 ^ 64
  pub context_range : f.context < 2 ^ 64
  pub source_length : length f.source ≡ guid_bytes
  pub dest_length : length f.dest ≡ guid_bytes
  pub encryption_length : length f.data_encryption ≡ seal_bytes

-- The buffer of a message is as long as its MessageSize, and its numbers fit their fields.
pub record IsWellFormed (m : Message) : Type 0 where
  pub size_eq : m.message_size ≡ sizeof_header + length m.body
  pub size_range : m.message_size < 2 ^ 32
  pub version_range : m.version < 2 ^ 16
  pub flags_range : m.flags < 65536
  pub signature_length : length m.message_signature ≡ sign_bytes
  pub encryption_length : length m.header_encryption ≡ seal_bytes
  pub inner_length : length m.inner ≡ 104

-- The header fields from MessageType on, each within its width, are read back from their bytes
-- without loss.
pub unpack-pack : (f : Fields) → FieldsFit f → unpack (pack f) ≡ f
unfolding pack unpack
unpack-pack f h = rw (
  cut-append 4 (to_le 4 f.message_type) _ (length-to_le 4 f.message_type),
  cut-append 4 (to_le 4 f.data_size) _ (length-to_le 4 f.data_size),
  cut-append 8 (to_le 8 f.packet_counter) _ (length-to_le 8 f.packet_counter),
  cut-append 8 (to_le 8 f.context) _ (length-to_le 8 f.context),
  cut-append guid_bytes f.source _ h.source_length,
  cut-append guid_bytes f.dest _ h.dest_length,
  from_le-to_le 4 f.message_type h.type_range,
  from_le-to_le 4 f.data_size h.size_range,
  from_le-to_le 8 f.packet_counter h.counter_range,
  from_le-to_le 8 f.context h.context_range,
)

-- A well-formed message is read back from the bytes of its buffer without loss.
pub of_bytes-to_bytes : (m : Message) → IsWellFormed m → of_bytes (to_bytes m) ≡ m
unfolding to_bytes of_bytes
of_bytes-to_bytes m h = rw (
  cut-append 4 (to_le 4 m.message_size) _ (length-to_le 4 m.message_size),
  cut-append 2 (to_le 2 m.version) _ (length-to_le 2 m.version),
  cut-append 2 (to_le 2 m.flags) _ (length-to_le 2 m.flags),
  cut-append sign_bytes m.message_signature _ h.signature_length,
  cut-append seal_bytes m.header_encryption _ h.encryption_length,
  cut-append 104 m.inner _ h.inner_length,
  from_le-to_le 4 m.message_size h.size_range,
  from_le-to_le 2 m.version h.version_range,
  from_le-to_le 2 m.flags h.flags_range,
)

pub length-pack : (f : Fields) → FieldsFit f → length (pack f) ≡ 104
unfolding pack
length-pack f h = simp (length-append, length-to_le) (omega arith)

pub length-to_bytes : (m : Message) → IsWellFormed m → length (to_bytes m) ≡ m.message_size
unfolding to_bytes
length-to_bytes m h = simp (length-append, length-to_le) (omega arith)
