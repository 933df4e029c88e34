-- ===== src/MfMessages/Alloc.antt =====
-- MFMessage_Alloc of mfmessages/mfmessages.c, and the counter and context of a message.
use avtalk.Base.{
  ℕ, ◌+◌, ◌%◌, ◌^◌, ◌≤◌, ◌<◌, ◌≡◌, refl, Option, none, some, arith, ap, length, replicate, lt→ltb,
  le→ltb, length-replicate,
}
use avtalk.Base.Bytes.{cut}
use avtalk.MfMemory.{Ptr, Memory, ref_mem_alloc, write, s_ok, size_add}
use avtalk.MfCrypto.{Bytes, seal_bytes, sign_bytes}
use avtalk.MfMessages.{
  Message, Fields, sizeof_header, guid_bytes, guid_or_zero, protocol_version, pack, unpack,
  data_size, alloc,
}
use avtalk.MfMessages.Flags.{has_flag}
use avtalk.MfMessages.Layout.{FieldsFit, unpack-pack, length-pack}
use avtalk.MfMessages.Payload.{IsPlain}

-- A GUID argument is NULL or points to 16 bytes.
abbrev pub IsGuid : Option Bytes → Type 0
IsGuid none = Unit {0}
IsGuid (some g) = length g ≡ guid_bytes

length-guid_or_zero : (g : Option Bytes) → IsGuid g → length (guid_or_zero g) ≡ guid_bytes
length-guid_or_zero none h = length-replicate {A = ℕ} guid_bytes 0
length-guid_or_zero (some g) h = h

data_size-unpack : (m : Message) → data_size m ≡ (unpack m.inner).data_size
unfolding unpack cut
data_size-unpack m = refl

-- The fields of a message that was just allocated.
abbrev pub fresh_fields : ℕ → Option Bytes → Option Bytes → Bytes → Fields
fresh_fields type source dest contents = record {
  message_type = type;
  data_size = length contents % 2 ^ 32;
  packet_counter = 0;
  context = 0;
  source = guid_or_zero source;
  dest = guid_or_zero dest;
  data_encryption = replicate seal_bytes 0;
}

abbrev pub fresh_message : ℕ → Option Bytes → Option Bytes → Bytes → Message
fresh_message type source dest contents = record {
  message_size = (sizeof_header + length contents % 2 ^ 32) % 2 ^ 32;
  version = protocol_version;
  flags = 0;
  message_signature = replicate sign_bytes 0;
  header_encryption = replicate seal_bytes 0;
  inner = pack (fresh_fields type source dest contents);
  body = contents;
}

module _ (type : ℕ) (source dest : Option Bytes) (contents : Bytes) (mem : Memory) where
  -- If the size of header and data together is below 2 ^ 32, MFMessage_Alloc returns success, one
  -- new block of that size and 16 bytes more, and a plain message with the type, GUIDs and data
  -- given, counter and context 0, and a DataSize equal to the length of the data.
  pub alloc_fits :
      (p : Ptr)
      → type < 2 ^ 32
      → IsGuid source
      → IsGuid dest
      → sizeof_header + length contents < 2 ^ 32
      → let m = fresh_message type source dest contents in
        (alloc (some p) type source dest contents mem
          ≡ some (
            (s_ok, some m),
            write p (some (record { refs = 1; size = m.message_size + 0x10 })) mem,
          ))
        × IsPlain m
        × (unpack m.inner ≡ fresh_fields type source dest contents)
        × (data_size m ≡ length contents)
  unfolding alloc ref_mem_alloc has_flag
  alloc_fits p t gs gd h =
      let m : Message = fresh_message type source dest contents in
      let f : Fields = fresh_fields type source dest contents in
      let fit : FieldsFit f = record {
        type_range = t;
        size_range = omega arith;
        counter_range = omega arith;
        context_range = omega arith;
        source_length = length-guid_or_zero source gs;
        dest_length = length-guid_or_zero dest gd;
        encryption_length = length-replicate {A = ℕ} seal_bytes 0;
      } in
      let back : unpack (pack f) ≡ f = unpack-pack f fit in
      let n : data_size m ≡ length contents =
        omega (arith, data_size-unpack m, ap (λ (g : Fields). g.data_size) back) in
      let inside = le→ltb m.message_size (sizeof_header + length contents) (omega arith) in
      let room : size_add m.message_size 0x10 ≡ m.message_size + 0x10 = omega arith in
      (
        rw (inside, room),
        record {
          formed = record {
            size_eq = omega arith;
            size_range = omega arith;
            version_range = omega arith;
            flags_range = omega arith;
            signature_length = length-replicate {A = ℕ} sign_bytes 0;
            encryption_length = length-replicate {A = ℕ} seal_bytes 0;
            inner_length = length-pack f fit;
          };
          data_fits = omega arith;
          data_plain = refl;
          header_plain = refl;
        },
        back,
        n,
      )

  -- If the size of header and data together is 2 ^ 32 or more, MFMessage_Alloc copies the data
  -- beyond the block that it allocated, for every such length and whatever the type and the GUIDs.
  pub alloc_overruns :
      (p : Ptr)
      → 2 ^ 32 ≤ sizeof_header + length contents
      → alloc (some p) type source dest contents mem ≡ none
  unfolding alloc ref_mem_alloc
  alloc_overruns p h = rw (
      lt→ltb ((sizeof_header + length contents % 2 ^ 32) % 2 ^ 32) (sizeof_header + length contents)
        (omega arith))
