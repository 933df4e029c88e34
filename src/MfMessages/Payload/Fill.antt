-- ===== src/MfMessages/Payload/Fill.antt =====
-- The random fill at the end of MFMessage_DataEncrypt (mfmessages/mfmessages.c): which bytes of the
-- buffer it writes.
use avtalk.Base.{
  ℕ, zero, suc, ◌+◌, ◌-◌, ◌*◌, ◌%◌, ◌^◌, ◌≤◌, ◌≡◌, refl, some, List, [], ◌∷◌, ◌++◌, arith, length,
  take, drop, le→ltb, length-append, ap, append_assoc,
}
use avtalk.Base.Bytes.{to_le, length-to_le, splice, length-splice}
use avtalk.MfCrypto.{Bytes}
use avtalk.MfMessages.{Message, sizeof_header, to_bytes, data_size, fill}
use avtalk.MfMessages.Layout.{IsWellFormed, of_bytes-to_bytes}

-- The header of a message, 224 bytes, in front of its body.
header_part : Message → Bytes
header_part m =
    to_le 4 m.message_size
    ++ (to_le 2 m.version
        ++ (to_le 2 m.flags ++ (m.message_signature ++ (m.header_encryption ++ m.inner))))

length-header_part : (m : Message) → IsWellFormed m → length (header_part m) ≡ sizeof_header
unfolding header_part
length-header_part m w = simp (length-append, length-to_le) (omega arith)

to_bytes_parts : (m : Message) → to_bytes m ≡ header_part m ++ m.body
unfolding header_part to_bytes
to_bytes_parts m = simp append_assoc

module _ {A : Type 0} where
  pub take-add :
      (n k : ℕ) (xs ys : List A) → length xs ≡ n → take (n + k) (xs ++ ys) ≡ xs ++ take k ys
  take-add zero k [] ys h = let e : zero + k ≡ k = omega arith in rw e
  take-add (suc n) k [] ys h = absurd (omega arith)
  take-add zero k (x ∷ xs) ys h = absurd (omega arith)
  take-add (suc n) k (x ∷ xs) ys h =
      let e : suc n + k ≡ suc (n + k) = omega arith in
      rw e (ap (λ l. x ∷ l) (take-add n k xs ys (omega arith)))

  drop-add : (n k : ℕ) (xs ys : List A) → length xs ≡ n → drop (n + k) (xs ++ ys) ≡ drop k ys
  drop-add zero k [] ys h = let e : zero + k ≡ k = omega arith in rw e
  drop-add (suc n) k [] ys h = absurd (omega arith)
  drop-add zero k (x ∷ xs) ys h = absurd (omega arith)
  drop-add (suc n) k (x ∷ xs) ys h =
      let e : suc n + k ≡ suc (n + k) = omega arith in rw e (drop-add n k xs ys (omega arith))

header_part_body : (m : Message) (b : Bytes) → header_part (record m { body = b }) ≡ header_part m
unfolding header_part
header_part_body m b = refl

-- A write behind the header is a write to the body.
splice_body :
    (m : Message) (at : ℕ) (bs : Bytes)
    → IsWellFormed m
    → splice (sizeof_header + at) bs (to_bytes m)
      ≡ to_bytes (record m { body = splice at bs m.body })
unfolding splice
splice_body m at bs w =
    let n = length-header_part m w in
    let e : sizeof_header + at + length bs ≡ sizeof_header + (at + length bs) = omega arith in
    rw (to_bytes_parts m, to_bytes_parts (record m { body = splice at bs m.body }))
      (rw
        (
          e,
          splice,
          take-add sizeof_header at (header_part m) m.body n,
          drop-add sizeof_header (at + length bs) (header_part m) m.body n,
          header_part_body m (splice at bs m.body),
        )
        (simp append_assoc))

pub body-IsWellFormed :
    (m : Message) (b : Bytes)
    → IsWellFormed m
    → length b ≡ length m.body
    → IsWellFormed (record m { body = b })
body-IsWellFormed m b w h = record {
  size_eq = omega arith;
  size_range = w.size_range;
  version_range = w.version_range;
  flags_range = w.flags_range;
  signature_length = w.signature_length;
  encryption_length = w.encryption_length;
  inner_length = w.inner_length;
}

module _ (rng : ℕ → Bytes) (draws : (n : ℕ) → length (rng n) ≡ n) where
  -- The fill behind the encryption overwrites the end of the data, not the padding behind them.
  pub fill_lem :
      (m : Message)
      → IsWellFormed m
      → data_size m ≤ length m.body
      → length m.body ≤ 2 * data_size m
      → let padding = length m.body - data_size m in
        fill rng m ≡ some (record m { body = splice (data_size m - padding) (rng padding) m.body })
  unfolding fill
  fill_lem m w h k =
      let padding : ℕ = length m.body - data_size m in
      let at : ℕ = data_size m - padding in
      let e : (m.message_size + 2 * 2 ^ 64 - sizeof_header - data_size m) % 2 ^ 64 ≡ padding =
        omega (arith, w.size_eq, w.size_range) in
      let inside = le→ltb (sizeof_header + data_size m) padding (omega arith) in
      let o : sizeof_header + data_size m - padding ≡ sizeof_header + at = omega arith in
      let n : length (splice at (rng padding) m.body) ≡ length m.body =
        length-splice at (rng padding) m.body (omega (arith, draws padding)) in
      rw (
        e,
        inside,
        o,
        splice_body m at (rng padding) w,
        of_bytes-to_bytes (record m { body = splice at (rng padding) m.body })
            (body-IsWellFormed m (splice at (rng padding) m.body) w n),
      )
