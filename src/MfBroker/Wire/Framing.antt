-- ===== src/MfBroker/Wire/Framing.antt =====
-- _MFMessage_Recv and _MFMessage_Send of mfbroker/mfbroker.c: one message is read off the stream,
-- and the stream is left at the next one.
use mathlib.Core.Path.{subst}
use avtalk.Base.{
  ℕ, ◌+◌, ◌-◌, ◌^◌, ◌≤◌, ◌<◌, ◌≡◌, refl, ap, ◌∙◌, ◌≢◌, Option, none, some, ◌++◌, arith, length,
  take, drop, length-append, length-drop, take_past, take-append, drop-append, take_sum, take_all,
  drop_sum, append_assoc, Option-cases, Bool-cases, ltb, inl, inr, le→ltb, ◌==◌, false, eq→==,
}
use avtalk.Base.Bytes.{to_le, cut, length-to_le, from_le-to_le}
use avtalk.MfCrypto.{Bytes}
use avtalk.MfMemory.{Ptr, null, Memory, write, ref_mem_alloc, ref_mem_add_ref, ref_mem_release}
use avtalk.MfMessages.{Message, to_bytes, of_bytes}
use avtalk.MfMessages.Layout.{IsWellFormed, length-to_bytes, of_bytes-to_bytes}
use avtalk.MfBroker.Wire.{Winsock, recv_data, message_recv, send_data, message_send}
use avtalk.MfBroker.Wire.Receive.{Delivers, recv_data-pending}

-- MessageSize is read from the header alone.
size_of_header :
    (m : Message) (rest : Bytes)
    → m.message_size < 2 ^ 32
    → (of_bytes (take 224 (to_bytes m ++ rest))).message_size ≡ m.message_size
unfolding to_bytes of_bytes cut
size_of_header m rest b =
    let front = to_le 4 m.message_size in
    let n = length-to_le 4 m.message_size in
    rw
      (
        append_assoc front _ rest,
        take_past 224 front _ (omega arith),
        take-append 4 front _ n,
        from_le-to_le 4 m.message_size b,
      )
      refl

two_reads :
    (m : Message) (rest pending left : Bytes)
    → IsWellFormed m
    → pending ≡ to_bytes m ++ rest
    → left ≡ drop 224 pending
    → (of_bytes (take 224 pending ++ take (m.message_size - 224) left) ≡ m)
      × (drop (m.message_size - 224) left ≡ rest)
two_reads m rest pending left wf split e =
    let eq : m.message_size ≡ 224 + length m.body = wf.size_eq in
    let n : 224 + (m.message_size - 224) ≡ m.message_size = omega arith in
    let l = length-to_bytes m wf in
    (
      rw
          (
            e,
            take_sum 224 (m.message_size - 224) pending,
            n,
            split,
            take-append m.message_size (to_bytes m) rest l,
          )
          (of_bytes-to_bytes m wf),
      rw (e, drop_sum 224 (m.message_size - 224) pending, n, split)
          (drop-append m.message_size (to_bytes m) rest l),
    )

-- A blocking send takes all the bytes; `sent` is what the socket has taken so far.
abbrev pub Accepts : {S : Type 0} → Winsock S → (S → Bytes) → Type 0
Accepts {S} w sent =
    (bs : Bytes) (s : S)
    → (e : ℕ) × (t : S) × (w.send bs s ≡ ((length bs, e), t)) × (sent t ≡ sent s ++ bs)

-- What MFGen_RefMemAlloc answers: no block, or the address of one that is not in use.
abbrev pub IsUnused : Option Ptr → Memory → Type 0
IsUnused none mem = Unit
IsUnused (some p) mem = (p ≢ null) × (mem p ≡ none)

-- The block of a received message: the part behind MF_LISTED_MESSAGE's header and 16 bytes of
-- mfmemory, one reference.
abbrev pub ReceivedAt : Memory → Ptr → ℕ → Memory → Type 0
ReceivedAt mem p n mem' =
    (mem' p ≡ some (record { refs = 1; size = n + 48 })) × ((a : Ptr) → a ≢ p → mem' a ≡ mem a)

module _ {S : Type 0} (w : Winsock S) where
  -- The two reads of a message and what they come to.
  message_recv_lem :
      (fuel p n : ℕ) (s t u : S) (hdr body : Bytes) (mem : Memory)
      → p ≢ null
      → 224 ≤ n
      → n < 2 ^ 32
      → recv_data w fuel 224 s ≡ some ((0, hdr), t)
      → (of_bytes hdr).message_size ≡ n
      → recv_data w fuel (n - 224) t ≡ some ((0, body), u)
      → (mem' : Memory) × (message_recv w fuel (some p) (s, mem)
          ≡ some ((0, some (p, of_bytes (hdr ++ body))), (u, mem')))
        × ReceivedAt mem p n mem'
  unfolding message_recv ref_mem_alloc ref_mem_add_ref ref_mem_release
  message_recv_lem fuel p n s t u hdr body mem q l b h1 e h2 =
      let same = eq→== p p refl in
      let live : (p == 0) ≡ false = ground arith in
      let big = le→ltb n 224 l in
      let mem' : Memory = write p (some (record { refs = 1; size = n + 48 })) (
        write p (some (record { refs = 2; size = n + 48 }))
          (write p (some (record { refs = 1; size = n + 48 })) mem)) in
      (mem', ground arith, (ground arith, λ a d. ground arith))

  pub message_recv-to_bytes :
      (pending : S → Bytes) (fuel p : ℕ) (s : S) (mem : Memory) (m : Message) (rest : Bytes)
      → Delivers w pending
      → IsWellFormed m
      → p ≢ null
      → m.message_size ≤ fuel
      → pending s ≡ to_bytes m ++ rest
      → (u : S) × (mem' : Memory) × (message_recv w fuel (some p) (s, mem)
          ≡ some ((0, some (p, m)), (u, mem')))
        × (pending u ≡ rest)
        × ReceivedAt mem p m.message_size mem'
  message_recv-to_bytes pending fuel p s mem m rest d wf q f split =
      let n = m.message_size in
      let eq : n ≡ 224 + length m.body = wf.size_eq in
      let l = length-to_bytes m wf in
      let whole : length (pending s) ≡ n + length rest =
        ap (λ l. length l) split ∙ length-append (to_bytes m) rest ∙ ap (λ k. k + length rest) l in
      let (t, h1, left) =
        recv_data-pending w pending fuel 224 s d (omega arith) (omega arith) (omega arith) in
      let hdr = take 224 (pending s) in
      let e : (of_bytes hdr).message_size ≡ n = rw split (size_of_header m rest wf.size_range) in
      let k : length (pending t) ≡ n + length rest - 224 =
        ap (λ l. length l) left ∙ length-drop 224 (pending s) ∙ ap (λ j. j - 224) whole in
      let (u, h2, left2) =
        recv_data-pending w pending fuel (n - 224) t d (omega arith) (omega arith) (omega arith) in
      let (mem', run, at) =
        message_recv_lem fuel p n s t u hdr (take (n - 224) (pending t)) mem q (omega arith)
          wf.size_range h1 e h2 in
      let (read, end) = two_reads m rest (pending s) (pending t) wf split left in
      (
        u,
        mem',
        subst (λ x. message_recv w fuel (some p) (s, mem) ≡ some ((0, some (p, x)), (u, mem'))) read
            run,
        left2 ∙ end,
        at,
      )

  message_send_lem :
      (sent : S → Bytes) (a : S) (m : Message)
      → Accepts w sent
      → IsWellFormed m
      → (a' : S) × (message_send w m a ≡ some (0, a')) × (sent a' ≡ sent a ++ to_bytes m)
  unfolding message_send send_data
  message_send_lem sent a m acc wf =
      let l = length-to_bytes m wf in
      let (e, t, h, out) = acc (to_bytes m) a in
      let all = eq→== (length (to_bytes m)) (length (to_bytes m)) refl in
      let whole : take m.message_size (to_bytes m) ≡ to_bytes m =
        take_all m.message_size (to_bytes m) (omega arith) in
      (t, ground arith, out)

  -- If send takes all bytes and recv hands out the pending bytes in order, in chunks of any size:
  -- _MFMessage_Send of a well-formed message returns 0 and has sent its bytes; and _MFMessage_Recv
  -- from a stream that begins with those bytes returns 0 and that message within MessageSize
  -- rounds, in one new block with one reference, leaves the stream at the next message and changes
  -- no other block.
  pub message_recv-message_send :
      (sent pending : S → Bytes) (fuel p : ℕ) (a s : S) (mem : Memory) (m : Message)
      → Accepts w sent
      → Delivers w pending
      → IsWellFormed m
      → p ≢ null
      → m.message_size ≤ fuel
      → (a' : S) × (message_send w m a ≡ some (0, a'))
        × (sent a' ≡ sent a ++ to_bytes m)
        × ((rest : Bytes)
            → pending s ≡ to_bytes m ++ rest
            → (u : S) × (mem' : Memory) × (message_recv w fuel (some p) (s, mem)
                ≡ some ((0, some (p, m)), (u, mem')))
              × (pending u ≡ rest)
              × ReceivedAt mem p m.message_size mem')
  message_recv-message_send sent pending fuel p a s mem m acc d wf q f =
      let l = length-to_bytes m wf in
      let (a', code, out) = message_send_lem sent a m acc wf in
      (
        a',
        code,
        out,
        λ rest split. message_recv-to_bytes pending fuel p s mem m rest d wf q f split,
      )

  -- Whenever _MFMessage_Recv returns without a message, for whatever recv answers, and whether
  -- MFGen_RefMemAlloc has no memory or finds an unused block other than NULL, its code is not 0 and
  -- the memory is as before, the block that it may have allocated being free again.
  pub message_recv_fails :
      (fuel : ℕ) (fresh : Option Ptr) (s u : S) (mem mem' : Memory) (ret : ℕ)
      → IsUnused fresh mem
      → message_recv w fuel fresh (s, mem) ≡ some ((ret, none), (u, mem'))
      → (ret ≢ 0) × ((a : Ptr) → mem' a ≡ mem a)
  unfolding message_recv ref_mem_alloc ref_mem_add_ref ref_mem_release
  message_recv_fails fuel none s u mem mem' ret unused h =
      elim (Option-cases (recv_data w fuel 224 s)) [
        | inl e ↦ absurd (ground arith)
        | inr (((r, hdr), t), e) ↦ elim (Bool-cases (r == 0)) [
          | inr z ↦ (ground arith, λ a. ground arith)
          | inl z ↦ elim (Bool-cases (ltb (of_bytes hdr).message_size 224)) [
            | inl small ↦ (ground arith, λ a. ground arith)
            | inr big ↦ (ground arith, λ a. ground arith)
          ]
        ]
      ]
  message_recv_fails fuel (some p) s u mem mem' ret (q, unused) h =
      elim (Option-cases (recv_data w fuel 224 s)) [
        | inl e ↦ absurd (ground arith)
        | inr (((r, hdr), t), e) ↦ elim (Bool-cases (r == 0)) [
          | inr z ↦ (ground arith, λ a. ground arith)
          | inl z ↦ elim (Bool-cases (ltb (of_bytes hdr).message_size 224)) [
            | inl small ↦ (ground arith, λ a. ground arith)
            | inr big ↦
                elim (Option-cases (recv_data w fuel ((of_bytes hdr).message_size - 224) t)) [
                  | inl e2 ↦ absurd (ground arith)
                  | inr (((r2, body), v), e2) ↦ elim (Bool-cases (r2 == 0)) [
                    | inl z2 ↦ absurd (ground arith)
                    | inr z2 ↦ (ground arith, λ a. ground arith)
                  ]
                ]
          ]
        ]
      ]
