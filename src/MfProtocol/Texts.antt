-- ===== src/MfProtocol/Texts.antt =====
-- The texts in the messages of mfprotocol/mfprotocol.c.
use avtalk.Base.{
  ℕ, ◌+◌, ◌-◌, ◌^◌, ◌≤◌, ◌<◌, ◌≡◌, refl, ap, ◌∙◌, ◌≢◌, Option, none, some, ◌++◌, arith, length,
  take, drop, replicate, length-append, length-replicate, take-append, take_all, drop_past, lt→ltb,
  le→ltb, ne→==, eq→==,
}
use avtalk.Base.Bytes.{to_le, from_le, length-to_le, from_le-to_le}
use avtalk.Base.Fault.{◌>>=◌}
use avtalk.MfCrypto.{Bytes, Key}
use avtalk.MfMemory.{Ptr, null, Memory, write, size_add, s_ok, ref_mem_alloc, ref_mem_release}
use avtalk.MfMessages.{Message, Fields, unpack}
use avtalk.MfMessages.Alloc.{fresh_message, alloc_fits}
use avtalk.MfProtocol.{
  mfmt_error, mfmt_new_user, terminated, error_contents, message_of_block, error_message,
  new_user_contents, new_user_in,
}

-- The temporary block is gone, one block of `n` bytes is new at `p`.
abbrev pub NewBlock : Memory → Ptr → Ptr → ℕ → Memory → Type 0
NewBlock mem temp p n mem' =
    (mem' p ≡ some (record { refs = 1; size = n }))
    × (mem' temp ≡ none)
    × ((a : Ptr) → a ≢ p → a ≢ temp → mem' a ≡ mem a)

block_lem :
    (temp p type size : ℕ) (contents : Bytes) (mem : Memory)
    → temp ≢ null
    → p ≢ temp
    → type < 2 ^ 32
    → 224 + length contents < 2 ^ 32
    → (mem' : Memory) × (message_of_block (some temp) (some p) type size contents mem
        ≡ some ((s_ok, some (fresh_message type none none contents)), mem'))
      × NewBlock mem temp p (240 + length contents) mem'
unfolding message_of_block ref_mem_alloc ref_mem_release
block_lem temp p type size contents mem n q t b =
    let m1 : Memory = write temp (some (record { refs = 1; size = size_add size 0x10 })) mem in
    let (run, plain, back, len) = alloc_fits type none none contents m1 p t tt tt b in
    let live = ne→== temp 0 n in
    let same = eq→== temp temp refl in
    let other = ne→== temp p (λ e. q (omega arith)) in
    let mem' : Memory = write temp none (
      write p
        (some
          (record { refs = 1; size = (fresh_message type none none contents).message_size + 0x10 }))
        m1) in
    (mem', rw (◌>>=◌, run, live, other, same), (ground arith, ground arith, λ a x y. ground arith))

-- Past a first field of `k` bytes.
drop_field : (k n : ℕ) (xs ys : Bytes) → length xs ≡ k → drop (k + n) (xs ++ ys) ≡ drop n ys
drop_field k n xs ys h =
    let e : k + n - length xs ≡ n = omega arith in
    drop_past (k + n) xs ys (omega arith) ∙ ap (λ (i : ℕ). drop i ys) e

abbrev pub code_of : Bytes → ℕ
code_of bs = from_le (take 4 bs)

-- The text with its terminating 0.
abbrev pub text_of : Bytes → Bytes
text_of bs = take (from_le (take 4 (drop 4 bs))) (drop 8 bs)

length-error_contents :
    (code : ℕ) (text : Option Bytes)
    → length (error_contents code text) ≡ 8 + length (terminated text)
length-error_contents code text =
    simp length-append
      (omega (arith, length-to_le 4 code, length-to_le 4 (length (terminated text))))

code_of-error_contents :
    (code : ℕ) (text : Option Bytes) → code < 2 ^ 32 → code_of (error_contents code text) ≡ code
code_of-error_contents code text h = rw (
  take-append 4 (to_le 4 code) (to_le 4 (length (terminated text)) ++ terminated text)
      (length-to_le 4 code),
  from_le-to_le 4 code h,
)

text_of-error_contents :
    (code : ℕ) (text : Option Bytes)
    → 232 + length (terminated text) < 2 ^ 32
    → text_of (error_contents code text) ≡ terminated text
text_of-error_contents code text h =
    let n = length (terminated text) in
    let e = drop_field 4 0 (to_le 4 code) (to_le 4 n ++ terminated text) (length-to_le 4 code) in
    let e8 =
      drop_field 4 4 (to_le 4 code) (to_le 4 n ++ terminated text) (length-to_le 4 code)
      ∙ drop_field 4 0 (to_le 4 n) (terminated text) (length-to_le 4 n) in
    rw (
      e,
      take-append 4 (to_le 4 n) (terminated text) (length-to_le 4 n),
      from_le-to_le 4 n (omega arith),
      e8,
      take_all n (terminated text) (omega arith),
    )

-- If the allocator finds two blocks, the error code fits 32 bits and the message with its header is
-- shorter than 2 ^ 32 bytes, MFProtocol_ErrorMessage returns 0 and a message of type mfmtError
-- whose data give the code and the text with its terminating 0 (nothing for NULL) back; the
-- temporary block is freed, the message is the one new block with one reference, and no other block
-- changes.
pub text_of-error_message :
    (temp p code : ℕ) (text : Option Bytes) (mem : Memory)
    → temp ≢ null
    → p ≢ temp
    → code < 2 ^ 32
    → 232 + length (terminated text) < 2 ^ 32
    → (m : Message) × (mem' : Memory) × (error_message (some temp) (some p) code text mem
        ≡ some ((s_ok, some m), mem'))
      × ((unpack m.inner).message_type ≡ mfmt_error)
      × (code_of m.body ≡ code)
      × (text_of m.body ≡ terminated text)
      × NewBlock mem temp p (248 + length (terminated text)) mem'
unfolding error_message
text_of-error_message temp p code text mem n q c h =
    let contents = error_contents code text in
    let len = length-error_contents code text in
    let size : 248 + length (terminated text) ≡ 240 + length contents = omega arith in
    let (mem', run, new) =
      block_lem temp p mfmt_error (size_add 8 (length (terminated text))) contents mem n q
        (omega arith) (omega arith) in
    let (_, _, back, _) =
      alloc_fits mfmt_error none none contents mem p (omega arith) tt tt (omega arith) in
    (
      fresh_message mfmt_error none none contents,
      mem',
      run,
      ap (λ (f : Fields). f.message_type) back,
      code_of-error_contents code text c,
      text_of-error_contents code text h,
      rw (size) new,
    )

-- With keys of 32 bytes each and 4 bytes of padding: for a name of at most 64 bytes,
-- MFProtocol_NewUserIn returns 0 and, in one new block, a message of type mfmtNewUser whose data
-- end with the name, padded with zeros to 64 bytes; for a longer name it writes beyond its buffer.
pub new_user_in_bound :
    (p : ℕ) (name padding : Bytes) (key : Key) (expiration flags : ℕ) (mem : Memory)
    → length key.enc ≡ 32
    → length key.sign ≡ 32
    → length padding ≡ 4
    → (length name ≤ 64
        → (m : Message) × (new_user_in (some p) name key expiration flags padding mem
            ≡ some ((s_ok, some m), write p (some (record { refs = 1; size = 384 })) mem))
          × ((unpack m.inner).message_type ≡ mfmt_new_user)
          × (drop 80 m.body ≡ name ++ replicate (64 - length name) 0))
      × (64 < length name → new_user_in (some p) name key expiration flags padding mem ≡ none)
unfolding new_user_in
new_user_in_bound p name padding key expiration flags mem e s d =
    let rest = name ++ replicate (64 - length name) 0 in
    let contents = new_user_contents name key expiration flags padding in
    (
      λ h.
          let len : length contents ≡ 144 = simp length-append (
            omega (
              arith,
              length-to_le 8 expiration,
              length-to_le 4 flags,
              length-replicate {A = ℕ} (64 - length name) 0,
            )) in
          let (run, _, back, _) =
            alloc_fits mfmt_new_user none none contents mem p (omega arith) tt tt (omega arith) in
          let size : (fresh_message mfmt_new_user none none contents).message_size + 0x10 ≡ 384 =
            omega arith in
          (
            fresh_message mfmt_new_user none none contents,
            rw (le→ltb 64 (length name) h) (run ∙ rw size refl),
            ap (λ (f : Fields). f.message_type) back,
            drop_field 32 48 key.enc _ e
                ∙ drop_field 32 16 key.sign _ s
                ∙ drop_field 8 8 (to_le 8 expiration) _ (length-to_le 8 expiration)
                ∙ drop_field 4 4 (to_le 4 flags) _ (length-to_le 4 flags)
                ∙ drop_field 4 0 padding rest d,
          ),
      λ h. rw (lt→ltb 64 (length name) h),
    )
