-- ===== src/Tests/Protocol.antt =====
-- The messages of mfprotocol at concrete texts.
use avtalk.Base.{
  ℕ, ◌≤◌, ◌<◌, ◌≡◌, arith, some, none, [], ◌∷◌, ◌++◌, length, drop, replicate, length-replicate,
}
use avtalk.MfCrypto.{Bytes, Key}
use avtalk.MfMemory.{Memory, write, s_ok}
use avtalk.MfMessages.{Message, unpack}
use avtalk.MfProtocol.{mfmt_error, mfmt_new_user, error_message, new_user_in}
use avtalk.MfProtocol.Texts.{code_of, text_of, NewBlock, text_of-error_message, new_user_in_bound}

abbrev empty : Memory
empty a = none

abbrev hello : Bytes
hello = 104 ∷ 105 ∷ []

text_of-error_message_example :
    (m : Message) × (mem' : Memory) × (error_message (some 7) (some 9) 5 (some hello) empty
      ≡ some ((s_ok, some m), mem'))
    × ((unpack m.inner).message_type ≡ mfmt_error)
    × (code_of m.body ≡ 5)
    × (text_of m.body ≡ 104 ∷ 105 ∷ 0 ∷ [])
    × NewBlock empty 7 9 251 mem'
text_of-error_message_example =
    text_of-error_message 7 9 5 (some hello) empty (λ e. omega arith) (λ e. omega arith)
      (omega arith) (omega arith)

abbrev sample_key : Key
sample_key = record { enc = replicate 32 1; sign = replicate 32 2 }

new_user_in_bound_example :
    (length hello ≤ 64
      → (m : Message) × (new_user_in (some 9) hello sample_key 1000 1 (replicate 4 3) empty
          ≡ some ((s_ok, some m), write 9 (some (record { refs = 1; size = 384 })) empty))
        × ((unpack m.inner).message_type ≡ mfmt_new_user)
        × (drop 80 m.body ≡ hello ++ replicate 62 0))
    × (64 < length hello
        → new_user_in (some 9) hello sample_key 1000 1 (replicate 4 3) empty ≡ none)
new_user_in_bound_example =
    new_user_in_bound 9 hello (replicate 4 3) sample_key 1000 1 empty
      (length-replicate {A = ℕ} 32 1) (length-replicate {A = ℕ} 32 2) (length-replicate {A = ℕ} 4 3)
