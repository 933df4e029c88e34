-- ===== src/MfBroker/Wire.antt =====
-- _sendData, _recvData, _MFMessage_Recv and _MFMessage_Send of mfbroker/mfbroker.c: messages on a
-- socket. The socket is a state of a type `S`; what Winsock does with it is the parameter.
pub mod Receive
pub mod Framing
use avtalk.Base.{
  ℕ, zero, suc, ◌+◌, ◌-◌, ◌%◌, ◌^◌, ◌≤◌, ◌<◌, ◌≡◌, Bool, true, false, ◌&&◌, Option, none, some,
  List, [], ◌∷◌, ◌++◌, length, take, ◌==◌, ltb, if◌then◌else◌,
}
use avtalk.Base.Fault.{Cmd, pure, ◌>>=◌, ◌>>◌, when}
use avtalk.MfCrypto.{Bytes}
use avtalk.MfMemory.{Ptr, Memory, size_add, ref_mem_alloc, ref_mem_add_ref, ref_mem_release}
use avtalk.MfMessages.{Message, sizeof_header, to_bytes, of_bytes}

-- The answer of recv: what it put into the buffer (nothing, for a closed connection), or -1 with
-- the value of WSAGetLastError.
pub data Answer : Type 0 where
  got : Bytes → Answer
  failed : ℕ → Answer

-- `recv` is asked for a number of bytes, an `int` as its bit pattern. `send` is given the bytes and
-- answers with the number of bytes sent and the value of WSAGetLastError.
pub record Winsock (S : Type 0) : Type 0 where
  pub recv : ℕ → S → Answer × S
  pub send : Bytes → S → (ℕ × ℕ) × S

-- `sizeof(MF_LISTED_MESSAGE) - sizeof(Header)`
abbrev pub listed_extra : ℕ
listed_extra = 32

abbrev pub error_invalid_parameter : ℕ
error_invalid_parameter = 87

module _ {S : Type 0} where
  abbrev pub on_socket : {A : Type 0} → Cmd S A → Cmd (S × Memory) A
  on_socket c s = elim (c s.0) [ none ↦ none | some (a, t) ↦ some (a, (t, s.1)) ]

  abbrev pub on_memory : {A : Type 0} → Cmd Memory A → Cmd (S × Memory) A
  on_memory c s = elim (c s.1) [ none ↦ none | some (a, t) ↦ some (a, (s.0, t)) ]

  -- What follows a recv: the loop ends, or goes on with what is missing.
  unfoldable pub recv_step : (ℕ → Cmd S (ℕ × Bytes)) → ℕ → Answer × S → Option ((ℕ × Bytes) × S)
  recv_step rest n (failed last_error, t) = some ((last_error, []), t)
  recv_step rest n (got bs, t) = elim (rest (n - length bs) t) [
    | none ↦ none
    | some ((ret, more), u) ↦ some ((ret, bs ++ more), u)
  ]

module _ {S : Type 0} (w : Winsock S) where
  unfoldable pub send_data : Bytes → Cmd S ℕ
  send_data bs s =
      let ((sent, last_error), t) = w.send bs s in
      some (if sent == length bs then 0 else last_error, t)

  -- The code and the bytes stored, `length` of them unless recv failed. `none` when the rounds in
  -- `fuel` did not suffice.
  unfoldable pub recv_data : ℕ → ℕ → Cmd S (ℕ × Bytes)
  unfolding recv_step
  recv_data zero n s = if n == 0 then some ((0, []), s) else none
  recv_data (suc fuel) n s =
      if n == 0 then some ((0, []), s) else recv_step (recv_data fuel) n (w.recv (n % 2 ^ 32) s)

  -- The result code, and the block and the message stored in `*Message` on success.
  unfoldable pub message_recv : ℕ → Option Ptr → Cmd (S × Memory) (ℕ × Option (Ptr × Message))
  message_recv fuel fresh = do
    (ret, hdr) ← on_socket (recv_data fuel sizeof_header)
    let size = (of_bytes hdr).message_size
    let ret = if ret == 0 && ltb size sizeof_header then error_invalid_parameter else ret
    (ret, p) ←
        (if ret == 0
          then on_memory (ref_mem_alloc fresh (size_add size listed_extra))
          else pure (ret, none))
    elim p [
      | none ↦ pure (ret, none)
      | some p ↦ (do
        (ret, rest) ← on_socket (recv_data fuel (size - sizeof_header))
        when (ret == 0) (on_memory (ref_mem_add_ref p))
        on_memory (ref_mem_release p)
        pure (ret, if ret == 0 then some (p, of_bytes (hdr ++ rest)) else none))
    ]

  unfoldable pub message_send : Message → Cmd S ℕ
  unfolding send_data
  message_send m = send_data (take m.message_size (to_bytes m))
