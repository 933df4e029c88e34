-- ===== src/MfProtocol.antt =====
-- mfprotocol/mfprotocol.c with include/mfprotocol.h: the messages of the protocol.
-- A string is its bytes without the terminating 0. The address that the allocator gives for a
-- block, and random bytes, are arguments. `none` is an access outside a buffer.
pub mod Texts
use avtalk.Base.{
  ℕ, ◌+◌, ◌-◌, ◌*◌, ◌%◌, ◌^◌, Option, none, some, List, [], ◌∷◌, ◌++◌, length, take, replicate, ltb,
  if◌then◌else◌,
}
use avtalk.Base.Bytes.{to_le}
use avtalk.Base.Fault.{Cmd, pure, fault, ◌>>=◌, ◌>>◌}
use avtalk.MfCrypto.{Bytes, Key}
use avtalk.MfMemory.{Ptr, Memory, size_add, ref_mem_alloc, ref_mem_release}
use avtalk.MfMessages.{Message, alloc}

-- The values of `EMFMessageType` in use.
abbrev pub mfmt_query_server_info : ℕ
mfmt_query_server_info = 1

abbrev pub mfmt_new_user : ℕ
mfmt_new_user = 2

abbrev pub mfmt_new_user_key_proof : ℕ
mfmt_new_user_key_proof = 3

abbrev pub mfmt_error : ℕ
mfmt_error = 9

abbrev seed_or_random : Option Bytes → Bytes → Bytes
seed_or_random none random = random
seed_or_random (some seed) random = seed

unfoldable pub server_info_in : Option Ptr → Option Bytes → Bytes → Cmd Memory (ℕ × Option Message)
server_info_in fresh challenge random =
    alloc fresh mfmt_query_server_info none none (seed_or_random challenge random)

-- The block of MFGen_RefMemAlloc, and the message made of its contents.
unfoldable pub message_of_block :
    Option Ptr → Option Ptr → ℕ → ℕ → Bytes → Cmd Memory (ℕ × Option Message)
message_of_block temp fresh type size contents = do
  (ret, block) ← ref_mem_alloc temp size
  elim block [
    | none ↦ pure (ret, none)
    | some p ↦ (do out ← alloc fresh type none none contents; ref_mem_release p; pure out)
  ]

abbrev name_or_empty : Option Bytes → Bytes
name_or_empty none = []
name_or_empty (some name) = name

-- `ServerName`, 256 bytes: at most 255 bytes of the name, zeros behind them.
abbrev pub server_name : Option Bytes → Bytes
server_name name =
    let used = take 255 (name_or_empty name) in used ++ replicate (256 - length used) 0

-- The first `n % 2 ^ 32` elements of an array, one after another.
abbrev pub entries : ℕ → List Bytes → Bytes
entries n array = joined (take (n % 2 ^ 32) array)
  where
    joined : List Bytes → Bytes
    joined [] = []
    joined (e ∷ es) = e ++ joined es

-- The block: Flags and SupportedVersions stay 0, as does what the 32-bit counts leave of it.
abbrev pub server_info_contents : Option Bytes → Key → Bytes → List Bytes → List Bytes → Bytes
server_info_contents name key signature users channels =
    let counts = to_le 4 (length users) ++ to_le 4 (length channels) in
    let arrays = entries (length users) users ++ entries (length channels) channels in
    let size = 144 * length users + 152 * length channels in
    key.enc
    ++ (key.sign
        ++ (signature
            ++ (server_name name
                ++ (replicate 8 0 ++ (counts ++ (arrays ++ replicate (size - length arrays) 0))))))

unfoldable pub server_info_out :
    Option Ptr
    → Option Ptr
    → Option Bytes
    → Key
    → Bytes
    → List Bytes
    → List Bytes
    → Cmd Memory (ℕ × Option Message)
unfolding message_of_block
server_info_out temp fresh name key signature users channels =
    message_of_block temp fresh mfmt_query_server_info
      ((400 + 144 * length users + 152 * length channels) % 2 ^ 64)
      (server_info_contents name key signature users channels)

-- `ErrorMessage` with its terminating 0, or nothing for NULL.
abbrev pub terminated : Option Bytes → Bytes
terminated none = []
terminated (some text) = text ++ 0 ∷ []

abbrev pub error_contents : ℕ → Option Bytes → Bytes
error_contents code text = to_le 4 code ++ (to_le 4 (length (terminated text)) ++ terminated text)

unfoldable pub error_message :
    Option Ptr → Option Ptr → ℕ → Option Bytes → Cmd Memory (ℕ × Option Message)
unfolding message_of_block
error_message temp fresh code text =
    message_of_block temp fresh mfmt_error (size_add 8 (length (terminated text)))
      (error_contents code text)

abbrev pub new_user_contents : Bytes → Key → ℕ → ℕ → Bytes → Bytes
new_user_contents name key expiration flags padding =
    key.enc
    ++ (key.sign
        ++ (to_le 8 expiration
            ++ (to_le 4 flags ++ (padding ++ (name ++ replicate (64 - length name) 0)))))

-- `data.Name`, 64 bytes, is the last field of the record on the stack.
unfoldable pub new_user_in :
    Option Ptr → Bytes → Key → ℕ → ℕ → Bytes → Cmd Memory (ℕ × Option Message)
new_user_in fresh name key expiration flags padding =
    if ltb 64 (length name)
    then fault
    else alloc fresh mfmt_new_user none none (new_user_contents name key expiration flags padding)

unfoldable pub new_user_out :
    Option Ptr → Bytes → Option Bytes → Bytes → Cmd Memory (ℕ × Option Message)
new_user_out fresh guid challenge random =
    alloc fresh mfmt_new_user none none (guid ++ seed_or_random challenge random)

unfoldable pub user_key_proof_in : Option Ptr → Bytes → Bytes → Cmd Memory (ℕ × Option Message)
user_key_proof_in fresh guid response =
    alloc fresh mfmt_new_user_key_proof (some guid) none (guid ++ response)
