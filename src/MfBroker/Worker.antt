-- ===== src/MfBroker/Worker.antt =====
-- What _MFBrokerThreadRoutine of mfbroker/mfbroker.c does to a message before it is sent and after
-- it was received. `none` is a failed assertion of mfmessages.
pub mod Exchange
pub mod Round
pub mod Serve
pub mod Rounds
pub mod Delivery
pub mod Received
pub mod Stalled
use avtalk.Base.{
  ℕ, Bool, true, false, not, ◌&&◌, Option, none, some, List, [], ◌∷◌, ◌++◌, ◌==◌, if◌then◌else◌,
}
use avtalk.MfCrypto.{Bytes, Sodium, Key}
use avtalk.MfMessages.{Message, sign, verify, header_encrypt, header_decrypt}
use avtalk.MfMessages.Flags.{signed, header_encrypted, has_flag}
use avtalk.MfBroker.Slots.{State, mcs_free, mcs_handshake, mcf_established}
use avtalk.MfBroker.Server.{ErrorType, bet_message_invalid_signature, bet_message_failed_decryption}

-- What MessageCallback answers to the events about a message.
pub record Callbacks : Type 0 where
  pub about_to_encrypt : Message → ℕ
  pub about_to_sign : Message → ℕ
  pub cannot_verify : Message → ℕ
  pub cannot_encrypt : Message → ℕ

abbrev pub is_established : State → Bool
is_established mcf_established = true
is_established _ = false

module _ (s : Sodium) (calls : Callbacks) (state : State) where
  -- `conn_key` is the connection's key, `r` the randomness of the seal.
  unfoldable pub encrypt_before : Key → Bytes → Message → Option (ℕ × Message)
  encrypt_before conn_key r m =
      if not (has_flag m.flags header_encrypted) && not (calls.about_to_encrypt m == 0)
      then (if is_established state
          then elim (header_encrypt s conn_key r m) [ none ↦ none | some m' ↦ some (0, m') ]
          else some (calls.cannot_encrypt m, m))
      else some (0, m)

  -- The send loop up to _MFMessage_Send, for one message.
  unfoldable pub prepare : Key → Key → Bytes → Message → Option (ℕ × Message)
  unfolding encrypt_before
  prepare conn_key broker_secret r m = elim (encrypt_before conn_key r m) [
    | none ↦ none
    | some (ret, m') ↦
        if ret == 0 && (not (has_flag m'.flags signed) && not (calls.about_to_sign m' == 0))
        then elim (sign s broker_secret m') [ none ↦ none | some m'' ↦ some (ret, m'') ]
        else some (ret, m')
  ]

  unfoldable pub verify_after : Key → Message → Option (ℕ × Message × List ErrorType)
  verify_after conn_key m =
      if has_flag m.flags signed
      then (if is_established state
          then elim (verify s conn_key m) [
            | none ↦ none
            | some (ret, m') ↦
                some (ret, m', if ret == 0 then [] else bet_message_invalid_signature ∷ [])
          ]
          else some (calls.cannot_verify m, m, []))
      else some (0, m, [])

  -- A received message: it is queued for delivery if the code is 0. The list holds the calls of
  -- ErrorCallback, in order.
  unfoldable pub check : Key → Key → Key → Message → Option (ℕ × Message × List ErrorType)
  unfolding verify_after
  check conn_key broker_public broker_secret m = elim (verify_after conn_key m) [
    | none ↦ none
    | some (ret, m', errors) ↦
        if ret == 0 && has_flag m'.flags header_encrypted
        then elim (header_decrypt s broker_public broker_secret m') [
          | none ↦ none
          | some (ret, m'') ↦
              some
                (ret, m'', errors ++ (if ret == 0 then [] else bet_message_failed_decryption ∷ []))
        ]
        else some (ret, m', errors)
  ]
