-- ===== src/MfBroker/Worker/Exchange.antt =====
-- From the send loop of one broker to the delivery list of another, in mfbroker/mfbroker.c.
use avtalk.Base.{
  ◌≡◌, ◌≢◌, arith, true, false, some, List, [], ◌==◌, ap, ◌∙◌, Bool-cases, Option-cases, inl, inr,
}
use avtalk.MfCrypto.{Bytes, Sodium, SodiumLaws, Key, IsKeyPair}
use avtalk.MfMessages.{Message, sign, verify, header_encrypt, header_decrypt}
use avtalk.MfMessages.Flags.{signed, header_encrypted, has_flag, set_flag, clear_flag, flag_facts}
use avtalk.MfMessages.Layout.{IsWellFormed}
use avtalk.MfMessages.Header.{header_sealed, header_encrypt_lem, header_decrypt_lem}
use avtalk.MfMessages.Signature.{with_signature, sign_lem, verify-with_signature}
use avtalk.MfBroker.Slots.{mcf_established}
use avtalk.MfBroker.Server.{ErrorType}
use avtalk.MfBroker.Worker.{Callbacks, encrypt_before, prepare, verify_after, check}

module _ (s : Sodium) (calls : Callbacks) where
  prepare_run :
      (key secret : Key) (r : Bytes) (m b c : Message)
      → has_flag m.flags header_encrypted ≡ false
      → calls.about_to_encrypt m ≢ 0
      → header_encrypt s key r m ≡ some b
      → has_flag b.flags signed ≡ false
      → calls.about_to_sign b ≢ 0
      → sign s secret b ≡ some c
      → prepare s calls mcf_established key secret r m ≡ some (0, c)
  unfolding prepare encrypt_before
  prepare_run key secret r m b c plain yes1 sealed unsigned yes2 done1 = ground arith

  check_run :
      (key public secret : Key) (c d : Message)
      → has_flag c.flags signed ≡ true
      → verify s key c ≡ some (0, c)
      → has_flag c.flags header_encrypted ≡ true
      → header_decrypt s public secret c ≡ some (0, d)
      → check s calls mcf_established key public secret c ≡ some (0, d, [])
  unfolding check verify_after
  check_run key public secret c d sig verified sealed opened1 = ground arith

module _ (s : Sodium) (laws : SodiumLaws s) where
  -- Between two established connections with matching keys, if the callbacks of the sender agree to
  -- encrypt and to sign: a well-formed message whose header is not encrypted leaves the send loop
  -- with code 0, well-formed and with an encrypted header, and the receiving worker verifies and
  -- decrypts it with code 0 and no error report to the message as it was, but for the
  -- HeaderEncryption and signature fields and the cleared signature bit.
  pub check-prepare :
      (sender receiver : Callbacks) (signer verifier link_key link_secret : Key) (r : Bytes)
      (m : Message)
      → IsKeyPair s verifier signer
      → IsKeyPair s link_key link_secret
      → ((x : Message) → sender.about_to_encrypt x ≢ 0)
      → ((x : Message) → sender.about_to_sign x ≢ 0)
      → IsWellFormed m
      → has_flag m.flags header_encrypted ≡ false
      → (c : Message) × (prepare s sender mcf_established link_key signer r m ≡ some (0, c))
        × IsWellFormed c
        × (has_flag c.flags header_encrypted ≡ true)
        × (check s receiver mcf_established verifier link_key link_secret c
            ≡ some (
              0,
              record m {
                header_encryption = c.header_encryption;
                message_signature = c.message_signature;
                flags = clear_flag m.flags signed;
              },
              [],
            ))
  check-prepare sender receiver signer verifier link_key link_secret r m ks kl agrees agrees' wf
        plain =
      let facts = flag_facts m.flags wf.flags_range in
      let (eb, wb) = header_encrypt_lem s laws link_key r m wf plain in
      let b : Message = header_sealed s link_key r m in
      let (ec, wc) = sign_lem s laws signer b wb in
      let c : Message = with_signature s signer b in
      let unsigned : has_flag b.flags signed ≡ false = facts.header_unsigned in
      let sealed : has_flag c.flags header_encrypted ≡ true = facts.sent_sealed in
      let sig : has_flag c.flags signed ≡ true =
        (flag_facts b.flags facts.header_range).signed_set in
      let verified = verify-with_signature s laws verifier signer b ks wb in
      let open_ : header_decrypt s link_key link_secret c
          ≡ some (
            0,
            record m {
              header_encryption = c.header_encryption;
              message_signature = c.message_signature;
              flags = clear_flag m.flags signed;
            },
          ) =
        rw (← facts.signed_header_back plain) (
          header_decrypt_lem s laws link_key link_secret r m (set_flag b.flags signed)
            c.message_signature kl facts.sent_sealed) in
      (
        c,
        prepare_run s sender link_key signer r m b c plain (agrees m) eb unsigned (agrees' b) ec,
        wc,
        sealed,
        check_run s receiver verifier link_key link_secret c _ sig verified sealed open_,
      )

-- On an established connection, whenever the receiving worker accepts a message marked as signed
-- (code 0), MFMessage_Verify returned 0 for it under the key of the connection.
pub check_signed :
    (s : Sodium) (calls : Callbacks) (conn_key public secret : Key) (m d : Message)
    (errors : List ErrorType)
    → has_flag m.flags signed ≡ true
    → check s calls mcf_established conn_key public secret m ≡ some (0, d, errors)
    → (m' : Message) × (verify s conn_key m ≡ some (0, m'))
unfolding check verify_after
check_signed s calls conn_key public secret m d errors sig h =
    elim (Option-cases (verify s conn_key m)) [
      | inl e ↦ absurd (ground arith)
      | inr ((ret, m'), e) ↦ (
        m',
        elim (Bool-cases (ret == 0)) [
          | inl z ↦ let z' : ret ≡ 0 = ground arith in e ∙ ap (λ k. some (k, m')) z'
          | inr z ↦ absurd (ground arith)
        ],
      )
    ]
