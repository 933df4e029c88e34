-- ===== src/MfMessages/Flags.antt =====
-- The flag bits of include/mfmessages.h: a 16-bit word on which a bit is tested, set and cleared.
use Prim.Native.Nat.{ℕ, zero, suc, ◌-◌, ◌+◌, ◌^◌, ◌≤◌, ◌<◌, bit_and, bit_or}
use avtalk.Base.{
  ◌≡◌, refl, Bool, true, false, ◌&&◌, ◌||◌, not, arith, ◌==◌, ltb, Bool-cases, inl, inr,
}

abbrev pub signed : ℕ
signed = 1

abbrev pub header_encrypted : ℕ
header_encrypted = 2

abbrev pub data_encrypted : ℕ
data_encrypted = 4

abbrev pub data_compressed : ℕ
data_compressed = 8

-- `(Flags & bit) != 0`
unfoldable pub has_flag : ℕ → ℕ → Bool
has_flag flags bit = not (bit_and flags bit == 0)

-- `Flags |= bit`
unfoldable pub set_flag : ℕ → ℕ → ℕ
set_flag flags bit = bit_or flags bit

-- `Flags &= ~bit` on a uint16_t
unfoldable pub clear_flag : ℕ → ℕ → ℕ
clear_flag flags bit = bit_and flags (0xffff - bit)

-- A test holds of the `2 ^ w` words from `x` on.
every : ℕ → (ℕ → Bool) → ℕ → Bool
every zero p x = p x
every (suc w) p x = every w p x && every w p (x + 2 ^ w)

every-at :
    (w : ℕ) (p : ℕ → Bool) (x y : ℕ) → every w p x ≡ true → x ≤ y → y < x + 2 ^ w → p y ≡ true
unfolding every
every-at zero p x y e l h = let s : y ≡ x = omega arith in rw (s, e)
every-at (suc w) p x y e l h = elim (Bool-cases (ltb y (x + 2 ^ w))) [
  | inl b ↦ every-at w p x y (ground arith) l (ground arith)
  | inr b ↦ every-at w p (x + 2 ^ w) y (ground arith) (ground arith) (ground arith)
]

-- What MFMessage_HeaderEncrypt and MFMessage_DataEncrypt leave in the word, and what their
-- inverses leave.
unfoldable pub sealed_flags : ℕ → ℕ → ℕ
unfolding set_flag clear_flag
sealed_flags flags bit = clear_flag (set_flag flags bit) signed

unfoldable pub opened_flags : ℕ → ℕ → ℕ
unfolding clear_flag
opened_flags flags bit = clear_flag (clear_flag flags bit) signed

-- For one word: sealing sets its bit and opening gives the word back, also when the signature bit
-- was set in between; a set signature bit is seen; all stay 16-bit.
facts : ℕ → Bool
unfolding has_flag sealed_flags opened_flags
facts f =
    has_flag (sealed_flags f header_encrypted) header_encrypted
    && (has_flag (sealed_flags f data_encrypted) data_encrypted
        && ((has_flag f header_encrypted
              || opened_flags (sealed_flags f header_encrypted) header_encrypted
                == clear_flag f signed)
            && ((has_flag f header_encrypted
                  || opened_flags (set_flag (sealed_flags f header_encrypted) signed)
                      header_encrypted
                    == clear_flag f signed)
                && ((has_flag f data_encrypted
                      || opened_flags (sealed_flags f data_encrypted) data_encrypted
                        == clear_flag f signed)
                    && (has_flag (set_flag (sealed_flags f header_encrypted) signed)
                          header_encrypted
                        && (has_flag (set_flag f signed) signed
                            && ((has_flag f header_encrypted
                                  || not
                                      (has_flag (sealed_flags f data_encrypted) header_encrypted))
                                && ((has_flag f header_encrypted
                                      || not (
                                          has_flag
                                            (clear_flag (sealed_flags f data_encrypted) signed)
                                            header_encrypted))
                                    && (has_flag (clear_flag (sealed_flags f data_encrypted) signed)
                                          data_encrypted
                                        && ((has_flag f data_encrypted
                                              || opened_flags
                                                  (clear_flag (sealed_flags f data_encrypted)
                                                    signed)
                                                  data_encrypted
                                                == clear_flag f signed)
                                            && (ltb (sealed_flags f header_encrypted) 65536
                                                && (ltb (sealed_flags f data_encrypted) 65536
                                                    && (ltb (set_flag f signed) 65536
                                                        && not (
                                                            has_flag
                                                            (sealed_flags f header_encrypted)
                                                            signed))))))))))))))

table : every 16 facts 0 ≡ true
unfolding every facts
table = refl

pub record FlagFacts (f : ℕ) : Type 0 where
  pub header_set : has_flag (sealed_flags f header_encrypted) header_encrypted ≡ true
  pub data_set : has_flag (sealed_flags f data_encrypted) data_encrypted ≡ true
  pub header_back :
      has_flag f header_encrypted ≡ false
      → opened_flags (sealed_flags f header_encrypted) header_encrypted ≡ clear_flag f signed
  pub signed_header_back :
      has_flag f header_encrypted ≡ false
      → opened_flags (set_flag (sealed_flags f header_encrypted) signed) header_encrypted
        ≡ clear_flag f signed
  pub data_back :
      has_flag f data_encrypted ≡ false
      → opened_flags (sealed_flags f data_encrypted) data_encrypted ≡ clear_flag f signed
  pub sent_sealed :
      has_flag (set_flag (sealed_flags f header_encrypted) signed) header_encrypted ≡ true
  pub data_keeps :
      has_flag f header_encrypted ≡ false
      → has_flag (sealed_flags f data_encrypted) header_encrypted ≡ false
  pub received_header :
      has_flag f header_encrypted ≡ false
      → has_flag (clear_flag (sealed_flags f data_encrypted) signed) header_encrypted ≡ false
  pub received_data :
      has_flag (clear_flag (sealed_flags f data_encrypted) signed) data_encrypted ≡ true
  pub received_back :
      has_flag f data_encrypted ≡ false
      → opened_flags (clear_flag (sealed_flags f data_encrypted) signed) data_encrypted
        ≡ clear_flag f signed
  pub signed_set : has_flag (set_flag f signed) signed ≡ true
  pub header_range : sealed_flags f header_encrypted < 65536
  pub data_range : sealed_flags f data_encrypted < 65536
  pub signed_range : set_flag f signed < 65536
  pub header_unsigned : has_flag (sealed_flags f header_encrypted) signed ≡ false

facts-FlagFacts : (f : ℕ) → facts f ≡ true → FlagFacts f
unfolding facts
facts-FlagFacts f h = unfold facts in ground arith

pub flag_facts : (f : ℕ) → f < 65536 → FlagFacts f
flag_facts f h = facts-FlagFacts f (every-at 16 facts 0 f table (omega arith) (omega arith))
