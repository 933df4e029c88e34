-- ===== src/Tests/Sockets.antt =====
-- A stand-in for Winsock that hands out at most 100 bytes at a time, and a closed connection.
use avtalk.Base.{
  ℕ, refl, sym, inl, inr, min, [], ◌∷◌, ◌++◌, arith, length, take, drop, length-take,
  take-append-drop,
}
use avtalk.MfCrypto.{Bytes}
use avtalk.MfBroker.Wire.{Answer, got, failed, Winsock}
use avtalk.MfBroker.Wire.Receive.{Delivers, Responds}
use avtalk.MfBroker.Wire.Framing.{Accepts}

-- What is still to come, and what was sent.
abbrev pub Stream : Type 0
Stream = Bytes × Bytes

-- WSAECONNRESET once nothing is left.
abbrev answer : ℕ → Stream → Answer × Stream
answer n ([], out) = (failed 10054, ([], out))
answer n (b ∷ bs, out) = (got (take (min n 100) (b ∷ bs)), (drop (min n 100) (b ∷ bs), out))

abbrev pub stream_socket : Winsock Stream
stream_socket = record { recv = answer; send = λ bs s. ((length bs, 0), (s.0, s.1 ++ bs)) }

pub stream_socket-Delivers : Delivers stream_socket (λ s. s.0)
stream_socket-Delivers n ([], out) p l = absurd (omega arith)
stream_socket-Delivers n (b ∷ bs, out) p l =
    let k = length-take (min n 100) (b ∷ bs) in
    (
      take (min n 100) (b ∷ bs),
      (drop (min n 100) (b ∷ bs), out),
      refl,
      sym (take-append-drop (min n 100) (b ∷ bs)),
      (omega arith, omega arith),
    )

pub stream_socket-Responds : Responds stream_socket
stream_socket-Responds n ([], out) p = inl (10054, ([], out), refl)
stream_socket-Responds n (b ∷ bs, out) p =
    let k = length-take (min n 100) (b ∷ bs) in
    inr (
      take (min n 100) (b ∷ bs),
      (drop (min n 100) (b ∷ bs), out),
      refl,
      (omega arith, omega arith),
    )

pub stream_socket-Accepts : Accepts stream_socket (λ s. s.1)
stream_socket-Accepts bs s = (0, (s.0, s.1 ++ bs), refl, refl)

abbrev pub closed_socket : Winsock Stream
closed_socket = record stream_socket { recv = λ n s. (got [], s) }
