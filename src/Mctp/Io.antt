-- ===== src/Mctp/Io.antt =====
-- `MctpIoClass` of requester/mctp_helper.hpp: `write` and `read`, which ignore their timeout.
-- `socketFd >= 0` is `is_open`.
use spdm_working.Common.{
  ℕ, List, [], ◌∷◌, Bool, true, false, Option, none, some, ltb, length, drop, if◌then◌else◌,
}
use spdm_working.Libspdm.{Status, success, send_fail, receive_fail}
use spdm_working.Mctp.Frame.{mctp_type_spdm}
use spdm_working.Mctp.Socket.{Datagrams}

-- `(buf.size() > 1) ? buf[1] : 0`
abbrev pub destination : List ℕ → ℕ
destination (a ∷ b ∷ rest) = b
destination _ = 0

module _ (socket : Datagrams) where
  open socket use {State, sendto, peek, recvfrom}

  -- `writeToSocket`. The size that is sent is `buf.size() - 3` in a `size_t`: of a buffer with less
  -- than three bytes it wraps around to more than the buffer holds, which is a read out of range.
  unfoldable pub write : Bool → List ℕ → State → Option (Status × State)
  write false buf s = some (send_fail, s)
  write true buf s =
      if ltb (length buf) 3
      then none
      else (let (done, t) = sendto (destination buf) (drop 3 buf) s in
          some (if done then success else send_fail, t))

  -- The three bytes that the payload does not hold are put in front of it, read or not.
  abbrev pub with_head : ℕ → List ℕ → List ℕ
  with_head s_addr bytes = 1 ∷ s_addr ∷ mctp_type_spdm ∷ bytes

  -- `readFromSocket` after the peek.
  abbrev pub after_peek : Option ℕ × State → Status × List ℕ × State
  after_peek (none, s) = (receive_fail, [], s)
  after_peek (some buf_len, s) =
      let (r, t) = recvfrom buf_len s in
      (if r.succeeded then success else receive_fail, with_head r.s_addr r.bytes, t)

  -- The status, and what `buf` holds, which is empty when `read` is called.
  unfoldable pub read : Bool → State → Status × List ℕ × State
  read false s = (receive_fail, [], s)
  read true s = after_peek (peek s)
