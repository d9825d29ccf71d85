-- ===== src/Mctp/Socket.antt =====
-- What requester/mctp_helper.hpp relies on of a socket of datagrams in the family `AF_MCTP`: the
-- system calls `sendto`, `recv` with `MSG_PEEK | MSG_TRUNC` and `recvfrom` are not part of the
-- repository, and so are parameters with their documented behaviour. A datagram is an endpoint's
-- identifier with a payload, which leaves out the byte of the message's type.
use spdm_working.Common.{ℕ, ◌≡◌, List, [], ◌∷◌, ◌++◌, Bool, true, false, Option, none, some, length}

-- What `recvfrom` leaves behind: whether it failed, the sender's address, and the buffer.
pub record Received : Type 0 where
  pub succeeded : Bool
  pub s_addr : ℕ
  pub bytes : List ℕ

module _ {S : Type 0} (pending : S → List (ℕ × List ℕ)) (sent : S → List (ℕ × List ℕ)) where
  -- The same datagrams wait, and the same ones went out.
  abbrev pub SameDatagrams : S → S → Type 0
  SameDatagrams s t = (pending t ≡ pending s) × (sent t ≡ sent s)

  -- `sendto` sends the whole datagram or nothing.
  abbrev pub Departs : ℕ → List ℕ → S → Bool → S → Type 0
  Departs eid bytes s true t = (pending t ≡ pending s) × (sent t ≡ sent s ++ (eid, bytes) ∷ [])
  Departs eid bytes s false t = SameDatagrams s t

  -- The peek gives the size of the next datagram, and leaves it where it is.
  abbrev pub Peeks : S → Option ℕ → S → Type 0
  Peeks s none t = SameDatagrams s t
  Peeks s (some n) t =
      SameDatagrams s t
      × ((eid : ℕ) × (bytes : List ℕ) × (rest : List (ℕ × List ℕ)) × (pending s
            ≡ (eid, bytes) ∷ rest)
          × (n ≡ length bytes))

  -- `recvfrom` takes the next datagram; a buffer of its size holds the payload afterwards.
  abbrev pub ArrivedAs : ℕ → S → Received → S → Bool → Type 0
  ArrivedAs want s r t true =
      (sent t ≡ sent s)
      × ((eid : ℕ) (bytes : List ℕ) (rest : List (ℕ × List ℕ))
          → pending s ≡ (eid, bytes) ∷ rest
          → want ≡ length bytes
          → (r.s_addr ≡ eid) × (r.bytes ≡ bytes) × (pending t ≡ rest))
  ArrivedAs want s r t false = SameDatagrams s t

  abbrev pub Arrives : ℕ → S → Received → S → Type 0
  Arrives want s r t = ArrivedAs want s r t r.succeeded

-- `pending` is all that the network still delivers, in order, and `sent` all that went out.
pub record Datagrams : Type 1 where
  pub State : Type 0
  pub sendto : ℕ → List ℕ → State → Bool × State
  pub peek : State → Option ℕ × State
  pub recvfrom : ℕ → State → Received × State
  pub pending : State → List (ℕ × List ℕ)
  pub sent : State → List (ℕ × List ℕ)
  pub sendto-Departs :
      (eid : ℕ) (bytes : List ℕ) (s : State)
      → Departs pending sent eid bytes s (sendto eid bytes s).0 (sendto eid bytes s).1
  pub peek-Peeks : (s : State) → Peeks pending sent s (peek s).0 (peek s).1
  pub recvfrom-Arrives :
      (want : ℕ) (s : State) → Arrives pending sent want s (recvfrom want s).0 (recvfrom want s).1
