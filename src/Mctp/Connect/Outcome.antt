-- ===== src/Mctp/Connect/Outcome.antt =====
-- What `createSocket` holds when it returns.
use spdm_working.Common.{ℕ, ◌≡◌, ap, ◌∙◌, List, ◌∷◌, Option, none, some, Bool, true, false}
use spdm_working.Machine.{Host, Machine, gained, ask, socket, mctp_datagram}
use spdm_working.Machine.Ledger.{close-descriptors, close-blocks}
use spdm_working.Tcp.Connect.Outcome.{HoldsSocket}
use spdm_working.Mctp.Connect.{create_socket, after_socket, after_bind}

module _ {D : Type 0} (others blocks : List ℕ) (host : Host D) where
  after_bind-HoldsSocket :
      (fd : ℕ) (bound : Bool) (m : Machine D)
      → m.descriptors ≡ fd ∷ others
      → m.blocks ≡ blocks
      → HoldsSocket others blocks (after_bind host fd (bound, m))
  after_bind-HoldsSocket fd true m d b = (d, b)
  after_bind-HoldsSocket fd false m d b = (close-descriptors fd m others d, close-blocks fd m ∙ b)

  after_socket-HoldsSocket :
      (r : Option ℕ) (m : Machine D)
      → m.descriptors ≡ gained r others
      → m.blocks ≡ blocks
      → HoldsSocket others blocks (after_socket host (r, m))
  after_socket-HoldsSocket none m d b = (d, b)
  after_socket-HoldsSocket (some fd) m d b =
      let (bound, m') = ask (host.bind fd) m in after_bind-HoldsSocket fd bound m' d b

  pub create_socket-HoldsSocket :
      (fd : Option ℕ) (m : Machine D)
      → m.descriptors ≡ gained fd others
      → m.blocks ≡ blocks
      → HoldsSocket others blocks (create_socket host fd m)
  unfolding create_socket socket
  create_socket-HoldsSocket (some fd) m d b = (d, b)
  create_socket-HoldsSocket none m d b =
      let (r, m') = socket host mctp_datagram m in after_socket-HoldsSocket r m' (ap (gained r) d) b
