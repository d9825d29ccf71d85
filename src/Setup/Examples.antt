-- ===== src/Setup/Examples.antt =====
-- Runs of the set-up, and the theorems at concrete inputs.
use spdm_working.Common.{ℕ, ◌≡◌, refl, [], ◌∷◌, none, some, Bool, true, false}
use spdm_working.Common.Text.{codes}
use spdm_working.Machine.{Machine, malloc, socket, free, close, erase}
use spdm_working.Machine.Demo.{host, start}
use spdm_working.Setup.{SpdmTransport, register_functions, setup_scratch_buffer, configure_context}
use spdm_working.Tcp.Connect.{Address, create_socket, close_socket}
use spdm_working.Tcp.Connect.Outcome.{HoldsSocket, create_socket-HoldsSocket}
use spdm_working.Tcp.Setup.{initialize, destroy, allocate_context, cleanup_context}
use spdm_working.Tcp.Setup.Outcome.{Initialized, initialize-Initialized, destroy-initialize}
use spdm_working.Tcp.Setup.Rounds.{initialize_rounds, Piles, initialize_rounds-Piles}
use spdm_working.Mctp.Setup as MctpSetup
use spdm_working.Mctp.Connect as MctpConnect
use spdm_working.Mctp.Setup.Outcome.{Attempted, initialize-Attempted}

abbrev fresh : SpdmTransport
fresh = record {
  socket_fd = none;
  spdm_context = none;
  scratch_buffer = none;
  use_version = 0x11;
  support_measurement_spec = 1;
  support_asym_algo = 0x190;
  support_hash_algo = 7;
}

abbrev ready : SpdmTransport
ready = record fresh { socket_fd = some 3; spdm_context = some 100; scratch_buffer = some 101 }

abbrev address : Address
address = record { ip_addr = codes "10.0.0.1"; port = 4194 }

abbrev running : Machine ℕ
running = record { device = 102; blocks = 101 ∷ 100 ∷ []; descriptors = 3 ∷ [] }

initializes : initialize (host 0) 8 address fresh start ≡ (true, ready, running)
unfolding initialize create_socket socket malloc allocate_context register_functions
    setup_scratch_buffer configure_context
initializes = refl

-- Without memory for the scratch buffer, the TCP transport frees its context and closes its socket.
initializes_not :
    initialize (host 101) 8 address fresh start
    ≡ (false, fresh, record { device = 102; blocks = []; descriptors = [] })
unfolding initialize create_socket socket malloc allocate_context register_functions
    setup_scratch_buffer cleanup_context close_socket close free erase
initializes_not = refl

-- The MCTP transport keeps the context's block, of which it has no pointer.
mctp_initializes_not : MctpSetup.initialize (host 101) 8 fresh start ≡ (
  false,
  record fresh { socket_fd = some 3 },
  record { device = 102; blocks = 100 ∷ []; descriptors = 3 ∷ [] },
)
unfolding MctpSetup.initialize MctpConnect.create_socket socket malloc MctpSetup.allocate_context
    register_functions setup_scratch_buffer MctpSetup.cleanup_context free erase
mctp_initializes_not = refl

create_socket-HoldsSocket_example :
    HoldsSocket
      (7 ∷ [])
      []
      (create_socket (host 0) address none (record start { descriptors = 7 ∷ [] }))
create_socket-HoldsSocket_example =
    create_socket-HoldsSocket (7 ∷ []) [] (host 0) address none
      (record start { descriptors = 7 ∷ [] }) refl refl

initialize-Initialized_example : Initialized [] [] (initialize (host 101) 8 address fresh start)
initialize-Initialized_example =
    initialize-Initialized [] [] (host 101) 8 address fresh start refl refl

initialize-Attempted_example : Attempted [] [] (MctpSetup.initialize (host 101) 8 fresh start)
initialize-Attempted_example = initialize-Attempted [] [] (host 101) 8 fresh start refl refl

destroy-initialize_example :
    ((destroy (host 0) ready running).descriptors ≡ [])
    × ((destroy (host 0) ready running).blocks ≡ 100 ∷ [])
    × (◌≡◌ {A = Bool} true true)
destroy-initialize_example =
    destroy-initialize [] [] (host 0) 8 address fresh ready start running refl refl initializes

-- Of three calls the second finds no memory for its scratch buffer; the blocks of both others stay.
rounds : initialize_rounds (host 103) 8 address 3 fresh start ≡ (
  2,
  record fresh { socket_fd = some 3; spdm_context = some 104; scratch_buffer = some 105 },
  record { device = 106; blocks = 105 ∷ 104 ∷ 101 ∷ 100 ∷ []; descriptors = 3 ∷ [] },
)
unfolding initialize_rounds initialize create_socket socket malloc allocate_context
    register_functions setup_scratch_buffer configure_context cleanup_context close_socket close
    free erase
rounds = refl

initialize_rounds-Piles_example :
    Piles (host 103) 8 address [] [] (initialize_rounds (host 103) 8 address 3 fresh start)
initialize_rounds-Piles_example =
    initialize_rounds-Piles (host 103) 8 address [] [] 3 fresh start refl refl
