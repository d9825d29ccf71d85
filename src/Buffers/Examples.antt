-- ===== src/Buffers/Examples.antt =====
-- Runs on a buffer of four bytes, and the theorem at one.
use spdm_working.Common.{◌≡◌, refl, List, [], ◌∷◌, true, false}
use spdm_working.Buffers.{
  Buffer, acquire, release, tcp_functions, Operation, acquires_sender, releases_sender,
  acquires_receiver, fills, granted, refused, released, filled, step, run,
}
use spdm_working.Buffers.Holder.{OneHolder, is_held, Next, on_tcp, run-OneHolder}

abbrev free : Buffer
free = record { bytes = 1 ∷ 2 ∷ 3 ∷ 4 ∷ []; acquired = false }

abbrev operations : List Operation
operations =
    acquires_sender
    ∷ fills (9 ∷ 9 ∷ 9 ∷ 9 ∷ [])
    ∷ acquires_receiver
    ∷ releases_sender
    ∷ acquires_receiver
    ∷ []

runs : run (tcp_functions 4) operations [] free ≡ (
  granted ∷ released ∷ refused ∷ filled ∷ granted ∷ [],
  record { bytes = 0 ∷ 0 ∷ 0 ∷ 0 ∷ []; acquired = true },
)
unfolding run step acquire release
runs = refl

run-OneHolder_example :
    let (events, b') = run (tcp_functions 4) operations [] free in
    OneHolder events
    × Next 4 (is_held events) b' ((tcp_functions 4).acquire_sender b')
    × Next 4 (is_held events) b' ((tcp_functions 4).acquire_receiver b')
run-OneHolder_example = run-OneHolder 4 (tcp_functions 4) operations free on_tcp refl
