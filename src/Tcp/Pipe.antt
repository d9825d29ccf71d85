-- ===== src/Tcp/Pipe.antt =====
-- A socket for tests, which moves at most five bytes a call.
use spdm_working.Common.{
  ℕ, refl, sym, List, [], ◌++◌, true, arith, length, take, drop, min, take-append-drop, length-take,
}
use spdm_working.Tcp.Socket.{Socket, received, sent}

pub record Pipe : Type 0 where
  pub rx : List ℕ
  pub tx : List ℕ

abbrev pub pipe : Socket
pipe = record {
  State = Pipe;
  recv = λ want s. (received (take (min want 5) s.rx), record s { rx = drop (min want 5) s.rx });
  send = λ bytes s.
      (sent (min (length bytes) 5), record s { tx = s.tx ++ take (min (length bytes) 5) bytes });
  setsockopt = λ o tv s. (true, s);
  incoming = λ s. s.rx;
  outgoing = λ s. s.tx;
  interruptions = λ s. 0;
  recv-Arrives = λ want s. (
    omega (arith, length-take (min want 5) s.rx),
    sym (take-append-drop (min want 5) s.rx),
    refl,
    omega arith,
  );
  send-Departs = λ bytes s. (omega arith, refl, refl, omega arith);
  setsockopt-SameStreams = λ o tv s. (refl, refl, omega arith);
}

abbrev pub empty : Pipe
empty = record { rx = []; tx = [] }

abbrev pub holding : List ℕ → Pipe
holding bytes = record { rx = bytes; tx = [] }
