-- ===== src/Mctp/Setup/Context.antt =====
-- The context after a failed `initialize` of an MCTP transport.
use mathlib.Core.List.{Memᴰ}
use mathlib.Core.List.Memᴰ.{head}
use spdm_working.Common.{ℕ, ◌≡◌, inl, inr, refl, Option, none, some, Bool, true, false, Bool-cases}
use spdm_working.Libspdm.{Status}
use spdm_working.Machine.{Host, Machine, malloc}
use spdm_working.Setup.{SpdmTransport}
use spdm_working.Setup.Context.{Leaves}
use spdm_working.Tcp.Device.{is_success}
use spdm_working.Mctp.Connect.{create_socket}
use spdm_working.Mctp.Setup.{
  after_init, after_malloc, allocate_context, cleanup_context, after_scratch, after_allocate,
  after_create, initialize,
}

module _ {D : Type 0} (host : Host D) (old : Option ℕ) where
  after_scratch-Leaves :
      (shift : ℕ) (ok : Bool) (t : SpdmTransport) (m : Machine D)
      → Leaves old (after_scratch host shift (ok, t, m))
  unfolding cleanup_context
  after_scratch-Leaves shift false t m = inl refl
  after_scratch-Leaves shift true t m = tt

  after_init-Leaves :
      (shift : ℕ) (t : SpdmTransport) (c : ℕ) (st : Status) (m : Machine D)
      → t.spdm_context ≡ some c
      → Memᴰ c m.blocks
      → Leaves old (after_allocate host shift (after_init host t (st, m)))
  after_init-Leaves shift t c st m e b = elim (Bool-cases (is_success st)) [
    | inl s ↦ rw s (after_scratch-Leaves shift _ _ _)
    | inr s ↦ rw s (inr (inr (c, e, b)))
  ]

  after_malloc-Leaves :
      (shift : ℕ) (t : SpdmTransport) (r : Option ℕ) (m : Machine D)
      → ((c : ℕ) → r ≡ some c → Memᴰ c m.blocks)
      → Leaves old (after_allocate host shift (after_malloc host t (r, m)))
  after_malloc-Leaves shift t none m b = inl refl
  after_malloc-Leaves shift t (some c) m b = after_init-Leaves shift _ c _ _ refl (b c refl)

  malloc-allocated :
      (size : ℕ) (m : Machine D) (c : ℕ)
      → (malloc host size m).0 ≡ some c
      → Memᴰ c (malloc host size m).1.blocks
  unfolding malloc
  malloc-allocated size m c e = rw e (head refl)

  after_create-Leaves :
      (shift : ℕ) (t : SpdmTransport) (ok : Bool) (fd : Option ℕ) (m : Machine D)
      → t.spdm_context ≡ old
      → Leaves old (after_create host shift t ((ok, fd), m))
  unfolding allocate_context
  after_create-Leaves shift t false fd m e = inr (inl e)
  after_create-Leaves shift t true fd m e =
      after_malloc-Leaves shift (record t { socket_fd = fd }) _ _
        (malloc-allocated host.context_size m)

  pub initialize-Leaves :
      (shift : ℕ) (t : SpdmTransport) (m : Machine D)
      → t.spdm_context ≡ old
      → Leaves old (initialize host shift t m)
  unfolding initialize
  initialize-Leaves shift t m e =
      let ((ok, fd), m') = create_socket host t.socket_fd m in
      after_create-Leaves shift t ok fd m' e
