-- ===== src/Tcp/Setup/Context.antt =====
-- The context after a failed `initialize` of a TCP transport.
use spdm_working.Common.{ℕ, ◌≡◌, inl, inr, refl, Option, none, some, Bool, true, false, Bool-cases}
use spdm_working.Libspdm.{Status}
use spdm_working.Machine.{Host, Machine}
use spdm_working.Setup.{SpdmTransport}
use spdm_working.Setup.Context.{Leaves}
use spdm_working.Tcp.Device.{is_success}
use spdm_working.Tcp.Connect.{Address, create_socket}
use spdm_working.Tcp.Setup.{
  after_init, after_malloc, allocate_context, cleanup_context, after_scratch, after_allocate,
  after_create, initialize,
}

module _ {D : Type 0} (host : Host D) (old : Option ℕ) where
  after_scratch-Leaves :
      (shift : ℕ) (ok : Bool) (t : SpdmTransport) (m : Machine D)
      → Leaves old (after_scratch host shift (ok, t, m))
  unfolding cleanup_context
  after_scratch-Leaves shift false t m = inl refl
  after_scratch-Leaves shift true t m = tt

  after_init-Leaves :
      (shift : ℕ) (t : SpdmTransport) (context : Option ℕ) (st : Status) (m : Machine D)
      → Leaves old (after_allocate host shift (after_init host t context (st, m)))
  after_init-Leaves shift t context st m = elim (Bool-cases (is_success st)) [
    | inl e ↦ rw e (after_scratch-Leaves shift _ _ _)
    | inr e ↦ rw e (inl refl)
  ]

  after_malloc-Leaves :
      (shift : ℕ) (t : SpdmTransport) (r : Option ℕ) (m : Machine D)
      → Leaves old (after_allocate host shift (after_malloc host t (r, m)))
  after_malloc-Leaves shift t none m = inl refl
  after_malloc-Leaves shift t (some c) m = after_init-Leaves shift t (some c) _ _

  after_create-Leaves :
      (shift : ℕ) (t : SpdmTransport) (ok : Bool) (fd : Option ℕ) (m : Machine D)
      → t.spdm_context ≡ old
      → Leaves old (after_create host shift t ((ok, fd), m))
  unfolding allocate_context
  after_create-Leaves shift t false fd m e = inr (inl e)
  after_create-Leaves shift t true fd m e =
      after_malloc-Leaves shift (record t { socket_fd = fd }) _ _

  pub initialize-Leaves :
      (shift : ℕ) (address : Address) (t : SpdmTransport) (m : Machine D)
      → t.spdm_context ≡ old
      → Leaves old (initialize host shift address t m)
  unfolding initialize
  initialize-Leaves shift address t m e =
      let ((ok, fd), m') = create_socket host address t.socket_fd m in
      after_create-Leaves shift t ok fd m' e
