-- ===== src/Lib.antt =====
-- The SPDM requester daemon of OpenBMC (`spdmd`), and what is proved of it.
--
-- The program finds SPDM devices, connects to each over MCTP or TCP, publishes their certificates
-- and measurements on D-Bus, and opens secure sessions as a policy allows. The SPDM protocol itself
-- is libspdm's: here it is a parameter, the record `Libspdm` of the module of that name, whose
-- calls are functions of an unknown state and whose few laws say which statuses are errors. So are
-- the sockets (`Tcp.Socket`, `Mctp.Socket`), memory, descriptors and the set-up of contexts
-- (`Machine`), OpenSSL (`Certificate.OpenSsl`), the answers of D-Bus calls, the files,
-- `sdbusplus`'s `filename`, the clock, the constants of the SPDM headers (`Algorithms`) and the
-- virtual `SpdmTransport::initialize` (`Daemon.Platform`), which the two transports implement:
-- `Fleet` puts them in its place.
--
-- Parts and files:
--   Common, Exceptions     Lists and numbers, reads out of range and loops without fuel (`Option`),
--                          and code that throws (`Result`, `Action`).
--   Base64                 requester/utils.cpp: `base64Encode`.
--   Tcp                    requester/tcp_helper.hpp: frames (`Tcp.Frame`), socket loops (`Tcp.Io`);
--                          requester/libspdm_tcp_transport.cpp: the callbacks that libspdm calls to
--                          send and receive a message (`Tcp.Device`).
--   Mctp                   requester/mctp_helper.hpp and requester/libspdm_mctp_transport.cpp: the
--                          same for MCTP, over datagrams (`Mctp.Frame`, `Mctp.Io`, `Mctp.Device`).
--   Machine, Setup         What a transport's set-up calls, with an account of the blocks and
--                          descriptors that are held; the steps of the set-up that both transports
--                          have, and `SpdmTransport` (requester/libspdm_transport.hpp). The rest is
--                          `createSocket` and `initialize`, in `Connect` and `Setup` of Tcp and Mctp.
--   Buffers                The acquisition and release of the buffer of a transport or the client.
--   Client                 requester/spdm_simple_client.cpp: messages (`Client.Io`), connection and
--                          context, the protocol, and `main`.
--   Discovery              requester/mctp_transport_discovery.cpp and
--                          requester/tcp_transport_discovery.cpp: devices from D-Bus objects, and
--                          in `Discovery.Flow` the order of the calls and callbacks, up to
--                          `SPDMDiscovery` (requester/spdm_discovery.cpp).
--   Async                  requester/utils.cpp: the two asynchronous calls of D-Bus.
--   Certificate            requester/certificate_dbus.cpp: the properties of a certificate's object.
--   Integrity              requester/component_integrity_dbus.cpp: indices, measurements, the
--                          certificate chain as PEM, and `method_call`, which puts them together.
--   TrustedComponent       requester/trusted_component_dbus.cpp.
--   Session                requester/spdm_session.cpp: the state machine of a secure session.
--   Config                 requester/spdm_session_config.cpp: the settings of a context, and the
--                          trust anchor of a session.
--   Responder              requester/spdm_dbus_responder.cpp: a device's published objects and its
--                          session; its constructor connects by `Integrity`, its sessions are
--                          configured by `Config` and driven by `Session`.
--   Daemon                 requester/spdmd.cpp and the setters of requester/policy_manager.hpp:
--                          the callbacks over the list of responders, as steps on one state, and
--                          the start from the policy's file (requester/policy_manager.cpp); in
--                          `Daemon.Startup` the discovery, whose answers come among those steps,
--                          and in `Daemon.Main` the whole of `main`.
--   Fleet                  The daemon over transports of the two classes, which share a machine.
--   Kept (in several)      What each part keeps of the world, for `Fleet`.
--
-- State: the transports and the devices behind them are one `World`, which every call of libspdm
-- takes with the transport's number, since a device in the daemon's list and its responder share a
-- transport. A handler that throws leaves the changes made before. Bytes and characters are natural
-- numbers, and texts are lists of their codes; casts to a fixed width are written out.
--
-- The two descriptions of a device meet in the daemon's: a `ResponderInfo` of Discovery is made
-- with the transport that the daemon then knows by its number (`numbered`). An asynchronous call
-- takes its steps when its answer arrives. C++ leaves open which of its two closures is made first
-- and what a function holds that was moved from: both are parameters.
--
-- Fuel: the loop of `base64Encode` and those of `derCertsToPem` get one more than the length of
-- what they read, of which each round consumes at least one; the socket loops get a parameter, and
-- their theorems ask for more than the bytes to move plus the interruptions of the socket, which
-- suffices; the client's loops give up at an interruption, and need fuel for the bytes alone.
-- Without fuel, or on a read out of range, a function returns `none` or `unfinished`.
--
-- Not modelled: logging and printing; signal handling and the registration of objects on D-Bus,
-- which are calls of system libraries, as is `ctx.run()`, of which a parameter says whether it
-- returns by the exceptions that the context was left with; the reading of the policy's file,
-- which is the JSON library's, and its writing, which nothing calls; the stubs of libspdm's device
-- library, which return constants; and memory management outside of set-up and the client, but for
-- a session's destructor and the failure of `malloc` in the decoders. The client's received
-- messages are counted with the calls of libspdm that receive them.
pub mod Common
pub mod Libspdm
pub mod Base64
pub mod Machine
pub mod Setup
pub mod Buffers
pub mod Tcp
pub mod Mctp
pub mod Client
pub mod Exceptions
pub mod Async
pub mod Certificate
pub mod Integrity
pub mod Session
pub mod Config
pub mod Discovery
pub mod TrustedComponent
pub mod Responder
pub mod Daemon
pub mod Fleet
