-- ===== src/Lib.antt =====
-- A library on the kernel iso-light-k0. It models the parts of the kernel that decide who may do what,
-- and that keep its resources: capabilities, IPC, the frame allocator, the key store, the entropy
-- quorum, the audit ring, the ELF parser, the registry of the attached security modules (HSMs) with its
-- attestation, its buses and its system calls, the services for cryptography and for signatures behind
-- IPC, and TLS with pre-shared keys.
--
-- The parts, and the files that model them:
-- - Capability (src/capability.rs): Capability/Rights.antt are the rights masks; Capability.antt the
--   capability with is_valid_for and derive; Capability/Space.antt the 32 slots of a process;
--   Capability/Drbg.antt the token generator, over a parameter for the Hash-DRBG package and
--   fill_hw_entropy, of which only the result is used. The static CAP_DRBG is a field of the state that
--   each function passes on.
-- - Ipc (src/ipc.rs): Ipc/Message.antt, Ipc/Endpoint.antt (the state machine of one endpoint),
--   Ipc/Registry.antt (the table of 16 endpoints, the static IPC_REGISTRY as an argument),
--   Ipc/Payload.antt (the typed views of a payload) and Ipc/Call.antt (ipc_call with the synchronous
--   dispatch and the polling loop, over a parameter for the services that answer). An endpoint checks
--   a capability with is_valid_for. KernelServices.antt puts the models of the two services of the
--   kernel in place of the parameter; what a wait for an interrupt does stays one.
-- - Alloc (src/allocator.rs) over MemoryMap (src/boot/memory_map.rs): the bitmap of physical frames.
--   The number of bitmap words is a parameter, 16384 in the code. Physical memory is a function from
--   addresses to bytes, so that erasure can be stated.
-- - Audit (src/hsm_attest.rs, AuditRing): the ring of the last 32 events, against the log of all.
-- - Entropy (src/arch/common/entropy): Entropy/Health.antt are the health tests of a source, and
--   Entropy/Quorum.antt the collection from three sources, two of which have to be live, and its retry
--   loop. The quorum reports to the audit ring. Sources, BLAKE3 and clock are a parameter.
-- - Keystore (src/keystore.rs, src/hsm.rs): the pool of 8 pre-shared keys. Hmac.antt are HMAC and HKDF of
--   src/crypto_service.rs, of which it uses the extraction, over a parameter for SHA-256.
-- - Elf (src/elf.rs, is_user_va of src/arch/x86_64/mmu.rs): the parser of static executables.
-- - Primitives: the parameters of the parts below, BLAKE3, AES-256-GCM and ML-DSA-44, and the random
--   generator as they call it, and the two ciphers of the services and of TLS. Primitives/Plain.antt are
--   simple ones for runs. Capability/Drbg/Source.antt makes one of the model of src/capability.rs,
--   where its loops return.
-- - Wire (src/bus.rs): the frames between the kernel and a Ring 3 process.
-- - Bus (src/bus.rs): Bus/Software.antt is the bus inside the kernel, Bus/Ring3.antt that to a process,
--   Bus/Instance.antt the choice between them.
-- - Hsm (src/hsm_registry.rs, src/hsm_attest.rs, src/bus.rs): Hsm.antt are the slots and capabilities and
--   the machine that holds the statics, Hsm/Attest.antt the attestation, Hsm/Registry.antt the operations
--   on the table, Hsm/Channel.antt the write to a bus with the dispatch of frames, of which
--   Hsm/Channel/Commands.antt are the commands, and Hsm/Syscall.antt the handlers of the calls, of
--   which Hsm/Syscall/Attach.antt is the one that attaches. A frame that asks for a digest
--   authenticates at the registry and writes to another slot, or to its own; the model lets the nested
--   write change the same machine.
-- - CryptoService (src/crypto_service.rs): CryptoService/Handlers.antt are the handlers of the seven
--   requests, CryptoService/Dispatch.antt takes a request at EP_CRYPTO and posts the answer. The packages
--   are a parameter; of the ciphers the model takes from Primitives that they open what they sealed.
-- - Sign (src/sign_service.rs): Sign/Session.antt are the handlers on the session and its four buffers,
--   which are statics in the code, and Sign/Service.antt takes a request at EP_SIGN and posts the
--   answer. Sign/Session/Stream.antt and Sign/Session/Signing.antt follow a client through a session.
-- - Tls (src/tls): Tls.antt is the pool of four connections, the static TLS_POOL as an argument, with
--   the laws of its slots in Tls/Slots.antt, Tls/Transcript.antt the messages of a handshake,
--   Tls/KeySchedule.antt the secrets, Tls/Record.antt the records, Tls/Handshake.antt the steps of the
--   handshake, each at both ends, Tls/Handshake/Action.antt their order with the random values drawn
--   between them, and Tls/Loopback.antt the handshake in the pool and the transfer of a text. The HSM
--   driver, which finds the pre-shared key, is a parameter.
-- - Syscall (src/arch/common/syscall.rs): errors, arguments and the range of user addresses. The user's
--   memory is a function from addresses to bytes.
-- - AirGap (src/air_gap.rs): the capabilities that are handed out once, and the report of all slots.
-- - Stack (src/stack.rs): the canaries in the guards below the stacks, over a memory of 64-bit words.
-- - Common: lists with native indices, the laws of bit_and, and loops that run until they return.
--
-- Conventions. A machine integer is a native number, and an addition that wraps in the code is taken
-- modulo 2 ^ w. A Result is a value of `Result`, an Option of `Option`. A loop over a range or a slice
-- is structural recursion. A `loop` that only returns is iteration of its body on fuel, where `none`
-- says that it has not returned yet: ipc_call, rand_bytes, gen_token_u64 and collect_with_retry. For
-- rand_bytes two rounds are enough under the documented behaviour of the generator, for
-- collect_with_retry 10000001 rounds always are; ipc_call returns at the first poll where the service
-- answers. A write to a bus nests on fuel, of which the calls give 257: each nested frame is at least 32
-- bytes shorter, and no frame has more than 4096. The loops over a guard have its bytes as fuel, and
-- move 8 bytes at each round. The loop of HKDF-Expand has as fuel the bytes that it has to produce, and
-- produces at least one at each round. gen_token_u64 returns with the first token that is not 0, and has
-- no bound.
--
-- Not modelled: processes and page tables, boot parsing and device access, the programs of the user
-- space, the erasure of secrets that no code reads again, and the timing of the constant-time
-- operations, of which only the results are kept.
pub mod Common
pub mod Capability
pub mod Ipc
pub mod MemoryMap
pub mod Alloc
pub mod Audit
pub mod Hmac
pub mod Keystore
pub mod Entropy
pub mod Elf
pub mod Primitives
pub mod Syscall
pub mod Wire
pub mod Bus
pub mod Hsm
pub mod AirGap
pub mod Stack
pub mod CryptoService
pub mod Sign
pub mod KernelServices
pub mod Tls
