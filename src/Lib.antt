-- ===== src/Lib.antt =====
-- Verification of a key agreement system: a server and a client that agree on two shared keys over
-- TCP, keep them in shared memory, and check and revoke them later.
--
-- The parts of the program and their modules, with paths from the repository's root:
--   Shm       server/src/SecKeyShm.cpp and ShareMemory.cpp: the table of keys in shared memory.
--             `getShmID` is get_shm_id, `shmWrite` shm_write with its two loops overwrite and
--             fill_free, `shmRead` shm_read, `updateStatue` update_statue. Shm/ClientShm is
--             client/src/SecKeyShm.cpp, whose `shmWrite` has no lock and is told access by access
--             (client_write_step). Shm/Views has the table as a map from pairs of ids to nodes.
--   Socket    server/src/TcpSocket.cpp: `readn`, `writen`, `recvMsg`, `sendMsg` and `writeTimeout` as
--             readn, writen, recv_msg, send_msg and write_timeout. Socket/ClientSocket is
--             client/src/TcpSocket.cpp. Socket/Connect is `connectToHost` of both sides, with
--             `connectTimeout`, `blockIO` and `noBlockIO`.
--   TcpServer server/src/TcpServer.cpp: `setListen` and `acceptConn` as set_listen and accept_conn.
--   Epoll     server/src/ServerOperation.cpp, the main thread: `startwork` as epoll_wait, accept_all,
--             hang_up and handle_event, `initConnection` as init_connection, `fdMode` as fd_mode.
--             Epoll/Steps has the steps of the main thread, the workers and the manager as a
--             relation; Epoll/Invariant what every step keeps.
--   Logger    server/src/logger.cpp and include/lockqueue.h: `Log` as log, `Push` and `Pop` as push
--             and pop, the writing thread as read_time, open_file and write_next.
--   Crypto    server/src/Hash.cpp, HmacPool.cpp (class Hmac) and RsaCrypto.cpp: hash_result, auth,
--             rsa_public_key_encrypt and rsa_pri_key_decrypt; Crypto/Signing has the key pair, its
--             files, rsa_sign and rsa_vertify. The client has the same code.
--   Messages  server/test/transit_data.proto, and RequestCodec, RespondCodec, RequestFactory and
--             RespondFactory of both sides.
--   Mysql     server/src/MySQLOP.cpp: updata_key_state, write_sec_key and query_sec_key.
--   Server    server/src/ServerOperation.cpp: `clientRandomNum`, `clientPremaster`, `keyCheck` and
--             `keyRevoke`, each as the function that makes the answer (random_num_answer,
--             premaster_answer, check_answer, revoke_answer) and the one that sends it; dispatch and
--             handle_all are the second loop of `workThread`, Server/WorkThread its first, and
--             Server/WorkThread/Whole both (work_thread).
--             Server/Service is the abstract key service: the changes that a request may make to the
--             map of keys.
--   Client    client/src/ClientOperation.cpp: `secKeyAgree`, cut where it reads an answer
--             (agree_start, agree_premaster, agree_finish), `secKeyCheck` and `secKeyRevoke`.
--   Protocol  runs of the key agreement, of a check and of a revocation, in which each side decodes
--             what the other encodes. Protocol/Wire has the check and the revocation over the
--             sockets of both sides and `workThread`.
--   Pool      server/src/sqlConnectionPool.cpp, and the pool of server/src/HmacPool.cpp: `GetConnection`,
--             `ReleaseConnection`, and the RAII statement of the handlers.
--   ThreadPool server/src/thread_pool.cpp: what a caller, a worker or the manager does under a lock is
--             a function; ThreadPool/Order has the steps of all threads as a relation.
--   RandomText `getRandString`, which both ClientOperation.cpp and ServerOperation.cpp have.
--   Base      the names that the others share: numbers, lists, integers, C strings, decimal text.
--   Samples   sample libraries with which the tests run the code.
--
-- State is passed explicitly: a server is its map of random texts, its database, its key table and
-- what it has handed to `sendMsg`; a client its ids, its key table, its loaded public key and what it
-- has sent. `none` is a run that leaves the defined behaviour of C++: a write or read outside an
-- array, a null pointer that is read through. A character array is the list of its bytes, and
-- `strcpy` into it fails where the text and its NUL do not fit.
--
-- OpenSSL, Protocol Buffers and the MySQL client are parameters, records of the functions that are
-- called; what is taken of their documented behaviour is in Protocol.Documented and in the theorems'
-- hypotheses. The kernel's epoll is a parameter as well, with its documented laws in the record Epoll;
-- the answers of `accept`, `connect`, `fcntl` and `select` are given as scripts. What the network
-- delivers is a sequence of events, each a piece of bytes, an end of the connection or a
-- failure. A length is below 2 ^ 31 where the code has it in an `int`, and an `int` that overflows is
-- taken to wrap around.
--
-- Bounds: the reading loop of `workThread` runs on a number of rounds, since it need not end; any
-- number above that of the messages that have arrived is enough. `acceptConn` runs on rounds too, of
-- which one more than the interrupted and refused calls are enough. The digits of a number are made on
-- fuel one above the number, which is enough, as each step divides by ten.
--
-- Not modelled: how the threads of the pool are joined and woken, ItcastLog and AesCrypto, which
-- nothing calls, the reading of the configuration, and the generated code.
pub mod Base
pub mod Shm
pub mod Socket
pub mod TcpServer
pub mod Epoll
pub mod Logger
pub mod Crypto
pub mod Messages
pub mod Mysql
pub mod Server
pub mod Client
pub mod Protocol
pub mod Pool
pub mod ThreadPool
pub mod RandomText
pub mod Samples
