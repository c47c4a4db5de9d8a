-- ===== src/Lib.antt =====
-- A verification library for ethminer's FPGA branch: the hash and the search that the FPGA miner runs,
-- the farm that divides the nonces among its miners, and the manager that chooses the pool.
--
-- How the program's parts interact. A pool client (libpoolprotocols) receives work and hands it to the
-- pool manager's handlers; the manager settles the epoch and calls the farm, which gives every miner
-- the work with its own start nonce. A miner that finds a solution gives it to the farm, the farm
-- checks it and passes it to the manager, and the manager gives it to the client if it is connected.
-- Every miner is a worker with a thread of its own.
-- When a connection is lost the manager pauses the farm and rotates to the next pool.
--
-- Which file models what, with the functions of the source in the same order:
--   CommonData.antt      libdevcore/CommonData.h, CommonData.cpp: fromHex, toHex, toCompactHex,
--                        toBigEndian, fromBigEndian, toCompactBigEndian, bytesRequired, padLeft,
--                        padRight
--   FixedHash.antt       libdevcore/FixedHash.h: the constructors, comparisons and operators
--   Keccak.antt          libethash-fpga/fpga_ethash.cpp and fpga_ethash.h: keccakf, kec_init,
--                        kec_update, kec_finalize, kec_HashBuffer
--   Ethash.antt          the same files: fnv_hash, E_epoch, E_prime, get_d_size, get_c_size,
--                        get_seedhash, compute_cache_nodes, compute_dag_item
--   Ethash/Search.antt   the same files: compute_full_dag, krnl_ethash_func
--   Work.antt            libethcore/EthashAux.h: WorkPackage, Solution
--   Miner.antt           libethcore/Miner.cpp: setWork, pause, paused, pauseTest, resume, setEpoch
--   Farm.antt            libethcore/Farm.cpp: shuffle, setWork, start, stop, pause, resume,
--                        accountSolution, getSolutions, submitProofAsync
--   PoolManager.antt     libpoolprotocols/PoolManager.cpp: addConnection, removeConnection,
--                        setActiveConnection, getActiveConnection, start, rotateConnect
--   PoolManager/Handlers.antt   the same file: the handlers of the client and of the farm, stop, and
--                        the timers
--   Stratum.antt         libpoolprotocols/stratum/EthStratumClient.h, PoolClient.h, PoolURI.h: the state of
--                        the stratum client, its connection and its session
--   Stratum/Pleas.antt   libpoolprotocols/stratum/EthStratumClient.cpp: enqueue_response_plea,
--                        dequeue_response_plea, clear_response_pleas
--   Stratum/Sockets.antt    the same file: init_socket, connect, disconnect, disconnect_finalize,
--                        resolve_handler, start_connect, connect_handler, onSSLShutdownCompleted
--   Stratum/Timer.antt   the same file: workloop_timer_elapsed
--   Stratum/Message.antt, Login.antt, Replies.antt, Notify.antt, Process.antt   the same file:
--                        processError, startSession, processExtranonce and processResponse: what is
--                        read of every message, the replies to the login, the other replies, the
--                        notifications, and the whole
--   Stratum/Receive.antt    the same file: onRecvSocketDataCompleted
--   Stratum/Send.antt    the same file: submitHashrate, submitSolution, send, sendSocketData,
--                        onSendSocketDataCompleted
--   Stratum/Effects.antt    the monad of the client's functions; Stratum/Numbers.antt: std::stoull,
--                        std::stoi and the string operations that the client calls
--   Getwork.antt         libpoolprotocols/getwork/EthGetworkClient.h, EthGetworkClient.cpp: connect,
--                        disconnect, begin_connect, handle_resolve, handle_connect, handle_write,
--                        send, submitHashrate, submitSolution, getwork_timer_elapsed
--   Getwork/Response.antt   the same file: processResponse
--   Getwork/Http.antt    the same file: handle_read
--   Json.antt            the JSON library's operations that the client calls, as a parameter
--   Worker.antt          libdevcore/Worker.cpp: startWorking, triggerStopWorking, stopWorking, the
--                        destructor and the thread's loop, as steps that interleave
-- Base.antt and its children hold the shared names: Boolean tests, lists, words of fixed width, loops,
-- and results of calls that may throw or be undefined. Tests.antt and its children hold the theorems
-- at concrete inputs.
--
-- How the code is represented. Bytes and words are native numbers with their wrap-around written out;
-- a signed `int` is an integer with two constructors; a hash is the list of its bytes and a node of
-- the dataset the list of its words. An object's members are a record and its methods are functions
-- from the record to the new one. A call that may throw returns a result with the exception;
-- `none` stands for undefined behaviour: an access outside an array, a division by zero, a null pointer
-- that is followed. Calls of code outside the repository (the ethash library, the sockets, the
-- devices, the random engine, the JSON library) are parameters, or entries of a log in the order in which they happen.
-- A function of the stratum client maps the client to the new one and a value, or to how it was left:
-- by `return`, by an exception, by an exception thrown as a pointer, or with undefined behaviour. Texts
-- are lists of bytes, times are milliseconds of the steady clock and are arguments. What the client
-- gives to the io service, a socket or a handler is an event of its log. A function of the getwork
-- client gives the new client, or the fault, an exception or undefined behaviour, that ends the
-- thread of the io service.
--
-- Fuel. E_prime recurses on fuel; at the units it is called with, one call is enough or no number is.
-- get_seedhash recurses on fuel, and one more call than there are epochs before the block is enough.
-- Every other loop is structural recursion on its count.
--
-- Not modelled: the devices (FPGAMiner.cpp, xcl2.cpp, kernel_func.cpp), the simulation client, the
-- parsing of pool addresses and of the command line, the hardware monitors, the logging and the older
-- copy of the hash under libethash-fpga/includes. In the modelled files: text that is only printed, the
-- JSON descriptions, times of events, and the hash rate. Of the stratum client: the bytes of the two
-- socket buffers, certificates, and exceptions of calls of a socket. Of the getwork client: the bytes
-- of an HTTP request. Of both: between the manager's handler of a disconnection, which takes the
-- connection away, and the next setConnection the code has a null pointer; the models read the old
-- connection.
pub mod Base
pub mod CommonData
pub mod Ethash
pub mod Farm
pub mod FixedHash
pub mod Getwork
pub mod Json
pub mod Keccak
pub mod Miner
pub mod PoolManager
pub mod Stratum
pub mod Tests
pub mod Work
pub mod Worker
