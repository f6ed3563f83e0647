-- ===== src/Lib.antt =====
-- Parts of the backend of AliveHuman (packages/backend/src), a service for wallet logins, token
-- minting and staking, and the data that it shares with its clients (packages/shared/src). Each
-- part is a class of the source: its state is a record, and each of its methods is a function from
-- the state, the arguments and the readings of the clock to the new state and what the method
-- settles with.
--
--   Base: what the parts share. Base.Dict is a JavaScript Map or an object used as one, Base.Lists
--     are arrays, Base.Results are methods that throw, Base.Sorting is the stable sort of an array
--     by a number, Base.Texts compares texts without regard to case.
--   Repository: the interface of a TypeORM repository that the services call (findOne, find,
--     save), with the laws that they rely on; Repository.Table meets it by a list of rows with
--     distinct keys. The database is not part of the repository, so its failures are not modelled.
--   CircuitBreaker: packages/backend/src/blockchain/hotwallet/utils/circuitBreaker.ts. State is
--     CircuitBreakerState; is_circuit_closed, record_success, record_failure and execute are the
--     methods, get_breaker and execute_service those of CircuitBreakerMap. Machine has the
--     abstract machine of three phases, Opening what opens and closes the circuit, Isolation the
--     map of services.
--   RateLimiter: packages/backend/src/blockchain/hotwallet/utils/rateLimiter.ts. Requests and
--     queues are dictionaries by resource and operation. wait_for_availability is the method up to
--     its wait, and finish_wait what follows the wait; cleanup is the timer's. Window and
--     Invariant are about admitted requests, Dynamic about limits that follow the load.
--   Staking: packages/backend/src/blockchain/services/staking.service.ts with its two entities.
--     Claims is about rewards, Lifecycle about creation and withdrawal, AutoClaim about the daily
--     batch. It uses two repositories.
--   Merkle: packages/backend/src/blockchain/services/merkle.service.ts. The module has every
--     operation, Proofs is about generateProof and verifyProof. Library is the interface of
--     merkletreejs and ethers, and Documented what their documentation promises.
--   MintingQueue: packages/backend/src/blockchain/services/user-minting-queue.service.ts with its
--     entity. Requests has the methods that add, look up and cancel, Processing the scheduled
--     batch (processQueue, processQueueItem), Batches the other two batches (processPendingItems,
--     getNextBatch). Attempts is about repeated attempts at one request, Selection about what
--     batches take and leave, Outcomes about one attempt, Duplicates about adding twice. It uses a
--     repository and calls the token service.
--   BatchMinting: packages/backend/src/blockchain/services/minting.service.ts with
--     entities/minting-record.entity.ts beside it. Batch has processBatchMint, in the order of its
--     two transactions and its catch, Requests the single requests, the status and the times.
--     Rows, Groups and Runs follow a batch through the rows of the queue, Failures what it
--     reports. It calls the queue of MintingQueue and keeps a table of records; the token service,
--     the Merkle service and the users' service are the record Tokens.
--   RpcProvider: packages/backend/src/blockchain/services/rpc-provider.service.ts, for one
--     network. Service has getProvider, switchToNextProvider, executeWithFallback and the health
--     checks, Search is about the search for a healthy address, Switches and Termination about the
--     calls that the first two make of one another, Retries about repeated actions, Addresses
--     about the constructor.
--   Web3Auth: packages/backend/src/auth/services/web3-auth.service.ts, with
--     packages/backend/src/auth/controllers/web3-auth.controller.ts in Calls and isPolygonNetwork
--     of packages/shared/src/blockchain/polygon.ts. Service has the methods. Challenges is about
--     nonces, Login about authenticateUser, Sessions and Endings about sessions that have ended,
--     Refresh about refreshSession. It uses two repositories and calls ethers and the JWT library.
--   Gateway: packages/backend/src/blockchain/gateways/websocket.gateway.ts. The module has
--     connections and subscriptions, behind the socket guard of Guards, Sending what is sent to
--     whom. Access and Readers are about who may read a channel, Presence, Leaving and Users about
--     the two maps between sockets and users, over histories of events.
--   Wallets: packages/backend/src/blockchain/hotwallet/WalletManager.ts, and encrypt, decrypt and
--     rotateEncryptionKey of packages/backend/src/blockchain/hotwallet/utils/encryption.ts.
--     Manager has the operations, Reading is about wallets that are added and read again, Rotation
--     about a new encryption key, Imports about mnemonics.
--   Balances: packages/backend/src/blockchain/hotwallet/services/BalanceService.ts, over
--     RateLimiter and CircuitBreaker. Cache and Fallback are about what is cached, Many about
--     several tokens.
--   Monitoring: packages/backend/src/blockchain/hotwallet/services/MonitoringService.ts. The
--     module has one connection and how it is opened, closed and opened again; Listening has the
--     listeners on the providers and what they emit, Service the operations on the map of
--     connections. Delays is about the waits between attempts, Failures about openings that fail,
--     Resubscribing about a connection that is made again, Stopping about stopMonitoring.
--   Transactions: packages/backend/src/blockchain/hotwallet/services/TransactionService.ts. The
--     module has sendTransaction and the loop of sendBatchTransactions, Tokens transferToken and
--     estimateGas. Gas is about the limit of gas, Batches about batches.
--   Guards: packages/backend/src/auth/guards, session-security.guard.ts, roles.guard.ts and ws-
--     auth.guard.ts. The module has the decisions of the three guards, Admission is about requests
--     that the session guard and the roles guard let through, each by itself.
--   ProviderHealth: packages/backend/src/blockchain/hotwallet/services/RPCLoadBalancer.ts. The
--     module itself has the health that checkHealth keeps of one provider, Balancer the choice
--     among them (selectBestProvider), rounds of checks and executeWithFailover. Runs is about
--     runs of failed and of answered checks, Choice about the provider that is chosen.
--
-- The parts meet in the repositories: the staking and minting services and the login each keep
-- their state in tables behind the one interface, and every theorem about them holds of any
-- repository with its laws. The circuit breaker and the rate limiter are called by Balances, with
-- what a chain's handler settles with. The gateway's messages pass the socket guard.
--
-- Every loop of the source runs over a list that is at hand, so the functions are structural
-- recursions, but for getProvider and switchToNextProvider of RpcProvider, which call one another:
-- connect has fuel, which is enough when it is more than 2n + 2 for n addresses, no attempt to
-- connect stalls and some address answers. Sequences of calls, by clients, timers or schedules,
-- are lists of any length. Times are milliseconds as natural numbers; each reading of the clock is
-- an argument or a place of a clock function, and a theorem that needs the clock to go forward
-- says so. Comparisons of differences of times are written with sums, so that no subtraction is
-- cut off at 0. Numbers of the source are within 2 ^ 53, and no bound of the theorems goes near
-- it.
--
-- Not modelled: logging, events other than those of the minting queue, dependency injection, and
-- the rest of the hot wallet. A method's steps between two awaits run undivided in the source; the
-- wait in the rate limiter is between two functions, the checks, successes and failures of a
-- circuit breaker are also taken apart in any order, and elsewhere a method is run to its end
-- before the next one. The names of services and resources are taken not to be those that every
-- JavaScript object has. Requests that wait in the rate limiter's queue are not followed further.
-- Ratios of dynamic limits are multiplied out, and stored amounts of the staking positions are the
-- integers that BigNumber.from reads; JavaScript's arithmetic and printing of fractions are a
-- parameter. The ids of new rows, nonces and signatures are arguments.
pub mod Base
pub mod CircuitBreaker
pub mod RateLimiter
pub mod Repository
pub mod Staking
pub mod Merkle
pub mod MintingQueue
pub mod BatchMinting
pub mod RpcProvider
pub mod Guards
pub mod Web3Auth
pub mod Gateway
pub mod Wallets
pub mod Balances
pub mod Monitoring
pub mod Transactions
pub mod ProviderHealth
