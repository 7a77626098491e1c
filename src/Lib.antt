-- ===== src/Lib.antt =====
-- go-ibft: verification of the IBFT consensus engine.
--
-- The engine drives one node through the rounds of a block height. core/ibft.go holds the main loop
-- (`RunSequence`), the workers of a round and the checks on messages; core/state.go the state of the
-- node; core/validator_manager.go the voting powers and the quorum; messages/ the store of received
-- messages and the subscriptions that wake the workers; messages/proto/ the wire data. Messages
-- enter by `AddMessage`, which stores them and signals the subscriptions once there is a quorum; the
-- worker of the current state then runs its handler on the store.
--
-- Files, and the code that each models:
--   Prelude      names passed on by all files, Boolean tests, keys, sets, integers, a result type
--   Proto        messages/proto/messages.proto: messages, payloads, certificates; `PayloadNoSig`
--   Extract      messages/helpers.go; Extract/Seals and Extract/Pc are about its checks
--   State        core/state.go
--   Validators   core/validator_manager.go; Validators/Power, /Quorum and /Prepare: powers of sets,
--                quorums, the prepare quorum
--   Events       messages/event_manager.go and messages/event_subscription.go; Events/Delivery is
--                about one subscription, Events/Manager and /Open about all
--   Messages     messages/messages.go; Messages/Stored, /Valid, /Rcc, /Certified, /Extended, /Passing, /WellFormed,
--                /Keyed and /Only: the store as a function of type, view and sender, the valid
--                messages, the round change certificates, the invariants of the store
--   Backend      core/backend.go as a parameter: a record of functions
--   Certificate  `validPC`, `proposalMatchesCertificate`; Certificate/Valid: the certificates accepted;
--                Certificate/Kept and /Made: those that `handlePrepare` makes; Certificate/Same:
--                what two backends say of one; Certificate/Agreeing: two of one round
--   Node         `NewIBFT`, `AddMessage`, `isAcceptableMessage`, `handlePrepare`, `handleCommit`,
--                `insertBlock`, `moveToNewRound`, `acceptProposal` and the messages sent, of
--                core/ibft.go; Node/Accepting, /Preparing and /Committing are about the handlers,
--                /Leaving about what their quorums depend on; Node/Listening is `subscribe` and
--                `Unsubscribe`, Node/Waking about what they and `AddMessage` signal
--   Proposals    `validateProposal0`, `validateProposal`, `handlePrePrepare`; Proposals/Highest,
--                /Accepted, /Prepared, /Repeating, /Complete and /Faults
--   Rounds       the handlers of a round (`startRound`, `runNewRound`, `buildProposal`,
--                `handleRoundChangeMessage`), the reactions of the main loop, and what can happen to
--                a node as a step relation; Rounds/Invariant, /Starting, /Safety and /Sequence about
--                sealed blocks, /Agreement about two of them, /Storing and /Filed about the store,
--                /Working about the work within a round, /Proposing, /Offered, /Reproposing and
--                /Faults about the proposal built, /Keeping and /Carrying about a prepared proposal
--                and the round change message after it, /Moves about the reactions, /Fitting about
--                the views of proposals, seals and blocks
--   Workers      the goroutines of a round: `startRound`, `runStates`, `runNewRound`, `runPrepare`,
--                `runCommit`, `runFin`, `waitForRCC`, `watchForFutureProposal`,
--                `watchForRoundChangeCertificates`, `startRoundTimer` and the signals they send;
--                Workers/Ending, /Refining, /Looping, /Opening, /Turning, /Proposed and /Finishing
--                about the state machine, /Progress about a worker of it that is woken, /Watching,
--                /Hopping and /Certifying about the watchers, /Unmatched and /Matched about the
--                certificate that a proposer waits for, /Timing about the timer
--   MainLoop     the select of `RunSequence`, its passes and the callbacks of the backend;
--                MainLoop/Passes, /Turning and /Notifying about sequences, /Committed, /Fitting
--                and /Sealing
--                about the views of their blocks, /Agreeing about the sequences of two nodes,
--                /Finishing about a round that ends with a block
--   Timer        `getRoundTimeout`, `ExtendRoundTimeout`, `SetBaseRoundTimeout`
--   Tests        concrete nodes and messages, at which the theorems are applied
--
-- How the model follows the code. Functions keep their Go names in snake case, with a helper for each
-- loop. Byte slices are none (nil) or a list of numbers; pointers are none or a value. What makes Go
-- panic (a nil dereference, a nil mutex, a second close of a channel) is the result `panic`. A Go map
-- is a list of entries, visited in the order of the list; Go visits in any order, so the theorems are
-- about every list. Heights and rounds are natural numbers; the only arithmetic on them, the next
-- round, wraps at 2^64. Voting powers are unbounded integers, as `big.Int` is. A duration is a 64-bit
-- pattern, and the conversion of `math.Pow` to int is a parameter.
--
-- The mutexes make each operation of the store, the state and the event manager one step. The main
-- loop waits for all workers of a round before it acts, so a history of a node is a sequence of steps
-- (Rounds): a delivery, a subscription or its end, the start of a round, a run of a handler, one of
-- the reactions of the main loop, or the end of the sequence. The workers run concurrently: each is
-- also a function of the list of what happens while it is in a select (its context ends, its channel
-- is ready, a message is delivered), which stands waiting where the list ends, and what it does to the
-- node is such a history. The worker of a subscription is a step relation of its own (Events).
--
-- All loops run over lists, but that of `runStates`, which runs on fuel: 4, since every turn but the
-- last goes on to the next of the four states, and that of the fin state returns.
--
-- Not modelled: the clock of the timer and the delivery through channels (an event of a worker stands
-- for either, at any time), the tree of contexts (its end is an event), the wait group (a pass of the
-- main loop begins where the work of the round ends), the backend and the transport (a parameter, and the list of
-- sent messages), logging and metrics, and the generated serialization code.
pub mod Prelude
pub mod Proto
pub mod Extract
pub mod State
pub mod Validators
pub mod Events
pub mod Messages
pub mod Backend
pub mod Certificate
pub mod Node
pub mod Proposals
pub mod Rounds
pub mod Workers
pub mod MainLoop
pub mod Timer
mod Tests
