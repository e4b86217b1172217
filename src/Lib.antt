-- ===== src/Lib.antt =====
-- horcrux, a threshold remote signer for CometBFT validators: a verification library for the Go
-- package signer and its package signer/cond.
--
-- A chain node asks for the signature of a vote or proposal. One cosigner leads: its validator
-- (signer/threshold_validator.go) decides whether the block may be signed, takes nonces that it has
-- drawn from the cosigners in advance (signer/cosigner_nonce_cache.go), and has each cosigner sign with
-- its key shard (signer/local_cosigner.go). Validator and cosigners keep a sign state
-- (signer/sign_state.go): the height, round and step that were signed last, below which nothing is
-- signed, and the recent signatures.
--
-- Prelude: Boolean tests, lists, Go's integers and byte slices, maps as association lists.
-- Outcome, Act: the errors of the package, the result of a call that may return an error or panic,
--   and methods that change an object before they do.
-- Hrs: signer/hrs.go, with the order in Hrs/Order and the wire form in Hrs/Wire.
-- Cond: signer/cond/cond.go. Channels are numbered in the order in which they are made.
-- ChainId: `ValidateChainID` of signer/config.go.
-- Payload: `verifySignPayload` of signer/cosigner.go and the steps of signer/sign_state.go. CometBFT's
--   messages and their encoding are the record Codec; Payload/Laws states what the code relies on.
-- SignState: signer/sign_state.go. `block_double_sign` is `blockDoubleSign`, which `Save` of
--   SignState/Disk calls; SignState/Differ has the timestamp comparisons, SignState/Gate
--   `errorIfConflictOrRegression`. SignState/Watermark, SignState/Cache and SignState/Disk/Restart hold
--   proofs. The goroutines that write the state file are the relation Write. `cometjson` is the record
--   StateCodec.
-- Cosigner: the data of signer/cosigner.go and signer/threshold_signer.go, with the wire forms in
--   Cosigner/Wire. Cosigner/NonceStore is the map of nonces in signer/local_cosigner.go,
--   Cosigner/Local `sign`, Cosigner/Local/Requests the requests that call it. Key shard and channel are
--   the records ThresholdSigner and CosignerSecurity. Cosigner/Local/Consumed, Cosigner/Local/Once
--   and Cosigner/Local/Succeeds hold proofs about `sign`. Cosigner/Interleave has one step for each
--   section of `sign` under the lock of the sign state, for any number of requests at the same time.
-- NonceCache: signer/cosigner_nonce_cache.go, with `LoadN` and `reconcile` in NonceCache/Load and
--   sequences of calls in NonceCache/Calls.
-- Health: signer/cosigner_health.go, with proofs in Health/Order, Health/Fastest and Health/Pings. The
--   order that `GetFastest` gives is a parameter of Validator/Sign.
-- FileSigner: `CheckHRS` and `Sign` of `FilePV` in signer/file.go, with proofs in FileSigner/Once. The
--   private key and whether a write of the file succeeds are the record FileKey.
-- Sharing: signer/tsed25519/ed25519.go, how a secret is dealt into shares and combined. Sharing/Moments and
--   Sharing/Recovery show that weights with the right moments read off a secret, Sharing/Quorums that
--   those of `calcOmega` have them, by running it for every choice of players from up to 8, within int64.
-- SoftSigner: `ThresholdSignerSoft` of signer/threshold_signer_soft.go. The curve arithmetic and SHA-512
--   are the record Curve, and what the code relies on of them is CurveLaws in SoftSigner/Deals.
--   SoftSigner/Linear and SoftSigner/Combined hold proofs about the combined signature.
-- KeyShares: signer/cosigner_key_shares.go and `ExpandSecret`.
-- Raft: signer/raft_store.go and signer/raft_events.go, as one node applies the log that hashicorp/raft
--   agrees on. Raft/Membership is `Join`; Raft/Store, Raft/Events and Raft/Replicated hold proofs.
-- Cosigner/Offer: `GetNonces` of signer/local_cosigner.go.
-- Validator: signer/threshold_validator.go: the two sign states of the leader and the block on the wire.
--   Validator/Existing is `SaveLastSignedStateInitiated` with what it calls, Validator/Fallback
--   `getNoncesFallback` with `waitForPeerNonces`, Validator/Sign the part of `Sign` that has the cosigners
--   sign, with the goroutines in Validator/Sign/Shares and what follows them in Validator/Sign/Finish,
--   Validator/Extend `signVoteExtension` and the answer from an existing signature, Validator/Lead
--   `proxyIfNecessary` and `Sign`. Validator/Reuse, Validator/Progress, Validator/Fallback/Threshold,
--   Validator/Sign/Verified, Validator/Sign/Marks with its Parts, and Validator/Extend/Answers hold proofs.
-- ErrorText: the texts of the errors, and `strings.Contains`.
-- Refusal: `signRefusal` of signer/remote_signer.go, with proofs in Refusal/Texts.
-- RemoteSigner: signer/remote_signer.go: the handlers of the chain nodes' requests, with proofs in
--   RemoteSigner/Answers and RemoteSigner/Signed. RemoteSigner/Loop has one step for each part of `loop`
--   between two waits, for `waitForLeadership` and for `releaseConnOnLeadershipLoss`. CometBFT's messages and
--   the validator are the record Privval.
-- Config: the settings of signer/config.go and their validation. Go's parsers are the record Parsers.
--   Config/Counts, Config/Quorums and Config/Keys hold proofs.
-- ChainFiles: the paths of `RuntimeConfig` in signer/config.go, with a proof in ChainFiles/Apart.
-- ConnKey: signer/conn_key.go, without the key files.
-- Security: signer/cosigner_security_ecies.go and signer/cosigner_security_rsa.go over the record Scheme, with
--   a proof in Security/Sealed. Security/KeyFile is the ECIES key file, with proofs in its Restored.
-- Rpc: signer/cosigner_grpc_server.go, signer/remote_cosigner.go, signer/grpc_recovery.go and
--   signer/remote_signer_grpc_server.go; Rpc/Shares is `SetNoncesAndSign` and `GetNonces`, and
--   Rpc/Transparent holds proofs. Protobuf keeps a message but for bytes that are empty,
--   which arrive as nil.
-- SingleSigner: signer/single_signer_validator.go and `LoadFilePV` of signer/file.go, for any number of
--   chains, with a proof in SingleSigner/Restarted.
-- Scenarios: concrete instances of the parameters, and runs.
--
-- Numbers: int64, int32 and int8 fields are integers, and a conversion or subtraction that can wrap is
-- written with its wrap-around; a uint8 or uint64 counter keeps its modulus. An identifier of 16 bytes
-- is a natural number. A time is its nanoseconds from the Unix epoch, and `UnixNano` wraps.
--
-- Loops are structural recursion on the list that they run over. The wait of the validator for a block
-- that others sign runs over the states that its attempts find, one for each, so that the bound on the
-- attempts is the length of that list; the poll for a leader runs for the 500 rounds of the code.
--
-- Concurrency: an operation under one lock is one step; where the code releases the lock in between,
-- the steps are a relation, and the theorems are about every interleaving. The goroutines of one
-- errgroup run in the order in which they take the lock, all of them, with the first error; those of a
-- sign of the leader run one after the other.
--
-- Not modelled: outside the single signer one chain is followed, so that a map from chain IDs has one
-- entry; metrics and logs; the float average of the nonce cache, which is a parameter of `reconcile`; in
-- the validator the health marks of the cosigners, which only order later signs, the timestamp beside an
-- error, which no caller reads, and that one kind of error of the leader is replaced by another of the same
-- text. What other cosigners and raft answer are parameters. The making of the file signer's files, the
-- set-up of raft, the key files but for the text of the ECIES one, the curve arithmetic and the command
-- line are left out.
pub mod Prelude
pub mod Hrs
pub mod Outcome
pub mod Act
pub mod ChainFiles
pub mod ChainId
pub mod Payload
pub mod Cond
pub mod Config
pub mod ConnKey
pub mod Refusal
pub mod RemoteSigner
pub mod Rpc
pub mod Security
pub mod SignState
pub mod Cosigner
pub mod NonceCache
pub mod Health
pub mod ErrorText
pub mod FileSigner
pub mod Sharing
pub mod SingleSigner
pub mod SoftSigner
pub mod KeyShares
pub mod Raft
pub mod Scenarios
pub mod Validator
