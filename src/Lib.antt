-- ===== src/Lib.antt =====
-- A model of the core of the AISC node, a peer of a distributed storage network, with the theorems
-- that make it correct.
--
-- Accounting (pkg/accounting/accounting.go): what the node and each peer owe each other.
--   Accounting.antt has the types and the monad: an operation takes the settings, the time and the
--   faults of the state store (`Context`) and the entry of one peer with its stored balances
--   (`Account`), and gives a result or an error with the entry after it; calls of other parts are
--   recorded. Balances is the reading of balances, Settle is `settle`, Credit is `PrepareCredit` and the
--   credit action, Debit is `PrepareDebit` and the debit action, Payments and Refreshments are the
--   notifications of the settlement services, Blocking is the block list, Peers is the making of a
--   peer's entry, `Connect`, `Disconnect` and `PeerAccounting`. Steps has all of them as the steps of a
--   history. An amount is a Go big integer, a time is seconds or milliseconds, both an integer.
--   A credit and a debit are calls of other parts (retrieval, push), which keep the action.
--
-- Postage (pkg/postage): the stamps that pay for the storage of chunks.
--   Postage/Stamp.antt is stamp.go and the index functions of stampissuer.go, Postage/Issuer.antt is
--   `StampIssuer` of stampissuer.go, which counts the stamps of each bucket, and Postage/Stamper.antt is
--   stamper.go, which remembers the index of a chunk. The signer, the recovery of an address from a
--   signature and the clock are parameters.
--
-- Batches (pkg/postage/batchstore/store.go): the batches that the chain knows.
--   Batches.antt has the state store as lists in the order of its keys, the faults and the monad, and
--   Batches/Writes.antt the operations, `Save`, `Update` and `PutChainState` with the cleanup of spent
--   batches and the reserve radius. `Env` holds the faults, the handlers of expiry and eviction, and
--   the ceiling of the logarithm, which is Go's floating-point one.
--
-- Sharky (pkg/sharky): the files in which chunks are stored.
--   Sharky/Slots.antt is slots.go: the bit vector of free slots, and the loop of `process`, whose select
--   is an event. Process has its histories.
--
-- Cheques (pkg/settlement/swap/chequebook): Cheques/Received.antt is `ReceiveCheque` of chequestore.go, the
--   cheques that peers pay with, and Cheques/Issued.antt is `Issue` of chequebook.go with the reservation of
--   funds. What the contracts, the signer and the recovery of the issuer answer in a call is an argument.
--   `Issue` locks only the reservation and the update of the total; Issued/Overlap.antt has the parts of calls
--   that overlap.
--
-- Swap (pkg/settlement/swap): Swap/Addressbook.antt is addressbook.go and `Handshake` of swap.go, Swap.antt is
--   `ReceiveCheque` of swap.go, which joins the address book, the cheques and the accounting of the sender, and
--   Swap/Protocol.antt is `Pay` with `EmitCheque` of swapprotocol.go. The peer's answer is an argument.
--
-- Pseudosettle (pkg/settlement/pseudosettle/pseudosettle.go): settlement by time. Pseudosettle.antt is the
--   handler of a peer's request with `peerAllowance`, `init` and `terminate`, and Pseudosettle/Sent.antt is
--   `Pay`. The clock, the stream and the failures of the state store are arguments of a call. A time is an
--   integer that does not overflow.
--
-- Swarm (pkg/swarm): Swarm.antt is distance.go and proximity.go, how close addresses are as byte strings.
--
-- Pslice (pkg/topology/pslice/pslice.go): the bins of peers by their proximity order to the node.
--
-- Chunkstore (pkg/storer/internal/chunkstore/chunkstore.go): the chunks by their addresses with a count of
--   references, over the reading, writing and releasing of blobs in pkg/sharky/store.go and shard.go. The slots
--   of all shards are numbers. What fails in a call, and the free slot that the shards hand out, are arguments.
--
-- Kademlia (pkg/topology/kademlia/kademlia.go): the connected and the known peers, the depth, which connections
--   are taken, and the closest peer to an address, with internal/waitnext/waitnext.go. The peers that are not
--   reachable, the result of announcing a peer, and the randomness are arguments. Histories has the parts of
--   calls that overlap, the adding of peers that the node has dialled included. Pslice/Each.antt has the iteration
--   over the bins.
--
-- Encryption (pkg/encryption): Encryption.antt is encryption.go and chunk_encryption.go, and `decrypt` of
--   store/decrypt_store.go. The hash and the randomness are parameters.
--
-- Epochs (pkg/feeds/epochs): epoch.go, the epochs in which the updates of a feed are stored, and the updater of
--   updater.go. Whether an update can be stored is an argument.
--
-- Breaker (pkg/p2p/libp2p/internal/breaker/breaker.go): the breaker of connections that fail, whose calls overlap.
--
-- Effects is the state with errors that Cheques, Swap, Pseudosettle, Chunkstore, Encryption, Epochs and Breaker
-- share: an operation gives a result or an error with the state after it. Bytes has byte strings and Go's
-- big-endian integers. Prelude has what all parts share: tests of numbers, lists over the native numbers, and
-- integers.
--
-- The one loop on fuel is that over the segments of Encryption, with fuel for each byte, which is enough if the key
-- is not empty. The other loops of the source run over lists or up to a size, and so do these. The `uint32`
-- counts of Postage and Sharky, and the lengths in `Proximity`, wrap around as written.
--
-- Not modelled: the framing of messages and the streams, the Ethereum calls, the HTTP interface, the
-- databases, logs, metrics and locks; of kademlia the choice of the peers to dial, the dialling, the announcing of
-- peers and the pruning. Calls for one peer run under its lock in the accounting, so that they
-- are taken one after another.
pub mod Accounting
pub mod Batches
pub mod Breaker
pub mod Bytes
pub mod Cheques
pub mod Chunkstore
pub mod Effects
pub mod Encryption
pub mod Epochs
pub mod Kademlia
pub mod Postage
pub mod Prelude
pub mod Pseudosettle
pub mod Pslice
pub mod Sharky
pub mod Swap
pub mod Swarm
