-- ===== src/Lib.antt =====
-- avtalk: the messenger's C libraries as functions and step relations, with the theorems about them.
--
-- The program is a set of Windows libraries for a messenger with audio and video. Lists, memory,
-- locks and threads (mflist, mfmemory, mflock, mfthread) carry the broker (mfbroker), which exchanges
-- messages (mfmessages) that are signed and encrypted by mfcrypto over libsodium. Streams, capture
-- and playback (mfstream, mfcap, mfplay, mfsession, mfgen) stand beside it.
--
--   MfList       mflist/mflist.c: the links of all entries as two maps from addresses; each assignment
--                is one update. Ring says when links form a list, Queue runs sequences of operations.
--   MfMemory     mfmemory/mfmemory.c: blocks by address, with their count and size.
--   MfLock       mflock/mflock.c: a critical section as the thread that may hold it sees it.
--   MfThread     mfthread/mfthread.c: thread records. Ownership is about creation and the end,
--                Interleaved about the creator and the new thread side by side.
--   MfCrypto     mfcrypto/mfcrypto.c: the wrappers over libsodium. The library is the parameter Sodium;
--                SodiumLaws states what its documentation promises: what was sealed, signed or boxed
--                opens with the keys of the pair, and the lengths.
--   MfMessages   mfmessages/mfmessages.c: a message is its buffer, with the part that the header
--                encryption covers as raw bytes. Flags, Layout, Header, Signature, Payload, Alloc and
--                Transfer hold what is proved of each.
--   MfProtocol   mfprotocol/mfprotocol.c: the data of the protocol's messages as bytes; Texts is about the
--                texts in them.
--   MfBroker     mfbroker/mfbroker.c: Wire moves messages over a socket, which is the parameter Winsock;
--                Slots searches the connection array and fills a worker's poll list; Connections holds
--                references, queues and the end of a connection; Server is the accept loop, in rounds;
--                Worker is the loop of a worker, in rounds: what is done to a message before it is sent and
--                after it was received, then Round, Serve and Rounds, from one message to the whole thread;
--                Received, Delivery and Stalled are about them. SetUp is the address loop and the start of
--                the threads in MFBroker_Alloc, Lifetime MFBroker_Alloc and MFBroker_Free as wholes.
--   MfStream     mfstream/mfstreamop-impl.cpp: the queued operations; Entries is about their list.
--                ByteStream is mfstream/mfstream-impl.cpp and mfstream.cpp, the stream itself; below it,
--                System has the interleavings of its callers and its thread as steps, Invariant, Order,
--                Runs and Closing what holds in every run. Creation is about failures on creation.
--   MfGen        mfgen/mfgen.cpp: the properties of a Media Foundation object in one block; Properties is
--                about reading and freeing them. Formats are those of media types; References says who
--                holds the media types.
--   Base, Tests  shared names and lemmas; the theorems at concrete inputs.
--
-- Code that changes state is a command: a function from a state to a result and a state, or to none
-- where the code would access memory that is not there, fail an assertion or misuse a lock. Numbers
-- are natural numbers, with the wrap-around of 16, 32 and 64 bits written out. What the operating
-- system answers (addresses of new blocks, handles, error codes, random bytes) is an argument.
--
-- Bounds: _recvData runs on fuel, and as many rounds as bytes are asked for are enough while each recv
-- makes progress. The searches through the connection array run on one round more than the array has
-- slots. MFConnection_Release and MFConnection_Clear call each other; their depth is bounded, and one
-- level of nesting is enough where every reference is accounted for. The loop of MFBroker_Free visits
-- each slot at most once. A worker's send loop runs on fuel, and needs one round more than messages
-- wait. Fewer than 2 ^ 31 operations are pending in a stream.
--
-- Not modelled: the contents of memory other than messages, links, threads and connections; other
-- threads running at the same time, except where interleavings are spelled out; waiting; the bounds of
-- a worker's poll array, and the layout of the broker's memory; in mfstream, what the caller's
-- callbacks do, and the copying of bytes, an operation for whose type the caller has given no callback
-- (the code queues it and calls NULL), and a thread of a new stream that takes the permit that its
-- constructor waits for; in mfgen, names of GUIDs, and the start of Media Foundation; mfcap, mfplay,
-- mfsession, the demonstrations, and libsodium itself.
pub mod Base
pub mod MfList
pub mod MfMemory
pub mod MfLock
pub mod MfThread
pub mod MfCrypto
pub mod MfMessages
pub mod MfProtocol
pub mod MfBroker
pub mod MfStream
pub mod MfGen
pub mod Tests
