-- ===== src/Lib.antt =====
-- Reticulum in JavaScript: a model of the packet, framing, routing and delivery logic.
--
-- The program is a set of packages over one network stack. packages/core holds the stack: packets and
-- their wire format, the framers that put them on a byte stream, the table of learned paths, the
-- transport that dispatches packets, links, and what runs on a link, such as channels and resources.
-- packages/rfed federates channels of blobs and queues them for absent subscribers; packages/rngit
-- carries git over links in pkt-lines; packages/lxmf carries messages. Each is an event-driven program
-- on one thread: a handler runs until it awaits. A handler is a function here from the state to the
-- state and what it emits; one that is cut by an `await` is two functions.
--
-- The files, and the code that each is about:
--   Common            shared names: bytes, lists, maps as association lists in insertion order,
--                     sets of strings, bit operations, integers, results of calls that may throw.
--   Packet            packages/core/src/core/packet.js: the constructor, `serialize`, `deserialize`,
--                     `_buildFlagsByte`, `getHashablePart`. The hash itself is not modelled.
--   Framing           what both framers share. The IFAC hooks `sealRaw` and `openRaw` are parameters
--                     there; Ifac.Hooks fills them.
--   Framing.Hdlc      packages/core/src/transport/hdlc-framer.js
--   Framing.Kiss      packages/core/src/transport/kiss-framer.js
--   Encoding          packages/core/src/utils/encoding.js: hexadecimal, base64, comparison,
--                     concatenation. A string is the list of its character codes.
--   Hkdf              `hkdf` of packages/core/src/crypto/ciphers.js; the HMAC is a parameter.
--   Ifac              packages/core/src/core/ifac.js, and the hooks `_sealRaw` and `_openRaw` of
--                     packages/core/src/interfaces/base.js, which Ifac.Framed puts under the framers.
--                     The hash and the signature are parameters. The key material is derived from the
--                     secrets at each use, where the source keeps what it derived first.
--   MsgPack           packages/core/src/utils/msgpack.js: the encoder, and in MsgPack.Decoder the
--                     decoder. Values are a data type; UTF-8 and the property key of a value that is no
--                     string are parameters. Depth is counted down from 128.
--   Pkcs7             packages/core/src/crypto/pkcs7.js
--   Router            packages/core/src/transport/router.js: the whole of `RoutingTable`. `Date.now()`
--                     is an argument, one for each place that reads it.
--   Receipt           packages/core/src/core/packet_receipt.js, with `trackReceipt`, `findReceipt` and
--                     `_handleProof` of packages/core/src/transport/transport.js. Identities and their
--                     signature check are parameters. One receipt is followed; the registry holds
--                     receipts by a number. It shares the table of routes with Router.
--   Channel           packages/core/src/transport/channel.js: the frames, the receiving half, the send
--                     window, in Channel.Sender the sending half over any outlet, and in Channel.Outlet
--                     the outlet over a link, without the link. The registry of message classes and
--                     the streams are not modelled. A round trip time is counted in nanoseconds.
--                     Handlers are not run: the messages that they are given are returned.
--   DeferredQueue     packages/rfed/src/deferred_queue.js
--   BlobStore         packages/rfed/src/blob_store.js; BlobStore.Spec has the abstract map that it is.
--   MessageStore      packages/lxmf/src/message_store.js; MessageStore.Sync has the marks of the peers and
--                     the sorted lists, MessageStore.Calls the sequences of calls.
--   PktLine           packages/rngit/src/pktline.js
--
-- A component's file declares its state and operations; its child modules prove, and `Tests` under it
-- runs the definitions and applies the theorems to concrete data. Logging is left out.
--
-- Loops are structural recursion on the data, but for these, which take fuel: decoding pkt-lines (a
-- turn consumes at least four bytes, so the length and one more is enough, by PktLine.Total), splitting
-- into chunks (a turn consumes at least one byte of a positive size, by PktLine.Chunks), and draining a
-- channel's receive ring (a turn takes one envelope out, so its length is enough, by Channel.Order),
-- and `hkdf` (a turn fills at least one byte, so the length asked for is enough, by Hkdf.Length), and the
-- chunks of `pushChunked` (a turn takes at least one byte, by MsgPack.Decoder.Heads).
--
-- Numbers are natural numbers. Where the source cuts a value to a byte or to 16 bits, so does the
-- model. Byte arrays are lists of numbers; where a theorem needs them below 256 it says so.
--
-- Not modelled: links, resources, the transport's dispatch, announces, identities and cryptography,
-- interfaces and their sockets, storage, the buffer streams over a channel, the rest of LXMF, git
-- transport, federation.
mod Common
pub mod Packet
pub mod Framing
pub mod Encoding
pub mod Hkdf
pub mod Ifac
pub mod DeferredQueue
pub mod BlobStore
pub mod Router
pub mod Receipt
pub mod Channel
pub mod Pkcs7
pub mod MessageStore
pub mod MsgPack
pub mod PktLine
