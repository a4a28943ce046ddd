-- ===== src/Lib.antt =====
-- The decentralized DNS resolver: a model of its Go code under resolver/, and the properties that make
-- it correct.
--
-- A query names a domain, a record type and a selector. The front ends normalise it, the resolution
-- path answers it from a TTL cache or from the chain, checks the owner's signature once when it fills
-- the cache, and contract events invalidate what is cached. A resource record leads on to a torrent
-- whose content is compared with the hash that the owner signed.
--
--   Base         byte strings, 64-bit and big-endian integers, length-prefixed texts, and what the
--                sources use of Go's strings and strconv packages
--   Query        resolver/internal/query/query.go: the grammar, CanonicalSelector, ParsePairs, New
--   Cache        resolver/internal/cache: TTLCache and its two name indexes; one method is one step,
--                since one mutex guards them all
--   Udp          resolver/internal/server/udp.go: encodeUDPQuery, encodeUDPResponse, decodeUDPQuery and
--                decodeUDPResponse; Server/Udp has handleUDPPacket and serveUDP
--   Chain        resolver/internal/chain: types.go, the retries and the reads of client.go, and in events.go
--                collectEvents and the inner loop of WatchRecordEvents
--   Pki          resolver/internal/pki: owner.go (RecordMessage, VerifyOwnerSig, SignRecord), resource.go
--                and envelope.go
--   Torrent      resolver/internal/torrent/torrent.go: pin, acquire, release, retain and Fetch; Threads
--                has the interleavings of the critical sections of calls that run at once
--   Pay          resolver/internal/pay/pay.go: Digest, SignVoucher and RecoverVoucher
--   Zk           resolver/internal/zk: PackMessage, Commitment, Prove and ProofFromSolidityCalldata
--   ContentType  resolver/internal/contenttype/contenttype.go
--   Server       resolver/internal/server: handle.go (HandleQuery), rest.go (handleResolve, handleDomain
--                and handleTypes), udp.go, resource.go (fetchVerifiedResource, resourcePeers and
--                handleResource), web.go (the loop of handleWeb) and ratelimit.go
--   Config       resolver/internal/config/config.go
--   Lookup       the clients: resolver/cmd/ddns-lookup/main.go, and of
--                resolver/cmd/ddns-fetch/main.go what it checks of a download
--   Cli          resolver/cmd/ddns: the owner command line, main.go and channels.go. A command is a
--                script that either ends with a value or exits with a code, and in both cases has sent
--                a list of transactions
--   Tests        stand-ins for what is outside the repository, and runs at concrete inputs
--
-- State is passed explicitly, and an operation returns the new state. An error is a constructor of a
-- result type, or `none`; a panic of the Go code is a result of its own. Texts and byte slices are lists
-- of bytes, and integers are natural numbers with the wrap-around of their width written out (`be16`,
-- `be32`, `be64`). A clock reading and what the chain, the swarm or the environment answers are
-- arguments.
--
-- Fuel: the decoders of udp.go read at least three bytes in a round, so the length of the packet is
-- enough; the loop over block windows advances by at least one block, so the distance to the head is
-- enough; the decimal printer divides by ten, and the big-endian bytes of a voucher's amount divide by 256,
-- so the number itself is enough.
--
-- Parameters, with what is documented of them as laws: the LRU of golang-lru, keccak256 (without
-- collisions on the names in use), secp256k1, ed25519 and SHA-256, the encoders of hexutil, sort.Slice,
-- the Unicode tables, mime and http sniffing, the transport of header values by net/http, gnark, the token bucket of golang.org/x/time/rate, the
-- filters of the contract bindings, the JSON encoders, and for the command line the files, the network
-- and the parsers of numbers. Go's flag package is written out in Cli/Args from its documentation.
--
-- Not modelled: sockets, HTTP routing, the start and stop of the server, JSON encoding, the contracts
-- and their generated bindings, the BitTorrent client, the ZK circuit, the response headers of the web
-- gateway, the administration and showcase pages, what the commands print, the flags of ddns-fetch, and
-- the request with which publish-resource warms a local resolver after its record is anchored.
pub mod Base
pub mod Cache
pub mod Query
pub mod Udp
pub mod Chain
pub mod Pki
pub mod Torrent
pub mod Zk
pub mod ContentType
pub mod Server
pub mod Config
pub mod Lookup
pub mod Pay
pub mod Cli
mod Tests
