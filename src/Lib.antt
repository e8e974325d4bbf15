-- ===== src/Lib.antt =====
-- The package and peer logic of the BitTorrent-like program in project/: a C program that keeps
-- packages (files cut into chunks, with a Merkle tree of SHA-256 hashes), and peers that connect to
-- each other and fetch chunks.
--
-- The parts and their files:
--
-- Prelude: shared names, Boolean tests and list operations over the native numbers, and texts as C
-- reads them (`str_eq` and `strn_eq` for strcmp and strncmp). A text is the list of its characters up to
-- the NUL.
--
-- Strings: is_any_space, strip_whitespace and is_an_int of project/src/chk/helpers.c, and the functions of the
-- C library that the parsers call. Strings/Lines is about reading lines and fields, Strings/Decimal about numbers
-- and Strings/Fields about lines with a key.
--
-- Sha256: project/src/crypt/sha256.c. The model is executable. Sha256/Spec is the reference: padding of
-- the whole message, and the compression function on each block of 64 bytes. Sha256/Stream relates a
-- state to the message read so far, Sha256/Finalize is about the padding, Sha256/Digest about a whole
-- message. The compression function itself is the code's; a run in Sha256/Tests compares a digest with
-- the published one.
--
-- Merkle: project/src/tree/merkletree.c. insert_node recurs on fuel, one more than the number of hashes:
-- the index at least doubles on the way down, so this is enough. Merkle/Built is the shape that it builds,
-- Merkle/Keys its numbering, Merkle/Marks the computed hashes, Merkle/MinHash and Merkle/Frontier the
-- largest complete subtrees, Merkle/Traverse the visitors.
--
-- Pkgchk: the package object and its queries, project/src/chk/pkgchk.c, with compute_hashes_for_chunks of
-- the tree's file. Files are a map from names to contents. Pkgchk/AllHashes, Pkgchk/Completed and
-- Pkgchk/Queries hold the theorems; a package is given there by the predicate IsPackage.
--
-- Load: the parser bpkg_load of project/src/chk/pkgchk.c, with what bpkg_obj_destroy frees after an error.
-- Its main loop is on fuel, one more than the bytes of the file: each line takes a byte or more.
-- Load/RoundTrip prints a package and reads it back.
--
-- Config: project/src/config.c, its loop on the same fuel. What stat and mkdir say are arguments.
--
-- Pkgmain: project/src/pkgmain.c, the package checker.
--
-- Packages: project/src/package.c, the array of managed packages (Packages/Managed), the search for a
-- chunk (Packages/Search, Packages/Ranges) and the write of received data (Packages/Writes). Packages/Transfer and
-- Packages/Fetch follow a whole chunk from the sender's file to the receiver's. Packages/Serving is the first call of
-- get_data_from_file with the REQ handler of project/src/peer.c, Packages/Status is package_status. Whether realloc
-- finds memory is an argument. The array of chunks has a null entry for each chunk that the package's file lacks.
--
-- Packets: the REQ and RES packets of project/src/peer.c (Packets/Fields), and the loop that answers a
-- request (Packets/Serve). Its fuel is at least the number of bytes to send: each turn sends one or more. A sum of
-- bytes_read from 2^31 on, and a read from the file after a short read has closed it, are no result.
--
-- Peers: the peer table and the thread table of project/src/chk/helpers.c. A mutex is a flag, and an
-- operation that would wait for it has no result. Peers/Table is the table as a map from addresses,
-- Peers/Ops the operations, and Peers/Sizes the bounds that they keep.
--
-- Connect: peer_connect, peer_disconnect and the ends of handle_peers of project/src/peer.c
-- (Connect/Connects and Connect/Disconnects), and a turn of listener (Connect/Listener). What the network
-- answers is an argument.
--
-- Commands: project/src/btide.c, with connect_or_disconnect_to_client and fetch_parser in Commands, and the state and the
-- commands of main in Commands/Loop. Commands/Handler is a turn of the loop of handle_peers in project/src/peer.c.
-- Commands/Loop/Running has the steps of the whole program: commands, accepted connections and turns of
-- handle_peers. A step runs alone: threads that interleave inside of one are not modelled, though
-- add_data_to_file and get_data_from_file use a package without its lock.
--
-- Strings, Peers and Merkle know nothing of each other. Pkgchk uses Strings, Sha256 and Merkle; Packages
-- uses Pkgchk; Connect uses Peers; Commands uses them all, with Load and Config. In every part the result
-- `none` of an operation is an access outside of what was allocated, a signed overflow, or a wait that does not end, so that an equation with `some` also says
-- that there is none. One access is taken as it falls on a machine with pointers of 8 bytes: compute_hashes_for_chunks
-- writes the NUL of a digest one byte behind computed_hash, into the padding at the end of the node (Merkle).
--
-- Not modelled: project/sha256chk.c; in project/src/peer.c the setting up of the listening socket, a failing
-- accept, the layout of a RES packet with the error bit, and destroy_all, which frees memory; remove_tree, and
-- printing but for that of PACKAGES and of the package checker. Memory for the parser is always there, and
-- the stack has room for the block that is hashed.
pub mod Prelude
pub mod Strings
pub mod Sha256
pub mod Merkle
pub mod Pkgchk
pub mod Packages
pub mod Packets
pub mod Peers
pub mod Connect
pub mod Load
pub mod Config
pub mod Commands
pub mod Pkgmain
