-- ===== src/Commands/Handler/Tests.antt =====
-- A peer with one package, to which a RES packet comes, and an instance of the theorem on it.
use bittorrent_implementatio.Prelude.{
  ◌≡◌, refl, false, none, some, [], ◌∷◌, ◌++◌, CString, str_eq, strn_eq, replicate, arith,
}
use bittorrent_implementatio.Pkgchk.Samples.{two_chunks, every_file}
use bittorrent_implementatio.Packages.{
  add_data_to_file, chunk_in_memory, find_chunk, store_data, write_data, calculate_data_len,
  len_loop,
}
use bittorrent_implementatio.Strings.{c_text}
use bittorrent_implementatio.Merkle.{inorder_find_node, inorder_search}
use bittorrent_implementatio.Pkgchk.{bpkg_get_all_chunk_hashes_from_hash, get_chunks_from_hash_func}
use bittorrent_implementatio.Packets.{BtidePacket, put_u32, read_res}
use bittorrent_implementatio.Peers.{ThreadArgs}
use bittorrent_implementatio.Commands.Loop.{Btide}
use bittorrent_implementatio.Commands.Handler.{packet, Reply, handle_peers, on_packet, on_res}
use bittorrent_implementatio.Commands.Handler.Answers.{Fits, Changed, handle_peers-Changed}

abbrev here : CString
here = 46 ∷ []

abbrev running : Btide
running = record {
  config_file = record { directory = some here; max_peers = some 1; port = some 9000 };
  required_arrays = record {
    thread_status_array = 1 ∷ [];
    peer_array = none ∷ [];
    thread_status_lock = false;
    peer_array_lock = false;
    started = [];
    closed = [];
  };
  managed = record { managed_array = some two_chunks ∷ none ∷ []; size = 1 };
  files = every_file;
}

abbrev thread : ThreadArgs
thread = record { ip = b'7' ∷ []; port = 80; client_socket_fd = 5; thread_id = 0 }

-- One byte, "x", for the chunk of hash "C" at offset 1 of the package "p". The packet is cut behind the identifier.
abbrev one_byte : BtidePacket
one_byte = record {
  msg_code = 7;
  error = 0;
  payload =
      put_u32 1
      ++ ((b'x' ∷ replicate 2997 0) ++ (1 ∷ 0 ∷ (b'C' ∷ replicate 63 0) ++ (b'p' ∷ 0 ∷ [])));
}

fits : Fits (packet one_byte)
unfolding read_res
fits = omega arith

after_res :
    (b' : Btide) × (handle_peers thread 1 [] (packet one_byte) running ≡ some (b', Reply.nothing))
unfolding handle_peers on_packet on_res read_res add_data_to_file chunk_in_memory find_chunk
    store_data write_data calculate_data_len len_loop strn_eq str_eq
    bpkg_get_all_chunk_hashes_from_hash inorder_find_node inorder_search get_chunks_from_hash_func
    c_text
after_res = (_, refl)

handle_peers-Changed_example : Changed running (packet one_byte) after_res.0
handle_peers-Changed_example =
    handle_peers-Changed running ((_, _, _, refl), tt)
      ((refl, (omega arith, (omega arith, tt))), tt) thread 1 [] (packet one_byte) after_res.0
      Reply.nothing fits after_res.1
