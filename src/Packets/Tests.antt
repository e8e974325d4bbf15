-- ===== src/Packets/Tests.antt =====
-- Instances of the theorems on packets.
use bittorrent_implementatio.Prelude.{
  ℕ, ◌≡◌, some, List, [], ◌∷◌, take, replicate, length-replicate, arith,
}
use bittorrent_implementatio.Packets.{
  BtidePacket, pkt_msg_req, pkt_msg_res, send_req, read_req, send_res, read_res, serve,
}
use bittorrent_implementatio.Packets.Fields.{read-send_req, read-send_res}
use bittorrent_implementatio.Packets.Serve.{Serves, serve-Serves}

abbrev hash_memory : List ℕ
hash_memory = replicate 65 97

abbrev ident_memory : List ℕ
ident_memory = replicate 1025 98

abbrev data_memory : List ℕ
data_memory = replicate 2998 7

read-send_req_example :
    (p : BtidePacket) × (send_req 12 5000 hash_memory ident_memory ≡ some p)
    × (p.msg_code ≡ pkt_msg_req)
    × ((read_req p).offset ≡ 12)
    × ((read_req p).req_len ≡ 5000)
    × ((read_req p).hash ≡ take 64 hash_memory)
    × (take 1024 (read_req p).ident ≡ take 1024 ident_memory)
read-send_req_example =
    read-send_req 12 5000 hash_memory ident_memory (omega arith) (omega arith)
      (omega (arith, length-replicate {0} {A = ℕ} 65 97))
      (omega (arith, length-replicate {0} {A = ℕ} 1025 98))

read-send_res_example :
    (p : BtidePacket) × (send_res 12 data_memory 2000 hash_memory ident_memory ≡ some p)
    × (p.msg_code ≡ pkt_msg_res)
    × ((read_res p).offset ≡ 12)
    × ((read_res p).block ≡ take 2998 data_memory)
    × ((read_res p).data_len ≡ 2000)
    × ((read_res p).hash ≡ take 64 hash_memory)
    × (take 1024 (read_res p).ident ≡ take 1024 ident_memory)
read-send_res_example =
    read-send_res 12 2000 data_memory hash_memory ident_memory (omega arith) (omega arith)
      (omega (arith, length-replicate {0} {A = ℕ} 2998 7))
      (omega (arith, length-replicate {0} {A = ℕ} 65 97))
      (omega (arith, length-replicate {0} {A = ℕ} 1025 98))

serve-Serves_example : Serves 3 12 (1 ∷ 2 ∷ 3 ∷ 4 ∷ []) (serve 3 0 3 12 (some (1 ∷ 2 ∷ 3 ∷ 4 ∷ [])))
serve-Serves_example =
    serve-Serves 3 0 3 12 (1 ∷ 2 ∷ 3 ∷ 4 ∷ []) (omega arith) (omega arith) (omega arith)
