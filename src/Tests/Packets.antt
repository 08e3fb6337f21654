-- ===== src/Tests/Packets.antt =====
-- A TCP packet of five payload bytes, as a GSO frame, and buffers for it.
use quincy_tun.Base.{ℕ, List, [], ◌∷◌, replicate}
use quincy_tun.Offload.{VirtioNetHdr}

-- 10.0.0.1 to 10.0.0.2, ports 10000 and 10001, sequence number 1, ACK and PSH.
abbrev pub tcp_packet : List ℕ
tcp_packet =
    0x45 ∷ 0 ∷ 0 ∷ 45 ∷ 0x12 ∷ 0x34 ∷ 0x40 ∷ 0 ∷ 64 ∷ 6 ∷ 0 ∷ 0 ∷ 10 ∷ 0 ∷ 0 ∷ 1 ∷ 10 ∷ 0 ∷ 0 ∷ 2
    ∷ 0x27 ∷ 0x10 ∷ 0x27 ∷ 0x11 ∷ 0 ∷ 0 ∷ 0 ∷ 1 ∷ 0 ∷ 0 ∷ 0 ∷ 1 ∷ 0x50 ∷ 0x18 ∷ 0x10 ∷ 0 ∷ 0 ∷ 0 ∷ 0
    ∷ 0 ∷ 1 ∷ 2 ∷ 3 ∷ 4 ∷ 5 ∷ []

abbrev pub tcp_gso : VirtioNetHdr
tcp_gso = record {
  flags = 1;
  gso_type = 1;
  hdr_len = 40;
  gso_size = 2;
  csum_start = 20;
  csum_offset = 16;
}

abbrev pub out_buf : List ℕ
out_buf = replicate 44 0

abbrev pub out_bufs : List (List ℕ)
out_bufs = out_buf ∷ out_buf ∷ out_buf ∷ []

abbrev pub sizes : List ℕ
sizes = 0 ∷ 0 ∷ 0 ∷ []
