-- ===== src/Tests/Merging.antt =====
-- A UDP packet and a TCP packet that meet an item of their flow.
use quincy_tun.Base.{ℕ, refl, arith, List, [], ◌∷◌, ◌++◌, replicate, true, false, Returns}
use quincy_tun.Gro.{Buf, UdpGroItem, TcpGroItem}
use quincy_tun.Gro.Compare.{append}
use quincy_tun.Gro.Coalesce.{coalesce_udp_packets, coalesce_tcp_packets}
use quincy_tun.Gro.Coalesce.AppendTcp.{CanFollow, Ways, coalesce_tcp_packets-Ways}
use quincy_tun.Gro.Coalesce.Append.{CanMeet, Outcomes, coalesce_udp_packets-Outcomes}

-- Two bytes of payload between zero addresses, with the checksum that is right for them.
abbrev udp_packet : List ℕ
udp_packet = replicate 26 0 ++ 0xFF ∷ 0xE4 ∷ 0 ∷ 0 ∷ []

abbrev udp_buf : Buf
udp_buf = record { bytes = replicate 10 0 ++ udp_packet; capacity = 64 }

abbrev udp_item : UdpGroItem
udp_item = record {
  key = record {
    src_addr = replicate 16 0;
    dst_addr = replicate 16 0;
    src_port = 0;
    dst_port = 0;
    is_v6 = false;
  };
  bufs_index = 0;
  num_merged = 0;
  gso_size = 2;
  iph_len = 20;
  c_sum_known_invalid = false;
}

abbrev can_meet : CanMeet udp_packet udp_item (udp_buf ∷ []) 10 false udp_buf
can_meet = record {
  found = refl;
  ip_room = omega arith;
  item_room = omega arith;
  pkt_room = omega arith;
  small = omega arith;
  merges = omega arith;
}

coalesce_udp_packets-Outcomes_example :
    Returns
      (coalesce_udp_packets udp_packet udp_item (udp_buf ∷ []) 10 false)
      (Outcomes udp_packet udp_item (udp_buf ∷ []) 10 false udp_buf)
coalesce_udp_packets-Outcomes_example =
    coalesce_udp_packets-Outcomes udp_packet udp_item (udp_buf ∷ []) 10 false udp_buf can_meet

-- The example packet with its checksum; the next segment of the flow has the same bytes here.
abbrev tcp_segment : List ℕ
tcp_segment =
    69 ∷ 0 ∷ 0 ∷ 45 ∷ 18 ∷ 52 ∷ 64 ∷ 0 ∷ 64 ∷ 6 ∷ 0 ∷ 0 ∷ 10 ∷ 0 ∷ 0 ∷ 1 ∷ 10 ∷ 0 ∷ 0 ∷ 2 ∷ 39 ∷ 16
    ∷ 39 ∷ 17 ∷ 0 ∷ 0 ∷ 0 ∷ 1 ∷ 0 ∷ 0 ∷ 0 ∷ 1 ∷ 80 ∷ 24 ∷ 16 ∷ 0 ∷ 52 ∷ 156 ∷ 0 ∷ 0 ∷ 1 ∷ 2 ∷ 3 ∷ 4
    ∷ 5 ∷ []

abbrev tcp_buf : Buf
tcp_buf = record { bytes = replicate 10 0 ++ tcp_segment; capacity = 128 }

abbrev tcp_item : TcpGroItem
tcp_item = record {
  key = record {
    src_addr = 10 ∷ 0 ∷ 0 ∷ 1 ∷ replicate 12 0;
    dst_addr = 10 ∷ 0 ∷ 0 ∷ 2 ∷ replicate 12 0;
    src_port = 10000;
    dst_port = 10001;
    rx_ack = 1;
    is_v6 = false;
  };
  sent_seq = 1;
  bufs_index = 0;
  num_merged = 0;
  gso_size = 5;
  iph_len = 20;
  tcph_len = 20;
  psh_set = false;
}

abbrev can_follow : CanFollow tcp_segment 5 6 true tcp_item (tcp_buf ∷ []) 10 false tcp_buf
can_follow = record {
  found = refl;
  ip_room = omega arith;
  tcp_room = omega arith;
  headers_byte = omega arith;
  item_room = omega arith;
  pkt_room = omega arith;
  no_longer = omega arith;
  small = omega arith;
  merges = omega arith;
}

coalesce_tcp_packets-Ways_example :
    Returns
      (coalesce_tcp_packets append tcp_segment 1 5 6 true tcp_item (tcp_buf ∷ []) 10 false)
      (Ways tcp_segment 5 6 true tcp_item (tcp_buf ∷ []) 10 false tcp_buf)
coalesce_tcp_packets-Ways_example =
    coalesce_tcp_packets-Ways tcp_segment 5 6 true tcp_item (tcp_buf ∷ []) 10 false tcp_buf
      can_follow 1
