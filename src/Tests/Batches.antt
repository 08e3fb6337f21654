-- ===== src/Tests/Batches.antt =====
-- The flow table, the accounting of a merged packet, and the batch operations on small inputs.
use quincy_tun.Base.{
  ℕ, zero, suc, ◌≡◌, refl, arith, List, [], ◌∷◌, ◌++◌, replicate, false, inr, Outcome, ok, err, os,
  Returns, length,
}
use quincy_tun.Offload.{little}
use quincy_tun.Offload.Split.{gso_split}
use quincy_tun.Gro.{Buf, TcpFlowKey, TcpGroItem, TcpGroTable, tcp_key_eq, push_item, reset}
use quincy_tun.Gro.Flows.{IsClean, Pushed, push_item-lookup, reset-IsClean}
use quincy_tun.Gro.Keys.{tcp_key_eq-IsKeyEq}
use quincy_tun.Gro.Handle.{new_gro_table}
use quincy_tun.Gro.Accounting.{account}
use quincy_tun.Gro.Accounting.Sums.{IsMerged}
use quincy_tun.Gro.Accounting.Merged.{IsAccounted, account-IsAccounted}
use quincy_tun.Device.{handle_virtio_read, send_multiple0}
use quincy_tun.Device.Receive.{IsReceived, handle_virtio_read-gso_split}
use quincy_tun.Device.Send.{Lasts, send_multiple0-in_order}
use quincy_tun.Tests.Packets.{tcp_packet, tcp_gso, out_bufs, sizes}

abbrev received : IsReceived tcp_packet tcp_gso false
received = record { gso = omega arith; version = refl; kind = inr refl; headers = refl }

-- The kernel gave 45 for the header length.
handle_virtio_read-gso_split_example :
    handle_virtio_read
      (record {
        flags = 1;
        gso_type = 1;
        hdr_len = 45;
        gso_size = 2;
        csum_start = 20;
        csum_offset = 16;
      })
      tcp_packet
      out_bufs
      sizes
      1
    ≡ gso_split tcp_packet tcp_gso out_bufs sizes 1 false
handle_virtio_read-gso_split_example =
    handle_virtio_read-gso_split tcp_packet tcp_gso false received 45 out_bufs sizes 1 (omega arith)
      (omega arith) (omega arith)

abbrev tracked : List ℕ
tracked = replicate 10 0 ++ tcp_packet

abbrev merged_ok : IsMerged little tcp_gso 20 6 false false 10 tracked
merged_ok = record {
  hdr_ranges = record {
    flags_byte = omega arith;
    gso_type_byte = omega arith;
    hdr_len_word = omega arith;
    gso_size_word = omega arith;
    csum_start_word = omega arith;
    csum_offset_word = omega arith;
  };
  low = omega arith;
  wide = omega arith;
  room = omega arith;
  bytes = omega arith;
  small = omega arith;
  ip_room = omega arith;
  start = refl;
  csum_place = refl;
  csum_room = omega arith;
}

account-IsAccounted_example :
    Returns
      (account little tcp_gso 20 6 false false 10 tracked)
      (IsAccounted little tcp_gso 20 6 false false 10 tracked)
account-IsAccounted_example =
    account-IsAccounted little tcp_gso 20 6 false false 10 tracked merged_ok

abbrev flow : ℕ → TcpFlowKey
flow port = record {
  src_addr = 10 ∷ 0 ∷ 0 ∷ 1 ∷ replicate 12 0;
  dst_addr = 10 ∷ 0 ∷ 0 ∷ 2 ∷ replicate 12 0;
  src_port = port;
  dst_port = 10001;
  rx_ack = 1;
  is_v6 = false;
}

abbrev item : TcpGroItem
item = record {
  key = flow 10000;
  sent_seq = 1;
  bufs_index = 0;
  num_merged = 0;
  gso_size = 5;
  iph_len = 20;
  tcph_len = 20;
  psh_set = false;
}

abbrev table : TcpGroTable
table = record { items_by_flow = (flow 10000, item ∷ []) ∷ []; items_pool = [] ∷ [] }

push_item-lookup_example :
    Pushed tcp_key_eq tcp_key_eq-IsKeyEq
      (flow 10000)
      (flow 7)
      item
      table
      (push_item tcp_key_eq (flow 10000) item table)
push_item-lookup_example =
    push_item-lookup tcp_key_eq tcp_key_eq-IsKeyEq (flow 10000) (flow 7) item table (refl, tt) refl

reset-IsClean_example :
    ((reset table).items_by_flow ≡ [])
    × IsClean (reset table)
    × (length (reset table).items_pool ≡ 2)
reset-IsClean_example = reset-IsClean table (refl, tt)

abbrev two_bufs : List Buf
two_bufs =
    record { bytes = 0 ∷ 1 ∷ 2 ∷ []; capacity = 3 }
    ∷ record { bytes = 0 ∷ 3 ∷ []; capacity = 2 }
    ∷ []

-- The second write fails.
abbrev flaky : ℕ → List ℕ → Outcome ℕ
flaky zero pkt = ok (length pkt)
flaky (suc n) pkt = err (os 5)

flaky-Lasts : Lasts flaky
flaky-Lasts zero pkt = tt
flaky-Lasts (suc n) pkt = refl

send_multiple0-in_order_example :
    (send_multiple0 little
      (record { vnet_hdr = false; udp_gso = false })
      flaky
      new_gro_table
      two_bufs
      1).written
    ≡ (1 ∷ 2 ∷ []) ∷ (3 ∷ []) ∷ []
send_multiple0-in_order_example =
    send_multiple0-in_order little false flaky new_gro_table two_bufs 1 flaky-Lasts (omega arith)
      (omega arith) (omega arith)
