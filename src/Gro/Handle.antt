-- ===== src/Gro/Handle.antt =====
-- `handle_gro` over a batch of buffers, and the `GROTable` that a sender keeps.
use quincy_tun.Base.{ℕ, zero, suc, ◌+◌, List, [], ◌∷◌, ◌++◌, Bool, true, false, not, ◌||◌, ltb, leb}
use quincy_tun.Base.{Outcome, ok, ◌>>=◌, ◌>>◌, guard, invalid_input, length, slice_from}
use quincy_tun.Offload.{
  Endian, virtio_net_hdr_len, packet_is_gro_candidate, not_gro, tcp4_gro, tcp6_gro, udp4_gro,
  udp6_gro,
}
use quincy_tun.Gro.{Buf, buf_at, TcpGroTable, UdpGroTable, reset, new_table}
use quincy_tun.Gro.Tcp.{GroResult, noop, table_insert, coalesced, tcp_gro, zero_hdr}
use quincy_tun.Gro.Udp.{udp_gro}
use quincy_tun.Gro.Accounting.{apply_tcp_coalesce_accounting, apply_udp_coalesce_accounting}

-- The batch and the `GROTable` while `handle_gro` runs.
pub record Gro : Type 0 where
  pub bufs : List Buf
  pub tcp_table : TcpGroTable
  pub udp_table : UdpGroTable
  pub to_write : List ℕ

-- A packet's classification and what its flow makes of it.
unfoldable pub evaluate : ℕ → Bool → ℕ → Gro → Outcome (GroResult × Gro)
evaluate offset can_udp_gro i g = do
  let tcp : Bool → Outcome (GroResult × Gro) = λ is_v6.
      tcp_gro g.bufs offset i g.tcp_table is_v6 >>= λ r.
      ok (r.0, record g { bufs = r.1; tcp_table = r.2 })
  let udp : Bool → Outcome (GroResult × Gro) = λ is_v6.
      udp_gro g.bufs offset i g.udp_table is_v6 >>= λ r.
      ok (r.0, record g { bufs = r.1; udp_table = r.2 })
  buf ← buf_at g.bufs i
  pkt ← slice_from offset buf.bytes
  elim (packet_is_gro_candidate pkt can_udp_gro) [
    | tcp4_gro ↦ tcp false
    | tcp6_gro ↦ tcp true
    | udp4_gro ↦ udp false
    | udp6_gro ↦ udp true
    | not_gro ↦ ok (noop, g)
  ]

-- What is left to send: a packet that was not merged into another one. The default header is ten
-- zero bytes.
unfoldable pub emit : ℕ → ℕ → GroResult → Gro → Outcome Gro
emit offset i result g = elim result [
  | noop ↦ zero_hdr g.bufs i offset >>= λ bufs.
      ok (record g { bufs = bufs; to_write = g.to_write ++ i ∷ [] })
  | table_insert ↦ ok (record g { to_write = g.to_write ++ i ∷ [] })
  | coalesced ↦ ok g
]

-- The body of `for i in 0..bufs_len`.
unfoldable pub handle_one : ℕ → Bool → ℕ → Gro → Outcome Gro
handle_one offset can_udp_gro i g = do
  buf ← buf_at g.bufs i
  guard (not (ltb offset virtio_net_hdr_len || leb (length buf.bytes) offset)) invalid_input
  r ← evaluate offset can_udp_gro i g
  emit offset i r.0 r.1

-- The loop from `i` on, with the rounds that are left.
pub handle_from : ℕ → Bool → ℕ → ℕ → Gro → Outcome Gro
handle_from offset can_udp_gro zero i g = ok g
handle_from offset can_udp_gro (suc rounds) i g =
    handle_one offset can_udp_gro i g >>= λ g'. handle_from offset can_udp_gro rounds (i + 1) g'

-- The source runs the UDP accounting even where the TCP accounting gives an error, and then returns
-- that error; here it is returned at once.
unfoldable pub handle_gro : Endian → ℕ → Bool → Gro → Outcome Gro
unfolding handle_from
handle_gro e offset can_udp_gro g = do
  guard (leb (length g.bufs) 0xFFFF) invalid_input
  done ← handle_from offset can_udp_gro (length g.bufs) 0 g
  tcp ← apply_tcp_coalesce_accounting e offset done.bufs done.tcp_table
  udp ← apply_udp_coalesce_accounting e offset tcp done.udp_table
  ok (record done { bufs = udp })

-- `GROTable`
pub record GroTable : Type 0 where
  pub to_write : List ℕ
  pub tcp_gro_table : TcpGroTable
  pub udp_gro_table : UdpGroTable

abbrev pub new_gro_table : GroTable
new_gro_table = record { to_write = []; tcp_gro_table = new_table; udp_gro_table = new_table }

unfoldable pub reset_gro : GroTable → GroTable
reset_gro t = record {
  to_write = [];
  tcp_gro_table = reset t.tcp_gro_table;
  udp_gro_table = reset t.udp_gro_table;
}

unfoldable pub apply_gro : Endian → GroTable → List Buf → ℕ → Bool → Outcome Gro
apply_gro e t bufs offset can_udp_gro =
    let fresh = reset_gro t in
    handle_gro e offset can_udp_gro (record {
      bufs = bufs;
      tcp_table = fresh.tcp_gro_table;
      udp_table = fresh.udp_gro_table;
      to_write = fresh.to_write;
    })
