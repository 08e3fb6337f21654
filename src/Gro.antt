-- ===== src/Gro.antt =====
-- Generic receive offload of src/platform/linux/offload.rs: the buffers, the flow keys and the
-- tables. A `HashMap` is an association list, read in the order in which its keys came in.
pub mod Flows
pub mod Keys
pub mod Compare
pub mod Coalesce
pub mod Tcp
pub mod Udp
pub mod Accounting
pub mod Handle
use quincy_tun.Base.{
  ℕ, zero, suc, ◌+◌, ◌-◌, ◌*◌, ◌/◌, ◌%◌, ◌^◌, ◌≡◌, List, [], ◌∷◌, ◌++◌, Bool, true, false, not,
  ◌&&◌, ◌||◌, ltb, leb, ◌==◌, if◌then◌else◌, bit_and, Option, none, some, max,
}
use quincy_tun.Base.{
  Outcome, ok, err, panic, ◌>>=◌, ◌>>◌, expect, length, get_or, get_elem?, set, replicate, byte_at,
  slice, slice_from, read_u16, read_u32, write_at, take, drop,
}
use quincy_tun.Offload.{tcp_flags_offset, tcp_flag_psh, udp_h_len}

-- A `Vec<u8>`, the `ExpandBuffer` of the tests: its bytes and its capacity.
pub record Buf : Type 0 where
  pub bytes : List ℕ
  pub capacity : ℕ

-- A vector that outgrows its capacity gets a larger one: at least the new length.
abbrev pub buf_extend_from_slice : Buf → List ℕ → Buf
buf_extend_from_slice b src = record {
  bytes = b.bytes ++ src;
  capacity = max b.capacity (length b.bytes + length src);
}

abbrev pub buf_resize : Buf → ℕ → ℕ → Buf
buf_resize b new_len value = record {
  bytes = take new_len b.bytes ++ replicate (new_len - length b.bytes) value;
  capacity = max b.capacity new_len;
}

-- `bufs[i]`
unfoldable pub buf_at : List Buf → ℕ → Outcome Buf
buf_at bufs i = elim (get_elem? bufs i) [ some b ↦ ok b | none ↦ panic ]

-- `bufs.swap(i, j)`, for indices that were read before
unfoldable pub swap : List Buf → ℕ → ℕ → Outcome (List Buf)
swap bufs i j = buf_at bufs i >>= λ a. buf_at bufs j >>= λ b. ok (set (set bufs i b) j a)

-- `usize` subtraction of a release build
abbrev pub sub_usize : ℕ → ℕ → ℕ
sub_usize a b = (a + 2 ^ 64 - b) % 2 ^ 64

pub record TcpFlowKey : Type 0 where
  pub src_addr : List ℕ
  pub dst_addr : List ℕ
  pub src_port : ℕ
  pub dst_port : ℕ
  pub rx_ack : ℕ
  pub is_v6 : Bool

pub record UdpFlowKey : Type 0 where
  pub src_addr : List ℕ
  pub dst_addr : List ℕ
  pub src_port : ℕ
  pub dst_port : ℕ
  pub is_v6 : Bool

abbrev pub list_eq : List ℕ → List ℕ → Bool
list_eq [] [] = true
list_eq (x ∷ xs) (y ∷ ys) = x == y && list_eq xs ys
list_eq _ _ = false

abbrev pub bool_eq : Bool → Bool → Bool
bool_eq true b = b
bool_eq false b = not b

abbrev pub tcp_key_eq : TcpFlowKey → TcpFlowKey → Bool
tcp_key_eq a b =
    list_eq a.src_addr b.src_addr
    && (list_eq a.dst_addr b.dst_addr
        && (a.src_port == b.src_port
            && (a.dst_port == b.dst_port && (a.rx_ack == b.rx_ack && bool_eq a.is_v6 b.is_v6))))

abbrev pub udp_key_eq : UdpFlowKey → UdpFlowKey → Bool
udp_key_eq a b =
    list_eq a.src_addr b.src_addr
    && (list_eq a.dst_addr b.dst_addr
        && (a.src_port == b.src_port && (a.dst_port == b.dst_port && bool_eq a.is_v6 b.is_v6)))

pub record TcpGroItem : Type 0 where
  pub key : TcpFlowKey
  pub sent_seq : ℕ
  pub bufs_index : ℕ
  pub num_merged : ℕ
  pub gso_size : ℕ
  pub iph_len : ℕ
  pub tcph_len : ℕ
  pub psh_set : Bool

pub record UdpGroItem : Type 0 where
  pub key : UdpFlowKey
  pub bufs_index : ℕ
  pub num_merged : ℕ
  pub gso_size : ℕ
  pub iph_len : ℕ
  pub c_sum_known_invalid : Bool

-- An address in its 16-byte field, zeros behind it.
addr_field : ℕ → ℕ → List ℕ → Outcome (List ℕ)
addr_field lo hi pkt = do bytes ← slice lo hi pkt; write_at (replicate 16 0) 0 bytes

unfoldable pub tcp_flow_key : List ℕ → ℕ → ℕ → ℕ → Outcome TcpFlowKey
unfolding addr_field
tcp_flow_key pkt src_addr_offset dst_addr_offset tcph_offset = do
  let addr_size = sub_usize dst_addr_offset src_addr_offset
  src ← addr_field src_addr_offset dst_addr_offset pkt
  dst ← addr_field dst_addr_offset (dst_addr_offset + addr_size) pkt
  src_port ← read_u16 pkt tcph_offset
  dst_port ← read_u16 pkt (tcph_offset + 2)
  rx_ack ← read_u32 pkt (tcph_offset + 8)
  ok (record {
    src_addr = src;
    dst_addr = dst;
    src_port = src_port;
    dst_port = dst_port;
    rx_ack = rx_ack;
    is_v6 = addr_size == 16;
  })

unfoldable pub udp_flow_key : List ℕ → ℕ → ℕ → ℕ → Outcome UdpFlowKey
unfolding addr_field
udp_flow_key pkt src_addr_offset dst_addr_offset udph_offset = do
  let addr_size = sub_usize dst_addr_offset src_addr_offset
  src ← addr_field src_addr_offset dst_addr_offset pkt
  dst ← addr_field dst_addr_offset (dst_addr_offset + addr_size) pkt
  src_port ← read_u16 pkt udph_offset
  dst_port ← read_u16 pkt (udph_offset + 2)
  ok (record {
    src_addr = src;
    dst_addr = dst;
    src_port = src_port;
    dst_port = dst_port;
    is_v6 = addr_size == 16;
  })

-- `TcpGROTable` and `UdpGROTable`: the items of each flow, and the emptied vectors for new flows,
-- the last one first.
pub record Table (K I : Type 0) : Type 0 where
  pub items_by_flow : List (K × List I)
  pub items_pool : List (List I)

abbrev pub ideal_batch_size : ℕ
ideal_batch_size = 128

module _ {K I : Type 0} (eq : K → K → Bool) where
  pub lookup : K → List (K × List I) → Option (List I)
  lookup k [] = none
  lookup k ((j, items) ∷ m) = if eq j k then some items else lookup k m

  -- A write through the reference that `get_mut` gives.
  pub update : K → List I → List (K × List I) → List (K × List I)
  update k items [] = []
  update k items ((j, old) ∷ m) = if eq j k then (j, items) ∷ m else (j, old) ∷ update k items m

  -- `entry(key).or_insert_with(|| items_pool.pop().unwrap_or_default()).push(item)`
  pub push_item : K → I → Table K I → Table K I
  push_item k item t = elim (lookup k t.items_by_flow) [
    | some items ↦ record t { items_by_flow = update k (items ++ item ∷ []) t.items_by_flow }
    | none ↦ elim t.items_pool [
      | [] ↦ record { items_by_flow = t.items_by_flow ++ (k, item ∷ []) ∷ []; items_pool = [] }
      | vec ∷ pool ↦ record {
        items_by_flow = t.items_by_flow ++ (k, vec ++ item ∷ []) ∷ [];
        items_pool = pool;
      }
    ]
  ]

-- `drain`: each vector is cleared and goes back to the pool.
module _ {K I : Type 0} where
  drain : List (K × List I) → List (List I) → List (List I)
  drain [] pool = pool
  drain ((k, items) ∷ m) pool = drain m ([] ∷ pool)

  pub reset : Table K I → Table K I
  unfolding drain
  reset t = record { items_by_flow = []; items_pool = drain t.items_by_flow t.items_pool }

abbrev pub new_table : {K I : Type 0} → Table K I
new_table = record { items_by_flow = []; items_pool = replicate ideal_batch_size [] }

abbrev pub TcpGroTable : Type 0
TcpGroTable = Table TcpFlowKey TcpGroItem

abbrev pub UdpGroTable : Type 0
UdpGroTable = Table UdpFlowKey UdpGroItem

-- `TcpGROTable::insert`; `expect` panics on a value that its field cannot hold.
unfoldable pub tcp_insert : TcpGroTable → List ℕ → ℕ → ℕ → ℕ → ℕ → ℕ → Outcome TcpGroTable
unfolding push_item
tcp_insert table pkt src_addr_offset dst_addr_offset tcph_offset tcph_len bufs_index = do
  key ← tcp_flow_key pkt src_addr_offset dst_addr_offset tcph_offset
  expect (ltb bufs_index (2 ^ 16))
  payload ← slice_from (tcph_offset + tcph_len) pkt
  expect (ltb (length payload) (2 ^ 16))
  expect (ltb tcph_offset (2 ^ 8))
  expect (ltb tcph_len (2 ^ 8))
  seq ← read_u32 pkt (tcph_offset + 4)
  flags ← byte_at pkt (tcph_offset + tcp_flags_offset)
  ok (
      push_item tcp_key_eq key
        (record {
          key = key;
          sent_seq = seq;
          bufs_index = bufs_index;
          num_merged = 0;
          gso_size = length payload;
          iph_len = tcph_offset;
          tcph_len = tcph_len;
          psh_set = not (bit_and flags tcp_flag_psh == 0);
        })
        table)

-- `UdpGROTable::insert`
unfoldable pub udp_insert : UdpGroTable → List ℕ → ℕ → ℕ → ℕ → ℕ → Bool → Outcome UdpGroTable
unfolding push_item
udp_insert table pkt src_addr_offset dst_addr_offset udph_offset bufs_index c_sum_known_invalid = do
  key ← udp_flow_key pkt src_addr_offset dst_addr_offset udph_offset
  expect (ltb bufs_index (2 ^ 16))
  let payload_len = sub_usize (length pkt) (udph_offset + udp_h_len)
  expect (ltb payload_len (2 ^ 16))
  expect (ltb udph_offset (2 ^ 8))
  ok (
      push_item udp_key_eq key
        (record {
          key = key;
          bufs_index = bufs_index;
          num_merged = 0;
          gso_size = payload_len;
          iph_len = udph_offset;
          c_sum_known_invalid = c_sum_known_invalid;
        })
        table)

-- The flow's key, and the table with the items of the flow, or with a new flow for the packet.
unfoldable pub tcp_lookup_or_insert :
    TcpGroTable
    → List ℕ
    → ℕ
    → ℕ
    → ℕ
    → ℕ
    → ℕ
    → Outcome (TcpFlowKey × TcpGroTable × Option (List TcpGroItem))
unfolding lookup
tcp_lookup_or_insert table pkt src_addr_offset dst_addr_offset tcph_offset tcph_len bufs_index = do
  key ← tcp_flow_key pkt src_addr_offset dst_addr_offset tcph_offset
  elim (lookup tcp_key_eq key table.items_by_flow) [
    | some items ↦ ok (key, table, some items)
    | none ↦
        tcp_insert table pkt src_addr_offset dst_addr_offset tcph_offset tcph_len bufs_index
        >>= λ table'. ok (key, table', none)
  ]

unfoldable pub udp_lookup_or_insert :
    UdpGroTable
    → List ℕ
    → ℕ
    → ℕ
    → ℕ
    → ℕ
    → Outcome (UdpFlowKey × UdpGroTable × Option (List UdpGroItem))
unfolding lookup
udp_lookup_or_insert table pkt src_addr_offset dst_addr_offset udph_offset bufs_index = do
  key ← udp_flow_key pkt src_addr_offset dst_addr_offset udph_offset
  elim (lookup udp_key_eq key table.items_by_flow) [
    | some items ↦ ok (key, table, some items)
    | none ↦
        udp_insert table pkt src_addr_offset dst_addr_offset udph_offset bufs_index false
        >>= λ table'. ok (key, table', none)
  ]
