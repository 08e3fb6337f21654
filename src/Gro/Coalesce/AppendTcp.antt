-- ===== src/Gro/Coalesce/AppendTcp.antt =====
-- Merging a TCP packet at the end of an item.
use quincy_tun.Base.{
  ltb_true→lt, ℕ, ◌+◌, ◌*◌, ◌%◌, ◌^◌, ◌≤◌, ◌<◌, ◌≡◌, ◌⊎◌, inl, inr, refl, ap, arith, List, [], ◌∷◌,
  ◌++◌, length, ok, Bool, true, false, if◌then◌else◌, some, get_elem?, get_or, set, drop, overwrite,
  bit_or, Returns, Returns-if, Returns-not, slice_from-ok, byte_at-ok, write_at-ok, length-drop,
  length-overwrite, ltb, ltb-false, ltb_false→ge, max,
}
use quincy_tun.Offload.{ipproto_tcp, tcp_flags_offset, tcp_flag_psh}
use quincy_tun.Gro.{Buf, sub_usize, buf_extend_from_slice, TcpGroItem}
use quincy_tun.Gro.Compare.{append, pkt_of}
use quincy_tun.Gro.Coalesce.{
  CoalesceResult, success, insufficient_cap, item_invalid_csum, pkt_invalid_csum, merged, mark_psh,
  append_tcp, coalesce_tcp_packets,
}
use quincy_tun.Gro.Coalesce.Append.{
  HasIp, buf_at-ok, verifies, sum_bad, first_sum_bad-ok, checksum_valid-ok,
}

if_ok : (c : Bool) (x y : List ℕ) → (if c then ok x else ok y) ≡ ok (if c then x else y)
if_ok true x y = refl
if_ok false x y = refl

length-if :
    (c : Bool) (x y : List ℕ) (n : ℕ)
    → length x ≡ n
    → length y ≡ n
    → length (if c then x else y) ≡ n
length-if true x y n h k = h
length-if false x y n h k = k

module _ (pkt : List ℕ) (gso_size seq : ℕ) (psh_set : Bool) (item : TcpGroItem) (bufs : List Buf)
    (offset : ℕ) (is_v6 : Bool) (b : Buf) where
  abbrev headers_len : ℕ
  headers_len = item.iph_len + item.tcph_len

  -- The item's buffer holds a packet with whole headers, `pkt` has them too, and its payload is not
  -- longer than the item's segments.
  pub record CanFollow : Type 0 where
    pub found : get_elem? bufs item.bufs_index ≡ some b
    pub ip_room : (if is_v6 then 40 else 20) ≤ item.iph_len
    pub tcp_room : 20 ≤ item.tcph_len
    pub headers_byte : headers_len < 2 ^ 8
    pub item_room : offset + headers_len ≤ length b.bytes
    pub pkt_room : headers_len ≤ length pkt
    pub no_longer : gso_size ≤ item.gso_size
    pub small : length b.bytes + length pkt < 2 ^ 32
    pub merges : item.num_merged + 1 < 2 ^ 16

  -- The item's bytes, with PSH in the TCP flags if the packet has it.
  abbrev pub marked : List ℕ
  marked =
      if psh_set
      then overwrite b.bytes (offset + item.iph_len + tcp_flags_offset)
          (bit_or (get_or b.bytes (offset + item.iph_len + tcp_flags_offset) 0) tcp_flag_psh ∷ [])
      else b.bytes

  -- The bytes of both, with one more offset and the headers once, fit the capacity.
  abbrev pub Room : Type 0
  Room = offset + length b.bytes + length pkt ≤ b.capacity + headers_len

  abbrev pub item_bad : Bool
  item_bad =
      sum_bad item.num_merged false (verifies is_v6 item.iph_len ipproto_tcp (drop offset b.bytes))

  abbrev pub pkt_good : Bool
  pkt_good = verifies is_v6 item.iph_len ipproto_tcp pkt

  -- Why a merge is refused: there is no room; there is, and the item's checksum is wrong; it is right,
  -- and that of the packet is wrong.
  abbrev pub Reason : CoalesceResult → Type 0
  Reason insufficient_cap = b.capacity + headers_len < offset + length b.bytes + length pkt
  Reason item_invalid_csum = Room × (item_bad ≡ true)
  Reason pkt_invalid_csum = Room × (item_bad ≡ false) × (pkt_good ≡ false)
  Reason _ = ⊥

  -- There is room and the checksums are right, and the payload of `pkt` stands behind the item's packet,
  -- in the memory that the buffer had.
  pub record IsFollowed (m : CoalesceResult × TcpGroItem × List Buf) : Type 0 where
    pub result : m.0 ≡ success
    pub due : Room × (item_bad ≡ false) × (pkt_good ≡ true)
    pub item' : m.1 ≡ record item {
      num_merged = item.num_merged + 1;
      psh_set = if psh_set then psh_set else item.psh_set;
    }
    pub bufs' :
        m.2
        ≡ set bufs item.bufs_index
            (record { bytes = marked ++ drop headers_len pkt; capacity = b.capacity })

  -- The result is a reason that holds, and nothing is changed.
  pub record IsKept (m : CoalesceResult × TcpGroItem × List Buf) : Type 0 where
    pub reason : Reason m.0
    pub item' : m.1 ≡ item
    pub bufs' : m.2 ≡ bufs

  abbrev pub Ways : CoalesceResult × TcpGroItem × List Buf → Type 0
  Ways m = IsFollowed m ⊎ IsKept m

  refused : (c : CoalesceResult) → Reason c → Ways (c, item, bufs)
  refused c why = inr (record { reason = why; item' = refl; bufs' = refl })

  abbrev coalesced_len : ℕ
  coalesced_len = sub_usize (length (drop offset b.bytes) + length pkt) headers_len

  module _ (v : CanFollow) where
    mark_psh-ok : mark_psh psh_set offset item b.bytes ≡ ok marked
    unfolding mark_psh
    mark_psh-ok =
        let at = offset + item.iph_len + tcp_flags_offset in
        rw
          (
            byte_at-ok b.bytes at (omega (arith, v.item_room, v.tcp_room)),
            write_at-ok b.bytes at (bit_or (get_or b.bytes at 0) tcp_flag_psh ∷ [])
                (omega (arith, v.item_room, v.tcp_room)),
          )
          (if_ok psh_set _ _)

    length-marked : length marked ≡ length b.bytes
    length-marked = length-if psh_set _ _ (length b.bytes) (length-overwrite b.bytes _ _) refl

    ltb-coalesced_len :
        (ltb b.capacity (2 * offset + coalesced_len) ≡ false → Room)
        × (ltb b.capacity (2 * offset + coalesced_len) ≡ true → Reason insufficient_cap)
    ltb-coalesced_len =
        let n = length-drop offset b.bytes in
        (
          λ e. omega (arith, ltb_false→ge _ _ e, n, v.item_room, v.pkt_room, v.small),
          λ e. omega (arith, ltb_true→lt _ _ e, n, v.item_room, v.pkt_room, v.small),
        )

    followed :
        Room
        → item_bad ≡ false
        → pkt_good ≡ true
        → Ways (
          success,
          merged gso_size (record item { psh_set = if psh_set then psh_set else item.psh_set }),
          set bufs item.bufs_index
              (buf_extend_from_slice (record b { bytes = marked }) (drop headers_len pkt)),
        )
    followed room sound good =
        let n : (item.num_merged + 1) % 2 ^ 16 ≡ item.num_merged + 1 = omega (arith, v.merges) in
        let c : max b.capacity (length marked + length (drop headers_len pkt)) ≡ b.capacity =
          omega (
            arith,
            room,
            length-marked,
            length-drop headers_len pkt,
            v.item_room,
            v.pkt_room,
            v.small,
          ) in
        inl (record {
          result = refl;
          due = (room, sound, good);
          item' = simp (ltb-false item.gso_size gso_size v.no_longer) (
              ap
                (λ (k : ℕ). record item {
                  num_merged = k;
                  psh_set = if psh_set then psh_set else item.psh_set;
                })
                n);
          bufs' =
              ap
                (λ (k : ℕ).
                  set bufs item.bufs_index
                    (record { bytes = marked ++ drop headers_len pkt; capacity = k }))
                c;
        })

    -- For a TCP packet with the item's headers and no more payload than its segments have, lengths
    -- below 2^32 and an item's count below 65535, a merge at the end of the item does not panic. It puts
    -- the payload behind the item's packet without growing the capacity, hands its PSH on and counts
    -- it, where there is room, the checksum of an item that nothing was merged into yet is right, and
    -- so is that of the packet. Elsewhere it changes nothing, and its result names the first of these
    -- three that fails.
    pub coalesce_tcp_packets-Ways :
        (pkt_bufs_index : ℕ)
        → Returns
            (coalesce_tcp_packets append pkt pkt_bufs_index gso_size seq psh_set item bufs offset
              is_v6)
            Ways
    unfolding coalesce_tcp_packets append_tcp pkt_of
    coalesce_tcp_packets-Ways pkt_bufs_index =
        let li = length-drop offset b.bytes in
        let hi : HasIp is_v6 item.iph_len (drop offset b.bytes) =
          (v.ip_room, omega (arith, li, v.item_room)) in
        let hp : HasIp is_v6 item.iph_len pkt = (v.ip_room, omega (arith, v.pkt_room)) in
        let hl : headers_len % 2 ^ 8 ≡ headers_len = omega (arith, v.headers_byte) in
        let room = ltb-coalesced_len in
        rw
          (
            buf_at-ok bufs item.bufs_index b v.found,
            slice_from-ok offset b.bytes (omega (arith, v.item_room)),
            hl,
          )
          (Returns-if (ltb b.capacity (2 * offset + coalesced_len)) _ _ Ways
            (λ f. refused insufficient_cap (room.1 f))
            (λ f.
              rw
                (first_sum_bad-ok item.num_merged false item.iph_len ipproto_tcp is_v6
                  (drop offset b.bytes) hi)
                (Returns-if item_bad _ _ Ways (λ t. refused item_invalid_csum (room.0 f, t))
                  (λ t. rw (checksum_valid-ok pkt item.iph_len ipproto_tcp is_v6 hp) (
                    Returns-not pkt_good _ _ Ways
                      (λ g.
                        rw (mark_psh-ok, slice_from-ok headers_len pkt v.pkt_room)
                          (followed (room.0 f) t g))
                      (λ g. refused pkt_invalid_csum (room.0 f, t, g)))))))
