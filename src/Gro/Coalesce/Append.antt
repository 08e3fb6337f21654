-- ===== src/Gro/Coalesce/Append.antt =====
-- Merging at the end of an item: what a success changes, and why there is none.
use quincy_tun.Base.{
  not, take, ◌-◌, ltb_true→lt, ℕ, ◌+◌, ◌*◌, ◌%◌, ◌^◌, ◌≤◌, ◌<◌, ◌≡◌, ◌⊎◌, inl, inr, refl, ap, arith,
  List, ◌++◌, length, ok, ◌==◌, Bool, true, false, if◌then◌else◌, some, get_elem?, set, drop,
  Returns, Returns-if, Returns-not, slice_from-ok, slice-ok, length-drop, ltb, ltb_false→ge, max,
}
use quincy_tun.Checksum.{checksum, pseudo_header_checksum_no_fold, not_u16}
use quincy_tun.Checksum.Fold.{checksum-lt}
use quincy_tun.Offload.{udp_h_len, ipproto_udp}
use quincy_tun.Gro.{Buf, buf_at, sub_usize, buf_extend_from_slice, UdpGroItem}
use quincy_tun.Gro.Compare.{checksum_valid}
use quincy_tun.Gro.Coalesce.{
  CoalesceResult, success, insufficient_cap, item_invalid_csum, pkt_invalid_csum, first_sum_bad,
  coalesce_udp_packets,
}

-- A packet with a whole IP header, as the flow's items and the packets that meet them have.
abbrev pub HasIp : Bool → ℕ → List ℕ → Type 0
HasIp is_v6 iph_len pkt = ((if is_v6 then 40 else 20) ≤ iph_len) × (iph_len ≤ length pkt)

-- The transport checksum is right: the region behind the IP header sums up to all ones with the pseudo
-- header of the addresses.
abbrev pub verifies : Bool → ℕ → ℕ → List ℕ → Bool
verifies is_v6 iph_len proto pkt =
    let at = if is_v6 then 8 else 12 in
    let n = if is_v6 then 16 else 4 in
    checksum (drop iph_len pkt) (
      pseudo_header_checksum_no_fold proto (take n (drop at pkt)) (take n (drop (at + n) pkt))
        (length pkt % 2 ^ 16 - iph_len))
    == 0xffff

all_ones : (c : ℕ) → c < 2 ^ 16 → (not_u16 c == 0) ≡ (c == 0xffff)
all_ones c small = ground (arith, small)

not_zero :
    (b : List ℕ) (initial : ℕ)
    → (not_u16 (checksum b initial) == 0) ≡ (checksum b initial == 0xffff)
not_zero b initial = all_ones (checksum b initial) (checksum-lt b initial)

-- The check of a checksum does not panic on such a packet.
pub checksum_valid-ok :
    (pkt : List ℕ) (iph_len proto : ℕ) (is_v6 : Bool)
    → HasIp is_v6 iph_len pkt
    → checksum_valid pkt iph_len proto is_v6 ≡ ok (verifies is_v6 iph_len proto pkt)
unfolding checksum_valid
checksum_valid-ok pkt iph_len proto true h =
    rw
      (
        slice-ok 8 24 pkt (omega arith) (omega (arith, h.0, h.1)),
        slice-ok 24 40 pkt (omega arith) (omega (arith, h.0, h.1)),
        slice_from-ok iph_len pkt h.1,
      )
      (ap (λ (v : Bool). ok v) (not_zero _ _))
checksum_valid-ok pkt iph_len proto false h =
    rw
      (
        slice-ok 12 16 pkt (omega arith) (omega (arith, h.0, h.1)),
        slice-ok 16 20 pkt (omega arith) (omega (arith, h.0, h.1)),
        slice_from-ok iph_len pkt h.1,
      )
      (ap (λ (v : Bool). ok v) (not_zero _ _))

bool_if :
    (first known bad : Bool)
    → (if first then (if known then ok true else ok bad) else ok false)
      ≡ ok (if first then (if known then true else bad) else false)
bool_if true true bad = refl
bool_if true false bad = refl
bool_if false known bad = refl

-- An item that nothing was merged into yet is bad if its checksum is known to be wrong, or is wrong.
abbrev pub sum_bad : ℕ → Bool → Bool → Bool
sum_bad num_merged known good =
    if num_merged == 0 then (if known then true else not good) else false

pub first_sum_bad-ok :
    (num_merged : ℕ) (known : Bool) (iph_len proto : ℕ) (is_v6 : Bool) (pkt : List ℕ)
    → HasIp is_v6 iph_len pkt
    → first_sum_bad num_merged known iph_len proto is_v6 pkt
      ≡ ok (sum_bad num_merged known (verifies is_v6 iph_len proto pkt))
first_sum_bad-ok num_merged known iph_len proto is_v6 pkt h =
    rw (checksum_valid-ok pkt iph_len proto is_v6 h)
      (bool_if (num_merged == 0) known (not (verifies is_v6 iph_len proto pkt)))

pub buf_at-ok :
    (bufs : List Buf) (i : ℕ) (b : Buf) → get_elem? bufs i ≡ some b → buf_at bufs i ≡ ok b
unfolding buf_at
buf_at-ok bufs i b e = simp (buf_at, e) refl

module _ (pkt : List ℕ) (item : UdpGroItem) (bufs : List Buf) (offset : ℕ) (is_v6 : Bool)
    (b : Buf) where
  abbrev headers_len : ℕ
  headers_len = item.iph_len + udp_h_len

  -- The item's buffer holds a packet with whole headers, and `pkt` has them too.
  pub record CanMeet : Type 0 where
    pub found : get_elem? bufs item.bufs_index ≡ some b
    pub ip_room : (if is_v6 then 40 else 20) ≤ item.iph_len
    pub item_room : offset + headers_len ≤ length b.bytes
    pub pkt_room : headers_len ≤ length pkt
    pub small : length b.bytes + length pkt < 2 ^ 32
    pub merges : item.num_merged + 1 < 2 ^ 16

  -- The bytes of both, with one more offset and the headers once, fit the capacity.
  abbrev pub Room : Type 0
  Room = offset + length b.bytes + length pkt ≤ b.capacity + headers_len

  abbrev pub item_bad : Bool
  item_bad =
      sum_bad item.num_merged item.c_sum_known_invalid
        (verifies is_v6 item.iph_len ipproto_udp (drop offset b.bytes))

  abbrev pub pkt_good : Bool
  pkt_good = verifies is_v6 item.iph_len ipproto_udp pkt

  -- Why a merge is refused: there is no room; there is, and the item's checksum is wrong; it is right,
  -- and that of the packet is wrong.
  abbrev pub Reason : CoalesceResult → Type 0
  Reason insufficient_cap = b.capacity + headers_len < offset + length b.bytes + length pkt
  Reason item_invalid_csum = Room × (item_bad ≡ true)
  Reason pkt_invalid_csum = Room × (item_bad ≡ false) × (pkt_good ≡ false)
  Reason _ = ⊥

  -- There is room and the checksums are right, and the payload of `pkt` stands behind the item's packet,
  -- in the memory that the buffer had.
  pub record IsAppended (m : CoalesceResult × UdpGroItem × List Buf) : Type 0 where
    pub result : m.0 ≡ success
    pub due : Room × (item_bad ≡ false) × (pkt_good ≡ true)
    pub item' : m.1 ≡ record item { num_merged = item.num_merged + 1 }
    pub bufs' :
        m.2
        ≡ set bufs item.bufs_index
            (record { bytes = b.bytes ++ drop headers_len pkt; capacity = b.capacity })

  -- The result is a reason that holds, and nothing is changed.
  pub record IsRefused (m : CoalesceResult × UdpGroItem × List Buf) : Type 0 where
    pub reason : Reason m.0
    pub item' : m.1 ≡ item
    pub bufs' : m.2 ≡ bufs

  abbrev pub Outcomes : CoalesceResult × UdpGroItem × List Buf → Type 0
  Outcomes m = IsAppended m ⊎ IsRefused m

  refused : (c : CoalesceResult) → Reason c → Outcomes (c, item, bufs)
  refused c why = inr (record { reason = why; item' = refl; bufs' = refl })

  abbrev coalesced_len : ℕ
  coalesced_len = sub_usize (length (drop offset b.bytes) + length pkt) headers_len

  ltb-coalesced_len :
      CanMeet
      → (ltb b.capacity (offset * 2 + coalesced_len) ≡ false → Room)
        × (ltb b.capacity (offset * 2 + coalesced_len) ≡ true → Reason insufficient_cap)
  ltb-coalesced_len v =
      let n = length-drop offset b.bytes in
      (
        λ e. omega (arith, ltb_false→ge _ _ e, n, v.item_room, v.pkt_room, v.small),
        λ e. omega (arith, ltb_true→lt _ _ e, n, v.item_room, v.pkt_room, v.small),
      )

  appended :
      CanMeet
      → Room
      → item_bad ≡ false
      → pkt_good ≡ true
      → Outcomes (
        success,
        record item { num_merged = (item.num_merged + 1) % 2 ^ 16 },
        set bufs item.bufs_index (buf_extend_from_slice b (drop headers_len pkt)),
      )
  appended v room sound good =
      let n : (item.num_merged + 1) % 2 ^ 16 ≡ item.num_merged + 1 = omega (arith, v.merges) in
      let c : max b.capacity (length b.bytes + length (drop headers_len pkt)) ≡ b.capacity =
        omega (arith, room, length-drop headers_len pkt, v.item_room, v.pkt_room, v.small) in
      inl (record {
        result = refl;
        due = (room, sound, good);
        item' = ap (λ (k : ℕ). record item { num_merged = k }) n;
        bufs' =
            ap
              (λ (k : ℕ).
                set bufs item.bufs_index
                  (record { bytes = b.bytes ++ drop headers_len pkt; capacity = k }))
              c;
      })

  -- Merging a UDP packet into an item, both with whole headers, the lengths below 2^32 and the item's
  -- count below 65535, does not panic. It puts the payload behind the item's packet without growing
  -- the capacity and counts it where there is room, the checksum of an item that nothing was merged
  -- into yet is neither wrong nor known to be, and that of the packet is right. Elsewhere it changes
  -- nothing, and its result names the first of these three that fails.
  pub coalesce_udp_packets-Outcomes :
      CanMeet → Returns (coalesce_udp_packets pkt item bufs offset is_v6) Outcomes
  unfolding coalesce_udp_packets
  coalesce_udp_packets-Outcomes v =
      let li = length-drop offset b.bytes in
      let hi : HasIp is_v6 item.iph_len (drop offset b.bytes) =
        (v.ip_room, omega (arith, li, v.item_room)) in
      let hp : HasIp is_v6 item.iph_len pkt = (v.ip_room, omega (arith, v.pkt_room)) in
      let full = ltb b.capacity (offset * 2 + coalesced_len) in
      let room = ltb-coalesced_len v in
      rw
        (
          buf_at-ok bufs item.bufs_index b v.found,
          slice_from-ok offset b.bytes (omega (arith, v.item_room)),
        )
        (Returns-if full _ _ Outcomes (λ f. refused insufficient_cap (room.1 f))
          (λ f.
            rw
              (first_sum_bad-ok item.num_merged item.c_sum_known_invalid item.iph_len ipproto_udp
                is_v6 (drop offset b.bytes) hi)
              (Returns-if item_bad _ _ Outcomes (λ t. refused item_invalid_csum (room.0 f, t))
                (λ t. rw (checksum_valid-ok pkt item.iph_len ipproto_udp is_v6 hp) (
                  Returns-not pkt_good _ _ Outcomes
                    (λ g. rw (slice_from-ok headers_len pkt v.pkt_room) (appended v (room.0 f) t g))
                    (λ g. refused pkt_invalid_csum (room.0 f, t, g)))))))
