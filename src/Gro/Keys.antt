-- ===== src/Gro/Keys.antt =====
-- `PartialEq` of the flow keys: a field-wise comparison.
use quincy_tun.Base.{ℕ, ◌≡◌, refl, List, [], ◌∷◌, Bool, true, false, ◌&&◌, ◌==◌, ==_iff}
use quincy_tun.Gro.{TcpFlowKey, UdpFlowKey, list_eq, bool_eq, tcp_key_eq, udp_key_eq}
use quincy_tun.Gro.Flows.{IsKeyEq}

and-true : (a b : Bool) → (a && b) ≡ true → (a ≡ true) × (b ≡ true)
and-true true b h = (refl, h)
and-true false b h = cc

nat_same : (x : ℕ) → (x == x) ≡ true
nat_same x = (==_iff x x).1 refl

list_eq-same : (xs : List ℕ) → list_eq xs xs ≡ true
list_eq-same [] = refl
list_eq-same (x ∷ xs) = simp (nat_same x, list_eq-same xs) refl

list_eq_sound : (xs ys : List ℕ) → list_eq xs ys ≡ true → xs ≡ ys
list_eq_sound [] [] h = refl
list_eq_sound [] (y ∷ ys) h = cc
list_eq_sound (x ∷ xs) [] h = cc
list_eq_sound (x ∷ xs) (y ∷ ys) h =
    let p = and-true (x == y) (list_eq xs ys) h in
    let e : x ≡ y = (==_iff x y).0 p.0 in let es : xs ≡ ys = list_eq_sound xs ys p.1 in cc

bool_eq-same : (b : Bool) → bool_eq b b ≡ true
bool_eq-same true = refl
bool_eq-same false = refl

bool_eq_sound : (a b : Bool) → bool_eq a b ≡ true → a ≡ b
bool_eq_sound true true h = refl
bool_eq_sound true false h = cc
bool_eq_sound false true h = cc
bool_eq_sound false false h = refl

tcp_key_eq_sound : (a b : TcpFlowKey) → tcp_key_eq a b ≡ true → a ≡ b
tcp_key_eq_sound a b h =
    let p0 = and-true _ _ h in
    let p1 = and-true _ _ p0.1 in
    let p2 = and-true _ _ p1.1 in
    let p3 = and-true _ _ p2.1 in
    let p4 = and-true _ _ p3.1 in
    λ i. record {
      src_addr = list_eq_sound a.src_addr b.src_addr p0.0 i;
      dst_addr = list_eq_sound a.dst_addr b.dst_addr p1.0 i;
      src_port = (==_iff a.src_port b.src_port).0 p2.0 i;
      dst_port = (==_iff a.dst_port b.dst_port).0 p3.0 i;
      rx_ack = (==_iff a.rx_ack b.rx_ack).0 p4.0 i;
      is_v6 = bool_eq_sound a.is_v6 b.is_v6 p4.1 i;
    }

udp_key_eq_sound : (a b : UdpFlowKey) → udp_key_eq a b ≡ true → a ≡ b
udp_key_eq_sound a b h =
    let p0 = and-true _ _ h in
    let p1 = and-true _ _ p0.1 in
    let p2 = and-true _ _ p1.1 in
    let p3 = and-true _ _ p2.1 in
    λ i. record {
      src_addr = list_eq_sound a.src_addr b.src_addr p0.0 i;
      dst_addr = list_eq_sound a.dst_addr b.dst_addr p1.0 i;
      src_port = (==_iff a.src_port b.src_port).0 p2.0 i;
      dst_port = (==_iff a.dst_port b.dst_port).0 p3.0 i;
      is_v6 = bool_eq_sound a.is_v6 b.is_v6 p3.1 i;
    }

pub tcp_key_eq-IsKeyEq : IsKeyEq tcp_key_eq
tcp_key_eq-IsKeyEq = record {
  same = λ k.
      simp
        (
          list_eq-same k.src_addr,
          list_eq-same k.dst_addr,
          nat_same k.src_port,
          nat_same k.dst_port,
          nat_same k.rx_ack,
          bool_eq-same k.is_v6,
        )
        refl;
  sound = tcp_key_eq_sound;
}

pub udp_key_eq-IsKeyEq : IsKeyEq udp_key_eq
udp_key_eq-IsKeyEq = record {
  same = λ k.
      simp
        (
          list_eq-same k.src_addr,
          list_eq-same k.dst_addr,
          nat_same k.src_port,
          nat_same k.dst_port,
          bool_eq-same k.is_v6,
        )
        refl;
  sound = udp_key_eq_sound;
}
