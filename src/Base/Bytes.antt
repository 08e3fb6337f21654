-- ===== src/Base/Bytes.antt =====
-- Byte slices: what Rust's indexing, slicing and `copy_from_slice` do, and the big-endian reads
-- and writes, which panic on a slice that is too short.
use Prim.Native.Nat.{ℕ, zero, suc, ◌+◌, ◌-◌, ◌*◌, ◌/◌, ◌%◌, ◌^◌, ◌<◌, ◌≤◌}
use mathlib.Core.Path.{◌≡◌, refl, sym, ap, ◌∙◌}
use mathlib.Core.List.{List, [], ◌∷◌}
use native.Mathlib.Omega.{arith}
use quincy_tun.Base.Tests.{leb, ltb, if◌then◌else◌}
use quincy_tun.Base.Effects.{Outcome, ok, panic}
use quincy_tun.Base.Lists.{length, take, drop, get_or, All}
use quincy_tun.Base.Overwrite.{
  overwrite, get_or-overwrite_lt, get_or-overwrite_ge, get_or-overwrite_in, get_or-drop,
  get_or-take,
}

abbrev pub IsByte : ℕ → Type 0
IsByte x = x < 256

abbrev pub IsBytes : List ℕ → Type 0
IsBytes = All IsByte

-- `b[i]`
unfoldable pub byte_at : List ℕ → ℕ → Outcome ℕ
byte_at b i = if ltb i (length b) then ok (get_or b i 0) else panic

-- `&b[lo..hi]`
unfoldable pub slice : ℕ → ℕ → List ℕ → Outcome (List ℕ)
slice lo hi b =
    if leb lo hi
    then (if leb hi (length b) then ok (take (hi - lo) (drop lo b)) else panic)
    else panic

-- `&b[lo..]`
unfoldable pub slice_from : ℕ → List ℕ → Outcome (List ℕ)
slice_from lo b = if leb lo (length b) then ok (drop lo b) else panic

-- `b[at..at + src.len()].copy_from_slice(src)`
unfoldable pub write_at : List ℕ → ℕ → List ℕ → Outcome (List ℕ)
write_at b i src = if leb (i + length src) (length b) then ok (overwrite b i src) else panic

abbrev pub be16 : ℕ → List ℕ
be16 v = v / 256 % 256 ∷ v % 256 ∷ []

abbrev pub be32 : ℕ → List ℕ
be32 v = v / 2 ^ 24 % 256 ∷ v / 2 ^ 16 % 256 ∷ v / 256 % 256 ∷ v % 256 ∷ []

-- `u16::from_be_bytes([b[i], b[i + 1]])`, without the index check
abbrev pub get16 : List ℕ → ℕ → ℕ
get16 b i = get_or b i 0 * 256 + get_or b (suc i) 0

abbrev pub get32 : List ℕ → ℕ → ℕ
get32 b i =
    get_or b i 0 * 2 ^ 24
    + get_or b (suc i) 0 * 2 ^ 16
    + get_or b (suc (suc i)) 0 * 256
    + get_or b (suc (suc (suc i))) 0

unfoldable pub read_u16 : List ℕ → ℕ → Outcome ℕ
read_u16 b i = if leb (i + 2) (length b) then ok (get16 b i) else panic

unfoldable pub read_u32 : List ℕ → ℕ → Outcome ℕ
read_u32 b i = if leb (i + 4) (length b) then ok (get32 b i) else panic

unfoldable pub write_u16 : List ℕ → ℕ → ℕ → Outcome (List ℕ)
write_u16 b i v = write_at b i (be16 v)

unfoldable pub write_u32 : List ℕ → ℕ → ℕ → Outcome (List ℕ)
write_u32 b i v = write_at b i (be32 v)

pub byte_at-ok : (b : List ℕ) (i : ℕ) → i < length b → byte_at b i ≡ ok (get_or b i 0)
unfolding byte_at
byte_at-ok b i h = ground arith

pub slice-ok :
    (lo hi : ℕ) (b : List ℕ)
    → lo ≤ hi
    → hi ≤ length b
    → slice lo hi b ≡ ok (take (hi - lo) (drop lo b))
unfolding slice
slice-ok lo hi b h k = ground arith

pub slice_from-ok : (lo : ℕ) (b : List ℕ) → lo ≤ length b → slice_from lo b ≡ ok (drop lo b)
unfolding slice_from
slice_from-ok lo b h = ground arith

pub write_at-ok :
    (b : List ℕ) (i : ℕ) (src : List ℕ)
    → i + length src ≤ length b
    → write_at b i src ≡ ok (overwrite b i src)
unfolding write_at
write_at-ok b i src h = ground arith

pub read_u16-ok : (b : List ℕ) (i : ℕ) → i + 2 ≤ length b → read_u16 b i ≡ ok (get16 b i)
unfolding read_u16
read_u16-ok b i h = ground arith

pub read_u32-ok : (b : List ℕ) (i : ℕ) → i + 4 ≤ length b → read_u32 b i ≡ ok (get32 b i)
unfolding read_u32
read_u32-ok b i h = ground arith

pub write_u16-ok :
    (b : List ℕ) (i v : ℕ) → i + 2 ≤ length b → write_u16 b i v ≡ ok (overwrite b i (be16 v))
unfolding write_u16
write_u16-ok b i v h = write_at-ok b i (be16 v) h

pub write_u32-ok :
    (b : List ℕ) (i v : ℕ) → i + 4 ≤ length b → write_u32 b i v ≡ ok (overwrite b i (be32 v))
unfolding write_u32
write_u32-ok b i v h = write_at-ok b i (be32 v) h

pub IsBytes-be16 : (v : ℕ) → IsBytes (be16 v)
IsBytes-be16 v = omega arith

-- `b[i] = 0; b[i + 1] = 0;`
unfoldable pub clear_u16 : List ℕ → ℕ → Outcome (List ℕ)
clear_u16 b i = write_at b i (0 ∷ 0 ∷ [])

pub clear_u16-ok :
    (b : List ℕ) (i : ℕ) → i + 2 ≤ length b → clear_u16 b i ≡ ok (overwrite b i (0 ∷ 0 ∷ []))
unfolding clear_u16
clear_u16-ok b i h = write_at-ok b i (0 ∷ 0 ∷ []) h

-- A 16-bit field just written is read back.
pub get16-overwrite :
    (b : List ℕ) (i x y : ℕ) → i + 2 ≤ length b → get16 (overwrite b i (x ∷ y ∷ [])) i ≡ x * 256 + y
unfolding overwrite
get16-overwrite [] i x y h = absurd (omega arith)
get16-overwrite (a ∷ []) i x y h = absurd (omega arith)
get16-overwrite (a ∷ b ∷ r) zero x y h = refl
get16-overwrite (a ∷ b ∷ r) (suc i) x y h = get16-overwrite (b ∷ r) i x y (omega arith)

pub get_or-lt : (b : List ℕ) (i : ℕ) → IsBytes b → get_or b i 0 < 256
get_or-lt [] i h = omega arith
get_or-lt (x ∷ b) zero h = h.0
get_or-lt (x ∷ b) (suc i) h = get_or-lt b i h.1

pub get16-lt : (b : List ℕ) (i : ℕ) → IsBytes b → get16 b i < 2 ^ 16
get16-lt b i h = omega (arith, get_or-lt b i h, get_or-lt b (suc i) h)

-- A write that does not meet the field leaves it.
pub get16-overwrite_lt :
    (b : List ℕ) (i : ℕ) (src : List ℕ) (j : ℕ)
    → j + 2 ≤ i
    → get16 (overwrite b i src) j ≡ get16 b j
get16-overwrite_lt b i src j h = omega (
  arith,
  get_or-overwrite_lt b i src j 0 (omega arith),
  get_or-overwrite_lt b i src (suc j) 0 (omega arith),
)

pub get16-overwrite_ge :
    (b : List ℕ) (i : ℕ) (src : List ℕ) (j : ℕ)
    → i + length src ≤ j
    → get16 (overwrite b i src) j ≡ get16 b j
get16-overwrite_ge b i src j h = omega (
  arith,
  get_or-overwrite_ge b i src j 0 (omega arith),
  get_or-overwrite_ge b i src (suc j) 0 (omega arith),
)

pub get16-drop : (n : ℕ) (b : List ℕ) (j : ℕ) → get16 (drop n b) j ≡ get16 b (n + j)
get16-drop n b j =
    let e : n + suc j ≡ suc (n + j) = omega arith in
    omega (arith, get_or-drop n b j 0, rw e at (get_or-drop n b (suc j) 0))

pub get16-take : (n : ℕ) (b : List ℕ) (j : ℕ) → j + 2 ≤ n → get16 (take n b) j ≡ get16 b j
get16-take n b j h =
    omega (arith, get_or-take n b j 0 (omega arith), get_or-take n b (suc j) 0 (omega arith))

-- `&b[..n]`
pub slice-zero : (n : ℕ) (b : List ℕ) → n ≤ length b → slice 0 n b ≡ ok (take n b)
slice-zero n b h =
    let e : n - 0 ≡ n = omega arith in
    slice-ok 0 n b (omega arith) h ∙ ap (λ (k : ℕ). ok (take k b)) e

pub IsBytes-be32 : (v : ℕ) → IsBytes (be32 v)
IsBytes-be32 v = omega arith

-- A 32-bit field just written is read back.
pub get32-overwrite :
    (b : List ℕ) (i v : ℕ) → i + 4 ≤ length b → v < 2 ^ 32 → get32 (overwrite b i (be32 v)) i ≡ v
unfolding overwrite
get32-overwrite (a ∷ c ∷ d ∷ e ∷ r) zero v h k = omega arith
get32-overwrite (a ∷ c ∷ d ∷ e ∷ r) (suc i) v h k =
    get32-overwrite (c ∷ d ∷ e ∷ r) i v (omega arith) k
get32-overwrite b i v h k = absurd (omega arith)

pub get32-overwrite_ge :
    (b : List ℕ) (i : ℕ) (src : List ℕ) (j : ℕ)
    → i + length src ≤ j
    → get32 (overwrite b i src) j ≡ get32 b j
get32-overwrite_ge b i src j h = omega (
  arith,
  get_or-overwrite_ge b i src j 0 (omega arith),
  get_or-overwrite_ge b i src (suc j) 0 (omega arith),
  get_or-overwrite_ge b i src (suc (suc j)) 0 (omega arith),
  get_or-overwrite_ge b i src (suc (suc (suc j))) 0 (omega arith),
)

pub get32-overwrite_lt :
    (b : List ℕ) (i : ℕ) (src : List ℕ) (j : ℕ)
    → j + 4 ≤ i
    → get32 (overwrite b i src) j ≡ get32 b j
get32-overwrite_lt b i src j h = omega (
  arith,
  get_or-overwrite_lt b i src j 0 (omega arith),
  get_or-overwrite_lt b i src (suc j) 0 (omega arith),
  get_or-overwrite_lt b i src (suc (suc j)) 0 (omega arith),
  get_or-overwrite_lt b i src (suc (suc (suc j))) 0 (omega arith),
)

pub get16_of_drop :
    (n : ℕ) (b c : List ℕ) (j : ℕ) → n ≤ j → drop n b ≡ drop n c → get16 b j ≡ get16 c j
get16_of_drop n b c j h e =
    let s : n + (j - n) ≡ j = omega arith in
    rw s at (sym (get16-drop n b (j - n)) ∙ ap (λ t. get16 t (j - n)) e ∙ get16-drop n c (j - n))

pub get16_of_take :
    (n : ℕ) (b c : List ℕ) (j : ℕ) → j + 2 ≤ n → take n b ≡ take n c → get16 b j ≡ get16 c j
get16_of_take n b c j h e = sym (get16-take n b j h) ∙ ap (λ t. get16 t j) e ∙ get16-take n c j h

pub get16-overwrite_in :
    (b : List ℕ) (i : ℕ) (src : List ℕ) (j : ℕ)
    → j + 2 ≤ length src
    → i + length src ≤ length b
    → get16 (overwrite b i src) (i + j) ≡ get16 src j
get16-overwrite_in b i src j h k =
    let e : i + suc j ≡ suc (i + j) = omega arith in
    omega (
      arith,
      get_or-overwrite_in b i src j 0 (omega arith) k,
      rw e at (get_or-overwrite_in b i src (suc j) 0 (omega arith) k),
    )

-- `&b[lo..lo + n]`
pub slice-add :
    (lo n hi : ℕ) (b : List ℕ)
    → lo + n ≡ hi
    → hi ≤ length b
    → slice lo hi b ≡ ok (take n (drop lo b))
slice-add lo n hi b e h =
    let s : hi - lo ≡ n = omega arith in
    slice-ok lo hi b (omega arith) h ∙ ap (λ (k : ℕ). ok (take k (drop lo b))) s
