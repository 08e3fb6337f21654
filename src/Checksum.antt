-- ===== src/Checksum.antt =====
-- src/platform/linux/checksum.rs: the RFC 1071 checksum, as it is built for a target without the
-- x86_64 dispatch (aarch64), where `checksum_no_fold` is `checksum_no_fold_scalar`.
-- The `u64` accumulator wraps, as in a release build.
pub mod Fold
pub mod Words
pub mod Verify
use quincy_tun.Base.{
  ℕ, zero, suc, ◌+◌, ◌-◌, ◌*◌, ◌/◌, ◌%◌, ◌^◌, ◌≡◌, List, [], ◌∷◌, Bool, ltb, leb, if◌then◌else◌,
}
use quincy_tun.Base.{Outcome, ok, ◌>>=◌, be16, get32, get16}

abbrev add_u64 : ℕ → ℕ → ℕ
add_u64 a b = (a + b) % 2 ^ 64

-- Four bytes a round; then two if there are two; then an odd byte as the high one of a word.
pub checksum_no_fold_scalar : List ℕ → ℕ → ℕ
checksum_no_fold_scalar [] acc = acc
checksum_no_fold_scalar (a ∷ []) acc = add_u64 acc (a * 2 ^ 8)
checksum_no_fold_scalar (a ∷ b ∷ []) acc = add_u64 acc (a * 256 + b)
checksum_no_fold_scalar (a ∷ b ∷ c ∷ []) acc = add_u64 (add_u64 acc (a * 256 + b)) (c * 2 ^ 8)
checksum_no_fold_scalar (a ∷ b ∷ c ∷ d ∷ r) acc =
    checksum_no_fold_scalar r (add_u64 acc (a * 2 ^ 24 + b * 2 ^ 16 + c * 256 + d))

pub checksum_no_fold : List ℕ → ℕ → ℕ
checksum_no_fold b initial = checksum_no_fold_scalar b initial

-- `while accumulator > 0xFFFF { accumulator = (accumulator >> 16) + (accumulator & 0xFFFF) }`.
-- The accumulator falls in each round, so its own value is fuel enough.
fold_loop : ℕ → ℕ → ℕ
fold_loop zero acc = acc
fold_loop (suc fuel) acc =
    let rest = fold_loop fuel (acc / 2 ^ 16 + acc % 2 ^ 16) in if ltb 0xFFFF acc then rest else acc

pub fold : ℕ → ℕ
unfolding fold_loop
fold acc = fold_loop acc acc

pub checksum : List ℕ → ℕ → ℕ
checksum b initial = fold (checksum_no_fold b initial) % 2 ^ 16

-- `!` on a `u16`
abbrev pub not_u16 : ℕ → ℕ
not_u16 c = 0xFFFF - c

pub pseudo_header_checksum_no_fold : ℕ → List ℕ → List ℕ → ℕ → ℕ
pseudo_header_checksum_no_fold protocol src_addr dst_addr total_len =
    let sum = checksum_no_fold src_addr 0 in
    let sum = checksum_no_fold dst_addr sum in checksum_no_fold (0 ∷ protocol ∷ be16 total_len) sum
