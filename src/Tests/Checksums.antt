-- ===== src/Tests/Checksums.antt =====
-- The Internet checksum on a few bytes.
use quincy_tun.Base.{
  ℕ, ◌+◌, ◌%◌, ◌^◌, ◌≤◌, ◌<◌, ◌≡◌, ◌≢◌, refl, List, [], ◌∷◌, arith, be16, overwrite,
}
use quincy_tun.Checksum.{checksum, fold, not_u16}
use quincy_tun.Checksum.Fold.{fold_lem}
use quincy_tun.Checksum.Words.{words, checksum-words}
use quincy_tun.Checksum.Verify.{checksum-written}
use quincy_tun.Tests.Packets.{tcp_packet}

checksum-words_example : checksum tcp_packet 7 ≡ fold (7 + words tcp_packet)
checksum-words_example = checksum-words tcp_packet 7 (omega arith) (omega arith)

abbrev cleared : List ℕ
cleared = 0x45 ∷ 0 ∷ 0 ∷ 0 ∷ 0x12 ∷ []

checksum-written_example :
    checksum (overwrite cleared 2 (be16 (not_u16 (checksum cleared 9)))) 9 ≡ 0xFFFF
checksum-written_example =
    checksum-written cleared 2 9 (omega arith) (omega arith) refl (omega arith) refl

fold_lem_example :
    (fold 200000 < 2 ^ 16)
    × (fold 200000 % 65535 ≡ 200000 % 65535)
    × (◌≢◌ {A = ℕ} 200000 0 → ◌≢◌ {A = ℕ} (fold 200000) 0)
    × (fold 200000 ≤ 200000)
fold_lem_example = fold_lem 200000
