-- ===== src/Consensus/Score.antt =====
-- storage/consensus.go `CalculateConsensusScoreByBlocks`: amt * ln(1 + blocks) in whole numbers.
use dogeuni_indexer.Prelude.{ℕ, zero, suc, ◌+◌, ◌-◌, ◌*◌, ◌/◌, ◌^◌, ◌||◌, if◌then◌else◌, ltb}
use dogeuni_indexer.Prelude.Int.{ℤ, pos, negsuc, ◌-ℤ◌}

abbrev pub scale : ℕ
scale = 1000000000

abbrev pub ln2_scaled : ℕ
ln2_scaled = 693147180

abbrev pub one_q : ℕ
one_q = 4294967296

-- `n.BitLen() - 1` of a positive number, which is at most as many halvings as it has units.
unfoldable pub log2 : ℕ → ℕ → ℕ
log2 zero n = 0
log2 (suc fuel) n = let rest = log2 fuel (n / 2) in if ltb n 2 then 0 else suc rest

-- The fixed-point approximation of 2 * (y + y^3 / 3 + y^5 / 5), for y = (a - 1) / (a + 1).
unfoldable pub ln_a_scaled : ℕ → ℕ
ln_a_scaled a_fixed =
    let y = (a_fixed - one_q) * one_q / (a_fixed + one_q) in
    let y2 = y * y / one_q in
    let y3 = y2 * y / one_q in let y5 = y3 * y2 / one_q in (y + y3 / 3 + y5 / 5) * 2 * scale / one_q

-- For `n` = 1 + blocks, `aFixed` is at least one, so that no subtraction is negative.
unfoldable pub ln_n_scaled : ℕ → ℕ
ln_n_scaled n =
    let k = log2 n n in
    let a_fixed = n * one_q / 2 ^ k in
    k * ln2_scaled + ln_a_scaled (if ltb a_fixed one_q then one_q else a_fixed)

unfoldable pub score_by_blocks : ℤ → ℤ → ℤ
score_by_blocks (negsuc amt) blocks = pos 0
score_by_blocks (pos amt) (negsuc blocks) = pos 0
score_by_blocks (pos amt) (pos blocks) =
    if ltb amt 1 || ltb blocks 1 then pos 0 else pos (amt * ln_n_scaled (blocks + 1) / scale)

unfoldable pub calculate_consensus_score : ℤ → ℤ → ℤ → ℤ
calculate_consensus_score amt stake_block end_block = score_by_blocks amt (end_block -ℤ stake_block)
