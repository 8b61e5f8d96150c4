-- ===== src/Tests/Wire.antt =====
-- Examples of the theorems on texts and on the wire protocol.
use task_force_radio_standal.Base.{take, All, Text, codes, ℕ, ◌≡◌, [], ◌∷◌, arith}
use task_force_radio_standal.Util.{split}
use task_force_radio_standal.Util.Split.{join, Lacks, join-split}
use task_force_radio_standal.Protocol.{truncate_utf8}
use task_force_radio_standal.Protocol.Truncate.{IsCut, truncate_utf8_cuts}

join-split_example :
    (join (split (codes "a,,b") b',') b',' ≡ codes "a,,b")
    × All (Lacks b',') (split (codes "a,,b") b',')
join-split_example = join-split (codes "a,,b") b','

-- Two letters of two bytes each.
abbrev umlauts : Text
umlauts = 0xc3 ∷ 0xa4 ∷ 0xc3 ∷ 0xb6 ∷ []

truncate_utf8_cuts_example :
    (n : ℕ) × (truncate_utf8 umlauts 3 ≡ take n umlauts) × IsCut umlauts 3 n
truncate_utf8_cuts_example = truncate_utf8_cuts umlauts 3 (omega arith)
