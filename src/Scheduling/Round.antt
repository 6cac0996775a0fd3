-- ===== src/Scheduling/Round.antt =====
-- `_round_up` goes to the next quarter of an hour, but drops the seconds first.
use cora_os.Prelude.{ℕ, ◌+◌, ◌-◌, ◌≤◌, ◌<◌, ◌≡◌, arith}
use Prim.Native.Nat.{◌%◌}
use cora_os.Scheduling.{minute, round_up}

abbrev pub quarter : ℕ
quarter = 900000000

pub round_up-quarter : (t : ℕ) → round_up t % quarter ≡ 0
unfolding round_up
round_up-quarter t = ground arith

pub round_up_late : (t : ℕ) → t < round_up t + minute
unfolding round_up
round_up_late t = ground arith

pub round_up_whole : (t : ℕ) → t - t % minute ≤ round_up t
unfolding round_up
round_up_whole t = ground arith

pub round_up_first : (t s : ℕ) → s % quarter ≡ 0 → t ≤ s → round_up t ≤ s
unfolding round_up
round_up_first t s q h = ground arith
