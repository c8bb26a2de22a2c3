-- ===== src/Ring/Bounds.antt =====
-- The pointer arithmetic of `Slots::advance`: an offset below twice the capacity, brought back once.
use dynalog.Base.{ℕ, suc, ◌+◌, ◌-◌, ◌≤◌, ◌<◌, ◌≡◌, ◌≢◌, arith, leb, if◌then◌else◌}

abbrev pub wrap : ℕ → ℕ → ℕ
wrap capacity ptr = if leb capacity ptr then ptr - capacity else ptr

pub wrap_lt : (c b i : ℕ) → b < c → i ≤ c → wrap c (b + i) < c
wrap_lt c b i p q = ground arith

-- Two different steps of fewer than a round lead to different cells.
pub wrap_ne : (c b i j : ℕ) → b < c → i < c → j < c → i ≢ j → wrap c (b + i) ≢ wrap c (b + j)
wrap_ne c b i j p q r n = ground arith

-- Starting one cell further on.
pub wrap_shift : (c b i : ℕ) → b < c → suc i < c → wrap c (wrap c (b + 1) + i) ≡ wrap c (b + suc i)
wrap_shift c b i p q = ground arith

pub wrap_round : (c b i : ℕ) → b < c → suc i ≡ c → wrap c (wrap c (b + 1) + i) ≡ b
wrap_round c b i p q = ground arith
