-- ===== src/Erp/Delay/Loss.antt =====
-- How often a packet is lost (tarea3/src/erp_udp.c).
use tareas_elo.Common.{ℕ, zero, suc, ◌+◌, ◌-◌, ◌≤◌, ◌≡◌, arith, if◌then◌else◌, ◌∙◌}
use tareas_elo.Common.Int.{pos}
use tareas_elo.Erp.Config.{Config}
use tareas_elo.Erp.Delay.{se_envia}

-- How many of the values 0, …, n - 1 of `rand()` let the packet through.
pub survivors : Config → ℕ → ℕ
survivors c zero = 0
survivors c (suc n) = survivors c n + (if se_envia c n then 1 else 0)

survivors-below :
    (c : Config) (p n : ℕ) → c.porcentaje_perdida ≡ pos p → n ≤ 101 → survivors c n ≡ n - (p + 1)
unfolding survivors se_envia
survivors-below c p zero e h = omega arith
survivors-below c p (suc n) e h = rw e (ground (arith, survivors-below c p n e (omega arith)))

-- For a loss of p percent, 0 ≤ p ≤ 100, exactly 100 - p of the 101 residues of `rand()` let a packet
-- through: at 100 none does, and even at 0 one of them loses it.
pub survivors-percent :
    (c : Config) (p : ℕ) → c.porcentaje_perdida ≡ pos p → p ≤ 100 → survivors c 101 ≡ 100 - p
survivors-percent c p e h = survivors-below c p 101 e (omega arith) ∙ omega arith
