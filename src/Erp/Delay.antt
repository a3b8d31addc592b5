-- ===== src/Erp/Delay.antt =====
-- The delay and the loss of one packet, as `salidaDatosHaciaServidor` and `SalidaDatosHaciaCliente`
-- of tarea3/src/erp_udp.c compute them. `long` has 64 bits and wraps; `rand()` is an argument.
pub mod Bounds
pub mod Loss
use tareas_elo.Common.{ℕ, ◌+◌, ◌-◌, ◌%◌, ◌^◌, Option, none, some, ◌>>=◌, if◌then◌else◌, Bool, ◌==◌}
use tareas_elo.Common.Int.{ℤ, pos, negsuc, ◌+ℤ◌, ◌-ℤ◌, ◌*ℤ◌, i64, div?, ltb_ℤ, magnitude}
use tareas_elo.Erp.Config.{Config}

-- `struct timespec`.
pub record Timespec : Type 0 where
  pub tv_sec : ℤ
  pub tv_nsec : ℤ

-- Arithmetic on long.
infixl 65 ◌+l◌ ◌-l◌
infixl 70 ◌*l◌
unfoldable pub ◌+l◌ : ℤ → ℤ → ℤ
a +l b = i64 (a +ℤ b)

unfoldable pub ◌-l◌ : ℤ → ℤ → ℤ
a -l b = i64 (a -ℤ b)

unfoldable pub ◌*l◌ : ℤ → ℤ → ℤ
a *l b = i64 (a *ℤ b)

-- `1000000 * t.tv_sec + t.tv_nsec / 1000`.
unfoldable pub micros : Timespec → Option ℤ
micros t = div? t.tv_nsec (pos 1000) >>= λ n. some (pos 1000000 *l t.tv_sec +l n)

unfoldable pub max : ℤ → ℤ → ℤ
max t_1 t_2 = if ltb_ℤ t_2 t_1 then t_1 else t_2

-- `r % m` for what `rand()` returned: a fault at 0, else the remainder by |m|.
unfoldable pub rand_mod : ℕ → ℤ → Option ℤ
rand_mod r m = if magnitude m == 0 then none else some (pos (r % magnitude m))

-- `u_sec` from the two times in microseconds.
unfoldable pub retardo : Config → ℤ → ℤ → ℕ → Option ℤ
retardo c t_ll t_re r =
    let t1 = max (t_ll +l c.retardo_promedio -l c.variacion_retardo) t_re in
    let t2 = t_ll +l c.retardo_promedio +l c.variacion_retardo in rand_mod r (t2 -l t1)

-- From the time of arrival and the time of the last packet sent.
unfoldable pub u_sec : Config → Timespec → Timespec → ℕ → Option ℤ
u_sec c llegada reenvio r =
    micros llegada >>= λ t_ll. micros reenvio >>= λ t_re. retardo c t_ll t_re r

-- `(rand()%101) > porcentajePerdida`: the packet is sent.
unfoldable pub se_envia : Config → ℕ → Bool
se_envia c r = ltb_ℤ c.porcentaje_perdida (pos (r % 101))
