-- ===== src/Erp/Examples.antt =====
-- The settings, the delay, the loss and the start of tarea3/src/erp_udp.c at concrete inputs. The
-- arguments are those of `make pruebaERP_UDP`.
use tareas_elo.Common.{
  get_elem?, Option, ◌<◌, ◌*◌, ◌↔◌, ◌⊎◌, ℕ, ◌≡◌, refl, some, none, List, [], ◌∷◌, arith,
}
use tareas_elo.Erp.Start.{
  Socket, socket_cliente, socket_servidor, exited, erp_main, erp_main-usage, print_usage,
}
use tareas_elo.Common.Int.{pos, ◌+ℤ◌, ◌-ℤ◌, ◌≤ℤ◌, neg_part, pos_part, i64}
use tareas_elo.Common.Doubles.{fractions}
use tareas_elo.Common.Text.{atoi, strtol}
use tareas_elo.Erp.Config.{
  Config, SockAddr, configured, procesamiento_datos_de_entrada, sin_host, servidor_port, htons,
}
use tareas_elo.Erp.Config.Ports.{ListensAt, procesamiento-ports}
use tareas_elo.Erp.Delay.{Timespec, max, rand_mod, retardo, ◌+l◌, ◌-l◌}
use tareas_elo.Erp.Delay.Bounds.{InRange, retardo-idle, retardo-bounds, retardo-fault}
use tareas_elo.Erp.Delay.Loss.{survivors, survivors-percent}

abbrev five_seconds : List ℕ
five_seconds = 53 ∷ 48 ∷ 48 ∷ 48 ∷ 48 ∷ 48 ∷ 48 ∷ []

abbrev pub argv : List (List ℕ)
argv =
    (b'e' ∷ [])
    ∷ five_seconds
    ∷ (52 ∷ 48 ∷ 48 ∷ 48 ∷ 48 ∷ 48 ∷ 48 ∷ [])
    ∷ (49 ∷ 53 ∷ [])
    ∷ (53 ∷ 54 ∷ 55 ∷ 56 ∷ 57 ∷ [])
    ∷ (52 ∷ 53 ∷ 54 ∷ 55 ∷ 56 ∷ [])
    ∷ []

abbrev pub config : Config
config = record {
  retardo_promedio = pos 5000000;
  variacion_retardo = pos 4000000;
  porcentaje_perdida = pos 15;
  donde_recibir_al_cliente = record { sin_port = 54749; s_addr = 0 };
  comunicacion_remoto = record { sin_port = 28338; s_addr = 16777343 };
  llegada_datos_servidor = record { sin_port = 55005; s_addr = 0 };
}

read-arguments : procesamiento_datos_de_entrada fractions (λ _. 16777343) argv ≡ configured config
unfolding procesamiento_datos_de_entrada sin_host servidor_port htons atoi strtol i64 ◌+ℤ◌
read-arguments = refl

procesamiento-ports_example :
    (local : List ℕ) × (get_elem? argv 4 ≡ some local) × ListensAt local config
procesamiento-ports_example =
    procesamiento-ports fractions (λ _. 16777343) argv config read-arguments

abbrev pub at_second : ℕ → Timespec
at_second n = record { tv_sec = pos n; tv_nsec = pos 0 }

survivors-percent_example : survivors config 101 ≡ 85
survivors-percent_example = survivors-percent config 15 refl (omega arith)

on_time : InRange config 4000000 (pos 20000000) (pos 10000000)
on_time = record {
  variation = refl;
  small = omega arith;
  average = omega arith;
  arrival = omega arith;
  sending = omega arith;
}

retardo-idle_example : retardo config (pos 20000000) (pos 10000000) 12 ≡ some (pos 12)
retardo-idle_example =
    retardo-idle config 4000000 (pos 20000000) (pos 10000000) on_time 12 (omega arith)
      (unfold ◌+ℤ◌ ◌-ℤ◌ in omega arith)

late : InRange config 4000000 (pos 20000000) (pos 27000000)
late = record {
  variation = refl;
  small = omega arith;
  average = omega arith;
  arrival = omega arith;
  sending = omega arith;
}

late-drawn : retardo config (pos 20000000) (pos 27000000) 3000000 ≡ some (pos 1000000)
unfolding retardo max rand_mod ◌+l◌ ◌-l◌ i64 ◌+ℤ◌ ◌-ℤ◌
late-drawn = refl

retardo-bounds_example :
    (◌≡◌ {A = ℕ} (neg_part (pos 1000000)) 0)
    × (((pos 27000000 ≤ℤ pos 20000000 +ℤ pos 5000000 +ℤ pos 4000000)
          × (pos_part (pos 1000000) < 2 * 4000000))
        ⊎ ((pos 20000000 +ℤ pos 5000000 +ℤ pos 4000000 ≤ℤ pos 27000000)
            × (pos 1000000 +ℤ pos 1
                ≤ℤ pos 27000000 -ℤ (pos 20000000 +ℤ pos 5000000 +ℤ pos 4000000))))
retardo-bounds_example =
    retardo-bounds config 4000000 (pos 20000000) (pos 27000000) late 3000000 (pos 1000000)
      late-drawn

retardo-fault_example : (retardo config (pos 20000000) (pos 27000000) 5 ≡ none) ↔ (
    (pos 27000000 ≡ pos 20000000 +ℤ pos 5000000 +ℤ pos 4000000)
    ⊎ ((◌≡◌ {A = ℕ} 4000000 0) × (pos 27000000 ≤ℤ pos 20000000 +ℤ pos 5000000 +ℤ pos 4000000)))
retardo-fault_example = retardo-fault config 4000000 (pos 20000000) (pos 27000000) late 5

abbrev no_arguments : List (List ℕ)
no_arguments = (b'e' ∷ []) ∷ []

-- The port for the server is taken.
abbrev taken_port : Socket → SockAddr → Option ℕ
taken_port socket_cliente _ = none
taken_port socket_servidor _ = some 98

usage_test :
    erp_main fractions (λ _. 16777343) taken_port (at_second 10) (at_second 11) no_arguments
    ≡ exited (pos 1) (print_usage (some (b'e' ∷ [])) ∷ [])
usage_test =
    erp_main-usage fractions (λ _. 16777343) taken_port (at_second 10) (at_second 11) no_arguments
      (λ e. absurd (omega (arith, e))) (λ e. absurd (omega (arith, e)))
