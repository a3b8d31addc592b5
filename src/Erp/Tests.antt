-- ===== src/Erp/Tests.antt =====
-- Runs of the emulator of tarea3/src/erp_udp.c, and the theorems on its reachable states at them.
use tareas_elo.Erp.Examples.{config, at_second}
use tareas_elo.Common.{◌≤◌, ◌<◌, length, ◌+◌, ◌≡◌, refl, some, [], ◌∷◌, ◌++◌, true, arith}
use tareas_elo.Common.Int.{pos, ◌+ℤ◌, ◌-ℤ◌, ◌*ℤ◌, i64}
use tareas_elo.Erp.Config.{SockAddr}
use tareas_elo.Erp.Delay.{micros, max, rand_mod, retardo, u_sec, se_envia, ◌+l◌, ◌-l◌, ◌*l◌}
use tareas_elo.Erp.Link.{
  hacia_servidor, hacia_cliente, Packet, Pipes, recv_cliente, lock_cliaddr, copy_cliaddr,
  unlock_cliaddr, stamp, lock_in, write_packet, write_time, signal_nobody, unlock_in, lock_out,
  poll_data, poll_empty, read_packet, read_time, sleep, keep, recv_servidor,
}
use tareas_elo.Erp.Link.Invariant.{in_holds, out_holds, en_mano, bytes_of}
use tareas_elo.Erp.System.{System, link, in_step, out_step, Reach, start, later}
use tareas_elo.Erp.System.Safety.{pipe_exclusion, bytes_in_order, no_lost_wakeup}
use tareas_elo.Erp.System.Cliaddr.{in_cliaddr, out_cliaddr, cliaddr_exclusion}
use tareas_elo.Erp.System.Sent.{kept, packets_of, pending, sent_packets}
use tareas_elo.Erp.System.Stuck.{Full, now, next, pipe_deadlock}
use tareas_elo.Erp.System.Fusion.{datagrams_join}

-- Packets of 3 and 2 bytes, in pipes of 8.
abbrev pipes : Pipes
pipes = record { packet_room = 8; time_room = 4 }

abbrev client : SockAddr
client = record { sin_port = 7; s_addr = 9 }

abbrev hello : Packet
hello = 104 ∷ 101 ∷ 121 ∷ []

drawn : u_sec config (at_second 20) (at_second 10) 12 ≡ some (pos 12)
unfolding u_sec micros retardo max rand_mod ◌+l◌ ◌-l◌ ◌*l◌ i64 ◌+ℤ◌ ◌-ℤ◌ ◌*ℤ◌
drawn = refl

drawn-kept : se_envia config 40 ≡ true
unfolding se_envia
drawn-kept = refl

hello-fits : 0 + length hello ≤ 8
hello-fits = omega arith

time-fits : 0 < 4
time-fits = omega arith

-- The packet is in the pipe, its time is not yet.
abbrev writing : (s : System) × Reach config pipes s
writing = (
  _,
  later
      (later
        (later
          (later
            (later
              (later
                (later (start (at_second 10) (at_second 10))
                  (in_step hacia_servidor refl (recv_cliente hello client refl (omega arith))))
                (in_step hacia_servidor refl (lock_cliaddr refl refl)))
              (in_step hacia_servidor refl (copy_cliaddr refl)))
            (in_step hacia_servidor refl (unlock_cliaddr refl)))
          (in_step hacia_servidor refl (stamp (at_second 20) refl)))
        (in_step hacia_servidor refl (lock_in refl refl)))
      (in_step hacia_servidor refl (write_packet refl hello-fits)),
)

-- The sending thread has read the packet, not yet its time.
abbrev reading : (s : System) × Reach config pipes s
reading = (
  _,
  later
      (later
        (later
          (later
            (later (later writing.1 (in_step hacia_servidor refl (write_time refl time-fits)))
              (in_step hacia_servidor refl (signal_nobody refl (λ e. cc))))
            (in_step hacia_servidor refl (unlock_in refl)))
          (out_step hacia_servidor refl (lock_out refl refl)))
        (out_step hacia_servidor refl (poll_data refl (λ e. cc))))
      (out_step hacia_servidor refl (read_packet refl)),
)

-- The packet is kept, and about to be sent.
abbrev sending : (s : System) × Reach config pipes s
sending = (
  _,
  later
      (later (later reading.1 (out_step hacia_servidor refl (read_time refl refl)))
        (out_step hacia_servidor refl (sleep 12 (pos 12) refl drawn)))
      (out_step hacia_servidor refl (keep 40 refl drawn-kept)),
)

-- The thread towards the client sleeps on its condition.
abbrev asleep : (s : System) × Reach config pipes s
asleep = (
  _,
  later
      (later (start (at_second 10) (at_second 10))
        (out_step hacia_cliente refl (lock_out refl refl)))
      (out_step hacia_cliente refl (poll_empty refl refl)),
)

-- The address of the client is being copied.
abbrev saving : (s : System) × Reach config pipes s
saving = (
  _,
  later
      (later (start (at_second 10) (at_second 10))
        (in_step hacia_servidor refl (recv_cliente hello client refl (omega arith))))
      (in_step hacia_servidor refl (lock_cliaddr refl refl)),
)

-- A packet of 9 bytes from the server waits for room in a pipe of 8.
abbrev long_packet : Packet
long_packet = 1 ∷ 2 ∷ 3 ∷ 4 ∷ 5 ∷ 6 ∷ 7 ∷ 8 ∷ 9 ∷ []

abbrev blocked : (s : System) × Reach config pipes s
blocked = (
  _,
  later
      (later
        (later (start (at_second 10) (at_second 10))
          (in_step hacia_cliente refl (recv_servidor long_packet client refl (omega arith))))
        (in_step hacia_cliente refl (stamp (at_second 20) refl)))
      (in_step hacia_cliente refl (lock_in refl refl)),
)

pipe_exclusion_example : ¬ (
    (in_holds (link writing.0 hacia_servidor).in_pc ≡ true)
    × (out_holds (link writing.0 hacia_servidor).out_pc ≡ true))
pipe_exclusion_example = pipe_exclusion (omega arith) writing.1 hacia_servidor

bytes_in_order_example :
    (link sending.0 hacia_servidor).escritos
    ≡ bytes_of (link sending.0 hacia_servidor).procesados
      ++ (en_mano (link sending.0 hacia_servidor).out_pc ++ (link sending.0 hacia_servidor).bufer)
bytes_in_order_example = bytes_in_order (omega arith) sending.1 hacia_servidor

no_lost_wakeup_example : (link asleep.0 hacia_cliente).bufer ≡ []
no_lost_wakeup_example = no_lost_wakeup (omega arith) asleep.1 hacia_cliente refl refl

cliaddr_exclusion_example :
    ¬ ((in_cliaddr saving.0.servidor.in_pc ≡ true) × (out_cliaddr saving.0.cliente.out_pc ≡ true))
cliaddr_exclusion_example = cliaddr_exclusion saving.1

sent_packets_example :
    kept (link sending.0 hacia_servidor).procesados
    ≡ packets_of (link sending.0 hacia_servidor).enviados
      ++ pending (link sending.0 hacia_servidor).out_pc
sent_packets_example = sent_packets sending.1 hacia_servidor

pipe_deadlock_example :
    ((link blocked.0 hacia_cliente).procesados ≡ (link blocked.0 hacia_cliente).procesados)
    × Full pipes (link blocked.0 hacia_cliente) long_packet (at_second 20)
pipe_deadlock_example =
    pipe_deadlock (omega arith) hacia_cliente blocked.1
      (record { waits = refl; no_room = omega arith })
      (next now (out_step hacia_servidor refl (lock_out refl refl)))

datagrams_join_example :
    (s : System) × Reach config pipes s
    × (s.servidor.escritos ≡ hello ++ (33 ∷ 33 ∷ []))
    × (s.servidor.procesados ≡ (hello ++ (33 ∷ 33 ∷ []), true) ∷ [])
datagrams_join_example =
    datagrams_join config pipes (at_second 10) (at_second 10) (at_second 20) (at_second 21) client
      client hello (33 ∷ 33 ∷ []) 12 40 (pos 12) (λ e. cc) (omega arith, omega arith) (omega arith)
      (omega arith) (omega arith) drawn drawn-kept
