-- ===== src/Erp/System/Stuck.antt =====
-- A full pipe stops its direction for good (tarea3/src/erp_udp.c).
use tareas_elo.Erp.System.Safety.{Reach-Inv}
use tareas_elo.Common.{refl, ◌≡◌, some, List, Bool, false, arith, length, ◌<◌, ◌+◌, ◌≤◌}
use tareas_elo.Erp.Link.{
  hacia_servidor, hacia_cliente, Dir, Packet, Shared, Link, Pipes, InStep, OutStep, write_packet,
  signal_waiting, poll_error, wake, escribiendo, entrada, recv_cliente, lock_out, poll_data,
  recv_servidor, lock_cliaddr, poll_empty, relock, copy_cliaddr, unlock_cliaddr, read_packet,
  read_time, stamp, lock_in, sleep, divide_by_zero, write_time, signal_nobody, keep, lose,
  unlock_in, send_servidor, lock_send, send_cliente, unlock_send, renew, unlock_out, read_size,
}
use tareas_elo.Erp.Config.{Config}
use tareas_elo.Erp.Link.Invariant.{out_holds, Inv}
use tareas_elo.Erp.System.{Timespec, System, Step, link, Reach, in_step, out_step, interrupt}

-- The storing thread holds the lock and waits in `write` for room that its packet does not have.
pub record Full (k : Pipes) (l : Link) (p : Packet) (t : Timespec) : Type 0 where
  pub waits : l.in_pc ≡ escribiendo p t
  pub no_room : k.packet_room < length l.bufer + length p

-- Full, with the lock held and nothing more decided than `done`.
record Stopped (k : Pipes) (l : Link) (p : Packet) (t : Timespec) (done : List (Packet × Bool))
    : Type 0 where
  full : Full k l p t
  locked : l.mutex ≡ some entrada
  outside : out_holds l.out_pc ≡ false
  same : l.procesados ≡ done

InStep-Stopped :
    {k : Pipes} {d : Dir} {s s' : Shared} {l l' : Link} {p : Packet} {t : Timespec}
    {done : List (Packet × Bool)}
    → InStep k d s l s' l'
    → Stopped k l p t done
    → Stopped k l' p t done
InStep-Stopped (write_packet e fits) v = ground arith
InStep-Stopped (signal_waiting e waits) v = ground arith
InStep-Stopped (recv_cliente q a e fits) v = ground arith
InStep-Stopped (recv_servidor q a e fits) v = ground arith
InStep-Stopped (lock_cliaddr e free) v = ground arith
InStep-Stopped (copy_cliaddr e) v = ground arith
InStep-Stopped (unlock_cliaddr e) v = ground arith
InStep-Stopped (stamp u e) v = ground arith
InStep-Stopped (lock_in e free) v = ground arith
InStep-Stopped (write_time e fits) v = ground arith
InStep-Stopped (signal_nobody e other) v = ground arith
InStep-Stopped (unlock_in e) v = ground arith

OutStep-Stopped :
    {k : Pipes} {c : Config} {d : Dir} {s s' : Shared} {l l' : Link} {p : Packet} {t : Timespec}
    {done : List (Packet × Bool)}
    → OutStep c d s l s' l'
    → Stopped k l p t done
    → Stopped k l' p t done
OutStep-Stopped (poll_error e) v = v
OutStep-Stopped (wake e) v = ground arith
OutStep-Stopped (lock_out e free) v = ground arith
OutStep-Stopped (poll_data e more) v = ground arith
OutStep-Stopped (poll_empty e nothing) v = ground arith
OutStep-Stopped (relock e free) v = ground arith
OutStep-Stopped (read_packet e) v = ground arith
OutStep-Stopped (read_time e at) v = ground arith
OutStep-Stopped (sleep r u e slept) v = ground arith
OutStep-Stopped (divide_by_zero r e zero_width) v = ground arith
OutStep-Stopped (keep r e luck) v = ground arith
OutStep-Stopped (lose r e luck) v = ground arith
OutStep-Stopped (send_servidor e) v = ground arith
OutStep-Stopped (lock_send e free) v = ground arith
OutStep-Stopped (send_cliente e) v = ground arith
OutStep-Stopped (unlock_send e) v = ground arith
OutStep-Stopped (renew u e) v = ground arith
OutStep-Stopped (unlock_out e) v = ground arith

-- Some steps on.
pub data Later (c : Config) (k : Pipes) (s : System) : System → Type 0 where
  now : Later c k s s
  next : {u w : System} → Later c k s u → Step c k u w → Later c k s w

Step-Stopped :
    {c : Config} {k : Pipes} {s u : System} {p : Packet} {t : Timespec}
    {done : List (Packet × Bool)} (d : Dir)
    → Step c k s u
    → Stopped k (link s d) p t done
    → Stopped k (link u d) p t done
Step-Stopped hacia_servidor (in_step hacia_servidor alive st) v = InStep-Stopped st v
Step-Stopped hacia_cliente (in_step hacia_cliente alive st) v = InStep-Stopped st v
Step-Stopped hacia_servidor (in_step hacia_cliente alive st) v = v
Step-Stopped hacia_cliente (in_step hacia_servidor alive st) v = v
Step-Stopped hacia_servidor (out_step hacia_servidor alive st) v = OutStep-Stopped st v
Step-Stopped hacia_cliente (out_step hacia_cliente alive st) v = OutStep-Stopped st v
Step-Stopped hacia_servidor (out_step hacia_cliente alive st) v = v
Step-Stopped hacia_cliente (out_step hacia_servidor alive st) v = v
Step-Stopped hacia_servidor (interrupt alive) v = v
Step-Stopped hacia_cliente (interrupt alive) v = v

Later-Stopped :
    {c : Config} {k : Pipes} {s u : System} {p : Packet} {t : Timespec}
    {done : List (Packet × Bool)} (d : Dir)
    → Later c k s u
    → Stopped k (link s d) p t done
    → Stopped k (link u d) p t done
Later-Stopped d now v = v
Later-Stopped d (next r st) v = Step-Stopped d st (Later-Stopped d r v)

Full-Stopped :
    (k : Pipes) (l : Link) (p : Packet) (t : Timespec)
    → Inv k l
    → Full k l p t
    → Stopped k l p t l.procesados
Full-Stopped k l p t v full = record {
  full = full;
  locked = ground arith;
  outside = ground arith;
  same = refl;
}

-- With pipes that one `read` can empty: once, in a reachable state, the storing thread of a
-- direction holds the lock and its packet does not fit in the pipe, then whatever steps follow it
-- still waits there, and no further packet of that direction is decided on.
pub pipe_deadlock :
    {c : Config} {k : Pipes} {s u : System} {p : Packet} {t : Timespec}
    (fits : k.packet_room ≤ read_size) (d : Dir)
    → Reach c k s
    → Full k (link s d) p t
    → Later c k s u
    → ((link u d).procesados ≡ (link s d).procesados) × Full k (link u d) p t
pipe_deadlock {k = k} {s = s} {p = p} {t = t} fits d r full later =
    let v = Later-Stopped d later (Full-Stopped k (link s d) p t (Reach-Inv fits r d) full) in
    (v.same, v.full)
