-- ===== src/Erp/System/Cliaddr.antt =====
-- The lock of the client's address (`mutex_cliaddr` of tarea3/src/erp_udp.c).
use tareas_elo.Common.{◌≡◌, Option, some, Bool, true, false, arith}
use tareas_elo.Erp.Config.{Config}
use tareas_elo.Erp.Link.{
  Dir, hacia_servidor, hacia_cliente, InPc, guardando, guardado, OutPc, enviando_con, enviado,
  Shared, Link, Pipes, InStep, OutStep, recv_cliente, recv_servidor, lock_cliaddr, copy_cliaddr,
  unlock_cliaddr, stamp, lock_in, write_packet, write_time, signal_waiting, signal_nobody,
  unlock_in, send_servidor, lock_send, send_cliente, unlock_send,
}
use tareas_elo.Erp.System.{System, in_step, out_step, interrupt, Reach, start, later}

-- Between the lock of `mutex_cliaddr` and its unlock.
abbrev pub in_cliaddr : InPc → Bool
in_cliaddr (guardando _ _) = true
in_cliaddr (guardado _) = true
in_cliaddr _ = false

abbrev pub out_cliaddr : OutPc → Bool
out_cliaddr (enviando_con _) = true
out_cliaddr enviado = true
out_cliaddr _ = false

-- Only the thread that receives from the client and the one that sends to it lock it.
record Cliaddr (m : Option Dir) (i : InPc) (o : OutPc) : Type 0 where
  saving : in_cliaddr i ≡ true → m ≡ some hacia_servidor
  sending : out_cliaddr o ≡ true → m ≡ some hacia_cliente

saves-Cliaddr :
    {k : Pipes} {s s' : Shared} {l l' : Link} (o : OutPc)
    → InStep k hacia_servidor s l s' l'
    → Cliaddr s.mutex_cliaddr l.in_pc o
    → Cliaddr s'.mutex_cliaddr l'.in_pc o
saves-Cliaddr o (lock_cliaddr e free) v = ground arith
saves-Cliaddr o (copy_cliaddr e) v = ground arith
saves-Cliaddr o (unlock_cliaddr e) v = ground arith
saves-Cliaddr o (recv_cliente p a e fits) v = ground arith
saves-Cliaddr o (stamp t e) v = ground arith
saves-Cliaddr o (lock_in e free) v = ground arith
saves-Cliaddr o (write_packet e fits) v = ground arith
saves-Cliaddr o (write_time e fits) v = ground arith
saves-Cliaddr o (signal_waiting e waits) v = ground arith
saves-Cliaddr o (signal_nobody e other) v = ground arith
saves-Cliaddr o (unlock_in e) v = ground arith

sends-Cliaddr :
    {c : Config} {s s' : Shared} {l l' : Link} (i : InPc)
    → OutStep c hacia_cliente s l s' l'
    → Cliaddr s.mutex_cliaddr i l.out_pc
    → Cliaddr s'.mutex_cliaddr i l'.out_pc
sends-Cliaddr i (lock_send e free) v = ground arith
sends-Cliaddr i (send_cliente e) v = ground arith
sends-Cliaddr i (unlock_send e) v = ground arith
sends-Cliaddr i st v = ground arith

stores-Cliaddr :
    {k : Pipes} {s s' : Shared} {l l' : Link} (i : InPc)
    → InStep k hacia_cliente s l s' l'
    → Cliaddr s.mutex_cliaddr i l.out_pc
    → Cliaddr s'.mutex_cliaddr i l'.out_pc
stores-Cliaddr i (recv_servidor p a e fits) v = v
stores-Cliaddr i (signal_waiting e waits) v = ground arith
stores-Cliaddr i st v = v

forwards-Cliaddr :
    {c : Config} {s s' : Shared} {l l' : Link} (o : OutPc)
    → OutStep c hacia_servidor s l s' l'
    → Cliaddr s.mutex_cliaddr l.in_pc o
    → Cliaddr s'.mutex_cliaddr l'.in_pc o
forwards-Cliaddr o (send_servidor e) v = v
forwards-Cliaddr o st v = v

Reach-Cliaddr :
    {c : Config} {k : Pipes} {s : System}
    → Reach c k s
    → Cliaddr s.shared.mutex_cliaddr s.servidor.in_pc s.cliente.out_pc
Reach-Cliaddr (start t t') = ground arith
Reach-Cliaddr (later r (in_step hacia_servidor alive st)) = saves-Cliaddr _ st (Reach-Cliaddr r)
Reach-Cliaddr (later r (in_step hacia_cliente alive st)) = stores-Cliaddr _ st (Reach-Cliaddr r)
Reach-Cliaddr (later r (out_step hacia_servidor alive st)) = forwards-Cliaddr _ st (Reach-Cliaddr r)
Reach-Cliaddr (later r (out_step hacia_cliente alive st)) = sends-Cliaddr _ st (Reach-Cliaddr r)
Reach-Cliaddr (later r (interrupt alive)) = Reach-Cliaddr r

-- In no reachable state is the address of the client being copied while it is used to send.
pub cliaddr_exclusion :
    {c : Config} {k : Pipes} {s : System}
    → Reach c k s
    → ¬ ((in_cliaddr s.servidor.in_pc ≡ true) × (out_cliaddr s.cliente.out_pc ≡ true))
cliaddr_exclusion r (i, o) = cc ((Reach-Cliaddr r).saving i, (Reach-Cliaddr r).sending o)
