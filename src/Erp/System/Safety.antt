-- ===== src/Erp/System/Safety.antt =====
-- What holds in every reachable state of the emulator (tarea3/src/erp_udp.c).
use tareas_elo.Common.{◌≤◌, ◌≡◌, ◌≢◌, none, [], ◌++◌, true, arith}
use tareas_elo.Erp.Config.{Config}
use tareas_elo.Erp.Link.{
  Dir, hacia_servidor, hacia_cliente, Packet, leido, dormido, Pipes, read_size,
}
use tareas_elo.Erp.Link.Invariant.{
  in_holds, out_holds, en_mano, bytes_of, Inv, InStep-Inv, OutStep-Inv, asleep-empty, leido-time,
}
use tareas_elo.Erp.System.{System, link, Step, in_step, out_step, interrupt, Reach, start, later}

module _ {c : Config} {k : Pipes} (fits : k.packet_room ≤ read_size) where
  Step-Inv :
      {s u : System}
      → Step c k s u
      → Inv k s.servidor × Inv k s.cliente
      → Inv k u.servidor × Inv k u.cliente
  Step-Inv (in_step hacia_servidor alive st) (v, w) = (InStep-Inv k st v, w)
  Step-Inv (in_step hacia_cliente alive st) (v, w) = (v, InStep-Inv k st w)
  Step-Inv (out_step hacia_servidor alive st) (v, w) = (OutStep-Inv k fits c st v, w)
  Step-Inv (out_step hacia_cliente alive st) (v, w) = (v, OutStep-Inv k fits c st w)
  Step-Inv (interrupt alive) v = v

  Reach-Invs : {s : System} → Reach c k s → Inv k s.servidor × Inv k s.cliente
  Reach-Invs (start t t') = (ground arith, ground arith)
  Reach-Invs (later r st) = Step-Inv st (Reach-Invs r)

  pub Reach-Inv : {s : System} → Reach c k s → (d : Dir) → Inv k (link s d)
  Reach-Inv r hacia_servidor = (Reach-Invs r).0
  Reach-Inv r hacia_cliente = (Reach-Invs r).1

  -- In every reachable state, with pipes that one `read` can empty, the two threads of a direction
  -- are never both between the lock and the unlock of their pipe.
  pub pipe_exclusion :
      {s : System}
      → Reach c k s
      → (d : Dir) → ¬ ((in_holds (link s d).in_pc ≡ true) × (out_holds (link s d).out_pc ≡ true))
  pipe_exclusion r d (i, o) = cc ((Reach-Inv r d).in_owns i, (Reach-Inv r d).out_owns o)

  -- In every reachable state, with pipes that one `read` can empty, the bytes of a direction that
  -- the datagrams already decided on hold, then those of the datagram in hand, then those in the
  -- pipe, are the bytes written to it: none is lost, repeated or put out of order between the two
  -- threads.
  pub bytes_in_order :
      {s : System}
      → Reach c k s
      → (d : Dir)
      → (link s d).escritos
        ≡ bytes_of (link s d).procesados ++ (en_mano (link s d).out_pc ++ (link s d).bufer)
  bytes_in_order r d = (Reach-Inv r d).stream

  -- No wake-up is lost: in every reachable state, with pipes that one `read` can empty, where the
  -- sending thread sleeps and the lock is free, its pipe is empty.
  pub no_lost_wakeup :
      {s : System}
      → Reach c k s
      → (d : Dir) → (link s d).out_pc ≡ dormido
      → (link s d).mutex ≡ none
      → (link s d).bufer ≡ []
  no_lost_wakeup {s} r d asleep free = asleep-empty k (link s d) (Reach-Inv r d) asleep free

  -- In every reachable state, with pipes that one `read` can empty, where the sending thread has
  -- read a packet, a time is there to be read.
  pub time_is_there :
      {s : System} {p : Packet}
      → Reach c k s
      → (d : Dir) → (link s d).out_pc ≡ leido p
      → (link s d).tiempos ≢ []
  time_is_there {s} {p} r d e = leido-time k (link s d) p (Reach-Inv r d) e
