-- ===== src/Erp/System/Sent.antt =====
-- Which datagrams go to the network (tarea3/src/erp_udp.c).
use tareas_elo.Common.{◌≡◌, refl, List, [], ◌∷◌, ◌++◌, Bool, true, false, arith, append-nil}
use tareas_elo.Erp.Config.{Config, SockAddr}
use tareas_elo.Erp.Link.{
  Dir, hacia_servidor, hacia_cliente, Packet, OutPc, enviando_con, Shared, Link, Pipes, InStep,
  OutStep, signal_waiting, poll_error, keep, lose, send_servidor, send_cliente, enviando,
  recv_cliente, lock_out, poll_data, recv_servidor, lock_cliaddr, poll_empty, copy_cliaddr, wake,
  relock, unlock_cliaddr, stamp, read_packet, read_time, lock_in, sleep, write_packet,
  divide_by_zero, write_time, signal_nobody, lock_send, unlock_in, unlock_send, renew, unlock_out,
}
use tareas_elo.Erp.System.{System, link, in_step, out_step, interrupt, Reach, start, later}

-- The packets that the draws kept, oldest first.
abbrev pub kept : List (Packet × Bool) → List Packet
kept [] = []
kept ((p, true) ∷ rest) = p ∷ kept rest
kept ((p, false) ∷ rest) = kept rest

abbrev pub packets_of : List (Packet × SockAddr) → List Packet
packets_of [] = []
packets_of ((p, a) ∷ rest) = p ∷ packets_of rest

-- Kept, and not yet given to `sendto`.
abbrev pub pending : OutPc → List Packet
pending (enviando p) = p ∷ []
pending (enviando_con p) = p ∷ []
pending _ = []

abbrev Sent : Link → Type 0
Sent l = kept l.procesados ≡ packets_of l.enviados ++ pending l.out_pc

kept-append :
    (ps : List (Packet × Bool)) (p : Packet) (b : Bool)
    → kept (ps ++ ((p, b) ∷ [])) ≡ kept ps ++ kept ((p, b) ∷ [])
kept-append [] p b = refl
kept-append ((q, true) ∷ ps) p b = rw (kept-append ps p b)
kept-append ((q, false) ∷ ps) p b = kept-append ps p b

packets_of-append :
    (xs : List (Packet × SockAddr)) (p : Packet) (a : SockAddr)
    → packets_of (xs ++ ((p, a) ∷ [])) ≡ packets_of xs ++ (p ∷ [])
packets_of-append [] p a = refl
packets_of-append ((q, _) ∷ xs) p a = rw (packets_of-append xs p a)

InStep-Sent :
    {k : Pipes} {d : Dir} {s s' : Shared} {l l' : Link} → InStep k d s l s' l' → Sent l → Sent l'
InStep-Sent (signal_waiting e waits) v = ground arith
InStep-Sent (recv_cliente q a e fits) v = v
InStep-Sent (recv_servidor q a e fits) v = v
InStep-Sent (lock_cliaddr e free) v = v
InStep-Sent (copy_cliaddr e) v = v
InStep-Sent (unlock_cliaddr e) v = v
InStep-Sent (stamp u e) v = v
InStep-Sent (lock_in e free) v = v
InStep-Sent (write_packet e fits) v = v
InStep-Sent (write_time e fits) v = v
InStep-Sent (signal_nobody e other) v = v
InStep-Sent (unlock_in e) v = v

OutStep-Sent :
    {c : Config} {d : Dir} {s s' : Shared} {l l' : Link} → OutStep c d s l s' l' → Sent l → Sent l'
OutStep-Sent (keep {l = l} {p = p} r e luck) v =
    ground (arith, kept-append l.procesados p true, append-nil (packets_of l.enviados))
OutStep-Sent (lose {l = l} {p = p} r e luck) v =
    ground (arith, kept-append l.procesados p false, append-nil (kept l.procesados))
OutStep-Sent (send_servidor {s = s} {l = l} {p = p} e) v = ground (
  arith,
  packets_of-append l.enviados p s.datos_comunicacion_remoto,
  append-nil (packets_of l.enviados ++ (p ∷ [])),
)
OutStep-Sent (send_cliente {s = s} {l = l} {p = p} e) v = ground (
  arith,
  packets_of-append l.enviados p s.direccion_cliente,
  append-nil (packets_of l.enviados ++ (p ∷ [])),
)
OutStep-Sent (poll_error e) v = v
OutStep-Sent (lock_out e free) v = ground arith
OutStep-Sent (poll_data e more) v = ground arith
OutStep-Sent (poll_empty e nothing) v = ground arith
OutStep-Sent (wake e) v = ground arith
OutStep-Sent (relock e free) v = ground arith
OutStep-Sent (read_packet e) v = ground arith
OutStep-Sent (read_time e at) v = ground arith
OutStep-Sent (sleep r u e slept) v = ground arith
OutStep-Sent (divide_by_zero r e zero_width) v = ground arith
OutStep-Sent (lock_send e free) v = ground arith
OutStep-Sent (unlock_send e) v = ground arith
OutStep-Sent (renew u e) v = ground arith
OutStep-Sent (unlock_out e) v = ground arith

Reach-Sents : {c : Config} {k : Pipes} {s : System} → Reach c k s → Sent s.servidor × Sent s.cliente
Reach-Sents (start t t') = (refl, refl)
Reach-Sents (later r (in_step hacia_servidor alive st)) =
    (InStep-Sent st (Reach-Sents r).0, (Reach-Sents r).1)
Reach-Sents (later r (in_step hacia_cliente alive st)) =
    ((Reach-Sents r).0, InStep-Sent st (Reach-Sents r).1)
Reach-Sents (later r (out_step hacia_servidor alive st)) =
    (OutStep-Sent st (Reach-Sents r).0, (Reach-Sents r).1)
Reach-Sents (later r (out_step hacia_cliente alive st)) =
    ((Reach-Sents r).0, OutStep-Sent st (Reach-Sents r).1)
Reach-Sents (later r (interrupt alive)) = Reach-Sents r

-- In every reachable state the packets given to `sendto` in a direction, then the one about to be
-- given, are the packets that the draws kept, in order: a lost one is never sent, and a kept one is
-- sent once.
pub sent_packets :
    {c : Config} {k : Pipes} {s : System}
    → Reach c k s
    → (d : Dir)
    → kept (link s d).procesados ≡ packets_of (link s d).enviados ++ pending (link s d).out_pc
sent_packets r hacia_servidor = (Reach-Sents r).0
sent_packets r hacia_cliente = (Reach-Sents r).1
