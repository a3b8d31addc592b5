-- ===== src/Erp/System/Fusion.antt =====
-- Two datagrams that wait in a pipe leave as one (tarea3/src/erp_udp.c).
use tareas_elo.Erp.Link.Invariant.{take-all}
use tareas_elo.Common.{
  ap, ◌<◌, ℕ, ◌+◌, ◌≤◌, ◌≡◌, ◌≢◌, refl, some, none, [], ◌∷◌, ◌++◌, true, arith, length,
  length-append,
}
use tareas_elo.Erp.Link.{
  recibiendo, dormido, recv_cliente, lock_cliaddr, copy_cliaddr, unlock_cliaddr, stamp, lock_in,
  write_packet, write_time, signal_nobody, unlock_in, lock_out, poll_data, read_packet, read_time,
  sleep, keep, hacia_servidor, Packet, Pipes, read_size, recv_size,
}
use tareas_elo.Common.Int.{ℤ}
use tareas_elo.Erp.Config.{Config, SockAddr}
use tareas_elo.Erp.Delay.{Timespec, u_sec, se_envia}
use tareas_elo.Erp.System.{System, in_step, out_step, Reach, start, later, init}

append-ne : (p q : Packet) → p ≢ [] → p ++ q ≢ []
append-ne [] q h e = h refl
append-ne (x ∷ p) q h e = cc

-- A datagram from the client is received, stamped and stored while the sending thread is elsewhere.
abbrev after_store : SockAddr → Packet → Timespec → System → System
after_store a p t s = record s {
  shared = record (s.shared) { mutex_cliaddr = none; direccion_cliente = a };
  servidor = record (s.servidor) {
    in_pc = recibiendo;
    mutex = none;
    bufer = s.servidor.bufer ++ p;
    tiempos = s.servidor.tiempos ++ (t ∷ []);
    escritos = s.servidor.escritos ++ p;
  };
}

record Ready (k : Pipes) (s : System) (p : Packet) : Type 0 where
  alive : s.shared.vivo ≡ true
  free : (s.shared.mutex_cliaddr ≡ none) × (s.servidor.mutex ≡ none)
  here : s.servidor.in_pc ≡ recibiendo
  awake : s.servidor.out_pc ≢ dormido
  size : length p ≤ recv_size hacia_servidor
  room : length s.servidor.bufer + length p ≤ k.packet_room
  time : length s.servidor.tiempos < k.time_room

store :
    {c : Config} {k : Pipes} {s : System} (a : SockAddr) (p : Packet) (t : Timespec)
    → Reach c k s
    → Ready k s p
    → Reach c k (after_store a p t s)
store a p t r ok =
    later
      (later
        (later
          (later
            (later
              (later
                (later
                  (later
                    (later
                      (later r (in_step hacia_servidor ok.alive (recv_cliente p a ok.here ok.size)))
                      (in_step hacia_servidor ok.alive (lock_cliaddr refl ok.free.0)))
                    (in_step hacia_servidor ok.alive (copy_cliaddr refl)))
                  (in_step hacia_servidor ok.alive (unlock_cliaddr refl)))
                (in_step hacia_servidor ok.alive (stamp t refl)))
              (in_step hacia_servidor ok.alive (lock_in refl ok.free.1)))
            (in_step hacia_servidor ok.alive (write_packet refl ok.room)))
          (in_step hacia_servidor ok.alive (write_time refl ok.time)))
        (in_step hacia_servidor ok.alive (signal_nobody refl ok.awake)))
      (in_step hacia_servidor ok.alive (unlock_in refl))

-- For any two datagrams from the client that fit in the pipe together, the first not empty, a draw
-- that gives a delay and one that keeps the packet, in pipes that one `read` can empty and that
-- hold two times: there is a run in which both are stored and then one datagram is kept that is
-- the two joined.
pub datagrams_join :
    (c : Config) (k : Pipes) (t t' t_p t_q : Timespec) (a b : SockAddr) (p q : Packet) (r r' : ℕ)
    (u : ℤ)
    → p ≢ []
    → (length p ≤ recv_size hacia_servidor) × (length q ≤ recv_size hacia_servidor)
    → length p + length q ≤ k.packet_room
    → k.packet_room ≤ read_size
    → 2 ≤ k.time_room
    → u_sec c t_p t r ≡ some u
    → se_envia c r' ≡ true
    → (s : System) × Reach c k s
      × (s.servidor.escritos ≡ p ++ q)
      × (s.servidor.procesados ≡ (p ++ q, true) ∷ [])
datagrams_join c k t t' t_p t_q a b p q r r' u some_p sizes room fits times slept luck = (
  _,
  later
      (later
        (later
          (later
            (later (later stored (out_step hacia_servidor refl (lock_out refl refl)))
              (out_step hacia_servidor refl (poll_data refl (append-ne p q some_p))))
            (out_step hacia_servidor refl (read_packet refl)))
          (out_step hacia_servidor refl (read_time refl refl)))
        (out_step hacia_servidor refl (sleep r u refl slept)))
      (out_step hacia_servidor refl (keep r' refl luck)),
  refl,
  ap (λ x. (x, true) ∷ []) (take-all read_size (p ++ q) (omega (arith, length-append p q))),
)
  where
    stored : Reach c k (after_store b q t_q (after_store a p t_p (init c t t')))
    stored =
        store b q t_q
          (store a p t_p (start t t') (record {
            alive = refl;
            free = (refl, refl);
            here = refl;
            awake = λ e. cc;
            size = sizes.0;
            room = omega arith;
            time = omega arith;
          }))
          (record {
            alive = refl;
            free = (refl, refl);
            here = refl;
            awake = λ e. cc;
            size = sizes.1;
            room = omega arith;
            time = omega arith;
          })
