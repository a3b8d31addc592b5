-- ===== src/Erp/Link.antt =====
-- One direction of the emulator of tarea3/src/erp_udp.c: the thread that stores what arrives, the
-- thread that sends it on, and the two pipes and the mutex between them. The threads are step
-- relations, one call that touches shared state to a step. `hacia_servidor` is the pair
-- `entradaDatosDesdeCliente`, `salidaDatosHaciaServidor`; `hacia_cliente` is the pair
-- `entradaDatosDesdeServidor`, `SalidaDatosHaciaCliente`.
pub mod Invariant
use tareas_elo.Common.{
  ℕ, ◌+◌, ◌*◌, ◌≤◌, ◌<◌, ◌≡◌, ◌≢◌, Option, none, some, List, [], ◌∷◌, ◌++◌, length, take, drop,
  Bool, true, false,
}
use tareas_elo.Common.Int.{ℤ}
use tareas_elo.Erp.Config.{Config, SockAddr}
use tareas_elo.Erp.Delay.{Timespec, u_sec, se_envia}

pub data Dir : Type 0 where
  hacia_servidor hacia_cliente : Dir

pub data Hilo : Type 0 where
  entrada salida : Hilo

abbrev pub Packet : Type 0
Packet = List ℕ

-- Where the thread that stores packets stands, with its live locals.
pub data InPc : Type 0 where
  recibiendo : InPc  -- in `recvfrom`
  recibido : Packet → SockAddr → InPc  -- before the lock of `mutex_cliaddr`
  guardando : Packet → SockAddr → InPc  -- holds `mutex_cliaddr`, the address not yet copied
  guardado : Packet → InPc  -- holds `mutex_cliaddr`, the address copied
  sellando : Packet → InPc  -- before `clock_gettime`
  esperando : Packet → Timespec → InPc  -- before the lock of the pipe
  escribiendo : Packet → Timespec → InPc  -- holds it, before `write` of the packet
  escrito : Timespec → InPc  -- before `write` of the time
  avisando : InPc  -- before `pthread_cond_signal`
  soltando : InPc  -- before the unlock

-- Where the thread that sends packets stands.
pub data OutPc : Type 0 where
  entrando : OutPc  -- before the lock of the pipe
  sondeando : OutPc  -- holds it, before `poll`
  leyendo : OutPc  -- `poll` said that there is data
  leido : Packet → OutPc  -- before `read` of the time
  durmiendo : Packet → Timespec → OutPc  -- before the delay is computed and slept
  decidiendo : Packet → OutPc  -- before the draw of the loss
  enviando : Packet → OutPc  -- to be sent; to the client: before the lock of `mutex_cliaddr`
  enviando_con : Packet → OutPc  -- to the client: holds `mutex_cliaddr`
  enviado : OutPc  -- to the client: sent, before the unlock of `mutex_cliaddr`
  renovando : OutPc  -- before `clock_gettime(&t_reenvio)`
  dormido : OutPc  -- in `pthread_cond_wait`, without the lock
  despierto : OutPc  -- woken, before it has the lock again
  saliendo : OutPc  -- before the unlock

-- The globals that both directions share; `vivo` is false once the process has ended.
pub record Shared : Type 0 where
  pub mutex_cliaddr : Option Dir
  pub direccion_cliente : SockAddr
  pub datos_comunicacion_remoto : SockAddr
  pub vivo : Bool

-- One direction. `escritos` and `procesados` are its history: the bytes written to the pipe, and the
-- datagrams read from it with whether they were sent, oldest first; `enviados` is what `sendto` was
-- given, with the address.
pub record Link : Type 0 where
  pub mutex : Option Hilo
  pub bufer : List ℕ  -- in the pipe of the packets
  pub tiempos : List Timespec  -- in the pipe of the times
  pub in_pc : InPc
  pub out_pc : OutPc
  pub t_reenvio : Timespec
  pub escritos : List ℕ
  pub procesados : List (Packet × Bool)
  pub enviados : List (Packet × SockAddr)

-- `sizeof(buffer)`, `sizeof(mesg)`: what one `recvfrom` can take.
abbrev pub recv_size : Dir → ℕ
recv_size hacia_servidor = 64 * 2014
recv_size hacia_cliente = 64 * 1024

-- What one `read` can take.
abbrev pub read_size : ℕ
read_size = 64 * 1024

-- How much the two pipes hold; a `write` that does not fit waits, and the mutex stays locked.
pub record Pipes : Type 0 where
  pub packet_room : ℕ
  pub time_room : ℕ

-- The steps of `entradaDatosDesdeCliente` and `entradaDatosDesdeServidor`. The clock is free.
pub data InStep (k : Pipes) : Dir → Shared → Link → Shared → Link → Type 0 where
  recv_cliente :
      {s : Shared} {l : Link} (p : Packet) (a : SockAddr)
      → l.in_pc ≡ recibiendo
      → length p ≤ recv_size hacia_servidor
      → InStep k hacia_servidor s l s (record l { in_pc = recibido p a })
  recv_servidor :
      {s : Shared} {l : Link} (p : Packet) (a : SockAddr)
      → l.in_pc ≡ recibiendo
      → length p ≤ recv_size hacia_cliente
      → InStep k hacia_cliente s l
          (record s { datos_comunicacion_remoto = a })
          (record l { in_pc = sellando p })
  lock_cliaddr :
      {s : Shared} {l : Link} {p : Packet} {a : SockAddr}
      → l.in_pc ≡ recibido p a
      → s.mutex_cliaddr ≡ none
      → InStep k hacia_servidor s l
          (record s { mutex_cliaddr = some hacia_servidor })
          (record l { in_pc = guardando p a })
  copy_cliaddr :
      {s : Shared} {l : Link} {p : Packet} {a : SockAddr}
      → l.in_pc ≡ guardando p a
      → InStep k hacia_servidor s l
          (record s { direccion_cliente = a })
          (record l { in_pc = guardado p })
  unlock_cliaddr :
      {s : Shared} {l : Link} {p : Packet}
      → l.in_pc ≡ guardado p
      → InStep k hacia_servidor s l
          (record s { mutex_cliaddr = none })
          (record l { in_pc = sellando p })
  stamp :
      {d : Dir} {s : Shared} {l : Link} {p : Packet} (t : Timespec)
      → l.in_pc ≡ sellando p
      → InStep k d s l s (record l { in_pc = esperando p t })
  lock_in :
      {d : Dir} {s : Shared} {l : Link} {p : Packet} {t : Timespec}
      → l.in_pc ≡ esperando p t
      → l.mutex ≡ none
      → InStep k d s l s (record l { in_pc = escribiendo p t; mutex = some entrada })
  write_packet :
      {d : Dir} {s : Shared} {l : Link} {p : Packet} {t : Timespec}
      → l.in_pc ≡ escribiendo p t
      → length l.bufer + length p ≤ k.packet_room
      → InStep k d s l s
          (record l { in_pc = escrito t; bufer = l.bufer ++ p; escritos = l.escritos ++ p })
  write_time :
      {d : Dir} {s : Shared} {l : Link} {t : Timespec}
      → l.in_pc ≡ escrito t
      → length l.tiempos < k.time_room
      → InStep k d s l s (record l { in_pc = avisando; tiempos = l.tiempos ++ (t ∷ []) })
  signal_waiting :
      {d : Dir} {s : Shared} {l : Link}
      → l.in_pc ≡ avisando
      → l.out_pc ≡ dormido
      → InStep k d s l s (record l { in_pc = soltando; out_pc = despierto })
  signal_nobody :
      {d : Dir} {s : Shared} {l : Link}
      → l.in_pc ≡ avisando
      → l.out_pc ≢ dormido
      → InStep k d s l s (record l { in_pc = soltando })
  unlock_in :
      {d : Dir} {s : Shared} {l : Link}
      → l.in_pc ≡ soltando
      → InStep k d s l s (record l { in_pc = recibiendo; mutex = none })

-- The steps of `salidaDatosHaciaServidor` and `SalidaDatosHaciaCliente`. `rand()` is free.
pub data OutStep (c : Config) : Dir → Shared → Link → Shared → Link → Type 0 where
  lock_out :
      {d : Dir} {s : Shared} {l : Link}
      → l.out_pc ≡ entrando
      → l.mutex ≡ none
      → OutStep c d s l s (record l { out_pc = sondeando; mutex = some salida })
  poll_data :
      {d : Dir} {s : Shared} {l : Link}
      → l.out_pc ≡ sondeando
      → l.bufer ≢ []
      → OutStep c d s l s (record l { out_pc = leyendo })
  poll_empty :
      {d : Dir} {s : Shared} {l : Link}
      → l.out_pc ≡ sondeando
      → l.bufer ≡ []
      → OutStep c d s l s (record l { out_pc = dormido; mutex = none })
  -- "Error en comando Poll.", exit(1)
  poll_error :
      {d : Dir} {s : Shared} {l : Link}
      → l.out_pc ≡ sondeando
      → OutStep c d s l (record s { vivo = false }) l
  wake :
      {d : Dir} {s : Shared} {l : Link}
      → l.out_pc ≡ dormido
      → OutStep c d s l s (record l { out_pc = despierto })
  relock :
      {d : Dir} {s : Shared} {l : Link}
      → l.out_pc ≡ despierto
      → l.mutex ≡ none
      → OutStep c d s l s (record l { out_pc = saliendo; mutex = some salida })
  read_packet :
      {d : Dir} {s : Shared} {l : Link}
      → l.out_pc ≡ leyendo
      → OutStep c d s l s
          (record l { out_pc = leido (take read_size l.bufer); bufer = drop read_size l.bufer })
  read_time :
      {d : Dir} {s : Shared} {l : Link} {p : Packet} {t : Timespec} {ts : List Timespec}
      → l.out_pc ≡ leido p
      → l.tiempos ≡ t ∷ ts
      → OutStep c d s l s (record l { out_pc = durmiendo p t; tiempos = ts })
  sleep :
      {d : Dir} {s : Shared} {l : Link} {p : Packet} {t : Timespec} (r : ℕ) (u : ℤ)
      → l.out_pc ≡ durmiendo p t
      → u_sec c t l.t_reenvio r ≡ some u
      → OutStep c d s l s (record l { out_pc = decidiendo p })
  -- The division by zero in `rand()%(t2-t1)` ends the process.
  divide_by_zero :
      {d : Dir} {s : Shared} {l : Link} {p : Packet} {t : Timespec} (r : ℕ)
      → l.out_pc ≡ durmiendo p t
      → u_sec c t l.t_reenvio r ≡ none
      → OutStep c d s l (record s { vivo = false }) l
  keep :
      {d : Dir} {s : Shared} {l : Link} {p : Packet} (r : ℕ)
      → l.out_pc ≡ decidiendo p
      → se_envia c r ≡ true
      → OutStep c d s l s
          (record l { out_pc = enviando p; procesados = l.procesados ++ ((p, true) ∷ []) })
  lose :
      {d : Dir} {s : Shared} {l : Link} {p : Packet} (r : ℕ)
      → l.out_pc ≡ decidiendo p
      → se_envia c r ≡ false
      → OutStep c d s l s
          (record l { out_pc = renovando; procesados = l.procesados ++ ((p, false) ∷ []) })
  send_servidor :
      {s : Shared} {l : Link} {p : Packet}
      → l.out_pc ≡ enviando p
      → OutStep c hacia_servidor s l s (record l {
        out_pc = renovando;
        enviados = l.enviados ++ ((p, s.datos_comunicacion_remoto) ∷ []);
      })
  lock_send :
      {s : Shared} {l : Link} {p : Packet}
      → l.out_pc ≡ enviando p
      → s.mutex_cliaddr ≡ none
      → OutStep c hacia_cliente s l
          (record s { mutex_cliaddr = some hacia_cliente })
          (record l { out_pc = enviando_con p })
  send_cliente :
      {s : Shared} {l : Link} {p : Packet}
      → l.out_pc ≡ enviando_con p
      → OutStep c hacia_cliente s l s
          (record l { out_pc = enviado; enviados = l.enviados ++ ((p, s.direccion_cliente) ∷ []) })
  unlock_send :
      {s : Shared} {l : Link}
      → l.out_pc ≡ enviado
      → OutStep c hacia_cliente s l
          (record s { mutex_cliaddr = none })
          (record l { out_pc = renovando })
  renew :
      {d : Dir} {s : Shared} {l : Link} (t : Timespec)
      → l.out_pc ≡ renovando
      → OutStep c d s l s (record l { out_pc = saliendo; t_reenvio = t })
  unlock_out :
      {d : Dir} {s : Shared} {l : Link}
      → l.out_pc ≡ saliendo
      → OutStep c d s l s (record l { out_pc = entrando; mutex = none })
