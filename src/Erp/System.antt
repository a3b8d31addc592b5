-- ===== src/Erp/System.antt =====
-- The four threads of tarea3/src/erp_udp.c over the two directions, interleaved in any order, from
-- the state that `main` starts them in.
pub mod Safety
pub mod Cliaddr
pub mod Sent
pub mod Stuck
pub mod Fusion
use tareas_elo.Common.{ℕ, ◌≡◌, none, [], true, false}
use tareas_elo.Erp.Config.{Config, SockAddr}
use tareas_elo.Erp.Delay.{Timespec}
use tareas_elo.Erp.Link.{
  Dir, hacia_servidor, hacia_cliente, recibiendo, entrando, Shared, Link, Pipes, InStep, OutStep,
}

pub record System : Type 0 where
  pub shared : Shared
  pub servidor : Link
  pub cliente : Link

abbrev pub link : System → Dir → Link
link s hacia_servidor = s.servidor
link s hacia_cliente = s.cliente

abbrev pub put : System → Dir → Shared → Link → System
put s hacia_servidor m l = record s { shared = m; servidor = l }
put s hacia_cliente m l = record s { shared = m; cliente = l }

module _ (c : Config) (k : Pipes) where
  pub data Step (s : System) : System → Type 0 where
    in_step :
        (d : Dir) {m : Shared} {l : Link}
        → s.shared.vivo ≡ true
        → InStep k d s.shared (link s d) m l
        → Step s (put s d m l)
    out_step :
        (d : Dir) {m : Shared} {l : Link}
        → s.shared.vivo ≡ true
        → OutStep c d s.shared (link s d) m l
        → Step s (put s d m l)
    -- `exitOnCtrC`, on a signal
    interrupt :
        s.shared.vivo ≡ true → Step s (record s { shared = record (s.shared) { vivo = false } })

-- The sending thread reads the clock once before its loop.
abbrev pub idle_link : Timespec → Link
idle_link t = record {
  mutex = none;
  bufer = [];
  tiempos = [];
  in_pc = recibiendo;
  out_pc = entrando;
  t_reenvio = t;
  escritos = [];
  procesados = [];
  enviados = [];
}

-- What `main` leaves: globals are zero but for what the arguments set.
abbrev pub init : Config → Timespec → Timespec → System
init c t t' = record {
  shared = record {
    mutex_cliaddr = none;
    direccion_cliente = record { sin_port = 0; s_addr = 0 };
    datos_comunicacion_remoto = c.comunicacion_remoto;
    vivo = true;
  };
  servidor = idle_link t;
  cliente = idle_link t';
}

pub data Reach (c : Config) (k : Pipes) : System → Type 0 where
  start : (t t' : Timespec) → Reach c k (init c t t')
  later : {s u : System} → Reach c k s → Step c k s u → Reach c k u
