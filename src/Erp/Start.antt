-- ===== src/Erp/Start.antt =====
-- `main`, `creacionSockets`, `creacionTubos` and `exitOnCtrC` of tarea3/src/erp_udp.c.
use Prim.Native.String.{String}
use tareas_elo.Common.{
  ℕ, ◌≡◌, Option, none, some, List, [], ◌∷◌, ◌++◌, Bool, if◌then◌else◌, ◌==◌, refl, ◌≢◌, length,
  get_elem?,
}
use tareas_elo.Common.Int.{ℤ, pos, eqb_ℤ}
use tareas_elo.Common.Doubles.{Doubles}
use tareas_elo.Erp.Config.{
  Config, SockAddr, Parsed, configured, usage_exit, fault, procesamiento_datos_de_entrada,
}
use tareas_elo.Erp.Config.Ports.{procesamiento-usage}
use tareas_elo.Erp.Delay.{Timespec}
use tareas_elo.Erp.System.{System, init}

pub data Socket : Type 0 where
  socket_cliente socket_servidor : Socket

-- The ends of the four pipes: 0 to read, 1 to write.
pub data Tubo : Type 0 where
  bufer_cliente bufer_cliente_tiempo bufer_servidor bufer_servidor_tiempo : Tubo

pub data Descriptor : Type 0 where
  of_socket : Socket → Descriptor
  read_end write_end : Tubo → Descriptor

pub data Effect : Type 0 where
  print : String → Effect
  print_usage : Option (List ℕ) → Effect
  print_errno : ℕ → Effect
  close : Descriptor → Effect

-- Where a run of `main` stands: with its four threads started, or ended with a status.
pub data Started : Type 0 where
  running : System → Started
  exited : ℤ → List Effect → Started
  broken : Started

-- The messages for a `bind` that fails with `errno`.
abbrev pub bind_messages : ℕ → List Effect
bind_messages errno =
    print "No se pudo asignar puerto\n"
    ∷ print_errno errno
    ∷ (if errno == 98 then print "Error::Port is already in use\n" ∷ [] else [])

-- After a `bind`, which answered none for 0, or else errno.
abbrev pub after_bind : Option ℕ → Started → Started
after_bind none continue = continue
after_bind (some errno) continue = exited (pos 1) (bind_messages errno)

unfoldable pub creacion_sockets : (Socket → SockAddr → Option ℕ) → Config → Started → Started
creacion_sockets bind c continue =
    after_bind (bind socket_cliente c.donde_recibir_al_cliente)
      (after_bind (bind socket_servidor c.llegada_datos_servidor) continue)

-- What the two functions open.
abbrev pub opened_sockets : List Descriptor
opened_sockets = of_socket socket_cliente ∷ of_socket socket_servidor ∷ []

abbrev pipe : Tubo → List Descriptor
pipe t = read_end t ∷ write_end t ∷ []

unfoldable pub creacion_tubos : List Descriptor
creacion_tubos =
    pipe bufer_cliente
    ++ (pipe bufer_cliente_tiempo ++ (pipe bufer_servidor ++ pipe bufer_servidor_tiempo))

-- Its effects, and whether it ends the process itself.
unfoldable pub exit_on_ctr_c : ℤ → List Effect × Bool
exit_on_ctr_c signal = (
  close (of_socket socket_cliente)
      ∷ close (of_socket socket_servidor)
      ∷ close (read_end bufer_cliente)
      ∷ close (write_end bufer_cliente)
      ∷ close (read_end bufer_cliente_tiempo)
      ∷ close (write_end bufer_cliente_tiempo)
      ∷ close (read_end bufer_servidor)
      ∷ close (write_end bufer_servidor)
      ∷ close (read_end bufer_servidor_tiempo)
      ∷ close (write_end bufer_servidor_tiempo)
      ∷ print "\nSaliendo del programa...\n"
      ∷ [],
  (if eqb_ℤ signal (pos 0) then Bool.false else Bool.true),
)

-- `main` for an argument list, from the addresses on: the sending threads read the clock at t and t'.
unfoldable pub start_threads :
    (Socket → SockAddr → Option ℕ) → Timespec → Timespec → Parsed → Started
start_threads bind t t' (configured c) = creacion_sockets bind c (running (init c t t'))
start_threads bind t t' (usage_exit name) = exited (pos 1) (print_usage name ∷ [])
start_threads bind t t' fault = broken

module _ (d : Doubles) (inet_addr : List ℕ → ℕ) (bind : Socket → SockAddr → Option ℕ) where
  unfoldable pub erp_main : Timespec → Timespec → List (List ℕ) → Started
  erp_main t t' argv = start_threads bind t t' (procesamiento_datos_de_entrada d inet_addr argv)

  -- With any other number of arguments than 5 and 6 behind the name, `main` prints the message on usage,
  -- with the name, and ends with status 1.
  pub erp_main-usage :
      (t t' : Timespec) (argv : List (List ℕ))
      → length argv ≢ 6
      → length argv ≢ 7
      → erp_main t t' argv ≡ exited (pos 1) (print_usage (get_elem? argv 0) ∷ [])
  unfolding erp_main start_threads
  erp_main-usage t t' argv not_6 not_7 =
      rw ((procesamiento-usage d inet_addr argv).1 (not_6, not_7)) refl

-- The descriptors that are closed, in order.
abbrev pub closed : List Effect → List Descriptor
closed [] = []
closed (close x ∷ rest) = x ∷ closed rest
closed (_ ∷ rest) = closed rest

-- What the handler of control-C closes is what `creacionSockets` and `creacionTubos` opened: all of
-- it, each once, in the same order.
pub exit_on_ctr_c-closes :
    (signal : ℤ) → closed (exit_on_ctr_c signal).0 ≡ opened_sockets ++ creacion_tubos
unfolding exit_on_ctr_c creacion_tubos
exit_on_ctr_c-closes signal = refl
