-- ===== src/Erp/Config.antt =====
-- `procesamientoDatosDeEntrada` of tarea3/src/erp_udp.c: the arguments and the three addresses.
pub mod Ports
use tareas_elo.Common.{
  ℕ, ◌+◌, ◌-◌, ◌*◌, ◌/◌, ◌%◌, ◌^◌, Option, none, some, List, [], ◌∷◌, length, get_elem?, ◌>>=◌,
  if◌then◌else◌, ◌==◌,
}
use tareas_elo.Common.Int.{ℤ, pos, negsuc, ◌+ℤ◌, i64}
use tareas_elo.Common.Doubles.{Doubles, convert}
use tareas_elo.Common.Text.{atoi, strtol}

-- The conversion to uint16_t.
abbrev pub u16 : ℤ → ℕ
u16 (pos n) = n % 2 ^ 16
u16 (negsuc n) = 2 ^ 16 - 1 - n % 2 ^ 16

-- On a little-endian machine `htons` and `ntohs` both swap the bytes of 16 bits.
abbrev pub swap_bytes : ℕ → ℕ
swap_bytes x = x % 256 * 256 + x / 256

unfoldable pub htons : ℤ → ℕ
htons z = swap_bytes (u16 z)

-- `struct sockaddr_in`: port and address as the code stores them.
pub record SockAddr : Type 0 where
  pub sin_port : ℕ
  pub s_addr : ℕ

-- The globals that the function fills.
pub record Config : Type 0 where
  pub retardo_promedio : ℤ
  pub variacion_retardo : ℤ
  pub porcentaje_perdida : ℤ
  pub donde_recibir_al_cliente : SockAddr
  pub comunicacion_remoto : SockAddr
  pub llegada_datos_servidor : SockAddr

-- `exit(1)` behind the message on usage, which has argv[0] (none where there is no argument), or a fault (a double that no int holds).
pub data Parsed : Type 0 where
  configured : Config → Parsed
  usage_exit : Option (List ℕ) → Parsed
  fault : Parsed

-- `INADDR_ANY`.
abbrev pub inaddr_any : ℕ
inaddr_any = 0

abbrev localhost : List ℕ
localhost = b'1' ∷ b'2' ∷ b'7' ∷ b'.' ∷ b'0' ∷ b'.' ∷ b'0' ∷ b'.' ∷ b'1' ∷ []

abbrev pub parsed : Option Config → Parsed
parsed none = fault
parsed (some c) = configured c

-- `htons( strtol(argv[4],NULL,10) + 1 )`, shared by both forms of the command line.
unfoldable pub servidor_port : List ℕ → ℕ
servidor_port puerto = htons (i64 (strtol puerto +ℤ pos 1))

-- `inet_addr` of the C library is a parameter.
module _ (d : Doubles) (inet_addr : List ℕ → ℕ) where
  -- `argc == 6`.
  unfoldable pub sin_host : List (List ℕ) → Option Config
  sin_host argv = get_elem? argv 1 >>= λ retardo. get_elem? argv 2 >>= λ variacion.
      get_elem? argv 3 >>= λ perdida. get_elem? argv 4 >>= λ local. get_elem? argv 5 >>= λ remoto.
      some (record {
        retardo_promedio = atoi retardo;
        variacion_retardo = atoi variacion;
        porcentaje_perdida = atoi perdida;
        donde_recibir_al_cliente = record { sin_port = htons (strtol local); s_addr = inaddr_any };
        comunicacion_remoto = record {
          sin_port = htons (strtol remoto);
          s_addr = inet_addr localhost;
        };
        llegada_datos_servidor = record { sin_port = servidor_port local; s_addr = inaddr_any };
      })

  -- `argc == 7`: the three numbers are read by `atof` and converted to int.
  unfoldable pub con_host : List (List ℕ) → Option Config
  con_host argv = get_elem? argv 1 >>= λ retardo. get_elem? argv 2 >>= λ variacion.
      get_elem? argv 3 >>= λ perdida. get_elem? argv 4 >>= λ local. get_elem? argv 5 >>= λ host.
      get_elem? argv 6 >>= λ remoto. convert d (2 ^ 31) (d.atof retardo) >>= λ r.
      convert d (2 ^ 31) (d.atof variacion) >>= λ v. convert d (2 ^ 31) (d.atof perdida) >>= λ p.
      some (record {
        retardo_promedio = r;
        variacion_retardo = v;
        porcentaje_perdida = p;
        donde_recibir_al_cliente = record { sin_port = htons (atoi local); s_addr = inaddr_any };
        comunicacion_remoto = record { sin_port = htons (atoi remoto); s_addr = inet_addr host };
        llegada_datos_servidor = record { sin_port = servidor_port local; s_addr = inaddr_any };
      })

  unfoldable pub procesamiento_datos_de_entrada : List (List ℕ) → Parsed
  procesamiento_datos_de_entrada argv =
      if length argv == 6
      then parsed (sin_host argv)
      else if length argv == 7
      then parsed (con_host argv)
      else usage_exit (get_elem? argv 0)
