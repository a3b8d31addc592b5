-- ===== src/Erp/Config/Ports.antt =====
-- What `procesamientoDatosDeEntrada` of tarea3/src/erp_udp.c settles for both forms of the command.
use tareas_elo.Common.{
  ℕ, ◌+◌, ◌%◌, ◌^◌, ◌<◌, ◌≡◌, some, List, length, get_elem?, arith, inl, inr, ◌↔◌, ◌≢◌, ap,
  Option-cases, Bool-cases, Option, none, ◌==◌,
}
use tareas_elo.Common.Int.{ℤ, pos, negsuc, ◌+ℤ◌, i32, i64}
use tareas_elo.Common.Doubles.{Doubles}
use tareas_elo.Common.Text.{atoi, strtol}
use tareas_elo.Erp.Config.{
  u16, swap_bytes, htons, Config, configured, parsed, usage_exit, servidor_port, sin_host, con_host,
  procesamiento_datos_de_entrada, inaddr_any,
}

u16-i32 : (z : ℤ) → u16 (i32 z) ≡ u16 z
unfolding i32
u16-i32 (pos n) = ground arith
u16-i32 (negsuc n) = ground arith

u16-next : (z : ℤ) → u16 (i64 (z +ℤ pos 1)) ≡ (u16 z + 1) % 2 ^ 16
unfolding i64 ◌+ℤ◌
u16-next (pos n) = ground arith
u16-next (negsuc n) = ground arith

u16-lt : (z : ℤ) → u16 z < 2 ^ 16
u16-lt (pos n) = omega arith
u16-lt (negsuc n) = omega arith

swap_twice : (x : ℕ) → x < 2 ^ 16 → swap_bytes (swap_bytes x) ≡ x
swap_twice x h = omega arith

-- The two local ports, as numbers, for an argument read by `strtol`, and for one read by `atoi`.
ports_strtol : (s : List ℕ) → swap_bytes (servidor_port s) ≡ (u16 (strtol s) + 1) % 2 ^ 16
unfolding servidor_port htons
ports_strtol s = rw (swap_twice (u16 (i64 (strtol s +ℤ pos 1))) (u16-lt _), u16-next (strtol s))

port_strtol : (s : List ℕ) → swap_bytes (htons (strtol s)) ≡ u16 (strtol s)
unfolding htons
port_strtol s = swap_twice (u16 (strtol s)) (u16-lt _)

ports_atoi : (s : List ℕ) → htons (atoi s) ≡ htons (strtol s)
unfolding htons atoi
ports_atoi s = ap swap_bytes (u16-i32 (strtol s))

-- On any interface: the port that argv[4] says, read by `strtol` modulo 2 ^ 16, and the next one.
abbrev pub ListensAt : List ℕ → Config → Type 0
ListensAt local c =
    (swap_bytes c.donde_recibir_al_cliente.sin_port ≡ u16 (strtol local))
    × (swap_bytes c.llegada_datos_servidor.sin_port ≡ (u16 (strtol local) + 1) % 2 ^ 16)
    × (c.donde_recibir_al_cliente.s_addr ≡ inaddr_any)
    × (c.llegada_datos_servidor.s_addr ≡ inaddr_any)

module _ (d : Doubles) (inet_addr : List ℕ → ℕ) where
  abbrev Listens : List (List ℕ) → Config → Type 0
  Listens argv c = (local : List ℕ) × (get_elem? argv 4 ≡ some local) × ListensAt local c

  parsed-configured : (o : Option Config) (c : Config) → parsed o ≡ configured c → o ≡ some c
  parsed-configured none c e = absurd cc
  parsed-configured (some x) c e = ground arith

  sin_host-Listens :
      (argv : List (List ℕ)) (c : Config) → sin_host d inet_addr argv ≡ some c → Listens argv c
  unfolding sin_host
  sin_host-Listens argv c e = elim (Option-cases (get_elem? argv 4)) [
    | inl missing ↦ absurd (ground arith)
    | inr (local, at) ↦ (local, at, ground (arith, ports_strtol local, port_strtol local))
  ]

  con_host-Listens :
      (argv : List (List ℕ)) (c : Config) → con_host d inet_addr argv ≡ some c → Listens argv c
  unfolding con_host
  con_host-Listens argv c e = elim (Option-cases (get_elem? argv 4)) [
    | inl missing ↦ absurd (ground arith)
    | inr (local, at) ↦
        (local, at, ground (arith, ports_strtol local, ports_atoi local, port_strtol local))
  ]

  -- Whenever the arguments are accepted, with a host or without, the program listens on any
  -- interface at two ports: for the client at the one that argv[4] says, modulo 2 ^ 16, and for the
  -- server at the next one, modulo 2 ^ 16.
  pub procesamiento-ports :
      (argv : List (List ℕ)) (c : Config)
      → procesamiento_datos_de_entrada d inet_addr argv ≡ configured c
      → (local : List ℕ) × (get_elem? argv 4 ≡ some local) × ListensAt local c
  unfolding procesamiento_datos_de_entrada
  procesamiento-ports argv c e = elim (Bool-cases (length argv == 6)) [
    | inl without ↦ sin_host-Listens argv c (parsed-configured _ c (rw without at e))
    | inr longer ↦ elim (Bool-cases (length argv == 7)) [
      | inl with_host ↦
          con_host-Listens argv c (parsed-configured _ c (rw (longer, with_host) at e))
      | inr other ↦ absurd (cc (rw (longer, other) at e))
    ]
  ]

  -- The message on usage, and exit 1, come exactly for a number of arguments other than 6 and 7,
  -- the program's name included.
  pub procesamiento-usage :
      (argv : List (List ℕ))
      → (procesamiento_datos_de_entrada d inet_addr argv ≡ usage_exit (get_elem? argv 0))
        ↔ ((length argv ≢ 6) × (length argv ≢ 7))
  unfolding procesamiento_datos_de_entrada
  procesamiento-usage argv = (λ e. ground arith, λ other. ground arith)
