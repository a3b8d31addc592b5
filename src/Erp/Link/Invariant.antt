-- ===== src/Erp/Link/Invariant.antt =====
-- What holds of one direction of the emulator (tarea3/src/erp_udp.c) between any two steps.
use tareas_elo.Common.{
  ℕ, zero, suc, ◌≤◌, ◌≡◌, ◌≢◌, refl, none, some, List, [], ◌∷◌, ◌++◌, length, take, drop, Bool,
  true, false, arith, append-nil, append_assoc, length-append, ap, sym,
}
use native.Mathlib.Nat.{le_trans}
use tareas_elo.Erp.Config.{Config}
use tareas_elo.Erp.Delay.{Timespec}
use tareas_elo.Erp.Link.{
  Dir, entrada, salida, Packet, InPc, OutPc, escribiendo, escrito, avisando, soltando, entrando,
  leyendo, leido, durmiendo, decidiendo, dormido, despierto, Shared, Link, Pipes, read_size, InStep,
  OutStep, recv_cliente, recv_servidor, lock_cliaddr, copy_cliaddr, unlock_cliaddr, stamp, lock_in,
  write_packet, write_time, signal_waiting, signal_nobody, unlock_in, lock_out, poll_data,
  poll_empty, poll_error, wake, relock, read_packet, read_time, sleep, divide_by_zero, keep, lose,
  send_servidor, lock_send, send_cliente, unlock_send, renew, unlock_out,
}

-- Between the lock of the pipe and its unlock.
abbrev pub in_holds : InPc → Bool
in_holds (escribiendo _ _) = true
in_holds (escrito _) = true
in_holds avisando = true
in_holds soltando = true
in_holds _ = false

abbrev pub out_holds : OutPc → Bool
out_holds entrando = false
out_holds dormido = false
out_holds despierto = false
out_holds _ = true

-- The packet is written, its time is not.
abbrev pub half_written : InPc → Bool
half_written (escrito _) = true
half_written _ = false

-- Something is written, the signal is still to come.
abbrev pub will_signal : InPc → Bool
will_signal (escrito _) = true
will_signal avisando = true
will_signal _ = false

-- What the sending thread has read and not yet decided on.
abbrev pub en_mano : OutPc → List ℕ
en_mano (leido p) = p
en_mano (durmiendo p _) = p
en_mano (decidiendo p) = p
en_mano _ = []

abbrev pub bytes_of : List (Packet × Bool) → List ℕ
bytes_of [] = []
bytes_of ((p, sent) ∷ rest) = p ++ bytes_of rest

abbrev Reading : Link → OutPc → Type 0
Reading l leyendo = l.bufer ≢ []
Reading l (leido _) = (l.bufer ≡ []) × (l.tiempos ≢ [])
Reading l _ = Unit

abbrev Awaited : Link → OutPc → Type 0
Awaited l dormido = will_signal l.in_pc ≡ false → l.bufer ≡ []
Awaited l _ = Unit

pub record Inv (k : Pipes) (l : Link) : Type 0 where
  pub in_owns : in_holds l.in_pc ≡ true → l.mutex ≡ some entrada
  pub out_owns : out_holds l.out_pc ≡ true → l.mutex ≡ some salida
  pub owner_in : l.mutex ≡ some entrada → in_holds l.in_pc ≡ true
  pub owner_out : l.mutex ≡ some salida → out_holds l.out_pc ≡ true
  pub room : length l.bufer ≤ k.packet_room
  pub stream : l.escritos ≡ bytes_of l.procesados ++ (en_mano l.out_pc ++ l.bufer)
  pub stamped : half_written l.in_pc ≡ false → l.bufer ≢ [] → l.tiempos ≢ []
  pub reading : Reading l l.out_pc
  pub awaited : Awaited l l.out_pc

bytes_of-append :
    (ps : List (Packet × Bool)) (p : Packet) (b : Bool)
    → bytes_of (ps ++ ((p, b) ∷ [])) ≡ bytes_of ps ++ p
bytes_of-append [] p b = append-nil p
bytes_of-append ((q, _) ∷ ps) p b =
    rw (bytes_of-append ps p b) (sym (append_assoc q (bytes_of ps) p))

append_ne : (ts : List Timespec) (t : Timespec) → ts ++ (t ∷ []) ≢ []
append_ne [] t e = cc
append_ne (u ∷ ts) t e = cc

pub take-all : (n : ℕ) (xs : List ℕ) → length xs ≤ n → take n xs ≡ xs
take-all zero [] h = refl
take-all (suc n) [] h = refl
take-all (suc n) (x ∷ xs) h = ap (λ r. x ∷ r) (take-all n xs (omega arith))
take-all zero (x ∷ xs) h = absurd (omega arith)

drop-all : (n : ℕ) (xs : List ℕ) → length xs ≤ n → drop n xs ≡ []
drop-all zero [] h = refl
drop-all (suc n) [] h = refl
drop-all (suc n) (x ∷ xs) h = drop-all n xs (omega arith)
drop-all zero (x ∷ xs) h = absurd (omega arith)

module _ (k : Pipes) where
  pub InStep-Inv :
      {d : Dir} {s s' : Shared} {l l' : Link} → InStep k d s l s' l' → Inv k l → Inv k l'
  InStep-Inv (recv_cliente p a e fits) v = ground arith
  InStep-Inv (recv_servidor p a e fits) v = ground arith
  InStep-Inv (lock_cliaddr e free) v = ground arith
  InStep-Inv (copy_cliaddr e) v = ground arith
  InStep-Inv (unlock_cliaddr e) v = ground arith
  InStep-Inv (stamp t e) v = ground arith
  InStep-Inv (lock_in e free) v = ground arith
  InStep-Inv (write_packet {l = l} {p = p} e fits) v = ground (
    arith,
    length-append l.bufer p,
    append_assoc (bytes_of l.procesados) (en_mano l.out_pc ++ l.bufer) p,
    append_assoc (en_mano l.out_pc) l.bufer p,
  )
  InStep-Inv (write_time {l = l} {t = t} e fits) v = ground (arith, append_ne l.tiempos t)
  InStep-Inv (signal_waiting e waits) v = ground arith
  InStep-Inv (signal_nobody e other) v = ground arith
  InStep-Inv (unlock_in e) v = ground arith

-- A read that empties the pipe.
read-Inv :
    (k : Pipes) (l : Link) (p rest : List ℕ)
    → p ≡ l.bufer
    → rest ≡ []
    → l.out_pc ≡ leyendo
    → Inv k l
    → Inv k (record l { bufer = rest; out_pc = leido p })
read-Inv k l p rest all empty e v = ground (arith, append-nil l.bufer)

-- A pipe holds no more than one `read` can take.
module _ (k : Pipes) (fits : k.packet_room ≤ read_size) (c : Config) where
  pub OutStep-Inv :
      {d : Dir} {s s' : Shared} {l l' : Link} → OutStep c d s l s' l' → Inv k l → Inv k l'
  OutStep-Inv (lock_out e free) v = ground arith
  OutStep-Inv (poll_data e more) v = ground arith
  OutStep-Inv (poll_empty e nothing) v = ground arith
  OutStep-Inv (poll_error e) v = v
  OutStep-Inv (wake e) v = ground arith
  OutStep-Inv (relock e free) v = ground arith
  OutStep-Inv (read_packet {l = l} e) v =
      read-Inv k l (take read_size l.bufer) (drop read_size l.bufer)
        (take-all read_size l.bufer (le_trans v.room fits))
        (drop-all read_size l.bufer (le_trans v.room fits)) e v
  OutStep-Inv (read_time e at) v = ground arith
  OutStep-Inv (sleep r u e slept) v = ground arith
  OutStep-Inv (divide_by_zero r e zero_width) v = v
  OutStep-Inv (keep {l = l} {p = p} r e luck) v =
      ground
        (arith, bytes_of-append l.procesados p true, append_assoc (bytes_of l.procesados) p l.bufer)
  OutStep-Inv (lose {l = l} {p = p} r e luck) v =
      ground (
        arith,
        bytes_of-append l.procesados p false,
        append_assoc (bytes_of l.procesados) p l.bufer,
      )
  OutStep-Inv (send_servidor e) v = ground arith
  OutStep-Inv (lock_send e free) v = ground arith
  OutStep-Inv (send_cliente e) v = ground arith
  OutStep-Inv (unlock_send e) v = ground arith
  OutStep-Inv (renew t e) v = ground arith
  OutStep-Inv (unlock_out e) v = ground arith

pub asleep-empty :
    (k : Pipes) (l : Link) → Inv k l → l.out_pc ≡ dormido → l.mutex ≡ none → l.bufer ≡ []
asleep-empty k l v asleep free = ground arith

pub leido-time : (k : Pipes) (l : Link) (p : Packet) → Inv k l → l.out_pc ≡ leido p → l.tiempos ≢ []
leido-time k l p v e = ground arith
