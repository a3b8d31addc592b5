-- ===== src/Lib.antt =====
-- Models of the programs of this repository, with the theorems that say what they compute.
--
-- csa (tarea2/src/csa.c) corrects the saturation of an audio recording. `main` checks the arguments,
-- starts Octave, reads the samples, smooths the saturated ones, plots, reports an error and plays
-- the three signals. erp_udp (tarea3/src/erp_udp.c) sits between a UDP client and a server and
-- delays and loses packets: two threads per direction, joined by a pipe of packets, a pipe of arrival
-- times, a mutex and a condition variable. NEAT (proyecto/NEAT) evolves neural networks: a genome is a
-- vector of nodes and a vector of connections, each gene at its historical number.
--
-- Files:
--   Common           lists with C's array accesses, machine integers (Common.Int: `i16`, `i32`, `i64`
--                    wrap), C's double as a record of operations (Common.Doubles), `strtol` and
--                    `atoi` (Common.Text).
--   Csa.Samples      `fread` and `fwrite` of one int16_t.
--   Csa.Load         `obtencionDatos`: `count_samples`, `fill_samples`, `saturado`.
--   Csa.Smooth       `suavizamientoDeSaturacion`: `limits`, `block_length`, `lagrange`, `repair`, and
--                    the `for` as `smooth_loop` over `smooth_step`.
--   Csa.Report       `calculoDeError`, `generacionGraficos`, `reproducir`.
--   Csa.Program      `comprobacionDatosEntrada`, `creacionOctave`, `protocoloDeSalida`, `main`.
--   Erp.Config       `procesamientoDatosDeEntrada` and the addresses that it fills.
--   Erp.Delay        `max`, the delay `u_sec` and the draw of the loss `se_envia`.
--   Erp.Link         the two threads of a direction as the relations `InStep` (`entradaDatosDesde…`)
--                    and `OutStep` (`salidaDatosHacia…`) on the shared globals and the state of a
--                    direction.
--   Erp.System       the four threads together: `Step`, and `Reach` for the states of a run.
--   Erp.Start        `main`, `creacionSockets`, `creacionTubos`, `exitOnCtrC`.
--   Neat.Functions   the table of node functions of proyecto/NEAT/src/random_function.cpp.
--   Neat.Draw        `Discrete_Probabilities` of proyecto/NEAT/src/discrete_probabilities.cpp.
--   Neat.Slots       a vector of genes indexed by their numbers, as a genome keeps two.
--   Neat.Genome      the genes and `Genetic_Encoding` of proyecto/NEAT/src/genetic_encoding.cpp.
--   Neat.Eval        `eval`, loop by loop.
--   Neat.Tokens      `strtok`, `atoi` and `atof` as `load` reads a text with them.
--   Neat.Load        `load` and `loadFromArray`: `parse_text` reads the genes, `build` numbers the rows
--                    anew and adds the genes.
--   Neat.Json        `JSON`, the text of a genome; `stream` is a chain of `<<`.
--   Neat.Population  the members of `Population` of proyecto/NEAT/src/NEAT.cpp, and the steps on it.
--   Neat.Table       the table of numbers of pairs of nodes: `obtain`.
--   Neat.History     `obtain_historical_node`, `obtain_innovation`, `obtain_row`.
--   Neat.Crossover   `crossover`; `cross` is the loop over the genes of two parents.
--   Neat.Mutation    `put_randoms_weight`, `mutation_change_weight`, `mutation_node`,
--                    `mutation_connection`.
--   Neat.Compatibility  `compatibility`, the distance of two genomes.
--   Neat.Species     `spatiation`: `share` puts the organisms into niches, `set_niches` tells them.
--   Neat.Reproduce   `epoch_reproduce`: a mate, the crossover and the mutations of one organism.
--   Neat.Epoch       `epoch`: `grade_generation`, then `reproduce`, then `spatiation`.
--   Neat.Start       the constructor of `Population` and `load_user_definitions`.
-- The children of a module prove what their names say; Csa.Tests, Csa.Examples, Erp.Tests,
-- Erp.Examples, Neat.Tests, Neat.Examples and Neat.TextTests run the definitions and apply the theorems
-- at concrete inputs.
--
-- How the code is read. An access outside an array, a division by zero, and the conversion of a
-- double to an integer type that does not hold it are faults, and a function that can fault returns
-- `none` for it. Arithmetic of int and long wraps at 32 and 64 bits where the code can reach that.
-- Memory from `malloc` holds whatever it held: its contents are an argument. C's double, `inet_addr`,
-- the answers of `pipe`, `fork` and `execlp` and the files are arguments too, and what a theorem
-- needs of double is a named law (`SignLaws`, `OrderLaws`); fractions over the integers are an
-- instance of both. The int that counts the samples of a file is a natural number, and a fault where
-- it would overflow. How much of a stream the library has written before it is flushed is an
-- argument (`flushed`).
-- `rand` and the clock may return anything. Loops are structural recursion on the rounds left, which
-- the code bounds by the length of the array or of the file, so no fuel can run out; the exception
-- is the endless loop of `epoch_reproduce`, which draws until it has another niche: it has `tries`
-- rounds, and `other_niche` needs one more than the draws that hit the organism's own niche.
-- In erp_udp, one step is one call that touches shared state. How much the two pipes of a direction
-- hold is a parameter (`Pipes`); a `write` without room waits. Theorems on the bytes of a pipe take
-- that one `read` can empty it, as it can with Linux's pipes of 64 KiB.
-- In the genomes, `exit`, `at` out of range and an index outside a vector end the process (`none`); a
-- gene that is filled in for a missing number holds what its memory held, but for `exist`.
--
-- The population is a state that the operations pass on (`M`): the members of the class and `draws`,
-- what `rand` will return, of which every call takes the first. What the members and locals that
-- nothing sets hold is an argument (`Uninitialised`). `exp` and `fabs` are arguments too. Numbers of
-- nodes, rows and innovations are each below the size of a vector, so int does not overflow there;
-- where the code multiplies a draw by 2, int wraps. A text is a list of bytes that a zero byte
-- follows; a type of a node in it other than 0, 1 and 2 ends the process in the model. What a stream
-- writes for a double is an argument.
--
-- Not modelled: that `recvfrom` fails, and the length that it leaves uninitialised in the thread that
-- listens to the server; in the threads, that `bzero` clears a buffer that is overwritten next, and
-- `usleep(1)`. A thread that steps is free to wait, so time does not appear. What a run prints is a
-- list of effects. Of the folder proyecto: `ANN_function`, which writes a network as a formula, what
-- only writes to files (`save`, `print_niches`, `print_to_file`), HyperNeat, the programs for the
-- robot, and the copy of the V-REP remote API.

pub mod Common
pub mod Csa
pub mod Erp
pub mod Neat
