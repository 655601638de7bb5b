-- ===== src/Buffer/Tests.antt =====
-- Runs of a KBuffer with blocks of 4 bytes and at most 16 bytes, and the theorems at such inputs.
use kknet.Prelude.{
  Option, ◌+◌, ℕ, ◌<◌, ◌≡◌, ◌⊎◌, refl, true, false, some, none, List, [], ◌∷◌, take, arith, inl,
  inr,
}
use kknet.Buffer.Walk.{
  do_write_first, do_write_rest, peek_first, peek_rest, retrieve_first, retrieve_rest, settle,
}
use kknet.Buffer.Scan.{scan_line, get_line}
use kknet.Buffer.Line.{line_length, get_line-Drops}
use kknet.Buffer.Ops.{KBuffer, new, move_head, do_write, peek, retrieve, read, make_space, write}
use kknet.Buffer.Invariant.{contents, Inv, IsOrdered}
use kknet.Buffer.Append.{Accepted, write-Accepted, write-Refuses}
use kknet.Buffer.Consume.{Drops, read-Drops}
use kknet.Buffer.Fifo.{Call, writes, reads, wrote, got, run, queue_run, run-eq-queue_run}
use kknet.Buffer.Receive.{areas, received, read_fd}
use kknet.Buffer.Scatter.{Added}
use kknet.Buffer.Incoming.{answer, read_fd-Added, read_fd-Loses, exact_read_faults}
use kknet.Buffer.Inflow
use kknet.Buffer.Inflow.{receives, fails, count, run-eq-inflow}
use kknet.Buffer.Faults.{write_exceeds}

abbrev bytes12 : List ℕ
bytes12 = 1 ∷ 2 ∷ 3 ∷ 4 ∷ 5 ∷ 6 ∷ 7 ∷ 8 ∷ 9 ∷ 10 ∷ 11 ∷ 12 ∷ []

abbrev bytes9 : List ℕ
bytes9 = 1 ∷ 2 ∷ 3 ∷ 4 ∷ 5 ∷ 6 ∷ 7 ∷ 8 ∷ 9 ∷ []

-- Six bytes in two blocks, of which three have been read.
abbrev partly : KBuffer
partly = record {
  blocks = (1 ∷ 2 ∷ 3 ∷ 4 ∷ []) ∷ (5 ∷ 6 ∷ 0 ∷ 0 ∷ []) ∷ [];
  readstr = 0;
  writestr = 1;
  readable_pos = 3;
  writable_pos = 2;
  readable_size = 3;
  writable_size = 2;
  used_size = 3;
  buflen = 8;
}

partly-Inv : Inv 4 partly
partly-Inv = record {
  sized = omega arith;
  reading = refl;
  writing = refl;
  total = refl;
  whole = refl;
  read_within = omega arith;
  write_within = omega arith;
  inside = inl (omega arith, omega arith);
  small = omega arith;
}

-- The writing position is the end of the first block, and the next block is being read.
abbrev left_behind : KBuffer
left_behind = record {
  blocks = (9 ∷ 10 ∷ 11 ∷ 12 ∷ []) ∷ (1 ∷ 2 ∷ 3 ∷ 4 ∷ []) ∷ (5 ∷ 6 ∷ 7 ∷ 8 ∷ []) ∷ [];
  readstr = 1;
  writestr = 0;
  readable_pos = 0;
  writable_pos = 4;
  readable_size = 0;
  writable_size = 8;
  used_size = 4;
  buflen = 12;
}

left_behind-Inv : Inv 4 left_behind
left_behind-Inv = record {
  sized = omega arith;
  reading = refl;
  writing = refl;
  total = refl;
  whole = refl;
  read_within = omega arith;
  write_within = omega arith;
  inside = inl (omega arith, omega arith);
  small = omega arith;
}

abbrev calls : List Call
calls = writes (7 ∷ 8 ∷ 9 ∷ []) ∷ reads 4 ∷ writes (10 ∷ []) ∷ reads 9 ∷ []

calls-run :
    run 4 16 partly calls
    ≡ some (wrote 3 ∷ got (4 ∷ 5 ∷ 6 ∷ 7 ∷ []) ∷ wrote 1 ∷ got (8 ∷ 9 ∷ 10 ∷ []) ∷ [])
unfolding run write read peek retrieve move_head do_write make_space do_write_first do_write_rest
    peek_first peek_rest retrieve_first retrieve_rest settle
calls-run = refl

-- From a new buffer, by writes and reads alone: the third write is refused, the last one faults.
oversized_write_then_fault :
    run 4 16 new (writes bytes12 ∷ reads 8 ∷ writes bytes9 ∷ reads 4 ∷ writes bytes9 ∷ []) ≡ none
unfolding run write read peek retrieve move_head do_write make_space do_write_first do_write_rest
    peek_first peek_rest retrieve_first retrieve_rest settle
oversized_write_then_fault = refl

run-eq-queue_run_example : run 4 16 partly calls ≡ some (queue_run (4 ∷ 5 ∷ 6 ∷ []) calls)
run-eq-queue_run_example =
    run-eq-queue_run 4 16 (omega arith) (omega arith) partly calls partly-Inv (omega arith)
      (λ _. refl) (omega arith)

write-Accepted_example :
    (k : KBuffer) × (write 4 16 partly (7 ∷ 8 ∷ 9 ∷ []) ≡ some (3, k))
    × Accepted 4 16 (omega arith) (omega arith) partly (7 ∷ 8 ∷ 9 ∷ []) k
write-Accepted_example =
    write-Accepted 4 16 (omega arith) (omega arith) partly (7 ∷ 8 ∷ 9 ∷ []) partly-Inv (omega arith)
      (inr (omega arith, omega arith))

write-Refuses_example :
    (k : KBuffer) × (write 4 8 partly bytes9 ≡ some (0, k))
    × Inv 4 k
    × IsOrdered k
    × (contents k ≡ 4 ∷ 5 ∷ 6 ∷ [])
    × (k.buflen ≡ 8)
write-Refuses_example =
    write-Refuses 4 8 (omega arith) (omega arith) partly bytes9 partly-Inv (omega arith)
      (omega arith, inl (omega arith))

read-Drops_example : (k : KBuffer) × (read 4 partly 2 ≡ some (4 ∷ 5 ∷ [], k)) × Drops 4 partly 2 k
read-Drops_example = read-Drops 4 (omega arith) partly 2 partly-Inv

write_exceeds_example : (k : KBuffer) × (write 4 16 partly bytes12 ≡ some (12, k)) × (16 < k.buflen)
write_exceeds_example =
    write_exceeds 4 16 partly bytes12 (omega arith) (omega arith) partly-Inv (omega arith)
      (omega arith) (omega arith) (omega arith) (omega arith)

-- The second of three bytes ends a line.
abbrev lines : KBuffer
lines = record partly { blocks = (0 ∷ 0 ∷ 0 ∷ 4 ∷ []) ∷ (10 ∷ 6 ∷ 0 ∷ 0 ∷ []) ∷ [] }

lines-Inv : Inv 4 lines
lines-Inv = record {
  sized = omega arith;
  reading = refl;
  writing = refl;
  total = refl;
  whole = refl;
  read_within = omega arith;
  write_within = omega arith;
  inside = inl (omega arith, omega arith);
  small = omega arith;
}

get_line-Drops_example :
    (line_length (contents lines) ≡ none) × (get_line 4 lines ≡ some (false, [], lines))
    ⊎ ((n : ℕ) × (k : KBuffer) × (line_length (contents lines) ≡ some n)
        × (get_line 4 lines ≡ some (true, take n (contents lines), k))
        × Drops 4 lines n k)
get_line-Drops_example = get_line-Drops 4 (omega arith) lines lines-Inv (omega arith)

-- When the bytes have been read, `getLine` looks at the next one all the same.
abbrev emptied : KBuffer
emptied = record {
  blocks = (1 ∷ 2 ∷ 10 ∷ 4 ∷ []) ∷ [];
  readstr = 0;
  writestr = 0;
  readable_pos = 2;
  writable_pos = 2;
  readable_size = 0;
  writable_size = 2;
  used_size = 2;
  buflen = 4;
}

emptied_line : get_line 4 emptied ≡ some (true, [], emptied)
unfolding get_line scan_line read peek retrieve peek_first retrieve_first settle
emptied_line = refl

-- A descriptor from which these bytes can be read: readv reads as many as the areas hold.
abbrev total : List ℕ → ℕ
total [] = 0
total (n ∷ ns) = n + total ns

abbrev socket : List ℕ → List ℕ → Option (List ℕ)
socket bytes lengths = some (take (total lengths) bytes)

-- One free byte in the first of two blocks, and nothing to read.
abbrev roomy : KBuffer
roomy = record {
  blocks = (1 ∷ 2 ∷ 3 ∷ 4 ∷ []) ∷ (5 ∷ 6 ∷ 7 ∷ 8 ∷ []) ∷ [];
  readstr = 0;
  writestr = 0;
  readable_pos = 3;
  writable_pos = 3;
  readable_size = 0;
  writable_size = 5;
  used_size = 3;
  buflen = 8;
}

roomy-Inv : Inv 4 roomy
roomy-Inv = record {
  sized = omega arith;
  reading = refl;
  writing = refl;
  total = refl;
  whole = refl;
  read_within = omega arith;
  write_within = omega arith;
  inside = inl (omega arith, omega arith);
  small = omega arith;
}

read_fd_errs : read_fd 4 16 partly (λ _. none) ≡ some (none, partly)
unfolding read_fd received
read_fd_errs = refl

socket-partly : answer 4 partly (socket (7 ∷ 8 ∷ 9 ∷ [])) ≡ some (7 ∷ 8 ∷ 9 ∷ [])
unfolding areas
socket-partly = refl

socket-roomy : answer 4 roomy (socket (9 ∷ [])) ≡ some (9 ∷ [])
unfolding areas
socket-roomy = refl

read_fd-Added_example :
    (k : KBuffer) × (read_fd 4 16 partly (socket (7 ∷ 8 ∷ 9 ∷ [])) ≡ some (some 3, k))
    × Added 4 partly (7 ∷ 8 ∷ 9 ∷ []) k
read_fd-Added_example =
    read_fd-Added 4 16 (omega arith) partly partly-Inv (omega arith) (omega arith)
      (socket (7 ∷ 8 ∷ 9 ∷ [])) (7 ∷ 8 ∷ 9 ∷ []) socket-partly (inr (omega arith, omega arith))

read_fd-Loses_example :
    (k : KBuffer) × (read_fd 4 8 partly (socket (7 ∷ 8 ∷ 9 ∷ [])) ≡ some (some 2, k))
    × Added 4 partly (7 ∷ 8 ∷ []) k
read_fd-Loses_example =
    read_fd-Loses 4 8 (omega arith) partly partly-Inv (omega arith) (omega arith)
      (socket (7 ∷ 8 ∷ 9 ∷ [])) (7 ∷ 8 ∷ 9 ∷ []) socket-partly (omega arith, inl (omega arith))

exact_read_faults_example :
    (k : KBuffer) × (k' : KBuffer) × (read_fd 4 16 roomy (socket (9 ∷ [])) ≡ some (some 1, k))
    × (read 4 k k.readable_size ≡ some (9 ∷ [], k'))
    × (write 4 16 k' (1 ∷ 2 ∷ 3 ∷ 4 ∷ 5 ∷ []) ≡ none)
exact_read_faults_example =
    exact_read_faults 4 16 (omega arith) roomy roomy-Inv (omega arith) (omega arith)
      (socket (9 ∷ [])) (9 ∷ []) socket-roomy (1 ∷ 2 ∷ 3 ∷ 4 ∷ 5 ∷ []) (omega arith) (omega arith)
      (omega arith) (omega arith)

-- The second `readFd` ends at the end of a block, and all is read after it.
abbrev inflow : List Inflow.Call
inflow =
    receives (7 ∷ 8 ∷ 9 ∷ [])
    ∷ fails
    ∷ receives (1 ∷ 2 ∷ 3 ∷ [])
    ∷ Inflow.reads 9
    ∷ receives (4 ∷ 5 ∷ [])
    ∷ Inflow.reads 1
    ∷ []

run-eq-inflow_example :
    Inflow.run 4 64 partly inflow
    ≡ some (
        count (some 3)
        ∷ count none
        ∷ count (some 3)
        ∷ Inflow.got (4 ∷ 5 ∷ 6 ∷ 7 ∷ 8 ∷ 9 ∷ 1 ∷ 2 ∷ 3 ∷ [])
        ∷ count (some 2)
        ∷ Inflow.got (4 ∷ [])
        ∷ [])
unfolding Inflow.queue_run
run-eq-inflow_example =
    run-eq-inflow 4 64 (omega arith) (omega arith) partly inflow partly-Inv (omega arith)
      (omega arith)
