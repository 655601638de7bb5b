-- ===== src/Connection/Tests.antt =====
-- Runs of a Connection with blocks of 4 bytes, and the theorems at concrete connections.
use kknet.Prelude.{
  ℕ, ◌≡◌, ◌<◌, refl, ◌⊎◌, inl, inr, true, false, some, Each, List, [], ◌∷◌, length, arith,
}
use kknet.Poll.Handler.{EventType}
use kknet.Buffer.Ops.{KBuffer, new}
use kknet.Buffer.Invariant.{contents, Inv, new-Inv}
use kknet.Connection.Defs.{
  State, Callbacks, Effect, socket_write, delete_event, queue_write_complete, Connection, Handled,
  Sent, took, handle_write, send_in_loop,
}
use kknet.Connection.Sending.{Sends, send_in_loop-loses, send_in_loop-keeps}
use kknet.Connection.Draining.{handle_write-drops}
use kknet.Connection.Life.{sends, perform, Follows}
use kknet.Connection.States.{perform-Follows}

abbrev all_set : Callbacks
all_set = record { connection = true; message = true; write_complete = true; close = true }

abbrev idle : Connection
idle = record {
  state = State.connected;
  reading = true;
  writing = false;
  input = new;
  output = new;
  callbacks = all_set;
}

-- A buffer of two blocks with the bytes given, up to seven.
abbrev five : KBuffer
five = record {
  blocks = (72 ∷ 73 ∷ 74 ∷ 75 ∷ []) ∷ (76 ∷ 0 ∷ 0 ∷ 0 ∷ []) ∷ [];
  readstr = 0;
  writestr = 1;
  readable_pos = 0;
  writable_pos = 1;
  readable_size = 5;
  writable_size = 3;
  used_size = 0;
  buflen = 8;
}

five-Inv : Inv 4 five
five-Inv = record {
  sized = omega arith;
  reading = refl;
  writing = refl;
  total = refl;
  whole = refl;
  read_within = omega arith;
  write_within = omega arith;
  inside = inl (omega arith, omega arith);
  small = omega arith;
}

abbrev zero_first : KBuffer
zero_first = record five { blocks = (0 ∷ 73 ∷ 74 ∷ 75 ∷ []) ∷ (76 ∷ 0 ∷ 0 ∷ 0 ∷ []) ∷ [] }

zero_first-Inv : Inv 4 zero_first
zero_first-Inv = record {
  sized = omega arith;
  reading = refl;
  writing = refl;
  total = refl;
  whole = refl;
  read_within = omega arith;
  write_within = omega arith;
  inside = inl (omega arith, omega arith);
  small = omega arith;
}

abbrev full : KBuffer
full = record {
  blocks = (72 ∷ 73 ∷ 74 ∷ 75 ∷ []) ∷ [];
  readstr = 0;
  writestr = 0;
  readable_pos = 0;
  writable_pos = 4;
  readable_size = 4;
  writable_size = 0;
  used_size = 0;
  buflen = 4;
}

full-Inv : Inv 4 full
full-Inv = record {
  sized = omega arith;
  reading = refl;
  writing = refl;
  total = refl;
  whole = refl;
  read_within = omega arith;
  write_within = omega arith;
  inside = inl (omega arith, omega arith);
  small = omega arith;
}

-- A socket that takes two bytes at most, and one that takes all.
abbrev takes_two : List ℕ → Sent
takes_two [] = took 0
takes_two (a ∷ []) = took 1
takes_two (a ∷ b ∷ bs) = took 2

abbrev takes_all : List ℕ → Sent
takes_all bs = took (length bs)

abbrev busy : Connection
busy = record idle { writing = true; output = five }

send_in_loop-loses_example :
    (c' : Connection) × (es : List Effect) × (send_in_loop 4 takes_two 16 idle (1 ∷ 2 ∷ 3 ∷ [])
      ≡ some (c', es))
    × (send_in_loop 4 takes_two 16 c' (7 ∷ []) ≡ some (c', []))
    × (contents c'.output ≡ 3 ∷ [])
send_in_loop-loses_example =
    send_in_loop-loses 4 16 (omega arith) (omega arith) takes_two idle (1 ∷ 2 ∷ 3 ∷ []) (7 ∷ []) 2
      (λ e. cc) refl refl (new-Inv 4) (omega arith) refl (omega arith)
      (inr (omega arith, omega arith))

send_in_loop-keeps_example :
    (c' : Connection) × (es : List Effect) × (send_in_loop 4 takes_two 16 idle (1 ∷ 2 ∷ 3 ∷ [])
      ≡ some (c', es))
    × (contents c'.output ≡ 3 ∷ [])
    × Inv 4 c'.output
    × Sends idle (1 ∷ 2 ∷ 3 ∷ []) 2 c' es
send_in_loop-keeps_example =
    send_in_loop-keeps 4 16 (omega arith) (omega arith) takes_two idle (1 ∷ 2 ∷ 3 ∷ []) 2 (λ e. cc)
      refl refl (new-Inv 4) (omega arith) refl (inr (omega arith, omega arith))

handle_write-drops_example :
    (c' : Connection) × (es : List Effect) × (handle_write 4 takes_two busy
      ≡ some (c', socket_write (72 ∷ 73 ∷ 74 ∷ 75 ∷ 76 ∷ []) ∷ es))
    × (contents c'.output ≡ 74 ∷ 75 ∷ 76 ∷ [])
    × ((c'.output.readable_size ≡ 0)
          × (c'.writing ≡ false)
          × (es ≡ delete_event EventType.write ∷ queue_write_complete ∷ [])
        ⊎ (0 < c'.output.readable_size) × (c'.writing ≡ true) × (es ≡ []))
handle_write-drops_example =
    handle_write-drops 4 (omega arith) takes_two busy 1 refl five-Inv (omega arith) (omega arith)
      refl

perform-Follows_example :
    Each
      (λ (r : Handled). Follows State.connected (sends (1 ∷ 2 ∷ 3 ∷ []) (took 2)) r.0.state)
      (perform 4 16 idle (sends (1 ∷ 2 ∷ 3 ∷ []) (took 2)))
perform-Follows_example = perform-Follows 4 16 idle (sends (1 ∷ 2 ∷ 3 ∷ []) (took 2))
