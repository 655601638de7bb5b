-- ===== src/Connection/Life.antt =====
-- The states of a Connection.
use kknet.Prelude.{
  ℕ, suc, ◌≡◌, refl, Bool, true, false, ◌||◌, Option, some, List, [], ◌∷◌, ◌++◌, ◌>>=◌,
  if◌then◌else◌, arith,
}
use kknet.Buffer.Ops.{KBuffer}
use kknet.Connection.Defs.{
  State, Effect, close_callback, delete_all_event, queue_handle_close, Connection, Handled, is,
  complete_connect, handle_close, Received, arrived, eof, would_block, failed, handle_read,
  connect_destroyed, shutdown, shutdown_in_loop, force_close, Sent, send_in_loop, handle_write,
}

-- The calls that do not use the output buffer.
pub data Event : Type 0 where
  completes closes shuts shuts_in_loop forces destroys : Event
  reads : KBuffer → Received → Event

unfoldable pub step : Connection → Event → Handled
step c completes = complete_connect c
step c closes = handle_close c
step c shuts = shutdown c
step c shuts_in_loop = shutdown_in_loop c
step c forces = force_close c
step c destroys = connect_destroyed c
step c (reads buffer r) = handle_read c buffer r

-- The connection after a sequence of calls, and all effects in order.
unfoldable pub run : Connection → List Event → Handled
run c [] = (c, [])
run c (e ∷ es) = let (c', fs) = step c e in let (c'', gs) = run c' es in (c'', fs ++ gs)

-- The close callbacks among the effects of a connection.
unfoldable pub close_calls : List Effect → ℕ
close_calls [] = 0
close_calls (close_callback ∷ es) = suc (close_calls es)
close_calls (_ ∷ es) = close_calls es

-- All calls: with those that use the output buffer, which can fault, and with what the system call
-- `write` answers.
pub data Call : Type 0 where
  calls : Event → Call
  sends : List ℕ → Sent → Call
  writes : Sent → Call

unfoldable pub perform : ℕ → ℕ → Connection → Call → Option Handled
perform block max c (calls e) = some (step c e)
perform block max c (sends bytes r) = send_in_loop block (λ _. r) max c bytes
perform block max c (writes r) = handle_write block (λ _. r) c

unfoldable pub perform_all : ℕ → ℕ → Connection → List Call → Option Handled
perform_all block max c [] = some (c, [])
perform_all block max c (x ∷ xs) =
    perform block max c x >>= λ r. perform_all block max r.0 xs >>= λ s. some (s.0, r.1 ++ s.1)

-- The calls that open a connection, those by which its user gives it up, and those by which it
-- closes.
abbrev pub is_open : Call → Bool
is_open (calls completes) = true
is_open _ = false

abbrev pub is_leave : Call → Bool
is_leave (calls shuts) = true
is_leave (calls forces) = true
is_leave _ = false

abbrev pub is_close : Call → Bool
is_close (calls closes) = true
is_close (calls (reads b eof)) = true
is_close (calls (reads b failed)) = true
is_close _ = false

-- The calls that change the state.
abbrev pub moves : State → Call → Bool
moves State.disconnected e = is_open e
moves State.connecting e = is_open e
moves State.connected e = is_open e || is_leave e
moves State.disconnecting e = is_open e || is_close e

-- The calls after which a state follows another one.
pub data Follows : State → Call → State → Type 0 where
  opens : (s : State) (e : Call) → is_open e ≡ true → Follows s e State.connected
  leaves : (e : Call) → is_leave e ≡ true → Follows State.connected e State.disconnecting
  ends : (e : Call) → is_close e ≡ true → Follows State.disconnecting e State.disconnected
  stays : (s : State) (e : Call) → moves s e ≡ false → Follows s e s

close_state :
    (s : State) (e : Call)
    → is_close e ≡ true
    → is_open e ≡ false
    → is_leave e ≡ false
    → Follows s e (if is s State.disconnecting then State.disconnected else s)
close_state State.disconnecting e h o l = ends e h
close_state State.disconnected e h o l = stays State.disconnected e o
close_state State.connecting e h o l = stays State.connecting e o
close_state State.connected e h o l = stays State.connected e (rw (o, l) refl)

leave_state :
    (s : State) (e : Call)
    → is_leave e ≡ true
    → is_open e ≡ false
    → is_close e ≡ false
    → Follows s e (if is s State.connected then State.disconnecting else s)
leave_state State.connected e h o l = leaves e h
leave_state State.disconnected e h o l = stays State.disconnected e o
leave_state State.connecting e h o l = stays State.connecting e o
leave_state State.disconnecting e h o l = stays State.disconnecting e (rw (o, l) refl)

pub idle_state :
    (s : State) (e : Call)
    → is_open e ≡ false
    → is_leave e ≡ false
    → is_close e ≡ false
    → Follows s e s
idle_state State.connected e o l h = stays State.connected e (rw (o, l) refl)
idle_state State.disconnected e o l h = stays State.disconnected e o
idle_state State.connecting e o l h = stays State.connecting e o
idle_state State.disconnecting e o l h = stays State.disconnecting e (rw (o, h) refl)

handle_close-state :
    (c : Connection)
    → (handle_close c).0.state
      ≡ (if is c.state State.disconnecting then State.disconnected else c.state)
unfolding handle_close
handle_close-state c = ground arith

shutdown-state :
    (c : Connection)
    → (shutdown c).0.state ≡ (if is c.state State.connected then State.disconnecting else c.state)
unfolding shutdown
shutdown-state c = ground arith

force_close-state :
    (c : Connection)
    → (force_close c).0.state
      ≡ (if is c.state State.connected then State.disconnecting else c.state)
unfolding force_close
force_close-state c = ground arith

pub step-Follows : (c : Connection) (e : Event) → Follows c.state (calls e) (step c e).0.state
unfolding step complete_connect handle_read shutdown_in_loop connect_destroyed
step-Follows c completes = opens c.state (calls completes) refl
step-Follows c closes =
    rw (handle_close-state c) (close_state c.state (calls closes) refl refl refl)
step-Follows c shuts = rw (shutdown-state c) (leave_state c.state (calls shuts) refl refl refl)
step-Follows c shuts_in_loop = idle_state c.state (calls shuts_in_loop) refl refl refl
step-Follows c forces = rw (force_close-state c) (leave_state c.state (calls forces) refl refl refl)
step-Follows c destroys = idle_state c.state (calls destroys) refl refl refl
step-Follows c (reads b arrived) = idle_state c.state (calls (reads b arrived)) refl refl refl
step-Follows c (reads b eof) =
    rw (handle_close-state (record c { input = b }))
      (close_state c.state (calls (reads b eof)) refl refl refl)
step-Follows c (reads b would_block) =
    idle_state c.state (calls (reads b would_block)) refl refl refl
step-Follows c (reads b failed) =
    rw (handle_close-state (record c { input = b }))
      (close_state c.state (calls (reads b failed)) refl refl refl)

-- When the peer closes a connected connection with a close callback, it stays connected. A
-- `forceClose` after that is carried out: the close callback is called a second time, and then the
-- connection is disconnected.
pub closes_twice :
    (c : Connection) (b : KBuffer)
    → c.state ≡ State.connected
    → c.callbacks.close ≡ true
    → ((step c (reads b eof)).0.state ≡ State.connected)
      × ((run c (reads b eof ∷ forces ∷ closes ∷ [])).1
          ≡ delete_all_event ∷ close_callback ∷ queue_handle_close ∷ delete_all_event
            ∷ close_callback ∷ [])
      × ((run c (reads b eof ∷ forces ∷ closes ∷ [])).0.state ≡ State.disconnected)
unfolding run step handle_read handle_close force_close
closes_twice c b e cb = (ground arith, ground arith, ground arith)
