-- ===== src/Client/Closing.antt =====
-- What a Client learns of the end of its connection.
use kknet.Prelude.{
  ℕ, zero, suc, ◌≡◌, refl, ap, true, false, Bool, Option, none, some, List, [], ◌∷◌, inl, inr,
  Bool-cases, Option-cases, ◌++◌, map, sym, ◌∙◌, append-nil, ◌>>=◌, Each,
}
use kknet.Connector.Defs.{Errno}
use kknet.Connection.Defs.{
  Connection, Callbacks, complete_connect, handle_close, handle_read, Received, arrived, eof,
  would_block, failed, connect_destroyed, shutdown, shutdown_in_loop, force_close, send_in_loop,
  handle_write,
}
use kknet.Connection.Life.{
  Event, completes, closes, shuts, shuts_in_loop, forces, destroys, reads, step, close_calls, Call,
  calls, sends, writes, perform, perform_all,
}
use kknet.Connection.Defs
use kknet.Client.Defs.{Client, Act, by_connection, given, new_connection, remove_connection}
use kknet.Connection.States.{Quiet, send_in_loop-Quiet, handle_write-Quiet}
use mathlib.Core.Option
use mathlib.Core.List.{map-append}

-- What the client and its connection do, as a list of acts. A close callback of the connection would
-- be `removeConnection`, which is private to the client and meant for that.
unfoldable pub remove_times : ℕ → Client → ℕ → Errno → Client × List Act
remove_times zero cl fd e = (cl, [])
remove_times (suc n) cl fd e =
    let r = remove_connection cl fd e in let s = remove_times n r.0 fd e in (s.0, r.1 ++ s.1)

abbrev pub moved : Client → Connection × List Defs.Effect → ℕ → Errno → Client × List Act
moved cl r fd e =
    let s = remove_times (close_calls r.1) (record cl { connection = some r.0 }) fd e in
    (s.0, map by_connection r.1 ++ s.1)

module _ (block max : ℕ) where
  abbrev pub move : Client → Option Connection → Call → ℕ → Errno → Option (Client × List Act)
  move cl none x fd e = some (cl, [])
  move cl (some c) x fd e = perform block max c x >>= λ r. some (moved cl r fd e)

  -- The client after a sequence of calls of its connection, and the acts in order. `fd` and `e` are
  -- what a new attempt would get.
  unfoldable pub run_calls : Client → List Call → ℕ → Errno → Option (Client × List Act)
  run_calls cl [] fd e = some (cl, [])
  run_calls cl (x ∷ xs) fd e =
      move cl cl.connection x fd e >>= λ r. run_calls r.0 xs fd e >>= λ s. some (s.0, r.1 ++ s.1)

-- A connection without a close callback.
emit-quiet : (b : Bool) → close_calls (Defs.emit b Defs.connection_callback) ≡ 0
unfolding close_calls
emit-quiet true = refl
emit-quiet false = refl

Silent : Connection × List Defs.Effect → Type 0
Silent r = (close_calls r.1 ≡ 0) × (r.0.callbacks.close ≡ false)

close-Silent : (c : Connection) → c.callbacks.close ≡ false → Silent (handle_close c)
unfolding Silent close_calls handle_close
close-Silent c h = elim (Bool-cases (Defs.is c.state Defs.State.disconnecting)) [
  | inl y ↦ rw (y, h) (refl, refl)
  | inr n ↦ rw (n, h) (refl, refl)
]

step-Silent : (c : Connection) (ev : Event) → c.callbacks.close ≡ false → Silent (step c ev)
unfolding Silent step close_calls complete_connect handle_read connect_destroyed shutdown
    shutdown_in_loop force_close
step-Silent c completes h = (emit-quiet c.callbacks.connection, h)
step-Silent c closes h = close-Silent c h
step-Silent c shuts h = elim (Bool-cases (Defs.is c.state Defs.State.connected)) [
  | inl y ↦ rw y (refl, h)
  | inr n ↦ rw n (refl, h)
]
step-Silent c shuts_in_loop h = elim (Bool-cases c.writing) [
  | inl y ↦ rw y (refl, h)
  | inr n ↦ rw n (refl, h)
]
step-Silent c forces h = elim (Bool-cases (Defs.is c.state Defs.State.connected)) [
  | inl y ↦ rw y (refl, h)
  | inr n ↦ rw n (refl, h)
]
step-Silent c destroys h = (refl, h)
step-Silent c (reads b arrived) h = elim (Bool-cases c.callbacks.message) [
  | inl y ↦ rw y (refl, h)
  | inr n ↦ rw n (refl, h)
]
step-Silent c (reads b eof) h = close-Silent (record c { input = b }) h
step-Silent c (reads b would_block) h = (refl, h)
step-Silent c (reads b failed) h = close-Silent (record c { input = b }) h

-- The client with the connection that it has then, and what its connection has done.
abbrev pub kept : Client → Connection × List Defs.Effect → Client × List Act
kept cl r = (record cl { connection = some r.0 }, map by_connection r.1)

Quiet-Silent :
    (c : Connection) (o : Option (Connection × List Defs.Effect))
    → c.callbacks.close ≡ false
    → Each (Quiet c) o
    → Each Silent o
unfolding Silent
Quiet-Silent c none h q = tt
Quiet-Silent c (some r) h q = (q.silent, rw q.callbacks h)

joined :
    (cl : Client) (es : List Defs.Effect) (o : Option (Connection × List Defs.Effect))
    → (Option.map (kept cl) o >>= λ s. some (s.0, (map by_connection es ++ []) ++ s.1))
      ≡ Option.map (kept cl) (o >>= λ s. some (s.0, es ++ s.1))
joined cl es none = refl
joined cl es (some s) =
    ap (λ (acts : List Act). some ((record cl { connection = some s.0 }, acts)))
      (ap (λ (acts : List Act). acts ++ map by_connection s.1) (append-nil (map by_connection es))
        ∙ sym (map-append by_connection es s.1))

module _ (block max : ℕ) where
  perform-Silent :
      (c : Connection) (x : Call) → c.callbacks.close ≡ false → Each Silent (perform block max c x)
  unfolding perform
  perform-Silent c (calls e) h = step-Silent c e h
  perform-Silent c (sends bytes r) h =
      Quiet-Silent c (send_in_loop block (λ _. r) max c bytes) h
        (send_in_loop-Quiet block max r c bytes)
  perform-Silent c (writes r) h =
      Quiet-Silent c (handle_write block (λ _. r) c) h (handle_write-Quiet block max r c)

  run_calls-silent :
      (cl : Client) (c : Connection) (xs : List Call) (fd : ℕ) (e : Errno)
      → c.callbacks.close ≡ false
      → run_calls block max (record cl { connection = some c }) xs fd e
        ≡ Option.map (kept cl) (perform_all block max c xs)
  unfolding run_calls perform_all Silent remove_times
  run_calls-silent cl c [] fd e h = refl
  run_calls-silent cl c (x ∷ xs) fd e h = elim (Option-cases (perform block max c x)) [
    | inl f ↦ rw f refl
    | inr (r, f) ↦
        let quiet : Silent r = rw f at (perform-Silent c x h) in
        let rest = run_calls-silent cl r.0 xs fd e quiet.1 in
        rw (f, quiet.0, rest) (joined cl r.1 (perform_all block max r.0 xs))
  ]

-- Whatever the calls of the connection that a Client gets, those that send and all ends and errors
-- included: the client keeps the connection that these calls make, and what it and its connection do
-- is what the connection does. So the client does not remove it, its connector stays as it is, and
-- there is no new attempt, whether it is to retry or not. The calls fault when the buffers do.
pub new_connection-silent :
    (block max : ℕ) (cl : Client) (garbage : Bool) (xs : List Call) (fd : ℕ) (e : Errno)
    → run_calls block max (new_connection cl garbage).0 xs fd e
      ≡ Option.map
          (kept (record cl { next_conn_id = suc cl.next_conn_id }))
          (perform_all block max (complete_connect (Defs.init garbage (given cl.callbacks))).0 xs)
unfolding new_connection Defs.init complete_connect
new_connection-silent block max cl garbage xs fd e =
    run_calls-silent block max (record cl { next_conn_id = suc cl.next_conn_id })
      (complete_connect (Defs.init garbage (given cl.callbacks))).0 xs fd e refl
