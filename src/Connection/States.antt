-- ===== src/Connection/States.antt =====
-- The calls that send, and the states of a Connection.
use kknet.Prelude.{
  ℕ, zero, suc, ◌-◌, ◌≡◌, refl, true, false, inl, inr, Bool-cases, Option-cases, Bool, sym, subst,
  not, ◌&&◌, Option, none, some, List, [], ◌∷◌, ◌++◌, ◌==◌, length, drop, if◌then◌else◌, ◌>>=◌,
  Each,
}
use kknet.Poll.Handler.{EventType}
use kknet.Buffer.Ops.{KBuffer, write, retrieve}
use kknet.Connection.Defs.{
  State, Effect, socket_write, set_event, Connection, Handled, Sent, took, broken, refused, is,
  emit, keep, after_send, send_in_loop, after_write, drained, handle_write, queue_write_complete,
  shutdown_in_loop, peek_all_as_string,
}
use kknet.Connection.Life.{
  Call, calls, sends, writes, perform, Follows, idle_state, step-Follows, close_calls,
}

-- What the calls that send leave as it was, and that they call no close callback.
pub record Quiet (c : Connection) (r : Handled) : Type 0 where
  pub state : r.0.state ≡ c.state
  pub callbacks : r.0.callbacks ≡ c.callbacks
  pub silent : close_calls r.1 ≡ 0

keep_bytes :
    (c : Connection) (es : List Effect) (o : Option (ℕ × KBuffer))
    → close_calls (es ++ (set_event EventType.write ∷ [])) ≡ 0
    → Each (Quiet c) (
        o >>= λ w.
        some (record c { output = w.1; writing = true }, es ++ (set_event EventType.write ∷ [])))
keep_bytes c es none h = tt
keep_bytes c es (some w) h = record { state = refl; callbacks = refl; silent = h }

module _ (block max : ℕ) (r : Sent) where
  keep-Quiet :
      (c : Connection) (rest : List ℕ) (es : List Effect)
      → close_calls es ≡ 0
      → close_calls (es ++ (set_event EventType.write ∷ [])) ≡ 0
      → Each (Quiet c) (keep block (λ _. r) max c rest es)
  keep-Quiet c [] es h k = record { state = refl; callbacks = refl; silent = h }
  keep-Quiet c (b ∷ rest) es h k = keep_bytes c es (write block max c.output (b ∷ rest)) k

  noted :
      (b : Bool) (bytes : List ℕ)
      → close_calls (socket_write bytes ∷ emit b queue_write_complete) ≡ 0
  unfolding close_calls
  noted true bytes = refl
  noted false bytes = refl

  noted_more :
      (b : Bool) (bytes : List ℕ)
      → close_calls
          ((socket_write bytes ∷ emit b queue_write_complete) ++ (set_event EventType.write ∷ []))
        ≡ 0
  unfolding close_calls
  noted_more true bytes = refl
  noted_more false bytes = refl

  after_send-Quiet :
      (c : Connection) (bytes : List ℕ) (a : Sent)
      → Each (Quiet c) (after_send block (λ _. r) max c bytes a)
  unfolding close_calls
  after_send-Quiet c bytes (took n) =
      let b = length bytes - n == 0 && c.callbacks.write_complete in
      keep-Quiet c (drop n bytes) (socket_write bytes ∷ emit b queue_write_complete) (noted b bytes)
        (noted_more b bytes)
  after_send-Quiet c bytes broken = record { state = refl; callbacks = refl; silent = refl }
  after_send-Quiet c bytes refused = keep-Quiet c bytes (socket_write bytes ∷ []) refl refl

  pub send_in_loop-Quiet :
      (c : Connection) (bytes : List ℕ) → Each (Quiet c) (send_in_loop block (λ _. r) max c bytes)
  unfolding send_in_loop close_calls
  send_in_loop-Quiet c bytes = elim (Bool-cases (is c.state State.disconnected)) [
    | inl e ↦ rw e (record { state = refl; callbacks = refl; silent = refl })
    | inr e ↦ elim (Bool-cases (not c.writing && (c.output.readable_size == 0))) [
      | inl f ↦ rw (e, f) (after_send-Quiet c bytes r)
      | inr f ↦ rw (e, f) (record { state = refl; callbacks = refl; silent = refl })
    ]
  ]

  drained-Quiet :
      (c : Connection) (text : List ℕ)
      → Quiet c ((drained block (λ _. r) c).0, socket_write text ∷ (drained block (λ _. r) c).1)
  unfolding close_calls shutdown_in_loop
  drained-Quiet c text = elim (Bool-cases c.callbacks.write_complete) [
    | inl e ↦ elim (Bool-cases (is c.state State.disconnecting)) [
      | inl f ↦ record { state = refl; callbacks = refl; silent = rw (e, f) refl }
      | inr f ↦ record { state = refl; callbacks = refl; silent = rw (e, f) refl }
    ]
    | inr e ↦ elim (Bool-cases (is c.state State.disconnecting)) [
      | inl f ↦ record { state = refl; callbacks = refl; silent = rw (e, f) refl }
      | inr f ↦ record { state = refl; callbacks = refl; silent = rw (e, f) refl }
    ]
  ]

  after_write-Quiet :
      (c : Connection) (text : List ℕ) (a : Sent)
      → Each (Quiet c) (after_write block (λ _. r) c text a)
  unfolding close_calls
  after_write-Quiet c text (took zero) = record { state = refl; callbacks = refl; silent = refl }
  after_write-Quiet c text (took (suc n)) = elim (Option-cases (retrieve block c.output (suc n))) [
    | inl e ↦ rw e tt
    | inr (out, e) ↦ elim (Bool-cases (out.readable_size == 0)) [
      | inl f ↦
          let d = drained-Quiet (record c { output = out }) text in
          rw (e, f) (record { state = d.state; callbacks = d.callbacks; silent = d.silent })
      | inr f ↦ rw (e, f) (record { state = refl; callbacks = refl; silent = refl })
    ]
  ]
  after_write-Quiet c text broken = record { state = refl; callbacks = refl; silent = refl }
  after_write-Quiet c text refused = record { state = refl; callbacks = refl; silent = refl }

  written :
      (c : Connection) (b : Bool) (o : Option (List ℕ))
      → Each
          (Quiet c)
          (if b then (o >>= λ text. after_write block (λ _. r) c text r) else some (c, []))
  unfolding close_calls
  written c true none = tt
  written c true (some text) = after_write-Quiet c text r
  written c false o = record { state = refl; callbacks = refl; silent = refl }

  pub handle_write-Quiet : (c : Connection) → Each (Quiet c) (handle_write block (λ _. r) c)
  unfolding handle_write
  handle_write-Quiet c = written c c.writing (peek_all_as_string block c.output)

Quiet-Follows :
    (c : Connection) (x : Call) (o : Option Handled)
    → Follows c.state x c.state
    → Each (Quiet c) o
    → Each (λ (r : Handled). Follows c.state x r.0.state) o
Quiet-Follows c x none f q = tt
Quiet-Follows c x (some r) f q = subst (λ s. Follows c.state x s) (sym q.state) f

-- What the calls of a connection make of its state, whatever the system calls answer:
-- `completeConnect` leads to `connected` from any state, `shutdown` and `forceClose` lead from there
-- to `disconnecting`, and a close, by `handleClose` or by `handleRead` at the end of the stream or at
-- an error, leads from there to `disconnected`. These calls in the other states, and in all states
-- `handleRead` otherwise, `sendInLoop`, `handleWrite`, `shutdownInLoop` and `connectDestroyed`,
-- keep the state, if they do not fault.
pub perform-Follows :
    (block max : ℕ) (c : Connection) (x : Call)
    → Each (λ (r : Handled). Follows c.state x r.0.state) (perform block max c x)
unfolding perform
perform-Follows block max c (calls e) = step-Follows c e
perform-Follows block max c (sends bytes r) =
    Quiet-Follows c (sends bytes r) (send_in_loop block (λ _. r) max c bytes)
      (idle_state c.state (sends bytes r) refl refl refl) (send_in_loop-Quiet block max r c bytes)
perform-Follows block max c (writes r) =
    Quiet-Follows c (writes r) (handle_write block (λ _. r) c)
      (idle_state c.state (writes r) refl refl refl) (handle_write-Quiet block max r c)
