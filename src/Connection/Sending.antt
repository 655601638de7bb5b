-- ===== src/Connection/Sending.antt =====
-- What `sendInLoop` does with the bytes.
use kknet.Prelude.{
  ℕ, ◌+◌, ◌-◌, ◌*◌, ◌^◌, ◌≤◌, ◌<◌, ◌≡◌, ◌≢◌, refl, sym, ap, ◌∙◌, ◌⊎◌, inl, inr, true, false, ◌&&◌,
  some, List, [], ◌∷◌, ◌++◌, length, drop, append-nil, length-drop, ◌==◌, eqb-true, eqb-false,
  arith,
}
use kknet.Poll.Handler.{EventType}
use kknet.Buffer.Invariant.{contents, Inv, IsOrdered, length-contents}
use kknet.Buffer.Append.{Accepts, write-Accepted}
use kknet.Connection.Defs.{
  State, Effect, socket_write, queue_write_complete, set_event, Connection, emit, Sent, took, keep,
  after_send, send_in_loop,
}

-- What `sendInLoop` does when the socket takes `n` bytes: either that is all, and the callback
-- for that is queued if there is one; or the connection begins to wait to write.
abbrev pub Sends : Connection → List ℕ → ℕ → Connection → List Effect → Type 0
Sends c bytes n c' es =
    ((length bytes ≤ n)
      × (c' ≡ c)
      × (es ≡ socket_write bytes ∷ emit c.callbacks.write_complete queue_write_complete))
    ⊎ ((n < length bytes)
        × (c'.writing ≡ true)
        × (c'.state ≡ c.state)
        × (es ≡ socket_write bytes ∷ set_event EventType.write ∷ []))

-- The bytes that are on their way: those in the output buffer.
module _ (block max : ℕ) (pos : 0 < block) (fits : 2 * max + block < 2 ^ 64)
    (sys_write : List ℕ → Sent) where
  keep-appends :
      (c : Connection) (bytes : List ℕ) (es : List Effect)
      → Inv block c.output
      → IsOrdered c.output
      → Accepts max c.output (length bytes)
      → (c' : Connection) × (es' : List Effect) × (keep block sys_write max c bytes es
          ≡ some (c', es'))
        × (contents c'.output ≡ contents c.output ++ bytes)
        × (Inv block c'.output)
        × ((bytes ≡ []) × (c' ≡ c) × (es' ≡ es)
            ⊎ (0 < length bytes)
              × (c'.writing ≡ true)
              × (c'.state ≡ c.state)
              × (es' ≡ es ++ (set_event EventType.write ∷ [])))
  keep-appends c [] es v o h =
      (c, es, refl, sym (append-nil (contents c.output)), v, inl (refl, refl, refl))
  keep-appends c (b ∷ bytes) es v o h =
      let (k, e, a) = write-Accepted block max pos fits c.output (b ∷ bytes) v o h in
      (
        record c { output = k; writing = true },
        es ++ (set_event EventType.write ∷ []),
        rw e,
        a.wrote.appended,
        a.wrote.inv,
        inr (omega arith, refl, refl, refl),
      )

  idle_send :
      (c : Connection) (bytes : List ℕ)
      → c.state ≢ State.disconnected
      → c.writing ≡ false
      → c.output.readable_size ≡ 0
      → send_in_loop block sys_write max c bytes
        ≡ after_send block sys_write max c bytes (sys_write bytes)
  unfolding send_in_loop
  idle_send c bytes live idle empty = ground arith

  after_took :
      (c c' : Connection) (bytes : List ℕ) (n : ℕ) (es : List Effect)
      → (drop n bytes ≡ [])
          × (c' ≡ c)
          × (es
              ≡ socket_write bytes
                ∷ emit (length bytes - n == 0 && c.callbacks.write_complete) queue_write_complete)
        ⊎ (0 < length (drop n bytes))
          × (c'.writing ≡ true)
          × (c'.state ≡ c.state)
          × (es
              ≡ socket_write bytes
                  ∷ emit (length bytes - n == 0 && c.callbacks.write_complete) queue_write_complete
                ++ (set_event EventType.write ∷ []))
      → Sends c bytes n c' es
  after_took c c' bytes n es (inl (e, same, h)) =
      let l : length bytes ≤ n = omega (arith, ap length e, length-drop n bytes) in
      inl (l, same, h ∙ rw (eqb-true (length bytes - n) 0 (omega arith)) refl)
  after_took c c' bytes n es (inr (pos, on, same, h)) =
      let l : n < length bytes = omega (arith, length-drop n bytes) in
      inr (l, on, same, h ∙ rw (eqb-false (length bytes - n) 0 (omega arith)) refl)

  -- On a connection that is not disconnected, is not writing and has an empty output buffer in
  -- order, `sendInLoop` gives the bytes to the socket, once. If that takes some of them and the
  -- buffer accepts the rest, the rest is in the buffer in order. When there is no rest, the write
  -- complete callback is queued if it is set, and nothing else happens; otherwise the connection
  -- waits to write and asks the poller for that.
  pub send_in_loop-keeps :
      (c : Connection) (bytes : List ℕ) (n : ℕ)
      → c.state ≢ State.disconnected
      → c.writing ≡ false
      → contents c.output ≡ []
      → Inv block c.output
      → IsOrdered c.output
      → sys_write bytes ≡ took n
      → Accepts max c.output (length (drop n bytes))
      → (c' : Connection) × (es : List Effect) × (send_in_loop block sys_write max c bytes
          ≡ some (c', es))
        × (contents c'.output ≡ drop n bytes)
        × (Inv block c'.output)
        × Sends c bytes n c' es
  send_in_loop-keeps c bytes n live idle empty v o sent h =
      let none_left : c.output.readable_size ≡ 0 =
        omega (arith, length-contents block c.output v, ap length empty) in
      let (c', es, e, more, inv, rest) =
        keep-appends c (drop n bytes)
          (socket_write bytes
            ∷ emit (length bytes - n == 0 && c.callbacks.write_complete) queue_write_complete)
          v o h in
      (
        c',
        es,
        idle_send c bytes live idle none_left
            ∙ ap (after_send block sys_write max c bytes) sent
            ∙ e,
        more ∙ ap (λ q. q ++ drop n bytes) empty,
        inv,
        after_took c c' bytes n es rest,
      )

  writing_rest :
      (c c' : Connection) (bytes : List ℕ) (n : ℕ) (es : List Effect)
      → n < length bytes
      → Sends c bytes n c' es
      → (c'.writing ≡ true) × (c'.state ≡ c.state)
  writing_rest c c' bytes n es lt (inl (l, same, h)) = absurd (omega arith)
  writing_rest c c' bytes n es lt (inr (l, on, same, h)) = (on, same)

  second_send :
      (c : Connection) (bytes : List ℕ)
      → c.state ≢ State.disconnected
      → c.writing ≡ true
      → send_in_loop block sys_write max c bytes ≡ some (c, [])
  unfolding send_in_loop
  second_send c bytes live busy = ground arith

  -- When `sendInLoop` on such a connection has kept a rest, the bytes of a second call are neither
  -- given to the socket nor kept: the second call does nothing, and the first one's rest is all that
  -- the buffer has.
  pub send_in_loop-loses :
      (c : Connection) (bytes more : List ℕ) (n : ℕ)
      → c.state ≢ State.disconnected
      → c.writing ≡ false
      → contents c.output ≡ []
      → Inv block c.output
      → IsOrdered c.output
      → sys_write bytes ≡ took n
      → n < length bytes
      → Accepts max c.output (length (drop n bytes))
      → (c' : Connection) × (es : List Effect) × (send_in_loop block sys_write max c bytes
          ≡ some (c', es))
        × (send_in_loop block sys_write max c' more ≡ some (c', []))
        × (contents c'.output ≡ drop n bytes)
  send_in_loop-loses c bytes more n live idle empty v o sent lt h =
      let (c', es, e, at, inv, rest) = send_in_loop-keeps c bytes n live idle empty v o sent h in
      let (busy, same) = writing_rest c c' bytes n es lt rest in
      (c', es, e, second_send c' more (λ d. live (sym same ∙ d)) busy, at)
