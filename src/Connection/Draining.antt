-- ===== src/Connection/Draining.antt =====
-- What `handleWrite` does with the bytes that wait in the output buffer.
use kknet.Prelude.{
  ℕ, zero, suc, ◌-◌, ◌<◌, ◌≡◌, refl, ap, ◌∙◌, ◌⊎◌, inl, inr, le_or_lt, true, false, none, some,
  List, [], ◌∷◌, ◌++◌, drop, replicate, take-all, append-nil, eqb-true, eqb-false, All, arith,
  Bool-cases,
}
use kknet.Poll.Handler.{EventType}
use kknet.Buffer.Ops.{KBuffer, peek}
use kknet.Buffer.Invariant.{contents, Inv, length-contents}
use kknet.Buffer.Consume.{peek-contents, retrieve-Drops}
use kknet.Connection.Defs.{
  State, Effect, socket_write, queue_write_complete, delete_event, shutdown_write, shutdown_in_loop,
  is, Connection, emit, c_string, peek_all_as_string, Sent, took, drained, after_write,
  handle_write,
}

-- A buffer with no byte but the 0 behind them is read whole as a string.
c_string-append : (bs rest : List ℕ) → All (λ b. 0 < b) bs → c_string (bs ++ 0 ∷ rest) ≡ some bs
unfolding c_string
c_string-append [] rest a = refl
c_string-append (zero ∷ bs) rest a = absurd (omega arith)
c_string-append (suc b ∷ bs) rest a = rw (c_string-append bs rest a.1)

c_string-none : (bs : List ℕ) → All (λ b. 0 < b) bs → c_string bs ≡ none
unfolding c_string
c_string-none [] a = refl
c_string-none (zero ∷ bs) a = absurd (omega arith)
c_string-none (suc b ∷ bs) a = rw (c_string-none bs a.1)

replicate_pos : (n : ℕ) → 0 < n → replicate {A = ℕ} n 0 ≡ 0 ∷ replicate (n - 1) 0
replicate_pos zero h = absurd (omega arith)
replicate_pos (suc n) h = let e : suc n - 1 ≡ n = omega arith in rw e

module _ (block : ℕ) (kb : KBuffer) (v : Inv block kb) where
  peek_all : peek block kb kb.readable_size ≡ some (contents kb)
  peek_all =
      peek-contents block kb kb.readable_size v
      ∙ ap some
          (take-all kb.readable_size (contents kb) (omega (arith, length-contents block kb v)))

  whole_string :
      All (λ b. 0 < b) (contents kb)
      → kb.readable_size < kb.buflen
      → peek_all_as_string block kb ≡ some (contents kb)
  unfolding peek_all_as_string
  whole_string text room =
      rw (peek_all, replicate_pos (kb.buflen - kb.readable_size) (omega arith))
        (c_string-append (contents kb) (replicate (kb.buflen - kb.readable_size - 1) 0) text)

  no_string :
      All (λ b. 0 < b) (contents kb)
      → kb.readable_size ≡ kb.buflen
      → peek_all_as_string block kb ≡ none
  unfolding peek_all_as_string
  no_string text full =
      let e : kb.buflen - kb.readable_size ≡ 0 = omega arith in
      rw (peek_all, e) (rw (append-nil (contents kb)) (c_string-none (contents kb) text))

  cut_string : (rest : List ℕ) → contents kb ≡ 0 ∷ rest → peek_all_as_string block kb ≡ some []
  unfolding peek_all_as_string c_string
  cut_string rest e = rw (peek_all, e)

module _ (block : ℕ) (pos : 0 < block) (sys_write : List ℕ → Sent) where
  busy_write :
      (c : Connection) (text : List ℕ)
      → c.writing ≡ true
      → peek_all_as_string block c.output ≡ some text
      → handle_write block sys_write c ≡ after_write block sys_write c text (sys_write text)
  unfolding handle_write
  busy_write c text busy e = rw (busy, e)

  closing :
      (c : Connection) (k : KBuffer)
      → (drained block sys_write (record c { output = k })).1
        ≡ delete_event EventType.write ∷ emit c.callbacks.write_complete queue_write_complete
          ++ emit (is c.state State.disconnecting) shutdown_write
  unfolding shutdown_in_loop
  closing c k = elim (Bool-cases (is c.state State.disconnecting)) [
    | inl e ↦ rw e refl
    | inr e ↦ rw e refl
  ]

  -- On a connection that is writing, with an output buffer in order that is not full and has no
  -- byte 0, `handleWrite` gives all the bytes to the socket. If that takes some, those leave the
  -- buffer. When none is left the connection stops waiting to write and tells the poller so, the
  -- write complete callback is queued if it is set, and a connection that is disconnecting shuts down
  -- its side of the socket; when some are left nothing else happens.
  pub handle_write-drops :
      (c : Connection) (n : ℕ)
      → c.writing ≡ true
      → Inv block c.output
      → All (λ b. 0 < b) (contents c.output)
      → c.output.readable_size < c.output.buflen
      → sys_write (contents c.output) ≡ took (suc n)
      → (c' : Connection) × (es : List Effect) × (handle_write block sys_write c
          ≡ some (c', socket_write (contents c.output) ∷ es))
        × (contents c'.output ≡ drop (suc n) (contents c.output))
        × ((c'.output.readable_size ≡ 0)
              × (c'.writing ≡ false)
              × (es
                  ≡ delete_event EventType.write
                      ∷ emit c.callbacks.write_complete queue_write_complete
                    ++ emit (is c.state State.disconnecting) shutdown_write)
            ⊎ (0 < c'.output.readable_size) × (c'.writing ≡ true) × (es ≡ []))
  handle_write-drops c n busy v text room sent =
      let (k, e, d) = retrieve-Drops block pos c.output (suc n) v in
      let start =
        busy_write c (contents c.output) busy (whole_string block c.output v text room)
        ∙ ap (after_write block sys_write c (contents c.output)) sent in
      elim (le_or_lt k.readable_size 0) [
        | inl none_left ↦ (
          (drained block sys_write (record c { output = k })).0,
          (drained block sys_write (record c { output = k })).1,
          start ∙ rw (e, eqb-true k.readable_size 0 (omega arith)) refl,
          d.rest,
          inl (omega arith, refl, closing c k),
        )
        | inr some_left ↦ (
          record c { output = k },
          [],
          start ∙ rw (e, eqb-false k.readable_size 0 (omega arith)) refl,
          d.rest,
          inr (some_left, busy, refl),
        )
      ]

  -- When the oldest byte to write is 0, `handleWrite` on a connection that is writing, with an
  -- output buffer in order, gives no bytes to the socket, which takes none of none, and leaves the
  -- connection as it was.
  pub handle_write-stuck :
      (c : Connection) (rest : List ℕ)
      → c.writing ≡ true
      → Inv block c.output
      → contents c.output ≡ 0 ∷ rest
      → sys_write [] ≡ took 0
      → handle_write block sys_write c ≡ some (c, socket_write [] ∷ [])
  unfolding handle_write
  handle_write-stuck c rest busy v e sent = ground (arith, cut_string block c.output v rest e)

  -- When the output buffer of a connection that is writing is in order, full and without a byte 0,
  -- `handleWrite` reads beyond the end of an array.
  pub handle_write-overruns :
      (c : Connection)
      → c.writing ≡ true
      → Inv block c.output
      → All (λ b. 0 < b) (contents c.output)
      → c.output.readable_size ≡ c.output.buflen
      → handle_write block sys_write c ≡ none
  unfolding handle_write
  handle_write-overruns c busy v text full = ground (arith, no_string block c.output v text full)
