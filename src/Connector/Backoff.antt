-- ===== src/Connector/Backoff.antt =====
-- The delays between the attempts.
use native.Mathlib.Nat.{
  pow-suc, min-eq_left, min-eq_right, mul_assoc, mul_comm, mul-le-mul_left, mul-le-mul_right,
  pow-le-pow_right,
}
use kknet.Prelude.{
  ℕ, zero, suc, ◌*◌, ◌^◌, ◌≤◌, ◌≡◌, inl, inr, refl, sym, ap, ◌∙◌, Bool, true, false, List, [], ◌∷◌,
  min, if◌then◌else◌, All, All-append, arith, le_or_lt,
}
use kknet.Connector.Defs.{
  Event, starts, stops, stops_in_loop, resets, errs, attempts, restarts, writable, step,
  k_disconnected, k_connected, new_connection, Effect, run_after, ClientConnector, Handled, Errno,
  no_error, einprogress, eintr, eisconn, eagain, eaddrinuse, eaddrnotavail, econnrefused,
  enetunreach, other, max_retry_delay_ms, init_retry_delay_ms, connecting, retry, before,
  emit_retry, open_socket, close_socket, connect_by, connect, start_in_loop, start, restart,
  reset_channel, remove_and_reset_channel, handle_write, handle_error, stop, stop_in_loop,
  is_connecting,
}

abbrev pub InRange : ℕ → Type 0
InRange d = (init_retry_delay_ms ≤ d) × (d ≤ max_retry_delay_ms)

-- A delayed attempt comes after a delay in range.
abbrev pub Delayed : Effect → Type 0
Delayed (run_after d) = InRange d
Delayed _ = Unit {0}

abbrev pub Paced : Handled → Type 0
Paced (c, es) = InRange c.retry_delay_ms × All Delayed es

retry-Paced : (c : ClientConnector) → InRange c.retry_delay_ms → Paced (retry c)
unfolding retry
retry-Paced c h = ground arith

connect_by-Paced :
    (c : ClientConnector) (e : Errno) → InRange c.retry_delay_ms → Paced (connect_by c e)
unfolding connect_by connecting
connect_by-Paced c no_error h = (h, (tt, (tt, tt)))
connect_by-Paced c einprogress h = (h, (tt, (tt, tt)))
connect_by-Paced c eintr h = (h, (tt, (tt, tt)))
connect_by-Paced c eisconn h = (h, (tt, (tt, tt)))
connect_by-Paced c eagain h = retry-Paced c h
connect_by-Paced c eaddrinuse h = retry-Paced c h
connect_by-Paced c eaddrnotavail h = retry-Paced c h
connect_by-Paced c econnrefused h = retry-Paced c h
connect_by-Paced c enetunreach h = retry-Paced c h
connect_by-Paced c other h = (h, (tt, tt))

if-Paced : (b : Bool) (x y : Handled) → Paced x → Paced y → Paced (if b then x else y)
if-Paced true x y h k = h
if-Paced false x y h k = k

before-Paced : (es : List Effect) (x : Handled) → All Delayed es → Paced x → Paced (before es x)
before-Paced es (c, fs) h k = (k.0, All-append Delayed es fs h k.1)

connected-Delayed :
    (b : Bool) (fd : ℕ) → All Delayed (if b then new_connection fd ∷ [] else close_socket fd ∷ [])
connected-Delayed true fd = (tt, tt)
connected-Delayed false fd = (tt, tt)

start_in_loop-Paced :
    (c : ClientConnector) (fd : ℕ) (e : Errno)
    → InRange c.retry_delay_ms
    → Paced (start_in_loop c fd e)
unfolding start_in_loop connect
start_in_loop-Paced c fd e h =
    if-Paced c.connect (connect c fd e) (c, [])
      (before-Paced (open_socket fd ∷ []) (connect_by (record c { sockfd = fd }) e) (tt, tt)
        (connect_by-Paced (record c { sockfd = fd }) e h))
      (h, tt)

-- Whatever happens to a connector whose delay is between half a second and thirty seconds, the
-- delay stays so, and so is every delay that the event loop is given.
pub step-Paced : (c : ClientConnector) (e : Event) → InRange c.retry_delay_ms → Paced (step c e)
unfolding step start stop stop_in_loop reset_channel handle_error restart handle_write
step-Paced c starts h = (h, (tt, tt))
step-Paced c stops h = (h, (tt, tt))
step-Paced c stops_in_loop h =
    if-Paced (is_connecting c.state) _ (c, []) (h, (tt, (tt, (tt, tt)))) (h, tt)
step-Paced c resets h = (h, tt)
step-Paced c errs h =
    if-Paced (is_connecting c.state) _ (c, [])
      (before-Paced (remove_and_reset_channel c) (retry c) (tt, (tt, tt)) (retry-Paced c h)) (h, tt)
step-Paced c (attempts fd e) h = start_in_loop-Paced c fd e h
step-Paced c (restarts fd e) h = start_in_loop-Paced _ fd e (omega arith, omega arith)
step-Paced c (writable err) h =
    if-Paced (is_connecting c.state) _ (c, [])
      (before-Paced (remove_and_reset_channel c)
        (if err then retry c else (
          record c { state = k_connected },
          if c.connect then new_connection c.sockfd ∷ [] else close_socket c.sockfd ∷ [],
        ))
        (tt, (tt, tt))
        (if-Paced err (retry c) _ (retry-Paced c h) (h, connected-Delayed c.connect c.sockfd)))
      (h, tt)

capped : (d p m : ℕ) → 1 ≤ p → min (min (d * 2) m * p) m ≡ min (d * (p * 2)) m
capped d p m h = elim (le_or_lt (d * 2) m) [
  | inl le ↦
      rw (min-eq_left le)
        (ap (λ (n : ℕ). min n m) (mul_assoc d 2 p ∙ ap (λ (n : ℕ). d * n) (mul_comm 2 p)))
  | inr lt ↦
      let more = mul-le-mul_left m h in
      let twice = mul-le-mul_right {m = m} {n = d * 2} p (omega arith) in
      rw (min-eq_right {n = m} {m = d * 2} (omega arith)) (
        min-eq_right {n = m} {m = m * p} (omega arith)
        ∙ sym (min-eq_right {n = m} {m = d * (p * 2)} (omega arith)))
]

pow-pos : (k : ℕ) → 1 ≤ 2 ^ k
pow-pos k = pow-le-pow_right {n = 2} (omega arith) {i = 0} {j = k} (omega arith)

doubled :
    (k d : ℕ)
    → d ≤ max_retry_delay_ms
    → min (min (d * 2) max_retry_delay_ms * 2 ^ k) max_retry_delay_ms
      ≡ min (d * 2 ^ suc k) max_retry_delay_ms
doubled k d h = rw (pow-suc 2 k) (capped d (2 ^ k) max_retry_delay_ms (pow-pos k))

-- The connector after `k` attempts that the peer refuses, with a new socket each.
unfoldable pub refused : ℕ → ℕ → ClientConnector → ClientConnector
refused zero fd c = c
refused (suc k) fd c = refused k (suc fd) (start_in_loop c fd econnrefused).0

start_in_loop-refused :
    (c : ClientConnector) (fd : ℕ)
    → c.connect ≡ true
    → start_in_loop c fd econnrefused ≡ (
      record c {
        sockfd = fd;
        state = k_disconnected;
        retry_delay_ms = min (c.retry_delay_ms * 2) max_retry_delay_ms;
      },
      open_socket fd
          ∷ close_socket fd
          ∷ run_after c.retry_delay_ms
          ∷ emit_retry c.has_retry_callback,
    )
unfolding start_in_loop connect connect_by retry
start_in_loop-refused c fd on = rw on refl

-- When a connector that is to connect has a delay of thirty seconds at most, then after `k`
-- attempts that the peer refuses, the next refused one is followed by a delay of the first delay
-- doubled `k` times, at most the maximum.
pub start_in_loop-doubles :
    (k fd fd' : ℕ) (c : ClientConnector)
    → c.connect ≡ true
    → c.retry_delay_ms ≤ max_retry_delay_ms
    → (start_in_loop (refused k fd c) fd' econnrefused).1
      ≡ open_socket fd'
        ∷ close_socket fd'
        ∷ run_after (min (c.retry_delay_ms * 2 ^ k) max_retry_delay_ms)
        ∷ emit_retry c.has_retry_callback
unfolding refused
start_in_loop-doubles zero fd fd' c on h = rw (start_in_loop-refused c fd' on) (
    ap
      (λ (d : ℕ).
        open_socket fd' ∷ close_socket fd' ∷ run_after d ∷ emit_retry c.has_retry_callback)
      {x = c.retry_delay_ms} {y = min (c.retry_delay_ms * 1) max_retry_delay_ms} (omega arith))
start_in_loop-doubles (suc k) fd fd' c on h = rw (start_in_loop-refused c fd on) (
    start_in_loop-doubles k (suc fd) fd' _ on (omega arith)
    ∙ ap
        (λ (d : ℕ).
          open_socket fd' ∷ close_socket fd' ∷ run_after d ∷ emit_retry c.has_retry_callback)
        (doubled k c.retry_delay_ms h))
