-- ===== src/Server/Keeps.antt =====
-- The order of a Server and its connections, and accepting a connection.
use kknet.Prelude.{
  ℕ, suc, ◌<◌, ◌≡◌, ◌≢◌, refl, sym, ap, ◌∙◌, inl, inr, Bool, true, false, Bool-cases, Option, none,
  some, List, [], ◌∷◌, ◌++◌, All, All-append, All-map, arith, subst, ◌==◌, eqb→eq, ◌>>=◌,
}
use kknet.Pool.Defs.{EventloopPool, get_next_event}
use kknet.Server.Defs.{
  Member, Task, complete_connect, Effect, run_in_loop, close_callback, Server, lookup, assign,
  new_connection, emit,
}
use kknet.Server.System.{System, put, queued, subject}
use kknet.Server.Entries.{
  lookup-assign-same, lookup-assign-other, put_other, put_same, neq_of, put_cases,
}

abbrev pub IsLive : System → ℕ → Type 0
IsLive s c = (m : Member) × (s.objects c ≡ some m)

-- The map has live connections under their descriptors, the tasks are of live connections, and no
-- two live connections have one descriptor.
pub record Owned (s : System) : Type 0 where
  pub entries :
      (fd c : ℕ)
      → lookup fd s.server.connections ≡ some c
      → (m : Member) × (s.objects c ≡ some m) × (m.fd ≡ fd)
  pub tasks : All (λ (t : ℕ × Task). IsLive s (subject t.1)) s.tasks
  pub single :
      (c d : ℕ) (m n : Member) → s.objects c ≡ some m → s.objects d ≡ some n → m.fd ≡ n.fd → c ≡ d
  pub fresh : (c : ℕ) (m : Member) → s.objects c ≡ some m → c < s.next

-- What `newConnection` does to the map.
pub record Adds (s : Server) (conn fd : ℕ) (m : Member) (s' : Server) (es : List Effect)
    : Type 0 where
  fd_is : m.fd ≡ fd
  connections : s'.connections ≡ assign fd conn s.connections
  loop : ℕ
  queues : queued es ≡ (loop, complete_connect conn) ∷ []

abbrev Made : Server → ℕ → ℕ → ℕ × EventloopPool → Member × Server × List Effect
Made s conn fd r = (
  record {
    loop = r.0;
    name = s.next_conn_id;
    fd = fd;
    callbacks = record s.callbacks { close = true };
  },
  record s {
    thread_pool = r.1;
    next_conn_id = suc s.next_conn_id;
    connections = assign fd conn s.connections;
  },
  run_in_loop r.0 (complete_connect conn) ∷ [],
)

made-Adds :
    (s : Server) (conn fd : ℕ) (o : Option (ℕ × EventloopPool)) (r : Member × Server × List Effect)
    → (o >>= λ p. some (Made s conn fd p)) ≡ some r
    → Adds s conn fd r.0 r.1 r.2
unfolding queued
made-Adds s conn fd none r h = absurd cc
made-Adds s conn fd (some p) r h =
    let e : Made s conn fd p ≡ r = cc h in
    subst (λ (r : Member × Server × List Effect). Adds s conn fd r.0 r.1 r.2) e
      (record { fd_is = refl; connections = refl; loop = p.0; queues = refl })

module _ (sort : (ℕ → ℕ → Bool) → List ℕ → List ℕ) where
  pub new_connection-Adds :
      (fd_nums : ℕ → ℕ) (s : Server) (conn fd : ℕ) (r : Member × Server × List Effect)
      → new_connection sort fd_nums s conn fd ≡ some r
      → Adds s conn fd r.0 r.1 r.2
  unfolding new_connection
  new_connection-Adds fd_nums s conn fd r h =
      made-Adds s conn fd (get_next_event sort s.thread_pool fd_nums) r h

pub accepted-Owned :
    (s : System) (fd : ℕ) (m : Member) (server : Server) (es : List Effect)
    → Owned s
    → ((c : ℕ) (n : Member) → s.objects c ≡ some n → n.fd ≢ fd)
    → Adds s.server s.next fd m server es
    → Owned (record s {
      server = server;
      objects = put s.next (some m) s.objects;
      next = suc s.next;
      tasks = s.tasks ++ queued es;
    })
accepted-Owned s fd m server es o free a =
    let old : (c : ℕ) (n : Member) → s.objects c ≡ some n → c ≢ s.next =
      λ c n h z. omega (arith, o.fresh c n h) in
    record {
      entries = λ k c h. elim (Bool-cases (k == fd)) [
        | inl y ↦
            let z = eqb→eq k fd y in
            let there : lookup fd (assign fd s.next s.server.connections) ≡ some c =
              rw (z, a.connections) at h in
            let same : s.next ≡ c = cc (there, lookup-assign-same fd s.next s.server.connections) in
            subst (λ c. (n : Member) × (put s.next (some m) s.objects c ≡ some n) × (n.fd ≡ k)) same
              (m, put_same s.objects s.next (some m), a.fd_is ∙ sym z)
        | inr n ↦
            let there =
              sym (lookup-assign-other k fd s.next s.server.connections (neq_of k fd n))
              ∙ (rw a.connections at h) in
            let (x, live, e) = o.entries k c there in
            (x, put_other s.objects s.next c (some m) (old c x live) ∙ live, e)
      ];
      tasks = rw a.queues (
          All-append
            (λ (t : ℕ × Task).
              (n : Member) × (put s.next (some m) s.objects (subject t.1) ≡ some n))
            s.tasks ((a.loop, complete_connect s.next) ∷ [])
            (All-map (λ (t : ℕ × Task). IsLive s (subject t.1))
              (λ (t : ℕ × Task).
                (n : Member) × (put s.next (some m) s.objects (subject t.1) ≡ some n))
              s.tasks
              (λ t live. (
                live.0,
                put_other s.objects s.next (subject t.1) (some m) (old (subject t.1) live.0 live.1)
                    ∙ live.1,
              ))
              o.tasks)
            ((m, put_same s.objects s.next (some m)), tt));
      single = λ c d x y h i z. elim (put_cases s.objects s.next c m x h) [
        | inl (p, q) ↦ elim (put_cases s.objects s.next d m y i) [
          | inl (p', q') ↦ p ∙ sym p'
          | inr (n, live) ↦
              absurd (free d y live (sym z ∙ ap (λ (w : Member). w.fd) (sym q) ∙ a.fd_is))
        ]
        | inr (n, live) ↦ elim (put_cases s.objects s.next d m y i) [
          | inl (p', q') ↦ absurd (free c x live (z ∙ ap (λ (w : Member). w.fd) (sym q') ∙ a.fd_is))
          | inr (n', live') ↦ o.single c d x y live live' z
        ]
      ];
      fresh = λ c x h. elim (put_cases s.objects s.next c m x h) [
        | inl (p, q) ↦ omega arith
        | inr (n, live) ↦ omega (arith, o.fresh c x live)
      ];
    }

pub queued-emit : (b : Bool) (c : ℕ) → queued (emit b (close_callback c)) ≡ []
unfolding queued
queued-emit true c = refl
queued-emit false c = refl
