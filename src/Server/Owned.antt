-- ===== src/Server/Owned.antt =====
-- What removing a connection does to the map of a Server.
use kknet.Prelude.{
  ℕ, ◌≡◌, ◌≢◌, sym, ap, ◌∙◌, ◌⊎◌, inl, inr, Bool, Bool-cases, Option-cases, none, some, List, [],
  ◌∷◌, ◌++◌, All, All-append, All-append_left, All-append_right, subst, ◌==◌, eqb→eq,
}
use kknet.Server.Defs.{
  Member, Task, complete_connect, remove_connection_in_loop, connect_destroyed, lookup,
  remove_connection, remove_in_loop,
}
use kknet.Server.System.{
  System, put, queued, subject, removed, execute, Step, accepts, closes, runs, drops, Steps, stop,
  onward,
}
use kknet.Server.Entries.{lookup-erase-same, lookup-erase-other, put_other, neq_of, gone, still}
use kknet.Server.Keeps.{IsLive, Owned, queued-emit, new_connection-Adds, accepted-Owned}

-- The removal of a live connection: the descriptor that it has is that of no other.
removed-Owned :
    (s : System) (c : ℕ) (m : Member)
    → Owned s
    → s.objects c ≡ some m
    → Owned (removed s c (some m))
unfolding removed remove_in_loop queued
removed-Owned s c m o live = record {
  entries = λ k d h. elim (Bool-cases (k == m.fd)) [
    | inl y ↦ absurd (gone k m.fd d s.server.connections (eqb→eq k m.fd y) h)
    | inr n ↦
        o.entries k d (sym (lookup-erase-other k m.fd s.server.connections (neq_of k m.fd n)) ∙ h)
  ];
  tasks = rw (queued-emit s.server.callbacks.close c) (
      All-append (λ (t : ℕ × Task). IsLive s (subject t.1)) s.tasks
        ((m.loop, connect_destroyed c) ∷ []) o.tasks ((m, live), tt));
  single = o.single;
  fresh = o.fresh;
}

kept_tasks :
    (s : System) (c : ℕ) (ts : List (ℕ × Task))
    → All (λ (t : ℕ × Task). IsLive s (subject t.1)) ts
    → All (λ (t : ℕ × Task). subject t.1 ≢ c) ts
    → All (λ (t : ℕ × Task). (m : Member) × (put c none s.objects (subject t.1) ≡ some m)) ts
kept_tasks s c [] a n = tt
kept_tasks s c (t ∷ ts) a n =
    ((a.0.0, put_other s.objects c (subject t.1) none n.0 ∙ a.0.1), kept_tasks s c ts a.1 n.1)

dropped-Owned :
    (s : System) (c : ℕ)
    → Owned s
    → ((fd : ℕ) → lookup fd s.server.connections ≢ some c)
    → All (λ (t : ℕ × Task). subject t.1 ≢ c) s.tasks
    → Owned (record s { objects = put c none s.objects })
dropped-Owned s c o out idle = record {
  entries = λ k d h.
      let (m, live, e) = o.entries k d h in
      (m, put_other s.objects c d none (λ z. out k (h ∙ ap some z)) ∙ live, e);
  tasks = kept_tasks s c s.tasks o.tasks idle;
  single = λ x y m n h i. o.single x y m n (still s.objects c x m h) (still s.objects c y n i);
  fresh = λ x m h. o.fresh x m (still s.objects c x m h);
}

execute-Owned : (s : System) (t : Task) → Owned s → IsLive s (subject t) → Owned (execute s t)
unfolding execute
execute-Owned s (complete_connect c) o live = o
execute-Owned s (connect_destroyed c) o live = o
execute-Owned s (remove_connection_in_loop c) o (m, live) = rw live (removed-Owned s c m o live)

module _ (sort : (ℕ → ℕ → Bool) → List ℕ → List ℕ) where
  Step-Owned : (s t : System) → Step sort s t → Owned s → Owned t
  unfolding remove_connection queued
  Step-Owned _ _ (accepts s fd_nums fd m server es free made) o =
      accepted-Owned s fd m server es o free
        (new_connection-Adds sort fd_nums s.server s.next fd (m, server, es) made)
  Step-Owned _ _ (closes s c m live) o = record {
    entries = o.entries;
    tasks =
        All-append (λ (t : ℕ × Task). IsLive s (subject t.1)) s.tasks
          ((s.server.loop, remove_connection_in_loop c) ∷ []) o.tasks ((m, live), tt);
    single = o.single;
    fresh = o.fresh;
  }
  Step-Owned _ _ (runs s before after l t e) o =
      let all = subst (All (λ (t : ℕ × Task). IsLive s (subject t.1))) e o.tasks in
      let rest =
        All-append_right (λ (t : ℕ × Task). IsLive s (subject t.1)) before ((l, t) ∷ after) all in
      execute-Owned (record s { tasks = before ++ after }) t
        (record {
          entries = o.entries;
          tasks =
              All-append (λ (t : ℕ × Task). IsLive s (subject t.1)) before after
                (All-append_left (λ (t : ℕ × Task). IsLive s (subject t.1)) before ((l, t) ∷ after)
                  all)
                rest.1;
          single = o.single;
          fresh = o.fresh;
        })
        rest.0
  Step-Owned _ _ (drops s c out idle) o = dropped-Owned s c o out idle

  steps-Owned : (s t : System) → Steps sort s t → Owned s → Owned t
  steps-Owned _ _ (stop s) o = o
  steps-Owned _ _ (onward s t u first rest) o = steps-Owned t u rest (Step-Owned s t first o)

-- An entry of the map that is of the connection goes, and another one stays.
abbrev pub RemovesOnly : System → ℕ → ℕ → Type 0
RemovesOnly s c fd =
    ((lookup fd s.server.connections ≡ some c)
      × (lookup fd (execute s (remove_connection_in_loop c)).server.connections ≡ none))
    ⊎ ((lookup fd s.server.connections ≢ some c)
        × (lookup fd (execute s (remove_connection_in_loop c)).server.connections
            ≡ lookup fd s.server.connections))

own_fd :
    (s : System) (c : ℕ) (m : Member) (fd : ℕ)
    → Owned s
    → s.objects c ≡ some m
    → lookup fd s.server.connections ≡ some c
    → fd ≡ m.fd
own_fd s c m fd o live h =
    let (n, at, e) = o.entries fd c h in
    let same : n ≡ m = cc (at, live) in sym e ∙ ap (λ (x : Member). x.fd) same

remove-Owned :
    (s : System) (c : ℕ) (m : Member) (fd : ℕ) → Owned s → s.objects c ≡ some m → RemovesOnly s c fd
unfolding execute removed remove_in_loop
remove-Owned s c m fd o live = elim (Bool-cases (fd == m.fd)) [
  | inr n ↦ inr (
    λ h. neq_of fd m.fd n (own_fd s c m fd o live h),
    rw live (lookup-erase-other fd m.fd s.server.connections (neq_of fd m.fd n)),
  )
  | inl y ↦
      let z = eqb→eq fd m.fd y in
      elim (Option-cases (lookup fd s.server.connections)) [
        | inl e ↦
            inr
              (λ h. cc (e, h), rw live (rw z (lookup-erase-same m.fd s.server.connections) ∙ sym e))
        | inr (d, e) ↦
            let (n, at, f) = o.entries fd d e in
            let same = o.single d c n m at live (f ∙ z) in
            inl (e ∙ ap some same, rw (live, z) (lookup-erase-same m.fd s.server.connections))
      ]
]

-- Whatever connections a server accepts, whenever they are closed and destroyed, and in whatever
-- order the loops run their tasks: the map then has live connections under their own descriptors, no
-- two live connections have one descriptor, and `removeConnectionInLoop` of a live connection takes it
-- out of the map and leaves what the map has under each descriptor that is not of this connection, if
-- this held at first and the system gives out no descriptor that is open.
pub removes_only :
    (sort : (ℕ → ℕ → Bool) → List ℕ → List ℕ) (s t : System) (c : ℕ) (m : Member)
    → Steps sort s t
    → Owned s
    → t.objects c ≡ some m
    → Owned t × ((fd : ℕ) → RemovesOnly t c fd)
removes_only sort s t c m steps o live =
    let o' = steps-Owned sort s t steps o in (o', λ fd. remove-Owned t c m fd o' live)
