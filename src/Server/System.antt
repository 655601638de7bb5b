-- ===== src/Server/System.antt =====
-- A Server with its connections and what the loops have to run for it, as steps.
use kknet.Prelude.{
  ℕ, suc, ◌≡◌, ◌≢◌, Bool, Option, none, some, List, [], ◌∷◌, ◌++◌, All, ◌==◌, if◌then◌else◌,
}
use kknet.Server.Defs.{
  Member, Task, complete_connect, remove_connection_in_loop, connect_destroyed, Effect, run_in_loop,
  queue_in_loop, close_callback, Server, lookup, new_connection, remove_connection, remove_in_loop,
}

-- The connections that have not been destroyed, the number of the next one, and what the loops
-- have to run, in any order.
pub record System : Type 0 where
  pub server : Server
  pub objects : ℕ → Option Member
  pub next : ℕ
  pub tasks : List (ℕ × Task)

abbrev pub put : ℕ → Option Member → (ℕ → Option Member) → ℕ → Option Member
put c m objects d = if d == c then m else objects d

-- The tasks of a sequence of effects.
unfoldable pub queued : List Effect → List (ℕ × Task)
queued [] = []
queued (run_in_loop l t ∷ es) = (l, t) ∷ queued es
queued (queue_in_loop l t ∷ es) = (l, t) ∷ queued es
queued (close_callback c ∷ es) = queued es

-- The connection of a task.
abbrev pub subject : Task → ℕ
subject (complete_connect c) = c
subject (remove_connection_in_loop c) = c
subject (connect_destroyed c) = c

-- What a task does with the server. The connection looks after the other tasks.
unfoldable pub removed : System → ℕ → Option Member → System
unfolding remove_in_loop queued
removed s c none = s
removed s c (some m) =
    let r = remove_in_loop s.server c m in record s { server = r.0; tasks = s.tasks ++ queued r.1 }

unfoldable pub execute : System → Task → System
unfolding removed
execute s (complete_connect c) = s
execute s (remove_connection_in_loop c) = removed s c (s.objects c)
execute s (connect_destroyed c) = s

-- `accepts`: the system returns a descriptor that is not open. `closes`: the close callback of a
-- connection. `runs`: a loop runs a task. `drops`: the last ConnectionPtr goes, and the destructor
-- closes the descriptor.
pub data Step (sort : (ℕ → ℕ → Bool) → List ℕ → List ℕ) : System → System → Type 0 where
  accepts :
      (s : System) (fd_nums : ℕ → ℕ) (fd : ℕ) (m : Member) (server : Server) (es : List Effect)
      → ((c : ℕ) (n : Member) → s.objects c ≡ some n → n.fd ≢ fd)
      → new_connection sort fd_nums s.server s.next fd ≡ some (m, server, es)
      → Step sort s (record s {
        server = server;
        objects = put s.next (some m) s.objects;
        next = suc s.next;
        tasks = s.tasks ++ queued es;
      })
  closes :
      (s : System) (c : ℕ) (m : Member)
      → s.objects c ≡ some m
      → Step sort s (record s { tasks = s.tasks ++ queued (remove_connection s.server c) })
  runs :
      (s : System) (before after : List (ℕ × Task)) (l : ℕ) (t : Task)
      → s.tasks ≡ before ++ ((l, t) ∷ after)
      → Step sort s (execute (record s { tasks = before ++ after }) t)
  drops :
      (s : System) (c : ℕ)
      → ((fd : ℕ) → lookup fd s.server.connections ≢ some c)
      → All (λ (t : ℕ × Task). subject t.1 ≢ c) s.tasks
      → Step sort s (record s { objects = put c none s.objects })

-- Any number of steps.
pub data Steps (sort : (ℕ → ℕ → Bool) → List ℕ → List ℕ) : System → System → Type 0 where
  stop : (s : System) → Steps sort s s
  onward : (s t u : System) → Step sort s t → Steps sort t u → Steps sort s u
