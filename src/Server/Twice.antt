-- ===== src/Server/Twice.antt =====
-- A connection of a Server that is closed twice.
use kknet.Prelude.{
  ℕ, zero, suc, ◌≡◌, refl, true, Option, none, some, List, [], ◌∷◌, ◌==◌, if◌then◌else◌, eqb_refl,
}
use kknet.Poll.Select.{FdEvent, PollSelect, FdSets, find, wait, Handlers}
use kknet.Poll.Calls
use kknet.Poll.Calls.{removes, IsTable}
use kknet.Poll.Waiting.{removes_twice_faults}
use kknet.Buffer.Ops.{KBuffer}
use kknet.Connection.Defs.{State, Connection, eof}
use kknet.Connection.Life
use kknet.Connection.Life.{close_calls, closes_twice, reads, forces, closes}
use kknet.Server.Defs.{
  Member, Task, complete_connect, remove_connection_in_loop, connect_destroyed, remove_in_loop,
}
use kknet.Server.System.{System, removed, execute, queued}
use kknet.Server.Keeps.{queued-emit}

-- Each close callback is `removeConnection`, and the loop of the server then runs its task.
unfoldable pub remove_times : ℕ → System → ℕ → System
unfolding execute
remove_times zero s c = s
remove_times (suc n) s c = remove_times n (execute s (remove_connection_in_loop c)) c

-- What the tasks of the loop `l` do to its poller: `connectDestroyed` removes the descriptor.
abbrev pub destroyed_fd : Option Member → PollSelect → PollSelect
destroyed_fd none p = p
destroyed_fd (some m) p = Calls.step p (removes m.fd)

unfoldable pub run_tasks : (ℕ → Option Member) → ℕ → List (ℕ × Task) → PollSelect → PollSelect
run_tasks objects l [] p = p
run_tasks objects l ((k, connect_destroyed c) ∷ ts) p =
    if k == l then run_tasks objects l ts (destroyed_fd (objects c) p) else run_tasks objects l ts p
run_tasks objects l ((k, complete_connect c) ∷ ts) p = run_tasks objects l ts p
run_tasks objects l ((k, remove_connection_in_loop c) ∷ ts) p = run_tasks objects l ts p

twice_tasks :
    (s : System) (c : ℕ) (m : Member)
    → s.objects c ≡ some m
    → s.tasks ≡ []
    → (remove_times 2 s c).tasks
      ≡ (m.loop, connect_destroyed c) ∷ (m.loop, connect_destroyed c) ∷ []
unfolding remove_times execute removed remove_in_loop queued
twice_tasks s c m live idle = rw (live, live, idle, queued-emit s.server.callbacks.close c) refl

twice_run :
    (objects : ℕ → Option Member) (c : ℕ) (m : Member) (p : PollSelect)
    → objects c ≡ some m
    → run_tasks objects m.loop
        ((m.loop, connect_destroyed c) ∷ (m.loop, connect_destroyed c) ∷ [])
        p
      ≡ Calls.step (Calls.step p (removes m.fd)) (removes m.fd)
unfolding run_tasks
twice_run objects c m p live = rw (eqb_refl m.loop, live) refl

-- A connection of a server with a close callback is connected; its peer closes it, and then
-- `forceClose` is called and carried out. The server removes it twice, and its loop, which has no other
-- tasks of the server, removes the descriptor twice from the poller that had it: the next `wait` of
-- that loop dereferences a null pointer.
pub closed_twice_faults :
    {C : Type 0} (select : ℕ → FdSets → ℕ × FdSets) (s : System) (c : ℕ) (m : Member)
    (conn : Connection) (b : KBuffer) (p : PollSelect) (hs : Handlers C) (ev : FdEvent)
    → s.objects c ≡ some m
    → s.tasks ≡ []
    → conn.state ≡ State.connected
    → conn.callbacks.close ≡ true
    → IsTable p
    → find m.fd p.events ≡ some (some ev)
    → wait select
        (run_tasks s.objects m.loop
          (remove_times
            (close_calls (Life.run conn (reads b eof ∷ forces ∷ closes ∷ [])).1)
            s
            c).tasks
          p)
        hs
      ≡ none
unfolding close_calls
closed_twice_faults select s c m conn b p hs ev live idle e cb v h =
    rw ((closes_twice conn b e cb).1, twice_tasks s c m live idle, twice_run s.objects c m p live)
      (removes_twice_faults select p hs m.fd ev v h)
