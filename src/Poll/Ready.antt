-- ===== src/Poll/Ready.antt =====
-- `wait` on a table without null entries, against the events that are asked for and ready.
use kknet.Prelude.{
  ℕ, ◌<◌, ◌≡◌, refl, ap, ◌∙◌, Bool, false, none, some, List, [], ◌∷◌, ◌++◌, ◌==◌, ◌&&◌, ◌||◌,
  if◌then◌else◌,
}
use kknet.Poll.Handler.{EventType, EventHandler, handle_events, fire}
use kknet.Poll.Select.{FdEvent, Events, FdSets, fd_setsize, is_ready, raise, Handlers}

-- No pointer is null, and every descriptor fits into an fd_set.
abbrev pub IsWhole : Events → Type 0
IsWhole [] = Unit {0}
IsWhole ((k, none) ∷ m) = ⊥
IsWhole ((k, some ev) ∷ m) = (ev.fd < fd_setsize) × IsWhole m

-- An event of the table holds of the descriptor `fd`.
unfoldable pub asks : (FdEvent → Bool) → ℕ → Events → Bool
asks test fd [] = false
asks test fd ((k, none) ∷ m) = asks test fd m
asks test fd ((k, some ev) ∷ m) = (test ev && (fd == ev.fd)) || asks test fd m

-- An event of the table holds for the handler `h`.
unfoldable pub marks : (FdEvent → Bool) → ℕ → Events → Bool
marks test h [] = false
marks test h ((k, none) ∷ m) = marks test h m
marks test h ((k, some ev) ∷ m) = (test ev && (h == ev.handler)) || marks test h m

-- The handlers of the events that are ready, in the order of the table.
unfoldable pub ready : FdSets → Events → List ℕ
ready s [] = []
ready s ((k, none) ∷ m) = ready s m
ready s ((k, some ev) ∷ m) = if is_ready s ev then ev.handler ∷ ready s m else ready s m

abbrev pub empty_sets : FdSets
empty_sets = record { rset = λ _. false; wset = λ _. false; eset = λ _. false }

-- The sets hold, beside what `s` holds, the descriptors that the table asks for.
pub record Asked (s : FdSets) (m : Events) (s' : FdSets) : Type 0 where
  pub reads : (fd : ℕ) → s'.rset fd ≡ (s.rset fd || asks (λ ev. ev.read) fd m)
  pub writes : (fd : ℕ) → s'.wset fd ≡ (s.wset fd || asks (λ ev. ev.write) fd m)
  pub errors : (fd : ℕ) → s'.eset fd ≡ (s.eset fd || asks (λ ev. ev.error) fd m)

module _ {C : Type 0} where
  -- The flags that `wait` raises, and that it changes nothing else of a handler.
  pub record Marked (s : FdSets) (m : Events) (h : ℕ) (old new : EventHandler C) : Type 0 where
    pub read : new.read ≡ (old.read || marks (λ ev. s.rset ev.fd && ev.read) h m)
    pub write : new.write ≡ (old.write || marks (λ ev. s.wset ev.fd && ev.write) h m)
    pub error : new.error ≡ (old.error || marks (λ ev. s.eset ev.fd && ev.error) h m)
    pub close : new.close ≡ old.close
    pub read_callback : new.read_callback ≡ old.read_callback
    pub write_callback : new.write_callback ≡ old.write_callback
    pub error_callback : new.error_callback ≡ old.error_callback
    pub close_callback : new.close_callback ≡ old.close_callback

  -- The handlers after one event of the table.
  abbrev raised : FdSets → FdEvent → Handlers C → Handlers C
  raised s ev hs = raise (s.eset ev.fd && ev.error) EventType.error ev.handler (
      raise (s.wset ev.fd && ev.write) EventType.write ev.handler
        (raise (s.rset ev.fd && ev.read) EventType.read ev.handler hs))

abbrev pub IsClear : {C : Type 0} → EventHandler C → Type 0
IsClear h = (h.read ≡ false) × (h.write ≡ false) × (h.error ≡ false) × (h.close ≡ false)

-- A handler that had no flag before `wait` marked it calls its callbacks for the events that are
-- ready, for reading before writing before errors, each once at most, and then has no flag.
pub handle_events-Marked :
    {C : Type 0} (s : FdSets) (m : Events) (h : ℕ) (old new : EventHandler C)
    → IsClear old
    → Marked s m h old new
    → ((handle_events new).0
        ≡ fire (marks (λ ev. s.rset ev.fd && ev.read) h m) old.read_callback
          ++ fire (marks (λ ev. s.wset ev.fd && ev.write) h m) old.write_callback
          ++ fire (marks (λ ev. s.eset ev.fd && ev.error) h m) old.error_callback)
      × IsClear (handle_events new).1
unfolding handle_events
handle_events-Marked s m h old new c a = (
  simp (
    a.close ∙ c.3,
    a.read ∙ ap (λ b. b || marks (λ ev. s.rset ev.fd && ev.read) h m) c.0,
    a.write ∙ ap (λ b. b || marks (λ ev. s.wset ev.fd && ev.write) h m) c.1,
    a.error ∙ ap (λ b. b || marks (λ ev. s.eset ev.fd && ev.error) h m) c.2,
    a.read_callback,
    a.write_callback,
    a.error_callback,
  ),
  (refl, refl, refl, refl),
)
