-- ===== src/Server/Accept.antt =====
-- `server` of request.cc, and of echo_tcp_server.cc: the loop that accepts connections, and the threads
-- that it detaches.
use mathlib.Core.List.Perm
use mathlib.Core.List.{Perm, perm_middle}
use cs_3_boost_echo_static_s.Base.{
  ◌≡◌, refl, ap, ◌⊎◌, inl, inr, Bool, true, false, List, [], ◌∷◌, ◌++◌, map,
}
use cs_3_boost_echo_static_s.Server.Session.{Received}

-- A connection is known by what it gives to the read of its session, which is the function `run`.
module _ {Outcome : Type 0} (run : Received → Outcome) where
  -- Last come first: all connections that were accepted, those whose thread runs, and the ends of the
  -- threads that ended while the program ran. When the program has stopped, no thread runs any more.
  pub record ServerState : Type 0 where
    pub accepted : List Received
    pub running : List Received
    pub ended : List Outcome
    pub stopped : Bool

  abbrev pub listening : ServerState
  listening = record { accepted = []; running = []; ended = []; stopped = false }

  -- A round of the loop gives a new thread a copy of the handlers, and the objects of a session are its
  -- own, so that threads share only the files. A thread ends when its read has returned, which need not
  -- come. An exception of `accept`, or of the constructor of the thread for a connection that was
  -- accepted, leaves the loop; `main` catches it and returns, and the detached threads end with the
  -- program wherever they are.
  pub data Step : ServerState → ServerState → Type 0 where
    accept :
        (accepted running : List Received) (ended : List Outcome) (r : Received)
        → Step
            (record { accepted = accepted; running = running; ended = ended; stopped = false })
            (record {
              accepted = r ∷ accepted;
              running = r ∷ running;
              ended = ended;
              stopped = false;
            })
    finish :
        (ended_before : List Outcome) (accepted before after : List Received) (r : Received)
        → Step
            (record {
              accepted = accepted;
              running = before ++ r ∷ after;
              ended = ended_before;
              stopped = false;
            })
            (record {
              accepted = accepted;
              running = before ++ after;
              ended = run r ∷ ended_before;
              stopped = false;
            })
    accept_fails :
        (accepted running : List Received) (ended : List Outcome)
        → Step
            (record { accepted = accepted; running = running; ended = ended; stopped = false })
            (record { accepted = accepted; running = []; ended = ended; stopped = true })
    thread_fails :
        (accepted running : List Received) (ended : List Outcome) (r : Received)
        → Step
            (record { accepted = accepted; running = running; ended = ended; stopped = false })
            (record { accepted = r ∷ accepted; running = []; ended = ended; stopped = true })

  pub data Reaches : ServerState → Type 0 where
    starts : Reaches listening
    then_step : {s t : ServerState} → Reaches s → Step s t → Reaches t

  -- The accepted connections are those whose threads have ended, in the order of their ends, those
  -- whose threads run, and those that the program left unserved, which it does only when it stops.
  pub record IsAccounted (s : ServerState) : Type 0 where
    pub finished : List Received
    pub lost : List Received
    pub parts : Perm (finished ++ (s.running ++ lost)) s.accepted
    pub ends : s.ended ≡ map run finished
    pub none_lost : (s.stopped ≡ true) ⊎ (lost ≡ [])

  move_forward :
      (x : Received) (finished before after lost : List Received)
      → Perm
          (x ∷ (finished ++ ((before ++ after) ++ lost)))
          (finished ++ ((before ++ x ∷ after) ++ lost))
  move_forward x finished before after lost =
      let inside : Perm (x ∷ ((before ++ after) ++ lost)) ((before ++ x ∷ after) ++ lost) =
        Perm.append_right lost (Perm.symm (perm_middle before after)) in
      Perm.trans (Perm.symm (perm_middle finished ((before ++ after) ++ lost)))
        (Perm.append_left finished inside)

  step-IsAccounted : {s t : ServerState} → Step s t → IsAccounted s → IsAccounted t
  step-IsAccounted (accept accepted running ended r) i = record {
    finished = i.finished;
    lost = i.lost;
    parts = Perm.trans (perm_middle i.finished (running ++ i.lost)) (Perm.cons r i.parts);
    ends = i.ends;
    none_lost = i.none_lost;
  }
  step-IsAccounted (finish ended accepted before after r) i = record {
    finished = r ∷ i.finished;
    lost = i.lost;
    parts = Perm.trans (move_forward r i.finished before after i.lost) i.parts;
    ends = ap (λ l. run r ∷ l) i.ends;
    none_lost = i.none_lost;
  }
  step-IsAccounted (accept_fails accepted running ended) i = record {
    finished = i.finished;
    lost = running ++ i.lost;
    parts = i.parts;
    ends = i.ends;
    none_lost = inl refl;
  }
  step-IsAccounted (thread_fails accepted running ended r) i = record {
    finished = i.finished;
    lost = r ∷ (running ++ i.lost);
    parts = Perm.trans (perm_middle i.finished (running ++ i.lost)) (Perm.cons r i.parts);
    ends = i.ends;
    none_lost = inl refl;
  }

  pub Reaches-IsAccounted : {s : ServerState} → Reaches s → IsAccounted s
  Reaches-IsAccounted starts = record {
    finished = [];
    lost = [];
    parts = Perm.nil;
    ends = refl;
    none_lost = inr refl;
  }
  Reaches-IsAccounted (then_step h step) = step-IsAccounted step (Reaches-IsAccounted h)
