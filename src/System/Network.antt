-- ===== src/System/Network.antt =====
-- The steps of a group of acceptors and a learner (lib/acceptor.c, lib/learner.c). The network may
-- lose, repeat, delay and reorder what is sent: a step picks any packet that an acceptor has sent,
-- or hands any message at all to an acceptor. `Asked` holds of the accept requests among those.
use mathlib.Core.List.{Memᴰ}
use libfastpaxos.Base.{ℕ, ◌≡◌, some, update}
use libfastpaxos.Base.Int.{ℤ, pos}
use libfastpaxos.Message.{AcceptMsg, PaxosMsg, Packet}
use libfastpaxos.Disk.{Database, Uninit}
use libfastpaxos.Acceptor.State.{Acceptor, acceptor_init}
use libfastpaxos.Acceptor.Anyval.{handle_message}
use libfastpaxos.Acceptor.Runs.{IsProper, IsAsked}
use libfastpaxos.Learner.{Learner, init, handle_learner_msg}

pub record Group (db : Database) : Type 0 where
  pub acceptors : ℕ → Acceptor db
  pub learner : Learner

-- Acceptor `k` has number `k`.
abbrev pub new_group : (db : Database) → Group db
new_group db = record { acceptors = λ k. acceptor_init (pos k); learner = init }

pub data Reached (db : Database) (Asked : AcceptMsg → Type 0) : Group db → Type 0 where
  started : Reached db Asked (new_group db)
  asked :
      (g : Group db) (k : ℕ) (u : ℤ → Uninit) (m : PaxosMsg) (st : Acceptor db)
      → Reached db Asked g
      → IsProper m
      → IsAsked Asked m
      → handle_message (g.acceptors k) u m ≡ some st
      → Reached db Asked (record g { acceptors = update g.acceptors k st })
  told :
      (g : Group db) (k : ℕ) (p : Packet) (l : Learner)
      → Reached db Asked g
      → Memᴰ p (g.acceptors k).sent
      → handle_learner_msg g.learner p.msg ≡ some l
      → Reached db Asked (record g { learner = l })
