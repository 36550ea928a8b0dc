-- ===== src/Tests/AcceptorRuns.antt =====
-- An acceptor over a database in memory.
use libfastpaxos.Base.{
  ℕ, ◌≡◌, refl, [], ◌∷◌, some, arith, true, false, update, ◌==◌, if◌then◌else◌, Bool-cases, inl,
  inr,
}
use libfastpaxos.Base.Int.{pos}
use libfastpaxos.Message.{PrepareMsg, AcceptMsg}
use libfastpaxos.Disk.{
  Database, IsReliable, FlatRecord, GetResult, found, not_found, fetched, Uninit, AcceptorRecord,
}
use libfastpaxos.Acceptor.State.{Acceptor, acceptor_init}
use libfastpaxos.Acceptor.Prepare.{handle_prepare, add_promise_to_send_buffer}
use libfastpaxos.Acceptor.Accept.{handle_accept}
use libfastpaxos.Acceptor.Buffer.{IsBounded, add_promise-IsBounded}
use libfastpaxos.Acceptor.Cache.{init-IsCoherent}
use libfastpaxos.Acceptor.Promise.{IsReady, Answers, handle_prepare-Answers}
use libfastpaxos.Acceptor.Vote.{Outcome, holder, handle_accept-Votes}

abbrev pub memory_db : Database
memory_db = record {
  Store = ℕ → GetResult;
  created = λ _. not_found;
  put = λ s k d. (pos 0, update s k (found d));
  get = λ s k. s k;
  sync = λ s. (pos 0, s);
}

get-put_memory :
    (s : ℕ → GetResult) (k j : ℕ) (d : FlatRecord)
    → fetched (update s k (found d) j) ≡ (if k == j then some d else fetched (s j))
get-put_memory s k j d = elim (Bool-cases (k == j)) [ inl e ↦ rw e | inr e ↦ rw e ]

pub memory_db-IsReliable : IsReliable memory_db
memory_db-IsReliable = record {
  created_empty = λ k. refl;
  put_returns = λ s k d h. refl;
  get-put = λ s k j d e. get-put_memory s k j d;
}

abbrev pub fresh : Acceptor memory_db
fresh = acceptor_init (pos 2)

pub fresh-IsReady : IsReady memory_db-IsReliable fresh
fresh-IsReady = record {
  coherent = init-IsCoherent memory_db (pos 2) memory_db-IsReliable;
  measured = inl (refl, refl);
}

abbrev pub uninit : Uninit
uninit = record { proposer_id = pos 99; any_enabled = true }

abbrev pub prepare_five : PrepareMsg
prepare_five = record { iid = pos 5; ballot = pos 20 }

abbrev pub accept_five : AcceptMsg
accept_five = record {
  iid = pos 5;
  ballot = pos 21;
  value_size = 2;
  proposer_id = pos 1;
  value = 7 ∷ 8 ∷ 9 ∷ [];
}

handle_prepare-Answers_example :
    Answers memory_db-IsReliable fresh prepare_five (handle_prepare fresh uninit prepare_five)
handle_prepare-Answers_example =
    handle_prepare-Answers memory_db-IsReliable fresh prepare_five (omega arith) fresh-IsReady
      uninit (omega arith)

handle_accept-Votes_example :
    Outcome memory_db-IsReliable fresh accept_five
      (omega arith)
      fresh-IsReady
      (holder fresh uninit (pos 5))
      (handle_accept fresh uninit accept_five)
handle_accept-Votes_example =
    handle_accept-Votes memory_db-IsReliable fresh accept_five (omega arith) fresh-IsReady uninit

abbrev five_record : AcceptorRecord
five_record = record {
  iid = pos 5;
  proposer_id = pos 1;
  ballot = pos 21;
  value_ballot = pos 21;
  value_size = 2;
  any_enabled = false;
  value = some (7 ∷ 8 ∷ []);
}

add_promise-IsBounded_example : IsBounded (add_promise_to_send_buffer fresh five_record)
add_promise-IsBounded_example =
    add_promise-IsBounded fresh five_record
      (record { measured = inl (refl, refl); bound = omega arith; packets = tt }) (omega arith)
