-- ===== src/Acceptor/Spec.antt =====
-- What an acceptor promises to do, as a map from instances to what it remembers of them: the rule of
-- Paxos, with no array, no cache and no buffer.
use libfastpaxos.Base.{ℕ, ◌+◌, Bool, take, List, [], ◌∷◌, Option, none, some, if◌then◌else◌}
use libfastpaxos.Base.Int.{ℤ, minus_one, ltb_ℤ}
use libfastpaxos.Message.{
  PromiseMsg, AcceptMsg, learn, Packet, learners_net, sizeof_paxos_msg, sizeof_learn_msg,
}
use libfastpaxos.Disk.{FlatRecord}

-- The highest ballot that is known of an instance.
abbrev pub ballot_of : Option FlatRecord → ℤ
ballot_of none = minus_one
ballot_of (some d) = d.ballot

-- A higher ballot is promised, and nothing else.
abbrev pub grants : Option FlatRecord → ℤ → Bool
grants e ballot = ltb_ℤ (ballot_of e) ballot

-- The promise is remembered beside what was accepted before.
abbrev pub prepared : ℤ → ℤ → Option FlatRecord → FlatRecord
prepared iid ballot none = record {
  iid = iid;
  ballot = ballot;
  value_ballot = minus_one;
  value_size = 0;
  value = [];
}
prepared iid ballot (some d) = record d { ballot = ballot }

abbrev pub promise_flat : FlatRecord → PromiseMsg
promise_flat d = record {
  iid = d.iid;
  ballot = d.ballot;
  value_ballot = d.value_ballot;
  value_size = d.value_size;
  value = d.value;
}

abbrev pub prepare_entry : Option FlatRecord → ℤ → ℤ → Option FlatRecord
prepare_entry e iid ballot = if grants e ballot then some (prepared iid ballot e) else e

abbrev pub prepare_reply : Option FlatRecord → ℤ → ℤ → List PromiseMsg
prepare_reply e iid ballot =
    if grants e ballot then promise_flat (prepared iid ballot e) ∷ [] else []

-- A vote: the value of an accept request is remembered with its ballot.
abbrev pub voted : AcceptMsg → FlatRecord
voted m = record {
  iid = m.iid;
  ballot = m.ballot;
  value_ballot = m.ballot;
  value_size = m.value_size;
  value = take m.value_size m.value;
}

abbrev pub vote_with : ℤ → AcceptMsg → List ℕ → Packet
vote_with acceptor_id m value = record {
  net = learners_net;
  msg = learn (record {
    acceptor_id = acceptor_id;
    iid = m.iid;
    ballot = m.ballot;
    proposer_id = m.proposer_id;
    value_size = m.value_size;
    value = value;
  });
  size = sizeof_learn_msg + sizeof_paxos_msg + m.value_size;
}

-- The packet that tells the learners of a vote.
abbrev pub vote_packet : ℤ → AcceptMsg → Packet
vote_packet acceptor_id m = vote_with acceptor_id m (take m.value_size m.value)
