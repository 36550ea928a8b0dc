-- ===== src/Acceptor/State.antt =====
-- The state of lib/acceptor.c. The statics of the file are the record `Acceptor`; `sent` logs the
-- calls of `udp_send`, oldest first.
use libfastpaxos.Base.{ℕ, ◌+◌, false, List, [], ◌∷◌, ◌++◌, Option, none, some, update, take}
use libfastpaxos.Base.Int.{ℤ, pos, minus_one}
use libfastpaxos.Message.{
  PromiseMsg, promise_batch, learn, Packet, learners_net, proposers_net, sizeof_paxos_msg,
  sizeof_promise_batch_msg, sizeof_learn_msg,
}
use libfastpaxos.Disk.{
  Database, AcceptorRecord, Uninit, bytes, disk_force_syncrony, disk_update_record,
}

-- The promises in `send_buffer`, and its size; the buffer is in use if the size is not 0.
pub record Acceptor (db : Database) : Type 0 where
  pub acceptor_id : ℤ
  pub acceptor_array : ℕ → AcceptorRecord
  pub send_buffer : List PromiseMsg
  pub send_buffer_size : ℕ
  pub disk : db.Store
  pub sent : List Packet

-- Static storage, as the loop of `acceptor_start` leaves it.
abbrev pub start_record : AcceptorRecord
start_record = record {
  iid = minus_one;
  proposer_id = pos 0;
  ballot = minus_one;
  value_ballot = pos 0;
  value_size = 0;
  any_enabled = false;
  value = none;
}

-- The two headers in front of a batch of promises.
abbrev pub promise_headers : ℕ
promise_headers = sizeof_paxos_msg + sizeof_promise_batch_msg

abbrev pub promise_of : AcceptorRecord → PromiseMsg
promise_of rec = record {
  iid = rec.iid;
  ballot = rec.ballot;
  value_ballot = rec.value_ballot;
  value_size = rec.value_size;
  value = take rec.value_size (bytes rec.value);
}

-- `malloc` where there is no record on disk.
abbrev pub absent_record : Uninit → ℤ → AcceptorRecord
absent_record u iid = record {
  iid = iid;
  proposer_id = u.proposer_id;
  ballot = minus_one;
  value_ballot = minus_one;
  value_size = 0;
  any_enabled = u.any_enabled;
  value = none;
}

abbrev pub or_absent : Uninit → ℤ → Option AcceptorRecord → AcceptorRecord
or_absent u iid none = absent_record u iid
or_absent u iid (some rec) = rec

module _ {db : Database} where
  abbrev pub acceptor_init : ℤ → Acceptor db
  acceptor_init id = record {
    acceptor_id = id;
    acceptor_array = λ _. start_record;
    send_buffer = [];
    send_buffer_size = 0;
    disk = db.created;
    sent = [];
  }

  -- `flush_send_buffer` with promises: what was in the buffer is not read again.
  unfoldable pub flush_promises : Acceptor db → Acceptor db
  flush_promises st = record st {
    send_buffer = [];
    send_buffer_size = 0;
    sent =
        st.sent
        ++ (record {
          net = proposers_net;
          msg = promise_batch st.acceptor_id st.send_buffer;
          size = st.send_buffer_size;
        }
            ∷ []);
  }

  abbrev pub synced : Acceptor db → Acceptor db
  synced st = record st { disk = (disk_force_syncrony db st.disk).1 }

  abbrev pub written : Acceptor db → AcceptorRecord → Acceptor db
  written st rec = record st { disk = (disk_update_record db st.disk rec).1 }

  abbrev pub put_slot : Acceptor db → ℕ → AcceptorRecord → Acceptor db
  put_slot st i rec = record st { acceptor_array = update st.acceptor_array i rec }

  -- The `memcpy` into the buffer of MAX_UDP_MSG_SIZE bytes is not checked in C, and not bounded here.
  unfoldable pub send_learn_message : Acceptor db → AcceptorRecord → Acceptor db
  send_learn_message st rec = record st {
    send_buffer = [];
    send_buffer_size = 0;
    sent =
        st.sent
        ++ (record {
          net = learners_net;
          msg = learn (record {
            acceptor_id = st.acceptor_id;
            iid = rec.iid;
            ballot = rec.ballot;
            proposer_id = rec.proposer_id;
            value_size = rec.value_size;
            value = take rec.value_size (bytes rec.value);
          });
          size = sizeof_learn_msg + sizeof_paxos_msg + rec.value_size;
        }
            ∷ []);
  }
