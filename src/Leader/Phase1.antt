-- ===== src/Leader/Phase1.antt =====
-- Phase 1 in lib/leader.c: prepare requests for the instances ahead, sent again with a higher ballot
-- while promises are missing, and the promises that come back.
use libfastpaxos.Base.{
  ℕ, zero, suc, ◌+◌, ◌/◌, Bool, not, ◌&&◌, ◌||◌, [], ◌∷◌, Option, none, some, ltb, if◌then◌else◌,
  take, update,
}
use libfastpaxos.Base.Int.{ℤ, pos, negsuc, minus_one, ◌+ℤ◌, ◌-ℤ◌, ltb_ℤ, eqb_ℤ}
use libfastpaxos.Config.{
  n_of_acceptors, preexec_win_size, get_pro_index, first_ballot, ballot_next, quorum,
}
use libfastpaxos.Message.{PromiseMsg, prepare_batch, sizeof_prepare_batch_msg}
use libfastpaxos.Leader.State.{
  p1_pending, p1_ready, is_new, is_pending, PromiseInfo, ProposerRecord, Phase1Info, Leader,
  flush_send_buffer, new_batch, add_prepare_to_buffer, clear_promises, zero_proposer_record,
  rounds_between,
}

-- A record set up for an instance.
abbrev pub opened : Leader → ProposerRecord → ℤ → ProposerRecord
opened st rec i =
    clear_promises
      (record rec { iid = i; status = p1_pending; ballot = first_ballot st.proposer_id })

-- The body of the loop of `execute_phase1`.
unfoldable pub open_instance : Leader → ℤ → Leader
open_instance st i =
    if ltb_ℤ rec.iid i || is_new rec.status
    then add_prepare_to_buffer
        (record st {
          p1info = record st.p1info { pending_count = st.p1info.pending_count +ℤ pos 1 };
          proposer_array = update st.proposer_array (get_pro_index i) (opened st rec i);
        })
        i (first_ballot st.proposer_id)
    else st
  where
    rec : ProposerRecord
    rec = st.proposer_array (get_pro_index i)

unfoldable pub open_instances : ℕ → ℤ → Leader → Leader
open_instances zero i st = st
open_instances (suc n) i st = open_instances n (i +ℤ pos 1) (open_instance st i)

-- The batch is sent as it stands when it is not empty.
abbrev pub flush_batch : Leader → Leader
flush_batch st = elim st.batch [ [] ↦ st | _ ∷ _ ↦ flush_send_buffer st (prepare_batch st.batch) ]

abbrev pub widen : Phase1Info → ℤ → ℤ → Phase1Info
widen p from to = record p {
  last_to_check = if ltb_ℤ p.last_to_check to then to else p.last_to_check;
  first_to_check = if ltb_ℤ from p.first_to_check then from else p.first_to_check;
}

-- The window is inclusive: one instance more than its size.
unfoldable pub execute_phase1 : Leader → Leader
execute_phase1 st =
    let from = st.p1info.highest_ready +ℤ pos 1 in
    let st' = open_instances (preexec_win_size + 1) from st in
    flush_batch (record st' { p1info = widen st'.p1info from (from +ℤ pos preexec_win_size) })

-- The body of the loop of `phase1_check_cb`.
unfoldable pub retry_instance : Leader → ℤ → Leader
retry_instance st i =
    if eqb_ℤ rec.iid i && is_pending rec.status
    then add_prepare_to_buffer
        (record st {
          proposer_array =
              update st.proposer_array (get_pro_index i)
                (clear_promises (record rec { ballot = ballot_next rec.ballot }));
        })
        rec.iid (ballot_next rec.ballot)
    else st
  where
    rec : ProposerRecord
    rec = st.proposer_array (get_pro_index i)

unfoldable pub retry_instances : ℕ → ℤ → Leader → Leader
retry_instances zero i st = st
retry_instances (suc n) i st = retry_instances n (i +ℤ pos 1) (retry_instance st i)

abbrev pub is_short : Leader → Bool
is_short st = ltb_ℤ (st.p1info.pending_count +ℤ st.p1info.ready_count) (pos (preexec_win_size / 2))

-- A batch that `execute_phase1` has sent is still in the buffer, and sent again.
unfoldable pub phase1_check_cb : Leader → Leader
unfolding execute_phase1
phase1_check_cb st =
    let p = st.p1info in
    let st' =
      retry_instances (rounds_between p.first_to_check p.last_to_check) p.first_to_check
        (new_batch st) in
    flush_batch (if is_short st' then execute_phase1 st' else st')

-- The index into `promises` is checked nowhere in the source.
abbrev pub acceptor_index : ℤ → Option ℕ
acceptor_index (pos n) = if ltb n n_of_acceptors then some n else none
acceptor_index (negsuc n) = none

-- What a promise leaves in its place. Without a value, the place keeps the size and the value.
abbrev pub kept_promise : PromiseInfo → PromiseMsg → PromiseInfo
kept_promise old prom =
    if eqb_ℤ prom.value_ballot minus_one
    then record old { iid = prom.iid; value_ballot = prom.value_ballot }
    else record {
      iid = prom.iid;
      value_ballot = prom.value_ballot;
      value_size = prom.value_size;
      value = some (take prom.value_size prom.value);
    }

abbrev pub with_promise : ProposerRecord → ℕ → PromiseMsg → ProposerRecord
with_promise rec a prom = record rec {
  promises = update rec.promises a (kept_promise (rec.promises a) prom);
  promise_count = suc rec.promise_count;
}

-- Phase 1 of one more instance is done.
abbrev pub count_ready : Phase1Info → ℤ → Phase1Info
count_ready p iid = record {
  pending_count = p.pending_count -ℤ pos 1;
  ready_count = p.ready_count +ℤ pos 1;
  highest_ready = if ltb_ℤ p.highest_ready iid then iid else p.highest_ready;
  first_to_check = if ltb_ℤ iid p.first_to_check then iid else p.first_to_check;
  last_to_check = if ltb_ℤ p.last_to_check iid then iid else p.last_to_check;
}

-- A promise with a valid acceptor is kept in the record at `k`.
abbrev pub keep_promise : Leader → ℕ → ProposerRecord → ℤ × Leader
keep_promise st k rec =
    if ltb rec.promise_count quorum
    then (pos 0, record st { proposer_array = update st.proposer_array k rec })
    else (
      pos 1,
      record st {
        proposer_array = update st.proposer_array k (record rec { status = p1_ready });
        p1info = count_ready st.p1info rec.iid;
      },
    )

-- `k` is the index of the record that the caller passes.
unfoldable pub handle_promise : Leader → PromiseMsg → ℤ → ℕ → Option (ℤ × Leader)
handle_promise st prom acceptor_id k =
    if not (eqb_ℤ rec.iid prom.iid)
    then some (pos 0, st)
    else if not (is_pending rec.status)
    then some (pos 0, st)
    else if not (eqb_ℤ rec.ballot prom.ballot)
    then some (pos 0, st)
    else elim (acceptor_index acceptor_id) [
      | none ↦ none
      | some a ↦ some (
          if not (eqb_ℤ (rec.promises a).iid minus_one)
          then (pos 0, st)
          else keep_promise st k (with_promise rec a prom))
    ]
  where
    rec : ProposerRecord
    rec = st.proposer_array k

-- What `leader_init` sets up before it runs phase 1.
abbrev pub leader_start : ℤ → Leader
leader_start prop_id = record {
  proposer_id = prop_id;
  current_iid = pos 0;
  p1info = record {
    pending_count = pos 0;
    ready_count = pos 0;
    highest_ready = minus_one;
    first_to_check = pos 0;
    last_to_check = pos 0;
  };
  p2_current_iid = pos 0;
  proposer_array = λ k. zero_proposer_record;
  batch = [];
  any_ballot = minus_one;
  any_ids = [];
  msg_size = sizeof_prepare_batch_msg;
  sent = [];
}

unfoldable pub leader_init : ℤ → Leader
unfolding execute_phase1
leader_init prop_id = execute_phase1 (leader_start prop_id)
