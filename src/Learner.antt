-- ===== src/Learner.antt =====
-- lib/learner.c. The statics of the file are the record `Learner`; `delivered` logs the calls of
-- `delfun`, and `sent` those of `udp_send`, both oldest first. The record array is a function from
-- indices, which `GET_LEA_INDEX` keeps below LEARNER_ARRAY_SIZE.
pub mod Sync
pub mod Retransmit
pub mod Update
pub mod Window
pub mod Handle
pub mod Evidence
pub mod Votes
use libfastpaxos.Base.{
  ℕ, zero, suc, ◌+◌, ◌-◌, ◌≤◌, ◌<◌, Bool, true, false, ◌||◌, ◌&&◌, not, List, [], ◌∷◌, ◌++◌, Option,
  none, some, ltb, leb, if◌then◌else◌, update, take, loop_up, length, ◌*◌,
}
use libfastpaxos.Base.Int.{ℤ, pos, negsuc, minus_one, pos_part, ◌+ℤ◌, ◌-ℤ◌, ltb_ℤ, leb_ℤ, eqb_ℤ}
use libfastpaxos.Config.{
  n_of_acceptors, learner_array_size, get_lea_index, quorum, max_udp_msg_size,
}
use libfastpaxos.Message.{
  LearnMsg, PaxosMsg, learn, prepare_batch, accept, learner_sync, promise_batch, anyval,
  unknown_type, Packet, acceptors_net, sizeof_paxos_msg, sizeof_learner_sync_msg, sizeof_int,
}

-- `final_value` is `none` for NULL.
pub record LearnerRecord : Type 0 where
  pub iid : ℤ
  pub ballot : ℤ
  pub proposer_id : ℤ
  pub final_value : Option (List ℕ)
  pub final_value_size : ℤ
  pub learns : ℕ → Option LearnMsg

-- One call `delfun(deliver_buffer, size, iid, ballot, proposer_id)`.
pub record Delivery : Type 0 where
  pub value : List ℕ
  pub size : ℤ
  pub iid : ℤ
  pub ballot : ℤ
  pub proposer_id : ℤ

pub record Learner : Type 0 where
  pub highest_delivered : ℤ
  pub highest_seen : ℤ
  pub learner_array : ℕ → LearnerRecord
  pub delivered : List Delivery
  pub sent : List Packet

-- Static storage is zeroed.
abbrev pub zero_record : LearnerRecord
zero_record = record {
  iid = pos 0;
  ballot = pos 0;
  proposer_id = pos 0;
  final_value = none;
  final_value_size = pos 0;
  learns = λ _. none;
}

unfoldable pub init : Learner
init = record {
  highest_delivered = minus_one;
  highest_seen = minus_one;
  learner_array = λ _. zero_record;
  delivered = [];
  sent = [];
}

abbrev pub is_closed : LearnerRecord → Bool
is_closed rec = elim rec.final_value [ none ↦ false | some _ ↦ true ]

-- `memcpy(new_learn, lmsg, sizeof(learn_msg) + lmsg->value_size)`
abbrev pub copy_learn : LearnMsg → LearnMsg
copy_learn m = record m { value = take m.value_size m.value }

abbrev pub store_learn : LearnerRecord → LearnMsg → LearnerRecord
store_learn rec m = record rec {
  learns = update rec.learns (pos_part m.acceptor_id) (some (copy_learn m));
}

-- The bounds check comes first, so `learns` is read and written inside the array.
unfoldable pub add_learn_to_record : LearnerRecord → LearnMsg → Bool × LearnerRecord
add_learn_to_record rec m =
    if ltb_ℤ m.acceptor_id (pos 0) || leb_ℤ (pos n_of_acceptors) m.acceptor_id
    then (false, rec)
    else elim (rec.learns (pos_part m.acceptor_id)) [
      | none ↦ (true, store_learn rec m)
      | some old_learn ↦
          if leb_ℤ m.ballot old_learn.ballot then (false, rec) else (true, store_learn rec m)
    ]

-- "Clean record"; `ballot` and `proposer_id` keep what they held.
abbrev pub clean_record : LearnerRecord → ℤ → LearnerRecord
clean_record rec iid = record rec {
  iid = iid;
  final_value = none;
  final_value_size = minus_one;
  learns = λ _. none;
}

abbrev pub put_record : Learner → ℕ → LearnerRecord → Learner
put_record l i rec = record l { learner_array = update l.learner_array i rec }

unfoldable pub update_record : Learner → LearnMsg → Bool × Learner
unfolding add_learn_to_record
update_record l m =
    if leb_ℤ (l.highest_delivered +ℤ pos learner_array_size) m.iid
    then (false, l)
    else if leb_ℤ m.iid l.highest_delivered
    then (false, l)
    else if not (eqb_ℤ rec.iid m.iid)
    then (let (r, rec') = add_learn_to_record (clean_record rec m.iid) m in
        (r, put_record l i rec'))
    else if is_closed rec
    then (false, l)
    else (let (r, rec') = add_learn_to_record rec m in (r, put_record l i rec'))
  where
    i : ℕ
    i = get_lea_index m.iid

    rec : LearnerRecord
    rec = l.learner_array i

-- `for(i = 0; i < N_OF_ACCEPTORS; i++)` of `check_quorum`.
abbrev pub count_learns : (ℕ → Option LearnMsg) → ℤ → ℕ
count_learns learns ballot =
    loop_up
      (λ i count. elim (learns i) [
        | none ↦ count
        | some stored_learn ↦ if eqb_ℤ stored_learn.ballot ballot then count + 1 else count
      ])
      0 n_of_acceptors 0

abbrev pub close_record : LearnerRecord → LearnMsg → LearnerRecord
close_record rec m = record rec {
  ballot = m.ballot;
  proposer_id = m.proposer_id;
  final_value_size = pos m.value_size;
  final_value = some (take m.value_size m.value);
}

unfoldable pub check_quorum : Learner → LearnMsg → Bool × Learner
check_quorum l m =
    if leb quorum (count_learns rec.learns m.ballot)
    then (true, put_record l i (close_record rec m))
    else (false, l)
  where
    i : ℕ
    i = get_lea_index m.iid

    rec : LearnerRecord
    rec = l.learner_array i

-- One round of the loop of `deliver_values` at a closed record that holds `value`. The `memcpy` into
-- `deliver_buffer`, of PAXOS_MAX_VALUE_SIZE bytes, is not checked in C, and not bounded here.
abbrev pub deliver : Learner → ℤ → List ℕ → Learner
deliver l instance_id value = record l {
  highest_delivered = instance_id;
  learner_array = update l.learner_array i (record rec { final_value = none });
  delivered =
      l.delivered
      ++ (record {
        value = value;
        size = rec.final_value_size;
        iid = instance_id;
        ballot = rec.ballot;
        proposer_id = rec.proposer_id;
      }
          ∷ []);
}
  where
    i : ℕ
    i = get_lea_index instance_id

    rec : LearnerRecord
    rec = l.learner_array i

-- `while(1)` on fuel; `none` means that the fuel ran out.
unfoldable pub deliver_values : ℕ → Learner → ℤ → Option Learner
deliver_values zero l instance_id = none
deliver_values (suc fuel) l instance_id =
    elim (l.learner_array (get_lea_index instance_id)).final_value [
      | none ↦ some l
      | some value ↦ deliver_values fuel (deliver l instance_id value) (instance_id +ℤ pos 1)
    ]

-- One round for each record, and one to stop.
abbrev pub deliver_fuel : ℕ
deliver_fuel = learner_array_size

abbrev pub see : Learner → LearnMsg → Learner
see l m = if ltb_ℤ l.highest_seen m.iid then record l { highest_seen = m.iid } else l

-- The second half of `learner_handle_learn_msg`, for a message that was stored.
unfoldable pub close_and_deliver : Learner → LearnMsg → Option Learner
close_and_deliver l m =
    let (closed, l') = check_quorum l m in
    if not closed
    then some l'
    else if eqb_ℤ m.iid (l'.highest_delivered +ℤ pos 1)
    then deliver_values deliver_fuel l' m.iid
    else some l'

unfoldable pub handle_learn_msg : Learner → LearnMsg → Option Learner
handle_learn_msg l m =
    let (relevant, l') = update_record (see l m) m in
    if not relevant then some l' else close_and_deliver l' m

-- `learner_handle_learner_msg` behind `recvfrom`. A size that does not match is only reported.
unfoldable pub handle_learner_msg : Learner → PaxosMsg → Option Learner
handle_learner_msg l (learn m) = handle_learn_msg l m
handle_learner_msg l (prepare_batch _) = some l
handle_learner_msg l (accept _) = some l
handle_learner_msg l (learner_sync _) = some l
handle_learner_msg l (promise_batch _ _) = some l
handle_learner_msg l (anyval _ _) = some l
handle_learner_msg l (unknown_type _) = some l

-- The messages of a run, in the order in which they are read.
unfoldable pub handle_all : Learner → List PaxosMsg → Option Learner
handle_all l [] = some l
handle_all l (m ∷ ms) = elim (handle_learner_msg l m) [ none ↦ none | some l' ↦ handle_all l' ms ]
