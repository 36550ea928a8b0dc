-- ===== src/Learner/Sync.antt =====
-- The periodic check of lib/learner.c: it asks the acceptors for missing instances.
use libfastpaxos.Base.{
  ℕ, zero, suc, ◌+◌, Bool, not, ◌&&◌, ◌||◌, List, [], ◌∷◌, ◌++◌, ltb, if◌then◌else◌,
}
use libfastpaxos.Base.Int.{ℤ, pos, pos_part, ◌+ℤ◌, ◌-ℤ◌, eqb_ℤ, ltb_ℤ}
use libfastpaxos.Config.{get_lea_index, max_udp_msg_size}
use libfastpaxos.Message.{
  learner_sync, Packet, acceptors_net, sizeof_paxos_msg, sizeof_learner_sync_msg, sizeof_int,
}
use libfastpaxos.Learner.{Learner, LearnerRecord, is_closed}

-- "Not closed or never seen".
abbrev pub is_missing : LearnerRecord → ℤ → Bool
is_missing rec i = (eqb_ℤ rec.iid i && not (is_closed rec)) || ltb_ℤ rec.iid i

-- The buffer, the local variables and the log of packets.
pub record SyncLoop : Type 0 where
  pub ids : List ℤ
  pub buffer_size : ℕ
  pub sent : List Packet

abbrev pub sync_headers : ℕ
sync_headers = sizeof_learner_sync_msg + sizeof_paxos_msg

abbrev pub start_sync : List Packet → SyncLoop
start_sync sent = record { ids = []; buffer_size = sync_headers; sent = sent }

abbrev pub sync_packet : SyncLoop → Packet
sync_packet s = record { net = acceptors_net; msg = learner_sync s.ids; size = s.buffer_size }

abbrev pub add_sync : SyncLoop → ℤ → SyncLoop
add_sync s i = record s { ids = s.ids ++ (i ∷ []); buffer_size = s.buffer_size + sizeof_int }

-- The body of the loop. `MAX_UDP_MSG_SIZE - buffer_size` is never negative, as `IsBatch` shows.
unfoldable pub sync_instance : (ℕ → LearnerRecord) → ℤ → SyncLoop → SyncLoop
sync_instance learner_array i s =
    if is_missing (learner_array (get_lea_index i)) i
    then (let s' = add_sync s i in
        if ltb max_udp_msg_size (s'.buffer_size + sizeof_int)
        then start_sync (s'.sent ++ (sync_packet s' ∷ []))
        else s')
    else s

unfoldable pub sync_instances : (ℕ → LearnerRecord) → ℕ → ℤ → SyncLoop → SyncLoop
sync_instances learner_array zero i s = s
sync_instances learner_array (suc n) i s =
    sync_instances learner_array n (i +ℤ pos 1) (sync_instance learner_array i s)

abbrev pub flush_sync : SyncLoop → List Packet
flush_sync s = elim s.ids [ [] ↦ s.sent | _ ∷ _ ↦ s.sent ++ (sync_packet s ∷ []) ]

unfoldable pub ask_retransmission : Learner → Learner
ask_retransmission l =
    let from = l.highest_delivered +ℤ pos 1 in
    record l {
      sent = flush_sync (
          sync_instances l.learner_array (pos_part (l.highest_seen -ℤ from)) from
            (start_sync l.sent));
    }

unfoldable pub lsync_check : Learner → Learner
unfolding ask_retransmission
lsync_check l = if ltb_ℤ l.highest_delivered l.highest_seen then ask_retransmission l else l
