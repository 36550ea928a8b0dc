-- ===== src/Learner/Retransmit.antt =====
-- The periodic check of lib/learner.c: it asks for all that is missing, and in packets of
-- the right size.
use mathlib.Core.List.{append-nil, append_assoc}
use libfastpaxos.Base.{
  ℕ, zero, suc, ◌+◌, ◌*◌, ◌≤◌, ◌≡◌, refl, ◌∙◌, sym, ap, false, List, [], ◌∷◌, ◌++◌, arith, ltb,
  if◌then◌else◌, length, length-append, Bool-cases, inl, inr, All, All-append,
}
use libfastpaxos.Base.Int.{ℤ, pos, pos_part, ◌+ℤ◌, ◌-ℤ◌, ltb_ℤ, ◌≤ℤ◌, sign_parts, int_laws}
use libfastpaxos.Config.{get_lea_index, max_udp_msg_size}
use libfastpaxos.Message.{Fits, PaxosMsg, learner_sync, Packet, sizeof_int}
use libfastpaxos.Learner.{Learner, LearnerRecord}
use libfastpaxos.Learner.Sync.{
  is_missing, SyncLoop, sync_headers, start_sync, sync_packet, add_sync, sync_instance,
  sync_instances, flush_sync, ask_retransmission, lsync_check,
}

-- The instances that are missing among `n` from `i` on.
abbrev pub missing : (ℕ → LearnerRecord) → ℕ → ℤ → List ℤ
missing learner_array zero i = []
missing learner_array (suc n) i =
    if is_missing (learner_array (get_lea_index i)) i
    then i ∷ missing learner_array n (i +ℤ pos 1)
    else missing learner_array n (i +ℤ pos 1)

abbrev pub ids_of : PaxosMsg → List ℤ
ids_of (learner_sync ids) = ids
ids_of _ = []

-- What some packets ask for.
abbrev pub asked : List Packet → List ℤ
asked [] = []
asked (p ∷ ps) = ids_of p.msg ++ asked ps

asked-append : (ps qs : List Packet) → asked (ps ++ qs) ≡ asked ps ++ asked qs
asked-append [] qs = refl
asked-append (p ∷ ps) qs =
    ap (λ t. ids_of p.msg ++ t) (asked-append ps qs)
    ∙ sym (append_assoc (ids_of p.msg) (asked ps) (asked qs))

-- There is room for one more instance.
abbrev IsBatch : SyncLoop → Type 0
IsBatch s =
    (s.buffer_size ≡ sync_headers + sizeof_int * length s.ids)
    × (s.buffer_size + sizeof_int ≤ max_udp_msg_size)

-- From `s` to `s'`, the packets `ps` are sent, and what they ask for with what is still in the
-- buffer is what was in the buffer and `ids`.
record Sends (s s' : SyncLoop) (ids : List ℤ) : Type 0 where
  ps : List Packet
  log : s'.sent ≡ s.sent ++ ps
  all : asked ps ++ s'.ids ≡ s.ids ++ ids
  fits : All Fits ps
  batch : IsBatch s'

no-Sends : (s : SyncLoop) → IsBatch s → Sends s s []
no-Sends s b = record {
  ps = [];
  log = sym (append-nil s.sent);
  all = sym (append-nil s.ids);
  fits = tt;
  batch = b;
}

Sends-append :
    (s t u : SyncLoop) (xs ys : List ℤ) → Sends s t xs → Sends t u ys → Sends s u (xs ++ ys)
Sends-append s t u xs ys a b = record {
  ps = a.ps ++ b.ps;
  log = b.log ∙ (ap (λ l. l ++ b.ps) a.log ∙ append_assoc s.sent a.ps b.ps);
  all =
      ap (λ l. l ++ u.ids) (asked-append a.ps b.ps)
      ∙ (append_assoc (asked a.ps) (asked b.ps) u.ids
          ∙ (ap (λ l. asked a.ps ++ l) b.all
              ∙ (sym (append_assoc (asked a.ps) t.ids ys)
                  ∙ (ap (λ l. l ++ ys) a.all ∙ append_assoc s.ids xs ys))));
  fits = All-append Fits a.ps b.ps a.fits b.fits;
  batch = b.batch;
}

sync_one :
    (s : SyncLoop) (i : ℤ)
    → IsBatch s
    → Sends s
        (let s' = add_sync s i in
          if ltb max_udp_msg_size (s'.buffer_size + sizeof_int)
          then start_sync (s'.sent ++ (sync_packet s' ∷ []))
          else s')
        (i ∷ [])
sync_one s i b =
    let n = length-append s.ids (i ∷ []) in
    elim (Bool-cases (ltb max_udp_msg_size (s.buffer_size + sizeof_int + sizeof_int))) [
      | inl full ↦ rw full (record {
        ps = sync_packet (add_sync s i) ∷ [];
        log = refl;
        all = append-nil _ ∙ append-nil _;
        fits = ((omega (arith, n, b.0), b.1), tt);
        batch = (refl, omega arith);
      })
      | inr room ↦ rw room (record {
        ps = [];
        log = sym (append-nil s.sent);
        all = refl;
        fits = tt;
        batch = (omega (arith, n, b.0), ground arith);
      })
    ]

sync_instances-Sends :
    (arr : ℕ → LearnerRecord) (n : ℕ) (i : ℤ) (s : SyncLoop)
    → IsBatch s
    → Sends s (sync_instances arr n i s) (missing arr n i)
unfolding sync_instances sync_instance
sync_instances-Sends arr zero i s b = no-Sends s b
sync_instances-Sends arr (suc n) i s b = elim (Bool-cases (is_missing (arr (get_lea_index i)) i)) [
  | inl y ↦
      let a = sync_one s i b in
      rw y (
        Sends-append s _ _ (i ∷ []) (missing arr n (i +ℤ pos 1)) a
          (sync_instances-Sends arr n (i +ℤ pos 1) _ a.batch))
  | inr z ↦ rw z (sync_instances-Sends arr n (i +ℤ pos 1) s b)
]

-- A buffer that is not empty is sent at the end.
flush_sync-Sends :
    (sent : List Packet) (s : SyncLoop) (ids pending : List ℤ)
    → s.ids ≡ pending
    → Sends (start_sync sent) s ids
    → (ps : List Packet) × (flush_sync s ≡ sent ++ ps) × (asked ps ≡ ids) × All Fits ps
flush_sync-Sends sent s ids [] e a =
    (a.ps, rw e a.log, sym (append-nil (asked a.ps)) ∙ rw⁻¹ e a.all, a.fits)
flush_sync-Sends sent s ids (x ∷ xs) e a = (
  a.ps ++ (sync_packet s ∷ []),
  ap (λ t. elim t [ [] ↦ s.sent | _ ∷ _ ↦ s.sent ++ (sync_packet s ∷ []) ]) e
      ∙ (ap (λ l. l ++ (sync_packet s ∷ [])) a.log ∙ append_assoc sent a.ps _),
  asked-append a.ps _ ∙ (ap (λ l. asked a.ps ++ l) (append-nil s.ids) ∙ a.all),
  All-append Fits a.ps _ a.fits ((omega (arith, a.batch.0), omega (arith, a.batch.1)), tt),
)

nothing_ahead : (low high : ℤ) → ltb_ℤ low high ≡ false → pos_part (high -ℤ (low +ℤ pos 1)) ≡ 0
nothing_ahead low high z =
    let h : high ≤ℤ low = ground arith in
    elim (sign_parts (high -ℤ (low +ℤ pos 1))) [ inl e ↦ e | inr e ↦ omega (int_laws, h, e) ]

-- The periodic check asks for exactly the instances between the highest delivered and the highest
-- seen, both left out, that are not closed, each once and in order; every packet that it sends is
-- as long as its message and within a UDP message, and nothing but the log of packets changes.
pub lsync_check-asks :
    (l : Learner)
    → (ps : List Packet) × (lsync_check l ≡ record l { sent = l.sent ++ ps })
      × (asked ps
          ≡ missing l.learner_array
              (pos_part (l.highest_seen -ℤ (l.highest_delivered +ℤ pos 1)))
              (l.highest_delivered +ℤ pos 1))
      × All Fits ps
unfolding lsync_check ask_retransmission
lsync_check-asks l =
    let from = l.highest_delivered +ℤ pos 1 in
    let n = pos_part (l.highest_seen -ℤ from) in
    elim (Bool-cases (ltb_ℤ l.highest_delivered l.highest_seen)) [
      | inl y ↦
          let s = sync_instances l.learner_array n from (start_sync l.sent) in
          let (ps, e, a, f) =
            flush_sync-Sends l.sent s (missing l.learner_array n from) s.ids refl (
              sync_instances-Sends l.learner_array n from (start_sync l.sent)
                (refl, omega arith)) in
          (ps, rw y (ap (λ t. record l { sent = t }) e), a, f)
      | inr z ↦
          let none_left : n ≡ 0 = nothing_ahead l.highest_delivered l.highest_seen z in
          (
            [],
            rw z (ap (λ t. record l { sent = t }) (sym (append-nil l.sent))),
            rw none_left refl,
            tt,
          )
    ]
