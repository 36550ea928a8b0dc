-- ===== src/Leader/AnyBounds.antt =====
-- The packets of phase 2 in lib/leader.c stay within a UDP message.
use libfastpaxos.Base.{
  ℕ, zero, suc, ◌+◌, ◌*◌, ◌≤◌, ◌≡◌, refl, subst, Option, none, some, List, [], ◌∷◌, arith, ltb,
  length, length-append, Bool-cases, inl, inr, All, All-append, update_all,
}
use libfastpaxos.Base.Int.{ℤ, pos, ◌+ℤ◌}
use libfastpaxos.Config.{max_udp_msg_size, max_value_size, get_pro_index}
use libfastpaxos.Message.{Fits, anyval, sizeof_paxos_msg, sizeof_anyval_msg, sizeof_int}
use libfastpaxos.Leader.State.{
  Leader, ProposerRecord, PromiseInfo, is_ready, new_anymsg, flush_send_buffer,
  append_anymsg_to_buffer, rounds_between,
}
use libfastpaxos.Leader.Phase2.{
  phase2_value, send_accept, offer_any, finish, phase2_instance, phase2_instances, flush_anymsg,
  execute_phase2,
}
use libfastpaxos.Leader.Choice.{Highest, phase2_value-Highest}

-- The values that were reported fit in an accept request.
abbrev pub IsSmall : ProposerRecord → Type 0
IsSmall rec = (a : ℕ) → (rec.promises a).value_size ≤ max_value_size

-- The size in the header is that of the any message, and one more instance fits.
record IsAny (st : Leader) : Type 0 where
  size : st.msg_size ≡ sizeof_anyval_msg + sizeof_int * length st.any_ids
  room : st.msg_size + sizeof_paxos_msg + sizeof_int ≤ max_udp_msg_size
  fits : All Fits st.sent
  small : (k : ℕ) → IsSmall (st.proposer_array k)

finish-IsAny : (st : Leader) (k : ℕ) → IsAny st → IsAny (finish st k)
finish-IsAny st k b = record {
  size = b.size;
  room = b.room;
  fits = b.fits;
  small = update_all (λ _ rec. IsSmall rec) st.proposer_array k _ (b.small k) (λ j _. b.small j);
}

append_anymsg-IsAny : (st : Leader) (iid : ℤ) → IsAny st → IsAny (append_anymsg_to_buffer st iid)
unfolding append_anymsg_to_buffer
append_anymsg-IsAny st iid b =
    let n = length-append st.any_ids (iid ∷ []) in
    elim (Bool-cases (ltb max_udp_msg_size (st.msg_size + 4 + 8 + 4))) [
      | inl full ↦ rw full (record {
        size = refl;
        room = omega arith;
        fits =
            All-append Fits st.sent _ b.fits
              ((omega (arith, n, b.size), omega (arith, b.room)), tt);
        small = b.small;
      })
      | inr more ↦ rw more (record {
        size = omega (arith, n, b.size);
        room = ground arith;
        fits = b.fits;
        small = b.small;
      })
    ]

-- The value that phase 2 takes is one that was reported.
taken_small :
    (rec : ProposerRecord) (pi : PromiseInfo)
    → Highest rec.promises (some pi)
    → IsSmall rec
    → pi.value_size ≤ max_value_size
taken_small rec pi (k, lt, at, found, top) small =
    subst (λ x. x.value_size ≤ max_value_size) at (small k)

phase2_instance-IsAny : (st : Leader) (i : ℤ) → IsAny st → IsAny (phase2_instance st i)
unfolding phase2_instance send_accept
phase2_instance-IsAny st i b = elim (Bool-cases (is_ready rec.status)) [
  | inr idle ↦ rw idle b
  | inl ready ↦ rw ready (chosen (phase2_value rec) refl)
]
  where
    k : ℕ
    k = get_pro_index i

    rec : ProposerRecord
    rec = st.proposer_array k

    chosen :
        (o : Option PromiseInfo)
        → phase2_value rec ≡ o
        → IsAny (elim o [
          | none ↦ finish (offer_any st rec i) k
          | some pi ↦ finish (send_accept st rec pi) k
        ])
    chosen none e = finish-IsAny (offer_any st rec i) k (
        append_anymsg-IsAny _ i
          (record { size = b.size; room = b.room; fits = b.fits; small = b.small }))
    chosen (some pi) e =
        let n =
          taken_small rec pi (subst (Highest rec.promises) e (phase2_value-Highest rec))
            (b.small k) in
        finish-IsAny (send_accept st rec pi) k (record {
          size = b.size;
          room = b.room;
          fits = All-append Fits st.sent _ b.fits ((omega arith, omega (arith, n)), tt);
          small = b.small;
        })

phase2_instances-IsAny : (n : ℕ) (i : ℤ) (st : Leader) → IsAny st → IsAny (phase2_instances n i st)
unfolding phase2_instances
phase2_instances-IsAny zero i st b = b
phase2_instances-IsAny (suc n) i st b =
    phase2_instances-IsAny n (i +ℤ pos 1) (phase2_instance st i) (phase2_instance-IsAny st i b)

flush_anymsg-IsAny : (st : Leader) → IsAny st → IsAny (flush_anymsg st)
flush_anymsg-IsAny st b = go st.any_ids
  where
    go :
        (ids : List ℤ)
        → IsAny
            (elim ids [ [] ↦ st | _ ∷ _ ↦ flush_send_buffer st (anyval st.any_ballot st.any_ids) ])
    go [] = b
    go (p ∷ ps) = record {
      size = b.size;
      room = b.room;
      fits = All-append Fits st.sent _ b.fits ((omega (arith, b.size), omega (arith, b.room)), tt);
      small = b.small;
    }

-- Whatever the records are, and over however many instances, each accept request and each any
-- message that phase 2 sends is as long as its message and within a UDP message, if the values that
-- the promises reported fit in an accept request.
pub execute_phase2-Fits :
    (st : Leader) (first last : ℤ)
    → All Fits st.sent
    → ((k : ℕ) → IsSmall (st.proposer_array k))
    → All Fits (execute_phase2 st first last).sent
unfolding execute_phase2
execute_phase2-Fits st first last f small =
    (flush_anymsg-IsAny _ (
      phase2_instances-IsAny (rounds_between first last) first (new_anymsg st)
        (record { size = refl; room = omega arith; fits = f; small = small }))).fits
