-- ===== src/Learner/Window.antt =====
-- The window of lib/learner.c: closed records hold instances behind `highest_delivered` and no
-- further than the array is long, so the loop of `deliver_values` meets the instance it looks for.
use libfastpaxos.Base.{
  ℕ, zero, suc, ◌≡◌, refl, ◌∙◌, sym, ap, inl, inr, ◌≢◌, List, [], ◌∷◌, ◌++◌, Option, none, some,
  arith, update_all, Option-cases,
}
use libfastpaxos.Base.Int.{
  ℤ, pos, minus_one, ◌+ℤ◌, ◌≤ℤ◌, ◌<ℤ◌, lt_of_le_ne, int_laws, pos_part, neg_part,
}
use libfastpaxos.Config.{get_lea_index}
use libfastpaxos.Config.Index.{get_lea_index-injective}
use libfastpaxos.Learner.{Learner, LearnerRecord, Delivery, deliver, deliver_values}

-- The log names the instances behind `first`, one after the other, up to `last`.
abbrev pub Consecutive : ℤ → List Delivery → ℤ → Type 0
Consecutive first [] last = first ≡ last
Consecutive first (d ∷ ds) last = (d.iid ≡ first +ℤ pos 1) × Consecutive (first +ℤ pos 1) ds last

pub Consecutive-append :
    (first last : ℤ) (ds : List Delivery) (d : Delivery)
    → Consecutive first ds last
    → d.iid ≡ last +ℤ pos 1
    → Consecutive first (ds ++ d ∷ []) d.iid
Consecutive-append first last [] d c e =
    (e ∙ ap (λ t. t +ℤ pos 1) (sym c), ap (λ t. t +ℤ pos 1) c ∙ sym e)
Consecutive-append first last (x ∷ ds) d c e =
    (c.0, Consecutive-append (first +ℤ pos 1) last ds d c.1 e)

pub record Inv (l : Learner) (top : ℤ) : Type 0 where
  pub started : minus_one ≤ℤ l.highest_delivered
  pub ahead : l.highest_delivered <ℤ top
  pub narrow : top ≤ℤ l.highest_delivered +ℤ pos 512
  pub window :
      (k : ℕ) (v : List ℕ)
      → (l.learner_array k).final_value ≡ some v
      → (l.highest_delivered <ℤ (l.learner_array k).iid)
        × ((l.learner_array k).iid <ℤ top)
        × (get_lea_index (l.learner_array k).iid ≡ k)
  pub in_order : Consecutive minus_one l.delivered l.highest_delivered

-- The next instance is not closed: nothing is left to deliver.
abbrev pub IsIdle : Learner → Type 0
IsIdle l = (l.learner_array (get_lea_index (l.highest_delivered +ℤ pos 1))).final_value ≡ none

abbrev pub next_iid : Learner → ℤ
next_iid l = l.highest_delivered +ℤ pos 1

-- What the window says of one record.
abbrev pub Within : ℤ → ℤ → ℕ → LearnerRecord → Type 0
Within low top k rec =
    (v : List ℕ)
    → rec.final_value ≡ some v
    → (low <ℤ rec.iid) × (rec.iid <ℤ top) × (get_lea_index rec.iid ≡ k)

-- Of two instances in the window, only one has a given index.
pub same_index :
    (l : Learner) (top : ℤ) (a b : ℤ)
    → Inv l top
    → l.highest_delivered <ℤ a
    → l.highest_delivered <ℤ b
    → a <ℤ top
    → b ≤ℤ l.highest_delivered +ℤ pos 512
    → get_lea_index a ≡ get_lea_index b
    → a ≡ b
same_index l top a b inv la lb ha hb e =
    get_lea_index-injective (next_iid l) a b (omega (int_laws, inv.started)) (omega int_laws)
      (omega int_laws) (omega (int_laws, inv.narrow)) (omega int_laws) e

module _ (l : Learner) (top : ℤ) (v : List ℕ) (inv : Inv l top)
    (e : (l.learner_array (get_lea_index (next_iid l))).final_value ≡ some v) where
  abbrev pub next_rec : LearnerRecord
  next_rec = l.learner_array (get_lea_index (next_iid l))

  -- A closed record at the next index is that of the next instance.
  pub next_closed : next_rec.iid ≡ next_iid l
  next_closed =
      let w = inv.window (get_lea_index (next_iid l)) v e in
      same_index l top next_rec.iid (next_iid l) inv w.0 (omega int_laws) w.1 (omega int_laws) w.2

  next_ahead : next_iid l <ℤ top
  next_ahead =
      let w = inv.window (get_lea_index (next_iid l)) v e in
      omega (arith, w.1, ap pos_part next_closed, ap neg_part next_closed)

  -- One delivery keeps the invariant.
  pub deliver-Inv : Inv (deliver l (next_iid l) v) top
  deliver-Inv = record {
    started = omega (int_laws, inv.started);
    ahead = next_ahead;
    narrow = omega (int_laws, inv.narrow);
    window =
        update_all (Within (next_iid l) top) l.learner_array (get_lea_index (next_iid l)) _
          (λ u h. absurd (cc)) kept;
    in_order = Consecutive-append minus_one l.highest_delivered l.delivered _ inv.in_order refl;
  }
    where
      kept :
          (k : ℕ) → get_lea_index (next_iid l) ≢ k → Within (next_iid l) top k (l.learner_array k)
      kept k other u h =
          let w = inv.window k u h in
          let apart =
            λ (p : next_iid l ≡ (l.learner_array k).iid). other (ap get_lea_index p ∙ w.2) in
          (lt_of_le_ne (next_iid l) (l.learner_array k).iid (omega (int_laws, w.0)) apart, w.1, w.2)

-- How the loop ends: with nothing left to deliver.
abbrev pub Drained : ℤ → Option Learner → Type 0
Drained top r = (l' : Learner) × (r ≡ some l') × Inv l' top × IsIdle l'

-- From the next instance on, with a round for each instance of the window, the loop ends by itself.
pub deliver_values-Drained :
    (fuel : ℕ) (l : Learner) (top : ℤ)
    → Inv l top
    → top ≤ℤ l.highest_delivered +ℤ pos fuel
    → Drained top (deliver_values fuel l (next_iid l))
unfolding deliver_values
deliver_values-Drained zero l top inv h = absurd (omega (int_laws, inv.ahead))
deliver_values-Drained (suc fuel) l top inv h =
    elim (Option-cases (l.learner_array (get_lea_index (next_iid l))).final_value) [
      | inl e ↦ rw (e, deliver_values) (l, refl, inv, e)
      | inr (v, e) ↦
          rw (e, deliver_values)
            (deliver_values-Drained fuel (deliver l (next_iid l) v) top (deliver-Inv l top v inv e)
              (omega int_laws))
    ]
