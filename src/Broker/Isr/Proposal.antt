-- ===== src/Broker/Isr/Proposal.antt =====
-- A leader's proposal, and what the controller makes of it.
use replog.Broker.Roles.Agrees.{same_sound}
use replog.Prelude.{
  ℕ, ◌<◌, ◌^◌, ◌≡◌, inl, inr, refl, sym, ap, ◌∙◌, subst, Bool, true, false, not, ◌&&◌, ◌||◌, Option,
  none, some, List, [], ◌∷◌, length, arith, Bool-cases, ◌==◌, ==-refl, if_cases, if◌then◌else◌,
}
use replog.Prelude.Int.{pos, to_word}
use replog.Prelude.Maps.{contains, contains_all, same}
use replog.Proto.Codes.{ErrorCode}
use replog.Controller.State.{PartitionState}
use replog.Controller.Handle.{alter_partition}
use replog.Prelude.Sort.{sort, contains-sort}
use replog.Broker.Replica.{ReplState}
use replog.Broker.Isr.{in_sync, followers, desired_isr, proposal, adopt}

and_true : (a b : Bool) → a ≡ true → b ≡ true → (a && b) ≡ true
and_true true b e h = h
and_true false b e h = ground arith

contains_kept :
    (b c : Bool) (m id : ℕ) (rest ids : List ℕ)
    → (m ≡ id → c ≡ b)
    → contains rest m ≡ (contains ids m && c)
    → contains (if b then id ∷ rest else rest) m ≡ ((if m == id then true else contains ids m) && c)
contains_kept true c m id rest ids e h = ground arith
contains_kept false c m id rest ids e h = ground arith

contains-followers :
    (st : ReplState) (self_id lag now m : ℕ) (ids : List ℕ)
    → contains (followers st self_id lag now ids) m
      ≡ (contains ids m && (not (m == self_id) && in_sync st lag now m))
unfolding followers
contains-followers st self_id lag now m [] = refl
contains-followers st self_id lag now m (id ∷ ids) =
    contains_kept (not (id == self_id) && in_sync st lag now id)
      (not (m == self_id) && in_sync st lag now m) m id (followers st self_id lag now ids) ids
      (λ e. ap (λ n. not (n == self_id) && in_sync st lag now n) e)
      (contains-followers st self_id lag now m ids)

-- The proposed ISR is the leader itself and the replicas that were caught up within the lag, counted
-- from the takeover for a follower that has not fetched.
pub contains-desired_isr :
    (st : ReplState) (self_id lag now m : ℕ)
    → contains (desired_isr st self_id lag now) m
      ≡ (if m == self_id then true else (contains st.replicas m && in_sync st lag now m))
unfolding desired_isr
contains-desired_isr st self_id lag now m =
    contains-sort m (self_id ∷ followers st self_id lag now st.replicas)
    ∙ ground (arith, contains-followers st self_id lag now m st.replicas)

contains_all_if :
    (ys xs : List ℕ)
    → ((m : ℕ) → contains xs m ≡ true → contains ys m ≡ true)
    → contains_all ys xs ≡ true
contains_all_if ys [] h = refl
contains_all_if ys (x ∷ xs) h =
    and_true (contains ys x) (contains_all ys xs) (h x (ground arith))
      (contains_all_if ys xs (λ m c. h m (ground arith)))

abbrev IsAccepted : List ℕ → (PartitionState × Bool) × ErrorCode → Type 0
IsAccepted isr altered = (altered.1 ≡ ErrorCode.none) × (altered.0.0.isr ≡ isr)

is_empty-contains : (isr : List ℕ) (n : ℕ) → contains isr n ≡ true → (length isr == 0) ≡ false
is_empty-contains [] n h = ground arith
is_empty-contains (x ∷ xs) n h = ground arith

-- The controller accepts a list of replicas of the partition that has its leader.
alter_partition-IsAccepted :
    (p : PartitionState) (epoch : ℕ) (isr : List ℕ)
    → epoch ≡ p.leader_epoch
    → contains isr (to_word (2 ^ 31) p.leader) ≡ true
    → contains_all p.replicas isr ≡ true
    → IsAccepted isr (alter_partition p epoch isr)
unfolding alter_partition
alter_partition-IsAccepted p epoch isr e leader subset =
    if_cases (IsAccepted isr) (not (epoch == p.leader_epoch)) ((p, false), ErrorCode.fenced_epoch) _
      (λ f. ground arith)
      (λ f.
        if_cases (IsAccepted isr)
          (length isr == 0
            || (not (contains isr (to_word (2 ^ 31) p.leader))
                || not (contains_all p.replicas isr)))
          ((p, false), ErrorCode.malformed_request) _
          (λ g. ground (arith, is_empty-contains isr (to_word (2 ^ 31) p.leader) leader))
          (λ g.
            if_cases (IsAccepted isr) (same p.isr isr) ((p, false), ErrorCode.none)
              ((record p { isr = isr }, true), ErrorCode.none) (λ h. (refl, same_sound p.isr isr h))
              (λ h. (refl, refl))))

abbrev IsProposal : ReplState → List ℕ → Option (ℕ × List ℕ) → Type 0
IsProposal st desired none = Unit {0}
IsProposal st desired (some (epoch, isr)) =
    (st.is_leader ≡ true) × (epoch ≡ st.epoch) × (isr ≡ desired)

proposal-IsProposal :
    (st : ReplState) (self_id lag now : ℕ)
    → IsProposal st (desired_isr st self_id lag now) (proposal st self_id lag now)
unfolding proposal
proposal-IsProposal st self_id lag now =
    let desired = desired_isr st self_id lag now in
    if_cases (IsProposal st desired) (not st.is_leader) none _ (λ e. tt)
      (λ e.
        if_cases (IsProposal st desired) (same desired (sort st.isr)) none
          (some (st.epoch, desired)) (λ f. tt) (λ f. (ground arith, refl, refl)))

desired_isr_self :
    (st : ReplState) (self_id lag now : ℕ)
    → contains (desired_isr st self_id lag now) self_id ≡ true
desired_isr_self st self_id lag now =
    contains-desired_isr st self_id lag now self_id
    ∙ ap (λ b. if b then true else (contains st.replicas self_id && in_sync st lag now self_id))
        (==-refl self_id)

desired_isr-replicas :
    (st : ReplState) (self_id lag now m : ℕ)
    → contains st.replicas self_id ≡ true
    → contains (desired_isr st self_id lag now) m ≡ true
    → contains st.replicas m ≡ true
desired_isr-replicas st self_id lag now m member c =
    let cases : (if m == self_id then true else (contains st.replicas m && in_sync st lag now m))
        ≡ true =
      sym (contains-desired_isr st self_id lag now m) ∙ c in
    elim (Bool-cases (m == self_id)) [
      | inl e ↦ subst (λ n. contains st.replicas n ≡ true) (sym (ground arith)) member
      | inr e ↦ ground arith
    ]

adopt-isr :
    (st : ReplState) (epoch : ℕ) (isr : List ℕ)
    → st.is_leader ≡ true
    → st.epoch ≡ epoch
    → (adopt st epoch isr).isr ≡ isr
unfolding adopt
adopt-isr st epoch isr leader e =
    if_cases (λ s. s.isr ≡ isr) (st.is_leader && st.epoch == epoch) (record st { isr = isr }) st
      (λ t. refl) (λ f. ground arith)

word_small : (n : ℕ) → n < 2 ^ 31 → n ≡ to_word (2 ^ 31) (pos n)
word_small n h = grind arith

-- What a leader proposes of a partition that it knows as the controller does, the controller accepts;
-- then the ISR of both is the proposed one.
pub proposal-agree :
    (st : ReplState) (p : PartitionState) (self_id lag now epoch : ℕ) (isr : List ℕ)
    → st.epoch ≡ p.leader_epoch
    → st.replicas ≡ p.replicas
    → p.leader ≡ pos self_id
    → self_id < 2 ^ 31
    → contains p.replicas self_id ≡ true
    → proposal st self_id lag now ≡ some (epoch, isr)
    → ((alter_partition p epoch isr).1 ≡ ErrorCode.none)
      × ((alter_partition p epoch isr).0.0.isr ≡ isr)
      × ((adopt st epoch isr).isr ≡ isr)
proposal-agree st p self_id lag now epoch isr e replicas leader small member proposed =
    let desired = desired_isr st self_id lag now in
    let is : IsProposal st desired (some (epoch, isr)) =
      subst (IsProposal st desired) proposed (proposal-IsProposal st self_id lag now) in
    let accepted =
      alter_partition-IsAccepted p epoch isr (is.1 ∙ e)
        (subst (λ xs. contains xs (to_word (2 ^ 31) p.leader) ≡ true) (sym is.2)
          (subst (λ l. contains desired (to_word (2 ^ 31) l) ≡ true) (sym leader)
            (subst (λ n. contains desired n ≡ true) (word_small self_id small)
              (desired_isr_self st self_id lag now))))
        (subst (λ xs. contains_all p.replicas xs ≡ true) (sym is.2)
          (contains_all_if p.replicas desired (λ m c.
            subst (λ xs. contains xs m ≡ true) replicas
              (desired_isr-replicas st self_id lag now m
                (subst (λ xs. contains xs self_id ≡ true) (sym replicas) member) c)))) in
    (accepted.0, accepted.1, adopt-isr st epoch isr is.0 (sym is.1))
