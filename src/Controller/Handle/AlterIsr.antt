-- ===== src/Controller/Handle/AlterIsr.antt =====
-- The invariant of the controller's state in `AlterIsr`.
use replog.Prelude.{
  ℕ, zero, suc, ◌⊎◌, ◌^◌, ◌≡◌, refl, subst, not, true, ◌||◌, some, List, [], ◌∷◌, All, inl, inr,
  length, Bool-cases, Option-cases, arith, ◌==◌, get_elem?,
}
use replog.Prelude.Int.{ℤ, pos, negsuc, to_word}
use replog.Prelude.Maps.{get, insert, contains, contains_all, compare_bytes, same}
use replog.Prelude.Maps.Laws.{All-get, All-contains, contains_all-contains}
use mathlib.Core.Option.{some-injective}
use replog.Controller.State.{PartitionState, State, alive_ids}
use replog.Controller.Elect.IsPartition.{IsI31, Leads, IsPartition}
use replog.Controller.Handle.{alter_partition, set_elem, alter_isr}
use replog.Controller.Handle.IsState.{IsSound}
use replog.Controller.Handle.Topics.{insert_parts}

-- The partition that `alter_partition` leaves: as it was, or with the new list.
pub alter_partition-cases :
    (p : PartitionState) (leader_epoch : ℕ) (isr : List ℕ)
    → ((alter_partition p leader_epoch isr).0.0 ≡ p)
      ⊎ (((alter_partition p leader_epoch isr).0.0 ≡ record p { isr = isr })
          × (leader_epoch ≡ p.leader_epoch)
          × (contains isr (to_word (2 ^ 31) p.leader) ≡ true)
          × (contains_all p.replicas isr ≡ true))
unfolding alter_partition
alter_partition-cases p leader_epoch isr =
    let leader = to_word (2 ^ 31) p.leader in
    elim (Bool-cases (leader_epoch == p.leader_epoch)) [
      | inr a ↦ inl (rw a refl)
      | inl a ↦
          elim (Bool-cases
            (length isr == 0 || (not (contains isr leader) || not (contains_all p.replicas isr)))) [
              | inl b ↦ inl (rw (a, b) refl)
              | inr b ↦ elim (Bool-cases (same p.isr isr)) [
                | inl c ↦ inl (rw (a, b, c) refl)
                | inr c ↦ inr (rw (a, b, c) refl, ground arith, ground arith, ground arith)
              ]
            ]
    ]

Leads-altered :
    (l : ℤ) (replicas isr isr' : List ℕ)
    → All IsI31 replicas
    → contains_all replicas isr ≡ true
    → contains_all replicas isr' ≡ true
    → Leads l isr
    → contains isr' (to_word (2 ^ 31) l) ≡ true
    → Leads l isr'
Leads-altered (pos n) replicas isr isr' h a b c d =
    let small : IsI31 n =
      All-contains IsI31 replicas n h (contains_all-contains replicas isr n a c) in
    subst (λ m. contains isr' m ≡ true) (omega (arith, small)) d
Leads-altered (negsuc n) replicas isr isr' h a b c d = c

alter_partition-IsPartition :
    (alive : List ℕ) (p : PartitionState) (leader_epoch : ℕ) (isr : List ℕ)
    → IsPartition p
    → Leads p.leader alive
    → IsPartition (alter_partition p leader_epoch isr).0.0
      × Leads (alter_partition p leader_epoch isr).0.0.leader alive
alter_partition-IsPartition alive p leader_epoch isr h l =
    elim (alter_partition-cases p leader_epoch isr) [
      | inl e ↦ rw e (h, l)
      | inr (e, ep, c, sub) ↦ rw e (
        record {
          ids = h.ids;
          isr_replicas = sub;
          leads = Leads-altered p.leader p.replicas p.isr isr h.ids h.isr_replicas sub h.leads c;
        },
        l,
      )
    ]

All-set_elem :
    {A : Type 0} (P : A → Type 0) (xs : List A) (i : ℕ) (y : A)
    → All P xs
    → P y
    → All P (set_elem xs i y)
unfolding set_elem
All-set_elem P [] i y h p = tt
All-set_elem P (x ∷ xs) zero y (h, hs) p = (p, hs)
All-set_elem P (x ∷ xs) (suc i) y (h, hs) p = (h, All-set_elem P xs i y hs p)

All-get_elem? :
    {A : Type 0} (P : A → Type 0) (xs : List A) (i : ℕ) (y : A)
    → All P xs
    → get_elem? xs i ≡ some y
    → P y
All-get_elem? P [] i y h e = ground arith
All-get_elem? P (x ∷ xs) zero y (h, hs) e = subst P (some-injective x y e) h
All-get_elem? P (x ∷ xs) (suc i) y (h, hs) e = All-get_elem? P xs i y hs e

-- The state that `alter_isr` leaves: as it was, or with one partition altered.
pub alter_isr-cases :
    (state : State) (topic : List ℕ) (partition leader_epoch : ℕ) (isr : List ℕ)
    → ((alter_isr state topic partition leader_epoch isr).0.0 ≡ state)
      ⊎ ((ps : List PartitionState) × (p : PartitionState) × (get compare_bytes state.topics topic
            ≡ some ps)
          × (get_elem? ps partition ≡ some p)
          × ((alter_isr state topic partition leader_epoch isr).0.0 ≡ record state {
            topics =
                insert compare_bytes state.topics topic
                  (set_elem ps partition (alter_partition p leader_epoch isr).0.0);
          }))
unfolding alter_isr
alter_isr-cases state topic partition leader_epoch isr =
    elim (Option-cases (get compare_bytes state.topics topic)) [
      | inl e ↦ inl (rw (alter_isr, e) refl)
      | inr (ps, e) ↦ elim (Option-cases (get_elem? ps partition)) [
        | inl f ↦ inl (rw (alter_isr, e, f) refl)
        | inr (p, f) ↦ elim (Bool-cases (alter_partition p leader_epoch isr).0.1) [
          | inl c ↦ inr (ps, p, e, f, rw (alter_isr, e, f, c) refl)
          | inr c ↦ inl (rw (alter_isr, e, f, c) refl)
        ]
      ]
    ]

pub alter_isr-IsSound :
    (state : State) (topic : List ℕ) (partition leader_epoch : ℕ) (isr : List ℕ)
    → IsSound state
    → IsSound (alter_isr state topic partition leader_epoch isr).0.0
alter_isr-IsSound state topic partition leader_epoch isr ((ids, parts), led) =
    let alive = alive_ids state.brokers in
    elim (alter_isr-cases state topic partition leader_epoch isr) [
      | inl e ↦ rw e ((ids, parts), led)
      | inr (ps, p, e, f, g) ↦
          let hs = All-get compare_bytes (All IsPartition) state.topics topic ps parts e in
          let ls =
            All-get compare_bytes (All (λ p. Leads p.leader alive)) state.topics topic ps led e in
          let kept =
            alter_partition-IsPartition alive p leader_epoch isr
              (All-get_elem? IsPartition ps partition p hs f)
              (All-get_elem? (λ p. Leads p.leader alive) ps partition p ls f) in
          rw g (
            (
              ids,
              insert_parts IsPartition state.topics topic _ parts
                  (All-set_elem IsPartition ps partition _ hs kept.0),
            ),
            insert_parts (λ p. Leads p.leader alive) state.topics topic _ led
                (All-set_elem (λ p. Leads p.leader alive) ps partition _ ls kept.1),
          )
    ]
