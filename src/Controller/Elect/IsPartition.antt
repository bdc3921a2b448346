-- ===== src/Controller/Elect/IsPartition.antt =====
-- The well-formed partitions of the controller, and that an election keeps them.
use replog.Prelude.{
  ℕ, zero, suc, ◌+◌, ◌%◌, ◌<◌, ◌^◌, ◌≡◌, refl, ap, true, false, none, some, List, All, arith, ◌⊎◌,
  inl, inr, Bool-cases, Option-cases,
}
use replog.Prelude.Int.{ℤ, pos, negsuc}
use replog.Prelude.Maps.{contains, retain, find_in, contains_all}
use replog.Prelude.Maps.Laws.{
  All-contains, contains_all-contains, contains_all-retain, contains-retain, contains-find_in,
}
use replog.Proto.Wire.{as_i32}
use replog.Controller.State.{PartitionState}
use replog.Controller.Elect.{leader_alive, take_offline, elect}

-- A broker id that `as i32` keeps.
abbrev pub IsI31 : ℕ → Type 0
IsI31 n = n < 2 ^ 31

-- A leader is a member of the list, or -1.
abbrev pub Leads : ℤ → List ℕ → Type 0
Leads (pos n) isr = contains isr n ≡ true
Leads (negsuc n) isr = n ≡ 0

pub record IsPartition (p : PartitionState) : Type 0 where
  pub ids : All IsI31 p.replicas
  pub isr_replicas : contains_all p.replicas p.isr ≡ true
  pub leads : Leads p.leader p.isr

pub as_i32-pos : (n : ℕ) → IsI31 n → as_i32 n ≡ pos n
as_i32-pos n h = grind arith

-- The three outcomes of an election.
pub elect-cases :
    (alive : List ℕ) (p : PartitionState)
    → ((elect alive p ≡ (p, false)) × (leader_alive alive p.leader ≡ true))
      ⊎ (((n : ℕ) × (find_in alive p.isr ≡ some n)
            × (elect alive p ≡ (
              record p {
                leader = as_i32 n;
                leader_epoch = (p.leader_epoch + 1) % 2 ^ 64;
                isr = retain alive p.isr;
              },
              true,
            )))
          ⊎ ((find_in alive p.isr ≡ none) × (elect alive p ≡ take_offline p p.leader)))
unfolding elect
elect-cases alive p = elim (Bool-cases (leader_alive alive p.leader)) [
  | inl a ↦ inl (rw a refl, a)
  | inr a ↦ inr (elim (Option-cases (find_in alive p.isr)) [
    | inl f ↦ inr (f, rw (a, f) refl)
    | inr (n, f) ↦ inl (n, f, rw (a, f) refl)
  ])
]

pub take_offline-leader :
    (p : PartitionState) (l : ℤ)
    → p.leader ≡ l
    → (take_offline p l).0 ≡ record p { leader = negsuc 0 }
unfolding take_offline
take_offline-leader p (negsuc zero) e = ap (λ l. record p { leader = l }) e
take_offline-leader p (negsuc (suc n)) e = refl
take_offline-leader p (pos n) e = refl

pub elect-IsPartition :
    (alive : List ℕ) (p : PartitionState) → IsPartition p → IsPartition (elect alive p).0
elect-IsPartition alive p h = elim (elect-cases alive p) [
  | inl (e, a) ↦ rw e h
  | inr (inl (n, f, e)) ↦
      let c = contains-find_in alive p.isr n f in
      let small : IsI31 n =
        All-contains IsI31 p.replicas n h.ids
          (contains_all-contains p.replicas p.isr n h.isr_replicas c.0) in
      rw e (record {
        ids = h.ids;
        isr_replicas = contains_all-retain p.replicas alive p.isr h.isr_replicas;
        leads = rw (as_i32-pos n small) (contains-retain alive p.isr n c.0 c.1);
      })
  | inr (inr (f, e)) ↦
      rw (e, take_offline-leader p p.leader refl)
        (record { ids = h.ids; isr_replicas = h.isr_replicas; leads = refl })
]
