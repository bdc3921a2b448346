-- ===== src/Controller/Handle/Run.antt =====
-- What a run of the controller does to a partition.
use replog.Prelude.{
  ℕ, suc, ◌+◌, ◌<◌, ◌^◌, ◌≡◌, refl, ◌∙◌, ◌⊎◌, inl, inr, some, List, [], ◌∷◌, All, All2, arith,
}
use replog.Prelude.Int.{negsuc}
use replog.Prelude.Maps.{get, compare_bytes}
use replog.Controller.State.{PartitionState, State}
use replog.Controller.Handle.Step.{Step}
use replog.Controller.Handle.Follows.{SameEpoch, Follows, Step-Follows}

-- A number of steps, one after the other.
pub data Run (timeout : ℕ) : ℕ → State → State → Type 0 where
  done : (state : State) → Run timeout 0 state state
  next :
      (n : ℕ) (state state' state'' : State)
      → Step timeout state state'
      → Run timeout n state' state''
      → Run timeout (suc n) state state''

-- The same replicas, and a later epoch, or the same one under the same leader or offline.
pub record Later (p p' : PartitionState) : Type 0 where
  pub replicas : p'.replicas ≡ p.replicas
  pub leads : (p.leader_epoch < p'.leader_epoch) ⊎ SameEpoch p p'

-- The epoch is far enough from its largest value for `n` elections.
abbrev pub HasRoom : ℕ → PartitionState → Type 0
HasRoom n p = p.leader_epoch + n < 2 ^ 64

SameEpoch-SameEpoch : (p q r : PartitionState) → SameEpoch p q → SameEpoch q r → SameEpoch p r
SameEpoch-SameEpoch p q r (e, l) (e', inl l') = (e' ∙ e, lead l)
  where
    lead :
        (q.leader ≡ p.leader) ⊎ (q.leader ≡ negsuc 0)
        → (r.leader ≡ p.leader) ⊎ (r.leader ≡ negsuc 0)
    lead (inl m) = inl (l' ∙ m)
    lead (inr m) = inr (l' ∙ m)
SameEpoch-SameEpoch p q r (e, l) (e', inr l') = (e' ∙ e, inr l')

Follows-HasRoom : (n : ℕ) (p q : PartitionState) → HasRoom (suc n) p → Follows p q → HasRoom n q
Follows-HasRoom n p q room f = elim f.leads [
  | inl (e, l) ↦ omega (arith, room, e)
  | inr (m, c, l, e) ↦ omega (arith, room, e)
]

Follows-Later :
    (n : ℕ) (p q r : PartitionState) → HasRoom (suc n) p → Follows p q → Later q r → Later p r
Follows-Later n p q r room f later = record {
  replicas = later.replicas ∙ f.replicas;
  leads = elim f.leads [
    | inl (e, l) ↦ elim later.leads [
      | inl u ↦ inl (omega (arith, u, e))
      | inr s ↦ inr (SameEpoch-SameEpoch p q r (e, l) s)
    ]
    | inr (m, c, l, e) ↦ elim later.leads [
      | inl u ↦ inl (omega (arith, u, e, room))
      | inr s ↦ inl (omega (arith, s.0, e, room))
    ]
  ];
}

Later-refl : (ps : List PartitionState) → All2 Later ps ps
Later-refl [] = tt
Later-refl (p ∷ ps) = (record { replicas = refl; leads = inr (refl, inl refl) }, Later-refl ps)

All2-HasRoom :
    (n : ℕ) (ps qs : List PartitionState)
    → All (HasRoom (suc n)) ps
    → All2 Follows ps qs
    → All (HasRoom n) qs
All2-HasRoom n [] [] h f = tt
All2-HasRoom n [] (q ∷ qs) h f = elim f [ ]
All2-HasRoom n (p ∷ ps) [] h f = elim f [ ]
All2-HasRoom n (p ∷ ps) (q ∷ qs) (h, hs) (f, fs) =
    (Follows-HasRoom n p q h f, All2-HasRoom n ps qs hs fs)

All2-Later :
    (n : ℕ) (ps qs rs : List PartitionState)
    → All (HasRoom (suc n)) ps
    → All2 Follows ps qs
    → All2 Later qs rs
    → All2 Later ps rs
All2-Later n [] [] [] h f g = tt
All2-Later n [] [] (r ∷ rs) h f g = elim g [ ]
All2-Later n [] (q ∷ qs) rs h f g = elim f [ ]
All2-Later n (p ∷ ps) [] rs h f g = elim f [ ]
All2-Later n (p ∷ ps) (q ∷ qs) [] h f g = elim g [ ]
All2-Later n (p ∷ ps) (q ∷ qs) (r ∷ rs) (h, hs) (f, fs) (g, gs) =
    (Follows-Later n p q r h f g, All2-Later n ps qs rs hs fs gs)

-- Over a run of `n` steps, a topic whose partitions' epochs stay below 2 ^ 64 when `n` is added keeps
-- its partitions and their replicas. Each partition comes to a later epoch, or is in the same epoch
-- and has the same leader or none.
pub Run-Later :
    (timeout n : ℕ) (state state' : State) (name : List ℕ) (ps : List PartitionState)
    → Run timeout n state state'
    → get compare_bytes state.topics name ≡ some ps
    → All (HasRoom n) ps
    → (ps' : List PartitionState) × (get compare_bytes state'.topics name ≡ some ps')
      × All2 Later ps ps'
Run-Later timeout _ _ _ name ps (Run.done state) e room = (ps, e, Later-refl ps)
Run-Later timeout _ _ _ name ps (Run.next n state state' state'' step run) e room =
    let (qs, e', f) = Step-Follows timeout state state' step name ps e in
    let (rs, e'', g) =
      Run-Later timeout n state' state'' name qs run e' (All2-HasRoom n ps qs room f) in
    (rs, e'', All2-Later n ps qs rs room f g)
