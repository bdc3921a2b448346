-- ===== src/Controller/Handle/Brokers.antt =====
-- The brokers that are alive, after a broker is put into the map and after a sweep.
use Prim.Native.Nat.{compare}
use replog.Prelude.{
  ℕ, zero, suc, ◌+◌, ◌<◌, ◌≡◌, refl, true, false, ◌&&◌, List, [], ◌∷◌, All, inl, inr, length,
  Bool-cases, arith, ltb, ◌-◌,
}
use replog.Prelude.Maps.{insert, contains}
use replog.Controller.State.{BrokerState, alive_ids}
use replog.Controller.Elect.IsPartition.{IsI31}
use replog.Controller.Handle.{expire, nth, map_from}

abbrev pub AllIds : List (ℕ × BrokerState) → Type 0
AllIds bs = All (λ e. IsI31 e.0) bs

pub All-alive_ids : (bs : List (ℕ × BrokerState)) → AllIds bs → All IsI31 (alive_ids bs)
unfolding alive_ids
All-alive_ids [] h = tt
All-alive_ids ((id, b) ∷ bs) (h, hs) = elim (Bool-cases b.alive) [
  | inl a ↦ rw a (h, All-alive_ids bs hs)
  | inr a ↦ rw a (All-alive_ids bs hs)
]

-- A broker that is put in alive takes nobody else's place.
pub contains-alive_ids-insert :
    (bs : List (ℕ × BrokerState)) (k : ℕ) (b : BrokerState) (n : ℕ)
    → b.alive ≡ true
    → contains (alive_ids bs) n ≡ true
    → contains (alive_ids (insert compare bs k b)) n ≡ true
unfolding alive_ids
contains-alive_ids-insert [] k b n a h = ground arith
contains-alive_ids-insert ((k', w) ∷ bs) k b n a h =
    ground (arith, contains-alive_ids-insert bs k b n)

pub expire-AllIds :
    (timeout now : ℕ) (bs : List (ℕ × BrokerState)) → AllIds bs → AllIds (expire timeout now bs).0
unfolding expire
expire-AllIds timeout now [] h = tt
expire-AllIds timeout now ((id, b) ∷ bs) (h, hs) =
    elim (Bool-cases (b.alive && ltb timeout (now - b.last_heartbeat))) [
      | inl a ↦ rw a (h, expire-AllIds timeout now bs hs)
      | inr a ↦ rw a (h, expire-AllIds timeout now bs hs)
    ]

-- Nobody is declared dead where the flag is not set.
pub expire-unchanged :
    (timeout now : ℕ) (bs : List (ℕ × BrokerState))
    → (expire timeout now bs).1 ≡ false
    → (expire timeout now bs).0 ≡ bs
unfolding expire
expire-unchanged timeout now [] h = refl
expire-unchanged timeout now ((id, b) ∷ bs) h = ground (arith, expire-unchanged timeout now bs)

pub contains-nth : (xs : List ℕ) (i : ℕ) → i < length xs → contains xs (nth xs i) ≡ true
unfolding nth
contains-nth [] i h = ground arith
contains-nth (x ∷ xs) zero h = ground arith
contains-nth (x ∷ xs) (suc i) h = ground (arith, contains-nth xs i)

pub All-map_from :
    {A : Type 0} (P : A → Type 0) (f : ℕ → A) (h : (i : ℕ) → P (f i)) (i n : ℕ)
    → All P (map_from i n f)
unfolding map_from
All-map_from P f h i zero = tt
All-map_from P f h i (suc n) = (h i, All-map_from P f h (i + 1) n)
