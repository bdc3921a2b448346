-- ===== src/Broker/Isr/Tests.antt =====
-- A leader that proposes to drop a silent follower, and the theorem at it.
use replog.Prelude.{◌≡◌, refl, true, false, some, [], ◌∷◌, arith}
use replog.Prelude.Int.{pos}
use replog.Proto.Codes.{ErrorCode}
use replog.Controller.State.{PartitionState}
use replog.Controller.Handle.{alter_partition}
use replog.Prelude.Sort.{sort, put_in_order}
use replog.Broker.Replica.{ReplState}
use replog.Broker.Isr.{proposal, desired_isr, followers, in_sync, last_caught_up, adopt}
use replog.Broker.Isr.Proposal.{proposal-agree}

-- Broker 2 was caught up at 90, broker 3 at 10.
abbrev leading : ReplState
leading = record {
  epoch = 4;
  is_leader = true;
  isr = 1 ∷ 2 ∷ 3 ∷ [];
  replicas = 3 ∷ 2 ∷ 1 ∷ [];
  match_offsets = (2, (5, 90)) ∷ (3, (5, 10)) ∷ [];
  pending_all = [];
  fetcher_generation = 0;
  fetcher_alive = false;
  leader_since = 0;
}

abbrev owned : PartitionState
owned = record { leader = pos 1; leader_epoch = 4; replicas = 3 ∷ 2 ∷ 1 ∷ []; isr = 1 ∷ 2 ∷ 3 ∷ [] }

leading_proposes : proposal leading 1 50 100 ≡ some (4, 1 ∷ 2 ∷ [])
unfolding proposal desired_isr sort put_in_order followers in_sync last_caught_up
leading_proposes = refl

proposal-agree_example :
    ((alter_partition owned 4 (1 ∷ 2 ∷ [])).1 ≡ ErrorCode.none)
    × ((alter_partition owned 4 (1 ∷ 2 ∷ [])).0.0.isr ≡ 1 ∷ 2 ∷ [])
    × ((adopt leading 4 (1 ∷ 2 ∷ [])).isr ≡ 1 ∷ 2 ∷ [])
proposal-agree_example =
    proposal-agree leading owned 1 50 100 4 (1 ∷ 2 ∷ []) refl refl refl (omega arith) refl
      leading_proposes
