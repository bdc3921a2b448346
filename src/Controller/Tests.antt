-- ===== src/Controller/Tests.antt =====
-- A run of the controller on concrete requests, and its theorems at it.
use replog.Prelude.{ℕ, ◌≡◌, refl, true, false, some, List, [], ◌∷◌, arith}
use replog.Prelude.Int.{pos, negsuc}
use replog.Prelude.Maps.{get, compare_bytes}
use replog.Proto.Utf8.{is_utf8}
use replog.Proto.Request.{Request}
use replog.Controller.State.{PartitionState, State, empty, alive_ids}
use replog.Controller.Elect.{
  take_offline, elect, elect_parts, elect_topics, elect_where_needed, leader_alive,
}
use replog.Controller.Handle.{
  handle, sweep_liveness, expire, mutate, register_broker, create_topic, alter_isr, entry_of,
  new_partition, map_from, nth,
}
use replog.Controller.Handle.IsState.{IsSound}
use replog.Controller.Handle.Step.{Reachable, handled, swept, started, after, Reachable-IsSound}
use replog.Controller.Handle.Follows.{TopicsFollow, Step-Follows}
use replog.Controller.Handle.Run.{done, next, Later, Run-Later}
use replog.Prelude.{All2}
use replog.Controller.Handle.Errors.{handle-refused}
use replog.Controller.Snapshot.{snapshot, loaded, load_snapshot}
use replog.Controller.Snapshot.RoundTrip.{IsSnapshot, restarted, load_snapshot-snapshot}

abbrev register : ℕ → Request
register id = Request.register_broker id (97 ∷ []) (98 ∷ [])

abbrev orders : List ℕ
orders = 111 ∷ []

abbrev one : State
one = (handle empty 0 (register 1)).0

abbrev two : State
two = (handle one 500 (register 2)).0

abbrev three : State
three = (handle two 600 (Request.create_topic orders 1 2)).0

-- Broker 1 has been silent for longer than 1000.
abbrev four : State
four = sweep_liveness 1000 three 1200

four-Reachable : Reachable 1000 four
four-Reachable =
    after three four
      (after two three
        (after one two (after empty one started (handled empty 0 (register 1) (omega arith)))
          (handled one 500 (register 2) (omega arith)))
        (handled two 600 (Request.create_topic orders 1 2) tt))
      (swept three 1200)

-- Broker 2, a member of the ISR, leads in the second epoch.
four_elects :
    get compare_bytes four.topics orders
    ≡ some (record { leader = pos 2; leader_epoch = 2; replicas = 1 ∷ 2 ∷ []; isr = 2 ∷ [] } ∷ [])
unfolding empty alive_ids take_offline elect elect_parts elect_topics elect_where_needed
    leader_alive handle sweep_liveness expire mutate register_broker create_topic entry_of
    new_partition map_from nth
four_elects = refl

Reachable-IsSound_example : IsSound four
Reachable-IsSound_example = Reachable-IsSound 1000 four four-Reachable

Step-Follows_example : TopicsFollow three.topics four.topics
Step-Follows_example = Step-Follows 1000 three four (swept three 1200)

-- The partition of the topic before the sweep.
abbrev created : List PartitionState
created = record { leader = pos 1; leader_epoch = 1; replicas = 1 ∷ 2 ∷ []; isr = 1 ∷ 2 ∷ [] } ∷ []

three_creates : get compare_bytes three.topics orders ≡ some created
unfolding empty alive_ids take_offline elect elect_parts elect_topics elect_where_needed
    leader_alive handle mutate register_broker create_topic entry_of new_partition map_from nth
three_creates = refl

Run-Later_example :
    (ps' : List PartitionState) × (get compare_bytes four.topics orders ≡ some ps')
    × All2 Later created ps'
Run-Later_example =
    Run-Later 1000 1 three four orders created
      (next 0 three four four (swept three 1200) (done four)) three_creates (omega arith, tt)

-- The epoch of the request is not the partition's.
abbrev stale : Request
stale = Request.alter_isr orders 0 1 (2 ∷ [])

handle-refused_example : (handle empty 0 stale).0 ≡ empty
unfolding handle alter_isr empty
handle-refused_example = handle-refused empty 0 stale refl

abbrev saved : State
saved = record {
  version = 4;
  brokers =
      (1, record { addr = 97 ∷ []; peer_addr = 98 ∷ []; alive = true; last_heartbeat = 3 })
      ∷ (2, record { addr = 97 ∷ []; peer_addr = 98 ∷ []; alive = false; last_heartbeat = 5 })
      ∷ [];
  topics =
      (
        orders,
        record { leader = negsuc 0; leader_epoch = 2; replicas = 1 ∷ 2 ∷ []; isr = 2 ∷ [] } ∷ [],
      )
      ∷ [];
}

saved-IsSnapshot : IsSnapshot saved
unfolding is_utf8
saved-IsSnapshot = record {
  version = omega arith;
  brokers = record {
    fits = omega arith;
    each = (
      record {
        id = omega arith;
        addr = record { fits = omega arith; utf8 = refl };
        peer_addr = record { fits = omega arith; utf8 = refl };
      },
      (
        record {
          id = omega arith;
          addr = record { fits = omega arith; utf8 = refl };
          peer_addr = record { fits = omega arith; utf8 = refl };
        },
        tt,
      ),
    );
  };
  topics = record {
    fits = omega arith;
    each = (
      record {
        name = record { fits = omega arith; utf8 = refl };
        partitions = record {
          fits = omega arith;
          each = (
            record {
              leader = omega arith;
              leader_epoch = omega arith;
              replicas = record { fits = omega arith; each = (omega arith, (omega arith, tt)) };
              isr = record { fits = omega arith; each = (omega arith, tt) };
            },
            tt,
          );
        };
      },
      tt,
    );
  };
  broker_order = ((refl, tt), (tt, tt));
  topic_order = (tt, tt);
}

load_snapshot-snapshot_example :
    load_snapshot 9 (some (snapshot saved)) ≡ loaded (restarted 9 saved)
load_snapshot-snapshot_example = load_snapshot-snapshot 9 saved saved-IsSnapshot
