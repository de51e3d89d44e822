-- ===== src/IdGenerator/EtcdStore/Tenures.antt =====
-- The holders of one node over time: what the processes of apps/id-service do with the lease store,
-- as a list of events. A tenure is what one generation of the node's owner was granted and what it
-- stamped since. Every call of the store reads at one event and writes at a later one, with any
-- events of other processes in between. A holder has one such call under way at a time, as
-- `exclusive` of packages/id-generator/src/node-lease.ts sees to: the read of its next call ends the
-- one before, which may have written or not, but writes nothing from then on. That the write of a
-- call that timed out does not land after its holder has gone on is an assumption on etcd, since the
-- transaction of a renew compares the owner key only.
mod Coherent
mod Writes
mod Raise
mod Fresh
mod Release
pub mod Disjoint
use jcool_ecommerce_backend.Base.{
  ℕ, zero, suc, Bool, true, false, not, ◌&&◌, Option, none, some, List, [], ◌∷◌, map, ltb, leb,
  ◌==◌, if◌then◌else◌, ◌+◌,
}
use jcool_ecommerce_backend.IdGenerator.EtcdStore.{
  NodeEntry, NodeKeys, LeaseGrant, OwnerKey, or_zero, claim, renew, release, readopt,
}

pub record Tenure : Type 0 where
  pub generation : ℕ
  pub floor_ms : ℕ
  pub lease_until_ms : ℕ
  pub last_ms : ℕ
  pub stopped : Bool
  pub stamped : List ℕ

-- `seen` is what claims have read of the node at any time, `under_way` is what the call under way of a
-- generation has read, and `tenures` has the latest grant first.
pub record NodeHistory : Type 0 where
  pub keys : NodeKeys
  pub seen : List NodeEntry
  pub under_way : ℕ → Option NodeEntry
  pub tenures : List Tenure

pub data LeaseEvent : Type 0 where
  -- a snapshot for a claim
  looked : LeaseEvent
  -- a claim from the n-th snapshot: lease, clock, time to live
  claimed : ℕ → ℕ → ℕ → ℕ → LeaseEvent
  -- the read of a renew, a re-adoption or a release by a generation
  began : ℕ → LeaseEvent
  -- the end of a renew by a generation: clock, time to live, the stamp it sent, `keepAlive`'s answer,
  -- whether the ceiling was heard
  renewed : ℕ → ℕ → ℕ → ℕ → Bool → Bool → LeaseEvent
  -- the end of an acquire that found its own owner key: clock, time to live, whether it was heard
  readopted : ℕ → ℕ → ℕ → Bool → LeaseEvent
  -- an id stamped by a generation
  stamps : ℕ → ℕ → LeaseEvent
  -- a generation stops minting
  stops : ℕ → LeaseEvent
  -- the end of a release by a generation, which has stopped
  released : ℕ → LeaseEvent
  -- etcd's lease runs out
  expired : LeaseEvent
  -- a write to another node's keys
  elsewhere : LeaseEvent

abbrev pub at_generation : ℕ → (Tenure → Tenure) → Tenure → Tenure
at_generation generation f t = if t.generation == generation then f t else t

abbrev pub nth_seen : ℕ → List NodeEntry → Option NodeEntry
nth_seen n [] = none
nth_seen zero (entry ∷ seen) = some entry
nth_seen (suc n) (entry ∷ seen) = nth_seen n seen

-- `createWithClock` with the granted floor.
abbrev pub begin : LeaseGrant → Tenure
begin grant = record {
  generation = grant.generation;
  floor_ms = or_zero grant.floor_ms;
  lease_until_ms = grant.lease_until_ms;
  last_ms = 0;
  stopped = false;
  stamped = [];
}

abbrev pub begun : Option LeaseGrant → List Tenure → List Tenure
begun none tenures = tenures
begun (some grant) tenures = begin grant ∷ tenures

-- `held.leaseUntilMs = leaseUntilMs`, while it is held.
abbrev pub extend : ℕ → Tenure → Tenure
extend until_ms t = if t.stopped then t else record t { lease_until_ms = until_ms }

abbrev pub heard_by : ℕ → Option ℕ → Bool → List Tenure → List Tenure
heard_by generation (some until_ms) true = map (at_generation generation (extend until_ms))
heard_by generation _ _ = λ tenures. tenures

abbrev pub readopted_by : Option LeaseGrant → Bool → List Tenure → List Tenure
readopted_by none heard = heard_by 0 none heard
readopted_by (some grant) heard = heard_by grant.generation (some grant.lease_until_ms) heard

-- What the generator and the fence let through: above the floor, not below the last stamp, and not
-- past the ceiling.
abbrev pub stamp_at : ℕ → Tenure → Tenure
stamp_at ts t =
    if not t.stopped && ltb t.floor_ms ts && leb t.last_ms ts && leb ts t.lease_until_ms
    then record t { last_ms = ts; stamped = ts ∷ t.stamped }
    else t

abbrev pub last_of : ℕ → List Tenure → ℕ
last_of generation [] = 0
last_of generation (t ∷ tenures) =
    if t.generation == generation then t.last_ms else last_of generation tenures

abbrev pub stop : Tenure → Tenure
stop t = record t { stopped = true }

-- `lastTimestampMs || null`
abbrev pub or_null : ℕ → Option ℕ
or_null zero = none
or_null (suc ms) = some (suc ms)

abbrev pub expire : NodeKeys → NodeKeys
expire keys = record {
  entry = record { owner = none; floor = keys.entry.floor };
  revision = keys.revision + 1;
}

abbrev pub claim_seen : Option NodeEntry → ℕ → ℕ → ℕ → NodeKeys → NodeKeys × Option LeaseGrant
claim_seen none lease_id now_ms ttl_ms keys = (keys, none)
claim_seen (some read) lease_id now_ms ttl_ms keys = claim read lease_id now_ms ttl_ms keys

abbrev pub renew_begun : Option NodeEntry → ℕ → ℕ → ℕ → ℕ → Bool → NodeKeys → NodeKeys × Option ℕ
renew_begun none generation now_ms ttl_ms last_ms alive keys = (keys, none)
renew_begun (some read) generation now_ms ttl_ms last_ms alive keys =
    renew read generation now_ms ttl_ms last_ms alive keys

-- The owner key that is read is the caller's own: the generation is its create revision.
abbrev pub readopt_owned :
    NodeEntry → Option OwnerKey → ℕ → ℕ → ℕ → NodeKeys → NodeKeys × Option LeaseGrant
readopt_owned read none generation now_ms ttl_ms keys = (keys, none)
readopt_owned read (some owner) generation now_ms ttl_ms keys =
    if owner.create_revision == generation
    then readopt read owner now_ms ttl_ms keys
    else (keys, none)

abbrev pub readopt_begun : Option NodeEntry → ℕ → ℕ → ℕ → NodeKeys → NodeKeys × Option LeaseGrant
readopt_begun none generation now_ms ttl_ms keys = (keys, none)
readopt_begun (some read) generation now_ms ttl_ms keys =
    readopt_owned read read.owner generation now_ms ttl_ms keys

abbrev pub release_begun : Option NodeEntry → ℕ → Option ℕ → NodeKeys → NodeKeys
release_begun none generation last_ms keys = keys
release_begun (some read) generation last_ms keys = release read generation last_ms keys

abbrev pub reading : ℕ → Option NodeEntry → (ℕ → Option NodeEntry) → ℕ → Option NodeEntry
reading generation read under_way k = if k == generation then read else under_way k

unfoldable pub happen : LeaseEvent → NodeHistory → NodeHistory
happen looked h = record h { seen = h.keys.entry ∷ h.seen }
happen (claimed n lease_id now_ms ttl_ms) h =
    let (keys, grant) = claim_seen (nth_seen n h.seen) lease_id now_ms ttl_ms h.keys in
    record { keys = keys; seen = h.seen; under_way = h.under_way; tenures = begun grant h.tenures }
happen (began generation) h = record h {
  under_way = reading generation (some h.keys.entry) h.under_way;
}
happen (renewed generation now_ms ttl_ms last_ms alive heard) h =
    let (keys, until_ms) =
      renew_begun (h.under_way generation) generation now_ms ttl_ms last_ms alive h.keys in
    record {
      keys = keys;
      seen = h.seen;
      under_way = reading generation none h.under_way;
      tenures = heard_by generation until_ms heard h.tenures;
    }
happen (readopted generation now_ms ttl_ms heard) h =
    let (keys, grant) = readopt_begun (h.under_way generation) generation now_ms ttl_ms h.keys in
    record {
      keys = keys;
      seen = h.seen;
      under_way = reading generation none h.under_way;
      tenures = readopted_by grant heard h.tenures;
    }
happen (stamps generation ts) h = record h {
  tenures = map (at_generation generation (stamp_at ts)) h.tenures;
}
happen (stops generation) h = record h { tenures = map (at_generation generation stop) h.tenures }
happen (released generation) h = record {
  keys =
      release_begun (h.under_way generation) generation (or_null (last_of generation h.tenures))
        h.keys;
  seen = h.seen;
  under_way = reading generation none h.under_way;
  tenures = map (at_generation generation stop) h.tenures;
}
happen expired h = record h { keys = expire h.keys }
happen elsewhere h = record h {
  keys = record { entry = h.keys.entry; revision = h.keys.revision + 1 };
}

unfoldable pub happen_all : List LeaseEvent → NodeHistory → NodeHistory
happen_all [] h = h
happen_all (e ∷ es) h = happen_all es (happen e h)
