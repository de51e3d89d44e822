-- ===== src/IdGenerator/EtcdStore.antt =====
-- apps/id-service/src/lease/etcd-lease-store.ts and etcd-lease-keyspace.ts: the owner key and the
-- floor key of one node. Each call reads the node first and writes by a transaction later: `read` is
-- what it read, `keys` is what the transaction finds and compares with. A write takes etcd's next
-- revision; an absent key has revision 0. What `keepAlive` answers is an argument.
pub mod Tenures
use jcool_ecommerce_backend.Base.{
  ℕ, ◌+◌, max, Bool, true, false, ◌&&◌, Option, none, some, ◌==◌, if◌then◌else◌,
}

pub record OwnerKey : Type 0 where
  pub lease : ℕ
  pub create_revision : ℕ
  pub claim_floor_ms : Option ℕ

pub record FloorKey : Type 0 where
  pub ms : ℕ
  pub mod_revision : ℕ

pub record NodeEntry : Type 0 where
  pub owner : Option OwnerKey
  pub floor : Option FloorKey

-- The keys of the node and the revision of etcd's last write to any key.
pub record NodeKeys : Type 0 where
  pub entry : NodeEntry
  pub revision : ℕ

pub record LeaseGrant : Type 0 where
  pub generation : ℕ
  pub floor_ms : Option ℕ
  pub lease_until_ms : ℕ
  pub now_ms : ℕ

abbrev pub or_zero : Option ℕ → ℕ
or_zero none = 0
or_zero (some ms) = ms

abbrev pub floor_ms_of : Option FloorKey → Option ℕ
floor_ms_of none = none
floor_ms_of (some key) = some key.ms

abbrev pub floor_of : NodeEntry → Option ℕ
floor_of entry = floor_ms_of entry.floor

abbrev pub mod_revision_of : Option FloorKey → ℕ
mod_revision_of none = 0
mod_revision_of (some key) = key.mod_revision

abbrev pub owned_by : Option OwnerKey → ℕ → Bool
owned_by none generation = false
owned_by (some owner) generation = owner.create_revision == generation

abbrev pub is_held_by : NodeEntry → ℕ → Bool
is_held_by entry generation = owned_by entry.owner generation

abbrev pub is_free : Option OwnerKey → Bool
is_free none = true
is_free (some _) = false

-- The writes of a transaction that succeeds: the owner key, where it is put, and the floor key.
abbrev pub put : Option OwnerKey → ℕ → NodeKeys → NodeKeys
put owner floor_ms keys = record {
  entry = record {
    owner = owner;
    floor = some (record { ms = floor_ms; mod_revision = keys.revision + 1 });
  };
  revision = keys.revision + 1;
}

abbrev pub owner_claiming : ℕ → ℕ → Option ℕ → OwnerKey
owner_claiming lease_id generation floor_ms = record {
  lease = lease_id;
  create_revision = generation;
  claim_floor_ms = floor_ms;
}

abbrev pub granted : ℕ → Option ℕ → ℕ → ℕ → LeaseGrant
granted generation floor_ms lease_until_ms now_ms = record {
  generation = generation;
  floor_ms = floor_ms;
  lease_until_ms = lease_until_ms;
  now_ms = now_ms;
}

abbrev pub unclaimed : NodeEntry → NodeEntry → Bool
unclaimed entry read =
    is_free entry.owner && mod_revision_of entry.floor == mod_revision_of read.floor

-- `read` is the entry of the snapshot, which other claims may have overtaken.
unfoldable pub claim : NodeEntry → ℕ → ℕ → ℕ → NodeKeys → NodeKeys × Option LeaseGrant
claim read lease_id now_ms ttl_ms keys =
    let floor_ms = floor_of read in
    let ceiling_ms = max now_ms (or_zero floor_ms) + ttl_ms in
    let generation = keys.revision + 1 in
    if unclaimed keys.entry read
    then (
      put (some (owner_claiming lease_id generation floor_ms)) ceiling_ms keys,
      some (granted generation floor_ms ceiling_ms now_ms),
    )
    else (keys, none)

unfoldable pub raise_ceiling : NodeEntry → ℕ → ℕ → ℕ → NodeKeys → NodeKeys × Option ℕ
raise_ceiling read generation stamped_ms ttl_ms keys =
    let ceiling_ms = max (or_zero (floor_of read)) (stamped_ms + ttl_ms) in
    if is_held_by keys.entry generation
    then (put keys.entry.owner ceiling_ms keys, some ceiling_ms)
    else (keys, none)

-- `now_ms` is the store's clock, `alive` the answer of `keepAlive`.
unfoldable pub renew : NodeEntry → ℕ → ℕ → ℕ → ℕ → Bool → NodeKeys → NodeKeys × Option ℕ
unfolding raise_ceiling
renew read generation now_ms ttl_ms last_ms alive keys =
    if is_held_by read generation && alive
    then raise_ceiling read generation (max now_ms last_ms) ttl_ms keys
    else (keys, none)

abbrev pub claimed_over : Option OwnerKey → ℕ
claimed_over none = 0
claimed_over (some owner) = or_zero owner.claim_floor_ms

unfoldable pub release : NodeEntry → ℕ → Option ℕ → NodeKeys → NodeKeys
release read generation last_ms keys =
    let floor_ms = max (claimed_over read.owner) (or_zero last_ms) in
    if is_held_by read generation && is_held_by keys.entry generation
    then put none floor_ms keys
    else keys

abbrev pub regranted : OwnerKey → ℕ → Option ℕ → Option LeaseGrant
regranted owner now_ms none = none
regranted owner now_ms (some ceiling_ms) =
    some (granted owner.create_revision owner.claim_floor_ms ceiling_ms now_ms)

-- `none` where the node changed hands; `owner` is the owner key of the entry read.
unfoldable pub readopt : NodeEntry → OwnerKey → ℕ → ℕ → NodeKeys → NodeKeys × Option LeaseGrant
unfolding raise_ceiling
readopt read owner now_ms ttl_ms keys =
    let (keys', ceiling) = raise_ceiling read owner.create_revision now_ms ttl_ms keys in
    (keys', regranted owner now_ms ceiling)
