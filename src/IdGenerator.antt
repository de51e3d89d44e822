-- ===== src/IdGenerator.antt =====
-- packages/id-generator and the lease store of apps/id-service: the snowflake generator, the lease
-- of the node id it mints under, and the floors that etcd keeps for each node.
mod Tests
pub mod Snowflake
pub mod EtcdStore
pub mod NodeLease
