-- ===== src/Tests.antt =====
-- The theorems at concrete inputs: a codec that keeps jobs as they are, and a server that filters.
mod QueryTests
mod PoolTests
mod Servers
mod WorkerTests
mod SqsTests
mod AuthTests
mod MiddlewareTests
mod LifecycleTests
mod ApiTests
mod RedisTests
mod JobPoolTests
mod ValidatorTests
