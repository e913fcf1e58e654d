-- ===== src/Tests/Suite.antt =====
-- The unit tests of the repository, on the definitions that model its code. A test is a run that
-- may panic, and passes if it does not.
mod Base
mod Computing
mod OfBuckets
mod OfStores
mod OfLimits
mod OfPolicies
mod Server
mod OfHandlers
mod OfNetworks
mod OfSignals
mod OfClients
