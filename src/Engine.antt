-- ===== src/Engine.antt =====
-- packages/engine: the negotiation engine.
pub mod Types
pub mod StateMachine
pub mod Session
pub mod Visibility
pub mod EventStore
pub mod SqliteEventStore
pub mod SessionManager
pub mod Http
pub mod ControlEnvelope
pub mod Routes
pub mod AdminAuth
pub mod ListingStore
pub mod ConnectionTracker
pub mod DeadlineEnforcer
