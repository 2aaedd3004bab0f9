-- ===== src/Engine.antt =====
-- What the engine decides about the calls of a run: the delegation gate, the permission modes, the
-- connectors and the decision on one call, of src/lib/engine.
pub mod Slots
pub mod Delegation
pub mod Turns
pub mod Slotted
pub mod Capabilities
pub mod Modes
pub mod Connectors
pub mod Decision
pub mod Permitted
pub mod Foreign
pub mod Admission
pub mod Tests
