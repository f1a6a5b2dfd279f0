-- ===== src/Core.antt =====
-- ts/core: the request pipeline, and the scopes whose hooks it runs.
pub mod Task
pub mod Pipeline
pub mod Dispatch
pub mod Scope
pub mod Registration
