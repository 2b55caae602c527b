-- ===== src/Lifecycle.antt =====
-- app/deploy.go and app/rollback.go: the change of the running release of an application, with the
-- parts of the program that it calls behind an interface.
pub mod Platform
pub mod Live
pub mod Carries
pub mod Retire
pub mod Keeps
pub mod Unchanged
pub mod Deploy
pub mod Redeploy
pub mod Rollback
pub mod Delete
