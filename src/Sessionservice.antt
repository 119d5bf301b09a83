-- ===== src/Sessionservice.antt =====
-- src/panopticon/sessionservice/: the service on a runner host that launches and heals the tasks.
pub mod Spawner
pub mod Ready
pub mod Provisioner
