-- ===== src/Collectors.antt =====
-- internal/collectors: the checks of a contract's domains.
pub mod Accounts
pub mod Naming
pub mod Build
pub mod Ranks
pub mod Paths
pub mod Sockets
pub mod Systemctl
pub mod Services
pub mod Process
pub mod Identity
pub mod Preflight
pub mod Filesystem
