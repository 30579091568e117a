-- ===== src/Deploy.antt =====
-- DeploymentAgent: what it asks of the system, and the parts that install a package.
pub mod Os
pub mod Matching
pub mod Mover
pub mod Package
pub mod Unpacker
pub mod Pipeline
pub mod Usb
pub mod Watch
pub mod Devices
mod Tests
