-- ===== src/Builder.antt =====
-- internal/resourcebuilder: the Kubernetes objects of a service. A `ResourceBuilder` is the service
-- that it is made for; its scheme is only passed on.
pub mod Labels
pub mod Command
pub mod Probes
pub mod Resources
pub mod Deployment
pub mod Services
pub mod Ingress
pub mod Database
