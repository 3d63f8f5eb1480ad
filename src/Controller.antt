-- ===== src/Controller.antt =====
-- internal/controller/service_controller.go: the reconciler, one module for each group of methods.
pub mod Retry
pub mod Deployment
pub mod Services
pub mod Ingress
pub mod Finalize
pub mod Password
pub mod Credentials
pub mod Copy
pub mod Secrets
pub mod Custom
pub mod Job
pub mod Dynamic
pub mod Runtime
pub mod Database
pub mod Reconcile
