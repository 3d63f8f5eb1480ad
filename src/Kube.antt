-- ===== src/Kube.antt =====
-- Kubernetes objects: the fields that the operator builds and reads (Types), dynamic values (Dynamic),
-- and the kinds that it asks the API server for (Objects).
mod Types
pub mod Dynamic
mod Objects
pub use Types.*
pub use Objects.*
