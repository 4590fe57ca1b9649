-- ===== src/Api.antt =====
-- The custom resource: apis/milvus.io/v1beta1. Pointers are options, and strings that the API server
-- restricts to an enumeration are data types.
pub mod Strategy
pub mod Spec
pub mod Status
pub mod Labels
pub mod Stopping
