-- ===== src/Api.antt =====
-- api/v1alpha1: the custom resources.
pub mod Resource
pub mod Definition
pub mod Run
