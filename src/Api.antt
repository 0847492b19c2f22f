-- ===== src/Api.antt =====
-- api/v1alpha1: the rules that the operator, the agent and the gateway share.
pub mod Origin
pub mod Selection
pub mod Names
