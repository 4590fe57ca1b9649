-- ===== src/Webhook.antt =====
-- The webhook of the Milvus resource: apis/milvus.io/v1beta1/milvus_webhook.go.
pub mod Defaults
