-- ===== src/Admission.antt =====
-- apps/admission-webhook.
pub mod Examples
pub mod Policy
pub mod Webhook
pub mod Main
