-- ===== src/Participants.antt =====
-- app/services/participant_policy.py and app/services/permissions.py
pub mod Policy
pub mod Permissions
pub mod Laws
pub mod Matrix
