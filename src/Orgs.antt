-- ===== src/Orgs.antt =====
-- Organizations: roles, invitations and the tasks around an org's end.
pub mod Roles
pub mod Slugs
pub mod Deletion
pub mod Creation
pub mod Invitations
pub mod Access
pub mod Invites
pub mod Cancellation
