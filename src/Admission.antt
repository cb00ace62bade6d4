-- ===== src/Admission.antt =====
-- packages/db/src/index.ts: `MemoryAdmissionStore`. A method takes the store and returns the new one
-- beside its result or the exception that it throws. What `randomUUID` and the clock return are
-- arguments; no method waits in the middle, so each is one step.
mod Records
mod Steps
mod Entering
mod Managing
pub mod Members
pub mod Access
pub mod Audits
pub mod Entry
pub mod Owners
pub mod Trace
pub mod Assign
pub mod Invariant
pub use Records.*
unfoldable pub use Records.{new_store}
pub use Steps.*
unfoldable pub use Steps.{assert_can_manage, refresh_sessions, audit, find_member, has_other_owner}
pub use Entering.*
unfoldable pub use Entering.{
  session_for_member, readmit, role_for_new, admit_new, admit, is_expired, get_session,
}
pub use Managing.*
unfoldable pub use Managing.{
  create_invitation, revoke_invitation, change_role, assign_member_role, record_log_access,
}
