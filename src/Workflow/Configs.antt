-- ===== src/Workflow/Configs.antt =====
-- The workflow graphs that are deployed.
pub mod PodLifecycle
pub mod Ratecon
pub mod DriverAssignment
pub mod LoadTendering
pub mod AppointmentScheduling
